-- ===== src/Merchant/Directory.antt =====
-- packages/core/src/merchant.ts: `createStaticDirectory`.
use waysafe.Prelude.{
  Bool, true, false, Option, none, some, List, [], ◌∷◌, ◌++◌, Text, if◌then◌else◌, text_eq,
}
use waysafe.Merchant.Types.{MerchantDirectory, MerchantDirectoryEntry}
use waysafe.Merchant.Domain.{normalize_domain, domain_matches}

-- Hosts with the entry that speaks for them: `byHost`, the newest binding first, and `suffixRoots`.
abbrev pub Hosts : Type 0
Hosts = List (Text × MerchantDirectoryEntry)

-- `byHost.get(k)`
unfoldable pub lookup_host : Text → Hosts → Option MerchantDirectoryEntry
lookup_host k [] = none
lookup_host k ((h, e) ∷ m) = if text_eq h k then some e else lookup_host k m

abbrev pub host_list : Option (List Text) → List Text
host_list none = []
host_list (some hs) = hs

-- The entry under each of the hosts that normalise.
unfoldable pub host_bindings : MerchantDirectoryEntry → List Text → Hosts
host_bindings e [] = []
host_bindings e (h ∷ hs) = elim (normalize_domain h) [
  | none ↦ host_bindings e hs
  | some n ↦ (n, e) ∷ host_bindings e hs
]

abbrev pub is_true : Option Bool → Bool
is_true (some true) = true
is_true _ = false

-- All exact hosts of an entry whose domain normalises, in the order in which they are set.
unfoldable pub entry_bindings : MerchantDirectoryEntry → Hosts
unfolding host_bindings
entry_bindings e = elim (normalize_domain e.domain) [
  | none ↦ []
  | some n ↦
      let resolved : MerchantDirectoryEntry = record e { domain = n } in
      (n, resolved) ∷ host_bindings resolved (host_list e.hosts)
]

-- Calls of `byHost.set`; the newest binding stands first.
unfoldable pub set_all : Hosts → Hosts → Hosts
set_all [] m = m
set_all (b ∷ bs) m = set_all bs (b ∷ m)

-- `byHost` after the loop: of several bindings of one host the last one counts.
unfoldable pub by_host : List MerchantDirectoryEntry → Hosts → Hosts
unfolding entry_bindings set_all
by_host [] acc = acc
by_host (e ∷ es) acc = by_host es (set_all (entry_bindings e) acc)

-- `suffixRoots`: the same hosts, of the entries that opted in.
unfoldable pub suffix_roots : List MerchantDirectoryEntry → Hosts
unfolding entry_bindings
suffix_roots [] = []
suffix_roots (e ∷ es) =
    (if is_true e.include_subdomains then entry_bindings e else []) ++ suffix_roots es

unfoldable pub find_suffix : Text → Hosts → Option MerchantDirectoryEntry
find_suffix d [] = none
find_suffix d ((root, e) ∷ m) = if domain_matches root d then some e else find_suffix d m

abbrev pub first_hit :
    Option MerchantDirectoryEntry → Option MerchantDirectoryEntry → Option MerchantDirectoryEntry
first_hit (some e) other = some e
first_hit none other = other

unfoldable pub create_static_directory : List MerchantDirectoryEntry → MerchantDirectory
unfolding by_host suffix_roots lookup_host find_suffix
create_static_directory entries d = elim (normalize_domain d) [
  | none ↦ none
  | some n ↦ first_hit (lookup_host n (by_host entries [])) (find_suffix n (suffix_roots entries))
]
