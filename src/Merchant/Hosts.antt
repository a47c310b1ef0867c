-- ===== src/Merchant/Hosts.antt =====
-- packages/core/src/merchant.ts: which hosts a static directory vouches for.
use waysafe.Prelude.{
  ◌≡◌, refl, ◌≢◌, inl, inr, false, Option, none, some, List, [], ◌∷◌, Text, All, Any, All-map,
  Bool-cases, Option-cases, text_eq, text_eq_iff,
}
use waysafe.Merchant.Types.{MerchantDirectoryEntry}
use waysafe.Merchant.Domain.{normalize_domain}
use waysafe.Merchant.Directory.{
  Hosts, lookup_host, host_list, host_bindings, is_true, entry_bindings, set_all, by_host,
  suffix_roots, find_suffix, first_hit, create_static_directory,
}

-- The entry's own text lists the host: its domain normalises, and the host is the normal form of the
-- domain or of one of the additional hosts.
abbrev pub ListsHost : Text → MerchantDirectoryEntry → Type 0
ListsHost n e =
    (normalize_domain e.domain ≢ none)
    × Any (λ h. normalize_domain h ≡ some n) (e.domain ∷ host_list e.hosts)

-- A binding of a host list is one of its normal forms.
host_bindings-All :
    (P : Text → Type 0) (e : MerchantDirectoryEntry) (hs : List Text)
    → ((n : Text) → Any (λ h. normalize_domain h ≡ some n) hs → P n)
    → All (λ b. P b.0) (host_bindings e hs)
unfolding host_bindings
host_bindings-All P e [] k = tt
host_bindings-All P e (h ∷ hs) k =
    let rest = host_bindings-All P e hs (λ n a. k n (inr a)) in
    elim (Option-cases (normalize_domain h)) [
      | inl q ↦ rw (q, host_bindings) rest
      | inr (n, q) ↦ rw (q, host_bindings) (k n (inl q), rest)
    ]

entry_bindings-All :
    (P : Text → Type 0) (e : MerchantDirectoryEntry)
    → ((n : Text) → ListsHost n e → P n)
    → All (λ b. P b.0) (entry_bindings e)
unfolding entry_bindings
entry_bindings-All P e k = elim (Option-cases (normalize_domain e.domain)) [
  | inl q ↦ rw (q, entry_bindings) tt
  | inr (n, q) ↦
      let good : normalize_domain e.domain ≢ none = (λ z. cc) in
      let first : P n = k n (good, inl q) in
      let rest =
        host_bindings-All P (record e { domain = n }) (host_list e.hosts)
          (λ m a. k m (good, inr a)) in
      rw (q, entry_bindings) (first, rest)
]

first_hit-none :
    (o : Option MerchantDirectoryEntry) {e : MerchantDirectoryEntry}
    → first_hit o none ≡ some e
    → o ≡ some e
first_hit-none none h = h
first_hit-none (some x) h = h

module _ (P : Text → Type 0) where
  set_all-All :
      (bs m : Hosts) → All (λ b. P b.0) bs → All (λ b. P b.0) m → All (λ b. P b.0) (set_all bs m)
  unfolding set_all
  set_all-All [] m h k = k
  set_all-All (b ∷ bs) m h k = set_all-All bs (b ∷ m) h.1 (h.0, k)

  by_host-All :
      (es : List MerchantDirectoryEntry) (m : Hosts)
      → All (λ e. (n : Text) → ListsHost n e → P n) es
      → All (λ b. P b.0) m
      → All (λ b. P b.0) (by_host es m)
  unfolding by_host
  by_host-All [] m h k = k
  by_host-All (e ∷ es) m h k =
      by_host-All es (set_all (entry_bindings e) m) h.1
        (set_all-All (entry_bindings e) m (entry_bindings-All P e h.0) k)

  lookup_host-All :
      (n : Text) (m : Hosts) {e : MerchantDirectoryEntry}
      → All (λ b. P b.0) m
      → lookup_host n m ≡ some e
      → P n
  unfolding lookup_host
  lookup_host-All n [] h q = cc
  lookup_host-All n ((k, d) ∷ m) h q = elim (Bool-cases (text_eq k n)) [
    | inl e ↦ rw ((text_eq_iff k n).0 e) at h.0
    | inr e ↦ lookup_host-All n m h.1 (rw e at q)
  ]

-- With no entry that opts in to its whole zone there are no suffix rules.
no_roots :
    (es : List MerchantDirectoryEntry)
    → All (λ e. is_true e.include_subdomains ≡ false) es
    → suffix_roots es ≡ []
unfolding suffix_roots
no_roots [] h = refl
no_roots (e ∷ es) h = rw h.0 (no_roots es h.1)

self_listed :
    (es : List MerchantDirectoryEntry)
    → All (λ e. (n : Text) → ListsHost n e → Any (ListsHost n) es) es
self_listed [] = tt
self_listed (e ∷ es) = ((λ n h. inl h), All-map (λ e' h n k. inr (h n k)) es (self_listed es))

-- A hit of a directory in which no entry includes its subdomains is exact: the normal form of the
-- asked domain is written down, as the domain or a host of some entry.
pub directory_exact :
    (es : List MerchantDirectoryEntry) (d : Text) (e : MerchantDirectoryEntry)
    → All (λ x. is_true x.include_subdomains ≡ false) es
    → create_static_directory es d ≡ some e
    → (n : Text) × (normalize_domain d ≡ some n) × Any (ListsHost n) es
unfolding create_static_directory find_suffix
directory_exact es d e h q = elim (Option-cases (normalize_domain d)) [
  | inl k ↦ let bad = rw (k, create_static_directory) at q in cc
  | inr (n, k) ↦
      let hit = rw (no_roots es h) at (rw (k, create_static_directory) at q) in
      let hosts = by_host-All (λ m. Any (ListsHost m) es) es [] (self_listed es) tt in
      (
        n,
        k,
        lookup_host-All (λ m. Any (ListsHost m) es) n (by_host es []) hosts
            (first_hit-none (lookup_host n (by_host es [])) hit),
      )
]
