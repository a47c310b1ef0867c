-- ===== src/Merchant/Domain.antt =====
-- packages/core/src/merchant.ts: `normalizeDomain` and `domainMatches`, character by character.
-- Each regular expression is a small recursive function; the replaced prefix of the first one is
-- found without backtracking, since its character class has no `:`.
pub mod Laws
use waysafe.Prelude.{
  ℕ, Bool, true, false, ◌&&◌, ◌||◌, not, Option, none, some, List, [], ◌∷◌, ◌++◌, map, Text, txt,
  leb, ◌==◌, if◌then◌else◌, text_eq, to_lower_case, ends_with, is_empty,
}

-- Characters that `trim()` drops, within ASCII.
pub is_space : ℕ → Bool
is_space c = (leb 9 c && leb c 13) || c == 32

trim_start : Text → Text
trim_start [] = []
trim_start (c ∷ s) = if is_space c then trim_start s else c ∷ s

all_space : Text → Bool
all_space [] = true
all_space (c ∷ s) = is_space c && all_space s

trim_end : Text → Text
trim_end [] = []
trim_end (c ∷ s) = if all_space (c ∷ s) then [] else c ∷ trim_end s

pub trim : Text → Text
unfolding is_space all_space trim_start trim_end
trim s = trim_end (trim_start s)

pub is_alpha : ℕ → Bool
is_alpha c = leb b'a' c && leb c b'z'

-- The class `[a-z0-9-]`.
pub is_label_char : ℕ → Bool
unfolding is_alpha
is_label_char c = is_alpha c || (leb b'0' c && leb c b'9') || c == b'-'

-- The class `[a-z0-9+.-]`.
is_scheme_char : ℕ → Bool
unfolding is_label_char
is_scheme_char c = is_label_char c || c == b'+' || c == b'.'

-- `t` without its prefix `p`, if it has it.
unfoldable pub strip_prefix : Text → Text → Option Text
strip_prefix [] t = some t
strip_prefix (x ∷ p) [] = none
strip_prefix (x ∷ p) (y ∷ t) = if x == y then strip_prefix p t else none

-- The rest after `[a-z0-9+.-]*://`.
after_scheme : Text → Option Text
after_scheme [] = none
after_scheme (c ∷ s) = if is_scheme_char c then after_scheme s else strip_prefix (txt "://") (c ∷ s)

or_whole : Text → Option Text → Text
or_whole s none = s
or_whole s (some r) = r

-- `replace(/^[a-z][a-z0-9+.-]*:\/\//, "")`
pub strip_scheme : Text → Text
unfolding is_alpha is_scheme_char strip_prefix after_scheme or_whole
strip_scheme [] = []
strip_scheme (c ∷ s) = if is_alpha c then or_whole (c ∷ s) (after_scheme s) else c ∷ s

-- `split(sep)[0]`
pub before : ℕ → Text → Text
before sep [] = []
before sep (c ∷ s) = if c == sep then [] else c ∷ before sep s

last_part : ℕ → Text → Text → Text
last_part sep cur [] = cur
last_part sep cur (c ∷ s) = last_part sep (if c == sep then [] else cur ++ c ∷ []) s

-- `split(sep).pop()`
pub after_last : ℕ → Text → Text
unfolding last_part
after_last sep s = last_part sep [] s

-- `replace(/^www\./, "")`
pub strip_www : Text → Text
unfolding strip_prefix or_whole
strip_www s = or_whole s (strip_prefix (txt "www.") s)

-- `replace(/\.$/, "")`
pub strip_dot : Text → Text
strip_dot [] = []
strip_dot (c ∷ s) = if c == b'.' && is_empty s then [] else c ∷ strip_dot s

-- The rest of `/^[a-z0-9-]+(\.[a-z0-9-]+)+$/` inside a label; `dotted` says that a dot was read,
-- `filled` that the present label has a character.
domain_rest : Bool → Bool → Text → Bool
domain_rest dotted filled [] = dotted && filled
domain_rest dotted filled (c ∷ s) =
    if c == b'.'
    then filled && domain_rest true false s
    else is_label_char c && domain_rest dotted true s

-- `/^[a-z0-9-]+(\.[a-z0-9-]+)+$/.test(s)`
unfoldable pub is_domain : Text → Bool
unfolding domain_rest is_label_char
is_domain s = domain_rest false false s

-- The replacements and splits, in their order, up to the final test.
unfoldable pub cleaned : Text → Text
unfolding trim strip_scheme before after_last strip_www strip_dot
cleaned input =
    let lowered = to_lower_case (trim input) in
    let path = before b'?' (before b'/' (strip_scheme lowered)) in
    let host = before b':' (after_last b'@' path) in strip_dot (strip_www host)

unfoldable pub normalize_domain : Text → Option Text
unfolding cleaned is_domain
normalize_domain input =
    if is_empty (to_lower_case (trim input))
    then none
    else if is_domain (cleaned input)
    then some (cleaned input)
    else none

-- True if `candidate` is the same domain or a subdomain of `ref`.
domains_match : Option Text → Option Text → Bool
domains_match none b = false
domains_match (some a) none = false
domains_match (some a) (some b) = text_eq b a || ends_with b (b'.' ∷ a)

unfoldable pub domain_matches : Text → Text → Bool
unfolding normalize_domain domains_match
domain_matches ref candidate = domains_match (normalize_domain ref) (normalize_domain candidate)
