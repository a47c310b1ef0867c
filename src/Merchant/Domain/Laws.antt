-- ===== src/Merchant/Domain/Laws.antt =====
-- packages/core/src/merchant.ts: what `normalizeDomain` does to a host name.
use waysafe.Prelude.{
  ℕ, ◌≡◌, refl, ◌⊎◌, inl, inr, Bool, true, false, none, some, [], ◌∷◌, ◌++◌, Text, txt, arith,
  Bool-cases, All, ◌==◌, to_lower_case, lower_char, is_empty, ap, sym, ◌∙◌, and_true, append-nil,
  append_assoc,
}
use waysafe.Merchant.Domain.{
  is_space, is_alpha, is_label_char, trim_start, all_space, trim_end, trim, strip_scheme,
  after_scheme, or_whole, strip_prefix, is_scheme_char, before, last_part, after_last, strip_www,
  strip_dot, domain_rest, is_domain, cleaned, normalize_domain,
}

-- A character of a normalised domain: a label character or a dot.
abbrev pub IsDomainChar : ℕ → Type 0
IsDomainChar c = (is_label_char c ≡ true) ⊎ (c ≡ b'.')

domain_chars :
    (dotted filled : Bool) (s : Text) → domain_rest dotted filled s ≡ true → All IsDomainChar s
unfolding domain_rest
domain_chars d f [] h = tt
domain_chars d f (c ∷ s) h = elim (Bool-cases (c == b'.')) [
  | inl e ↦ (inr (ground arith), domain_chars true false s (and_true {a = f} (rw e at h)).1)
  | inr e ↦ (
    inl (and_true {a = is_label_char c} (rw e at h)).0,
    domain_chars d true s (and_true {a = is_label_char c} (rw e at h)).1,
  )
]

-- What such a character is not.
module _ (c : ℕ) (h : IsDomainChar c) where
  no_space : is_space c ≡ false
  unfolding is_space is_label_char
  no_space = ground arith

  same_lower : lower_char c ≡ c
  unfolding is_label_char
  same_lower = ground arith

  scheme_char : is_scheme_char c ≡ true
  unfolding is_scheme_char
  scheme_char = elim h [ inl e ↦ rw e refl | inr e ↦ ground arith ]

  not_slash : (c == b'/') ≡ false
  unfolding is_label_char
  not_slash = ground arith

  not_query : (c == b'?') ≡ false
  unfolding is_label_char
  not_query = ground arith

  not_at : (c == b'@') ≡ false
  unfolding is_label_char
  not_at = ground arith

  not_colon : (c == b':') ≡ false
  unfolding is_label_char
  not_colon = ground arith

lower-domain : (s : Text) → All IsDomainChar s → to_lower_case s ≡ s
lower-domain [] h = refl
lower-domain (c ∷ s) h = let e = same_lower c h.0 in let t = lower-domain s h.1 in cc

trim_end-domain : (s : Text) → All IsDomainChar s → trim_end s ≡ s
unfolding trim_end all_space
trim_end-domain [] h = refl
trim_end-domain (c ∷ s) h = let e = no_space c h.0 in let t = trim_end-domain s h.1 in ground arith

trim-domain : (s : Text) → All IsDomainChar s → trim s ≡ s
unfolding trim trim_start
trim-domain [] h = trim_end-domain [] h
trim-domain (c ∷ s) h = rw (no_space c h.0) (trim_end-domain (c ∷ s) h)

after_scheme-domain : (s : Text) → All IsDomainChar s → after_scheme s ≡ none
unfolding after_scheme
after_scheme-domain [] h = refl
after_scheme-domain (c ∷ s) h = rw (scheme_char c h.0) (after_scheme-domain s h.1)

strip_scheme-domain : (s : Text) → All IsDomainChar s → strip_scheme s ≡ s
unfolding strip_scheme or_whole
strip_scheme-domain [] h = refl
strip_scheme-domain (c ∷ s) h = elim (Bool-cases (is_alpha c)) [
  | inl e ↦ rw e (rw (after_scheme-domain s h.1) refl)
  | inr e ↦ rw e refl
]

before-absent :
    (sep : ℕ)
    → ((c : ℕ) → IsDomainChar c → (c == sep) ≡ false)
    → (s : Text) → All IsDomainChar s
    → before sep s ≡ s
unfolding before
before-absent sep k [] h = refl
before-absent sep k (c ∷ s) h = rw (k c h.0) (ap (◌∷◌ c) (before-absent sep k s h.1))

last_part-domain : (cur s : Text) → All IsDomainChar s → last_part b'@' cur s ≡ cur ++ s
unfolding last_part
last_part-domain cur [] h = sym (append-nil cur)
last_part-domain cur (c ∷ s) h =
    rw (not_at c h.0) (last_part-domain (cur ++ c ∷ []) s h.1 ∙ append_assoc cur (c ∷ []) s)

-- On text of such characters only the prefix "www." and a final dot are removed.
cleaned-domain : (s : Text) → All IsDomainChar s → cleaned s ≡ strip_dot (strip_www s)
unfolding cleaned after_last
cleaned-domain s h = rw (trim-domain s h) (
    rw (lower-domain s h) (
      rw (strip_scheme-domain s h) (
        rw (before-absent b'/' not_slash s h) (
          rw (before-absent b'?' not_query s h)
            (rw (last_part-domain [] s h) (rw (before-absent b':' not_colon s h) refl))))))

-- A text that ends inside a label has no final dot.
strip_dot-domain :
    (dotted filled : Bool) (s : Text) → domain_rest dotted filled s ≡ true → strip_dot s ≡ s
unfolding strip_dot domain_rest
strip_dot-domain d f [] h = refl
strip_dot-domain d f (c ∷ []) h = ground arith
strip_dot-domain d f (c ∷ b ∷ s) h = elim (Bool-cases (c == b'.')) [
  | inl e ↦ rw e (ap (◌∷◌ c) (strip_dot-domain true false (b ∷ s) (and_true {a = f} (rw e at h)).1))
  | inr e ↦
      rw e (
        ap (◌∷◌ c) (strip_dot-domain d true (b ∷ s) (and_true {a = is_label_char c} (rw e at h)).1))
]

normal_chars : (d : Text) → is_domain d ≡ true → All IsDomainChar d
unfolding is_domain
normal_chars d h = domain_chars false false d h

normal_dot : (d : Text) → is_domain d ≡ true → strip_dot d ≡ d
unfolding is_domain
normal_dot d h = strip_dot-domain false false d h

nonempty : (d : Text) → is_domain d ≡ true → is_empty d ≡ false
unfolding is_domain domain_rest
nonempty [] h = cc
nonempty (c ∷ s) h = refl

-- The test and the two results of `normalizeDomain`, on text of domain characters.
normalize-chars :
    (s d : Text)
    → All IsDomainChar s
    → is_empty s ≡ false
    → strip_dot (strip_www s) ≡ d
    → is_domain d ≡ true
    → normalize_domain s ≡ some d
unfolding normalize_domain
normalize-chars s d h full e good =
    let c : cleaned s ≡ d = cleaned-domain s h ∙ e in
    let l : is_empty (to_lower_case (trim s)) ≡ false =
      rw (trim-domain s h) (rw (lower-domain s h) full) in
    rw l (rw c (rw good refl))

-- What `normalizeDomain` returns passes its own test.
pub normalize-is_domain : (s d : Text) → normalize_domain s ≡ some d → is_domain d ≡ true
unfolding normalize_domain
normalize-is_domain s d e = elim (Bool-cases (is_empty (to_lower_case (trim s)))) [
  | inl a ↦ let bad = rw a at e in cc
  | inr a ↦ elim (Bool-cases (is_domain (cleaned s))) [
    | inl b ↦ let same : cleaned s ≡ d = cc (rw (a, b) at e) in rw same at b
    | inr b ↦ let bad = rw (a, b) at e in cc
  ]
]

dotted_mono :
    (dotted filled : Bool) (s : Text)
    → domain_rest dotted filled s ≡ true
    → domain_rest true filled s ≡ true
unfolding domain_rest
dotted_mono d f [] h = ground arith
dotted_mono d f (c ∷ s) h = elim (Bool-cases (c == b'.')) [
  | inl e ↦ rw e (rw e at h)
  | inr e ↦
      let k = and_true {a = is_label_char c} (rw e at h) in
      let ih = dotted_mono d true s k.1 in rw e (rw k.0 ih)
]

www-is_domain : (d : Text) → is_domain d ≡ true → is_domain (txt "www." ++ d) ≡ true
unfolding is_domain domain_rest
www-is_domain d h = dotted_mono false false d h

-- Normalising a result again changes nothing, if the result does not begin with "www.".
pub normalize_idem :
    (s d : Text)
    → normalize_domain s ≡ some d
    → strip_prefix (txt "www.") d ≡ none
    → normalize_domain d ≡ some d
unfolding strip_www or_whole
normalize_idem s d e plain =
    let good = normalize-is_domain s d e in
    normalize-chars d d (normal_chars d good) (nonempty d good) (rw plain (normal_dot d good)) good

-- Every domain is what its "www." host normalises to.
pub normalize-www : (d : Text) → is_domain d ≡ true → normalize_domain (txt "www." ++ d) ≡ some d
unfolding strip_www strip_prefix or_whole is_label_char
normalize-www d h =
    normalize-chars (txt "www." ++ d) d
      (inl refl, (inl refl, (inl refl, (inr refl, normal_chars d h)))) refl (normal_dot d h) h

-- The form is not canonical: for every domain `d`, "www.www.d" normalises to "www.d", which
-- normalises on to `d`.
pub normalize-www_twice :
    (d : Text)
    → is_domain d ≡ true
    → (normalize_domain (txt "www." ++ (txt "www." ++ d)) ≡ some (txt "www." ++ d))
      × (normalize_domain (txt "www." ++ d) ≡ some d)
normalize-www_twice d h = (normalize-www (txt "www." ++ d) (www-is_domain d h), normalize-www d h)
