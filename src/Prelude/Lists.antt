-- ===== src/Prelude/Lists.antt =====
-- Lists with Boolean tests: the array methods that the source uses, and predicates by recursion.
use Prim.Native.Nat.{ℕ, suc}
use mathlib.Core.Path.{◌≡◌, refl}
use mathlib.Core.Logic.{◌↔◌, ◌⊎◌, inl, inr}
use mathlib.Core.Bool.{Bool, true, false, ◌&&◌, ◌||◌}
use mathlib.Core.Option.{Option, none, some}
use mathlib.Core.List.{List, [], ◌∷◌, ◌++◌}
use native.Mathlib.Omega.{arith}
use waysafe.Prelude.Tests.{if◌then◌else◌, Bool-cases}

module _ {ℓ} {A : Type ℓ} where
  abbrev pub length : List A → ℕ
  length [] = 0
  length (x ∷ xs) = suc (length xs)

  -- `xs.length === 0`
  abbrev pub is_empty : List A → Bool
  is_empty [] = true
  is_empty (x ∷ xs) = false

  -- `xs.filter(p)`
  abbrev pub filter : (A → Bool) → List A → List A
  filter p [] = []
  filter p (x ∷ xs) = if p x then x ∷ filter p xs else filter p xs

  -- `xs.find(p)`
  abbrev pub find : (A → Bool) → List A → Option A
  find p [] = none
  find p (x ∷ xs) = if p x then some x else find p xs

  -- `xs.some(p)`
  abbrev pub any : (A → Bool) → List A → Bool
  any p [] = false
  any p (x ∷ xs) = p x || any p xs

  -- `xs.every(p)`
  abbrev pub all : (A → Bool) → List A → Bool
  all p [] = true
  all p (x ∷ xs) = p x && all p xs

module _ {ℓ κ} {A : Type ℓ} (P : A → Type κ) where
  -- Every element has the property.
  abbrev pub All : List A → Type κ
  All [] = Unit
  All (x ∷ xs) = P x × All xs

module _ {ℓ} {A : Type ℓ} (P : A → Type 0) where
  -- Some element has the property.
  abbrev pub Any : List A → Type 0
  Any [] = ⊥
  Any (x ∷ xs) = P x ⊎ Any xs

module _ {ℓ} {A : Type ℓ} (P : A → Type 0) where
  pub All-append : (xs ys : List A) → All P xs → All P ys → All P (xs ++ ys)
  All-append [] ys hx hy = hy
  All-append (x ∷ xs) ys hx hy = (hx.0, All-append xs ys hx.1 hy)

  pub All-append_iff : (xs ys : List A) → All P (xs ++ ys) ↔ (All P xs × All P ys)
  All-append_iff [] ys = ((λ h. (tt, h)), λ h. h.1)
  All-append_iff (x ∷ xs) ys =
      let ih = All-append_iff xs ys in
      ((λ h. ((h.0, (ih.0 h.1).0), (ih.0 h.1).1)), λ h. (h.0.0, ih.1 (h.0.1, h.1)))

  pub Any-append_left : (xs ys : List A) → Any P xs → Any P (xs ++ ys)
  Any-append_left (x ∷ xs) ys (inl h) = inl h
  Any-append_left (x ∷ xs) ys (inr h) = inr (Any-append_left xs ys h)
  Any-append_left [] ys h = absurd h

  pub Any-append_right : (xs ys : List A) → Any P ys → Any P (xs ++ ys)
  Any-append_right [] ys h = h
  Any-append_right (x ∷ xs) ys h = inr (Any-append_right xs ys h)

  pub Any-append_cases : (xs ys : List A) → Any P (xs ++ ys) → Any P xs ⊎ Any P ys
  Any-append_cases [] ys h = inr h
  Any-append_cases (x ∷ xs) ys (inl h) = inl (inl h)
  Any-append_cases (x ∷ xs) ys (inr h) = elim (Any-append_cases xs ys h) [
    | inl a ↦ inl (inr a)
    | inr b ↦ inr b
  ]

module _ {ℓ} {A : Type ℓ} where
  pub All-map : {P Q : A → Type 0} → ((x : A) → P x → Q x) → (xs : List A) → All P xs → All Q xs
  All-map f [] h = tt
  All-map f (x ∷ xs) h = (f x h.0, All-map f xs h.1)

  pub Any-map : {P Q : A → Type 0} → ((x : A) → P x → Q x) → (xs : List A) → Any P xs → Any Q xs
  Any-map f [] h = absurd h
  Any-map f (x ∷ xs) (inl h) = inl (f x h)
  Any-map f (x ∷ xs) (inr h) = inr (Any-map f xs h)

  -- An element with one property, in a list where all have another, has both.
  pub Any-All : (P Q : A → Type 0) (xs : List A) → Any P xs → All Q xs → Any (λ x. P x × Q x) xs
  Any-All P Q [] h k = absurd h
  Any-All P Q (x ∷ xs) (inl h) k = inl (h, k.0)
  Any-All P Q (x ∷ xs) (inr h) k = inr (Any-All P Q xs h k.1)

  pub append-eq-nil : (xs ys : List A) → xs ++ ys ≡ [] → (xs ≡ []) × (ys ≡ [])
  append-eq-nil [] ys h = (refl, h)
  append-eq-nil (x ∷ xs) ys h = cc

  pub is_empty_iff : (xs : List A) → (is_empty xs ≡ true) ↔ (xs ≡ [])
  is_empty_iff [] = ground arith
  is_empty_iff (x ∷ xs) = ((λ h. cc), λ h. cc)

module _ {A : Type 0} (p : A → Bool) where
  pub All-of_all : (xs : List A) → all p xs ≡ true → All (λ x. p x ≡ true) xs
  All-of_all [] h = tt
  All-of_all (x ∷ xs) h = (ground arith, All-of_all xs (ground arith))

  pub all_of_All : (xs : List A) → All (λ x. p x ≡ true) xs → all p xs ≡ true
  all_of_All [] h = refl
  all_of_All (x ∷ xs) h = ground (arith, all_of_All xs h.1)

  pub Any-of_any : (xs : List A) → any p xs ≡ true → Any (λ x. p x ≡ true) xs
  Any-of_any [] h = cc
  Any-of_any (x ∷ xs) h = elim (Bool-cases (p x)) [
    | inl e ↦ inl e
    | inr e ↦ inr (Any-of_any xs (rw e at h))
  ]

  pub any_of_Any : (xs : List A) → Any (λ x. p x ≡ true) xs → any p xs ≡ true
  any_of_Any [] h = absurd h
  any_of_Any (x ∷ xs) (inl h) = rw h
  any_of_Any (x ∷ xs) (inr h) = ground (arith, any_of_Any xs h)

  -- What `find` returns passes the test and is in the list.
  pub find-some : (xs : List A) (a : A) → find p xs ≡ some a → (p a ≡ true) × Any (λ x. x ≡ a) xs
  find-some [] a h = cc
  find-some (x ∷ xs) a h = elim (Bool-cases (p x)) [
    | inl e ↦ let q : x ≡ a = ground arith in (rw (← q) e, inl q)
    | inr e ↦ let (t, m) = find-some xs a (rw e at h) in (t, inr m)
  ]

  pub find-none : (xs : List A) → find p xs ≡ none → All (λ x. p x ≡ false) xs
  find-none [] h = tt
  find-none (x ∷ xs) h = elim (Bool-cases (p x)) [
    | inl e ↦ absurd (ground arith)
    | inr e ↦ (e, find-none xs (rw e at h))
  ]

  pub filter-eq-nil : (xs : List A) → filter p xs ≡ [] → All (λ x. p x ≡ false) xs
  filter-eq-nil [] h = tt
  filter-eq-nil (x ∷ xs) h = elim (Bool-cases (p x)) [
    | inl e ↦ absurd (ground arith)
    | inr e ↦ (e, filter-eq-nil xs (rw e at h))
  ]

  pub filter-nil_of_All : (xs : List A) → All (λ x. p x ≡ false) xs → filter p xs ≡ []
  filter-nil_of_All [] h = refl
  filter-nil_of_All (x ∷ xs) h = rw h.0 (filter-nil_of_All xs h.1)

  pub filter-All : (xs : List A) → All (λ x. p x ≡ true) (filter p xs)
  filter-All [] = tt
  filter-All (x ∷ xs) = elim (Bool-cases (p x)) [
    | inl e ↦ rw e (e, filter-All xs)
    | inr e ↦ rw e (filter-All xs)
  ]

  pub filter-ne-nil : (xs : List A) → Any (λ x. p x ≡ true) xs → is_empty (filter p xs) ≡ false
  filter-ne-nil [] h = absurd h
  filter-ne-nil (x ∷ xs) (inl h) = rw h
  filter-ne-nil (x ∷ xs) (inr h) = elim (Bool-cases (p x)) [
    | inl e ↦ rw e
    | inr e ↦ rw e (filter-ne-nil xs h)
  ]
