-- ===== src/Ledger/Maps.antt =====
-- The maps of apps/api/src/authorization/in-memory-repository.ts, in their order of insertion.
use waysafe.Prelude.{
  ◌≡◌, refl, inl, inr, false, Option, none, some, List, [], ◌∷◌, Text, if◌then◌else◌, text_eq,
  text_eq_iff, Bool-cases,
}

abbrev pub Map : Type 0 → Type 0
Map A = List (Text × A)

module _ {A : Type 0} where
  -- `m.get(k)`
  unfoldable pub get : Text → Map A → Option A
  get k [] = none
  get k ((key, a) ∷ m) = if text_eq key k then some a else get k m

  -- `m.set(k, a)`
  unfoldable pub set : Text → A → Map A → Map A
  set k a [] = (k, a) ∷ []
  set k a ((key, b) ∷ m) = if text_eq key k then (key, a) ∷ m else (key, b) ∷ set k a m

  pub get-set : (k : Text) (a : A) (m : Map A) → get k (set k a m) ≡ some a
  unfolding get set
  get-set k a [] = rw ((text_eq_iff k k).1 refl) refl
  get-set k a ((key, b) ∷ m) = elim (Bool-cases (text_eq key k)) [
    | inl e ↦ rw e (rw e refl)
    | inr e ↦ rw e (rw e (get-set k a m))
  ]

  pub get-set_other :
      (k k' : Text) (a : A) (m : Map A) → text_eq k' k ≡ false → get k (set k' a m) ≡ get k m
  unfolding get set
  get-set_other k k' a [] h = rw h refl
  get-set_other k k' a ((key, b) ∷ m) h = elim (Bool-cases (text_eq key k')) [
    | inl e ↦ let q = (text_eq_iff key k').0 e in rw (e, q, h) refl
    | inr e ↦ elim (Bool-cases (text_eq key k)) [
      | inl f ↦ rw (e, f) refl
      | inr f ↦ rw (e, f) (get-set_other k k' a m h)
    ]
  ]
