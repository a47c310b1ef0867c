-- ===== src/Ledger/Sums.antt =====
-- apps/api/src/authorization/in-memory-repository.ts: the sums over a ledger with one more entry.
use waysafe.Prelude.{
  ℕ, ◌≡◌, refl, inl, inr, Bool, true, List, [], ◌∷◌, ◌++◌, Text, text_eq, text_eq_iff, filter,
  Bool-cases,
}
use waysafe.Prelude.Int.{ℤ, pos, ◌+ℤ◌, ◌-ℤ◌}
use waysafe.Time.Keys.{WindowKeys}
use waysafe.Engine.Rollup.{LedgerEntryType}
use waysafe.Ledger.{LedgerEntryRow, Repository, entries_of}
use waysafe.Ledger.Maps.{get-set}
use waysafe.Ledger.Operations.{
  add_up, take_down, is_for, is_hold_of, is_capture, is_credit_type, already_credited,
  captured_amount, new_entry, push_entry, with_entries,
}

pub filter-append :
    (p : LedgerEntryRow → Bool) (xs ys : List LedgerEntryRow)
    → filter p (xs ++ ys) ≡ filter p xs ++ filter p ys
filter-append p [] ys = refl
filter-append p (x ∷ xs) ys = elim (Bool-cases (p x)) [
  | inl e ↦ rw (e, filter-append p xs ys) refl
  | inr e ↦ rw (e, filter-append p xs ys) refl
]

pub add_up-append :
    (z : ℤ) (xs ys : List LedgerEntryRow) → add_up z (xs ++ ys) ≡ add_up (add_up z xs) ys
unfolding add_up
add_up-append z [] ys = refl
add_up-append z (x ∷ xs) ys = add_up-append (z +ℤ x.amount) xs ys

take_down-append :
    (z : ℤ) (xs ys : List LedgerEntryRow) → take_down z (xs ++ ys) ≡ take_down (take_down z xs) ys
unfolding take_down
take_down-append z [] ys = refl
take_down-append z (x ∷ xs) ys = take_down-append (z -ℤ x.amount) xs ys

pub text_eq_same : (k : Text) → text_eq k k ≡ true
text_eq_same k = (text_eq_iff k k).1 refl

-- The ledger that was set is the one that is read.
pub entries_of-with_entries :
    (m : Text) (es : List LedgerEntryRow) (s : Repository) → entries_of (with_entries m es s) m ≡ es
entries_of-with_entries m es s = rw (get-set m es s.ledger_by_mandate) refl

-- What the hold of an authorization comes to.
abbrev pub hold_amount : Text → List LedgerEntryRow → ℤ
hold_amount id es = add_up (pos 0) (filter (is_hold_of id) es)

module _ (m id : Text) (t : LedgerEntryType) (z : ℤ) (keys : WindowKeys) (now : ℕ)
    (es : List LedgerEntryRow) where
  abbrev entry : LedgerEntryRow
  entry = new_entry m id t z keys now

  -- Each sum with an entry of the authorization pushed: the entry counts if its type does.
  pub credited-push :
      already_credited id (push_entry m id t z keys now es)
      ≡ take_down (already_credited id es) (filter (λ x. is_credit_type x.type) (entry ∷ []))
  unfolding already_credited
  credited-push =
      let old = filter (is_for id) es in
      rw (filter-append (is_for id) es (entry ∷ []), text_eq_same id)
        (rw (filter-append (λ x. is_credit_type x.type) old (entry ∷ [])) (
          take_down-append (pos 0) (filter (λ x. is_credit_type x.type) old)
            (filter (λ x. is_credit_type x.type) (entry ∷ []))))

  pub captured-push :
      captured_amount id (push_entry m id t z keys now es)
      ≡ add_up (captured_amount id es) (filter (λ x. is_capture x.type) (entry ∷ []))
  unfolding captured_amount
  captured-push =
      let old = filter (is_for id) es in
      rw (filter-append (is_for id) es (entry ∷ []), text_eq_same id)
        (rw (filter-append (λ x. is_capture x.type) old (entry ∷ [])) (
          add_up-append (pos 0) (filter (λ x. is_capture x.type) old)
            (filter (λ x. is_capture x.type) (entry ∷ []))))

  pub hold-push :
      hold_amount id (push_entry m id t z keys now es)
      ≡ add_up (hold_amount id es) (filter (is_hold_of id) (entry ∷ []))
  hold-push =
      rw (filter-append (is_hold_of id) es (entry ∷ []))
        (add_up-append (pos 0) (filter (is_hold_of id) es) (filter (is_hold_of id) (entry ∷ [])))

module _ (m id : Text) (z : ℤ) (keys : WindowKeys) (now : ℕ) (es : List LedgerEntryRow) where
  pub credited-credit :
      already_credited id (push_entry m id LedgerEntryType.credit z keys now es)
      ≡ already_credited id es -ℤ z
  unfolding take_down
  credited-credit = credited-push m id LedgerEntryType.credit z keys now es

  pub captured-credit :
      captured_amount id (push_entry m id LedgerEntryType.credit z keys now es)
      ≡ captured_amount id es
  unfolding add_up
  captured-credit = captured-push m id LedgerEntryType.credit z keys now es

  pub captured-release :
      captured_amount id (push_entry m id LedgerEntryType.release z keys now es)
      ≡ captured_amount id es
  unfolding add_up
  captured-release = captured-push m id LedgerEntryType.release z keys now es

  pub captured-capture :
      captured_amount id (push_entry m id LedgerEntryType.capture z keys now es)
      ≡ captured_amount id es +ℤ z
  unfolding add_up
  captured-capture = captured-push m id LedgerEntryType.capture z keys now es

  pub hold-release :
      hold_amount id (push_entry m id LedgerEntryType.release z keys now es)
      ≡ hold_amount id es +ℤ z
  unfolding add_up
  hold-release = rw (text_eq_same id) at (hold-push m id LedgerEntryType.release z keys now es)

  pub hold-reservation :
      hold_amount id (push_entry m id LedgerEntryType.reservation z keys now es)
      ≡ hold_amount id es +ℤ z
  unfolding add_up
  hold-reservation =
      rw (text_eq_same id) at (hold-push m id LedgerEntryType.reservation z keys now es)

  pub hold-capture :
      hold_amount id (push_entry m id LedgerEntryType.capture z keys now es) ≡ hold_amount id es
  unfolding add_up
  hold-capture = rw (text_eq_same id) at (hold-push m id LedgerEntryType.capture z keys now es)
