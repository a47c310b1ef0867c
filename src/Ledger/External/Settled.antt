-- ===== src/Ledger/External/Settled.antt =====
-- apps/api/src/authorization/in-memory-repository.ts: what the settlement and the release of an external
-- authorization leave in the ledger.
use waysafe.Prelude.{
  ℕ, ◌≡◌, refl, ◌⊎◌, inl, inr, true, false, some, List, [], ◌∷◌, Text, text_eq, text_eq_iff, filter,
  Bool-cases, Any, All, append-nil, ◌∙◌, ap, ◌==◌, to_upper_case, arith, sym,
}
use waysafe.Prelude.Int.{ℤ, pos, ◌+ℤ◌, neg, int_laws}
use waysafe.Time.{Formatter}
use waysafe.Time.Keys.{WindowKeys}
use waysafe.Wire.{currency_text}
use waysafe.Engine.Rollup.{LedgerEntryType}
use waysafe.Ledger.{LedgerEntryRow, AuthorizationRow, Repository, Result, entries_of}
use waysafe.Ledger.Operations.{
  is_zero, is_for, is_capture, is_hold_of, captured_amount, new_entry, push_entry,
}
use waysafe.Ledger.Sums.{
  filter-append, hold_amount, hold-release, captured-capture, entries_of-with_entries,
}
use waysafe.Ledger.Refunds.{is_zero-eq}
use waysafe.Ledger.External.{
  SettleExternalInput, SettlementOutcome, external_rows, by_revision, last_row, release_outstanding,
  release_rows, capture_settled, settle_rows, settle_external_authorization, release_named,
  release_external_authorization,
}

sub_self : (a : ℤ) → a +ℤ neg a ≡ pos 0
sub_self a = grind int_laws

add_zero : (a : ℤ) → a ≡ a +ℤ pos 0
add_zero a = grind int_laws

eq_of_test : (n : ℕ) → (n == 0) ≡ true → n ≡ 0
eq_of_test n h = ground arith

-- What holds of every id of the rows holds at every row.
All-rows :
    (P : Text → Type 0) (rows : List AuthorizationRow)
    → ((id : Text) → Any (λ (row : AuthorizationRow). row.id ≡ id) rows → P id)
    → All (λ (row : AuthorizationRow). P row.id) rows
All-rows P [] h = tt
All-rows P (row ∷ rows) h = (h row.id (inl refl), All-rows P rows (λ id m. h id (inr m)))

module _ (m other id : Text) (z : ℤ) (keys : WindowKeys) (now : ℕ) (es : List LedgerEntryRow) where
  -- An entry of another authorization changes no hold.
  hold-push_other :
      (t : LedgerEntryType)
      → text_eq other id ≡ false
      → hold_amount id (push_entry m other t z keys now es) ≡ hold_amount id es
  hold-push_other t h =
      rw (filter-append (is_hold_of id) es (new_entry m other t z keys now ∷ []), h)
        (rw (append-nil (filter (is_hold_of id) es)) refl)

  -- A captured amount is no hold.
  hold-push_capture :
      hold_amount id (push_entry m other LedgerEntryType.capture z keys now es) ≡ hold_amount id es
  hold-push_capture = elim (Bool-cases (text_eq other id)) [
    | inl e ↦
        rw
          (
            filter-append (is_hold_of id) es
                (new_entry m other LedgerEntryType.capture z keys now ∷ []),
            e,
          )
          (rw (append-nil (filter (is_hold_of id) es)) refl)
    | inr e ↦ hold-push_other LedgerEntryType.capture e
  ]

  -- A release captures nothing.
  captured-push_release :
      captured_amount id (push_entry m other LedgerEntryType.release z keys now es)
      ≡ captured_amount id es
  unfolding captured_amount
  captured-push_release =
      let entry = new_entry m other LedgerEntryType.release z keys now in
      let mine = filter (is_for id) es in
      let type_test = λ (x : LedgerEntryRow). is_capture x.type in
      elim (Bool-cases (text_eq other id)) [
        | inl e ↦
            rw (filter-append (is_for id) es (entry ∷ []), e)
              (rw (filter-append type_test mine (entry ∷ []))
                (rw (append-nil (filter type_test mine)) refl))
        | inr e ↦ rw (filter-append (is_for id) es (entry ∷ []), e) (rw (append-nil mine) refl)
      ]

module _ (intl : Formatter) (s : Repository) (m : Text) (now : ℕ) where
  released-zero :
      (row : AuthorizationRow) (es : List LedgerEntryRow)
      → hold_amount row.id (release_outstanding intl s m now row es) ≡ pos 0
  unfolding release_outstanding
  released-zero row es = elim (Bool-cases (is_zero (hold_amount row.id es))) [
    | inl e ↦ rw e (is_zero-eq (hold_amount row.id es) e)
    | inr e ↦ rw e (hold-release m row.id _ _ now es ∙ sub_self (hold_amount row.id es))
  ]

  released-at :
      (id : Text) (row : AuthorizationRow) (es : List LedgerEntryRow)
      → row.id ≡ id
      → hold_amount id (release_outstanding intl s m now row es) ≡ pos 0
  released-at id row es g = rw (sym g) (released-zero row es)

  released-other :
      (id : Text) (row : AuthorizationRow) (es : List LedgerEntryRow)
      → text_eq row.id id ≡ false
      → hold_amount id (release_outstanding intl s m now row es) ≡ hold_amount id es
  unfolding release_outstanding
  released-other id row es h = elim (Bool-cases (is_zero (hold_amount row.id es))) [
    | inl e ↦ rw e refl
    | inr e ↦ rw e (hold-push_other m row.id id _ _ now es LedgerEntryType.release h)
  ]

  released-captured :
      (id : Text) (row : AuthorizationRow) (es : List LedgerEntryRow)
      → captured_amount id (release_outstanding intl s m now row es) ≡ captured_amount id es
  unfolding release_outstanding
  released-captured id row es = elim (Bool-cases (is_zero (hold_amount row.id es))) [
    | inl e ↦ rw e refl
    | inr e ↦ rw e (captured-push_release m row.id id _ _ now es)
  ]

  -- No hold is left by the loop where none was, and none on a row that it passes.
  release_rows-zero :
      (id : Text) (rows : List AuthorizationRow) (es : List LedgerEntryRow) (z : ℤ)
      → (hold_amount id es ≡ pos 0) ⊎ Any (λ (row : AuthorizationRow). row.id ≡ id) rows
      → hold_amount id (release_rows intl s m now rows (es, z)).0 ≡ pos 0
  unfolding release_rows
  release_rows-zero id [] es z (inl h) = h
  release_rows-zero id [] es z (inr h) = elim h [ ]
  release_rows-zero id (row ∷ rows) es z h = elim (Bool-cases (text_eq row.id id)) [
    | inl e ↦
        release_rows-zero id rows _ _ (inl (released-at id row es ((text_eq_iff row.id id).0 e)))
    | inr e ↦ release_rows-zero id rows _ _ (elim h [
      | inl g ↦ inl (released-other id row es e ∙ g)
      | inr (inl g) ↦ inl (released-at id row es g)
      | inr (inr g) ↦ inr g
    ])
  ]

  release_rows-captured :
      (id : Text) (rows : List AuthorizationRow) (es : List LedgerEntryRow) (z : ℤ)
      → captured_amount id (release_rows intl s m now rows (es, z)).0 ≡ captured_amount id es
  unfolding release_rows
  release_rows-captured id [] es z = refl
  release_rows-captured id (row ∷ rows) es z =
      release_rows-captured id rows _ _ ∙ released-captured id row es

  captured-hold :
      (id : Text) (latest : AuthorizationRow) (n : ℕ) (es : List LedgerEntryRow)
      → hold_amount id (capture_settled intl s m now latest n es) ≡ hold_amount id es
  unfolding capture_settled
  captured-hold id latest n es = elim (Bool-cases (n == 0)) [
    | inl e ↦ rw e refl
    | inr e ↦ rw e (hold-push_capture m latest.id id (pos n) _ now es)
  ]

  captured-settled :
      (latest : AuthorizationRow) (n : ℕ) (es : List LedgerEntryRow)
      → captured_amount latest.id (capture_settled intl s m now latest n es)
        ≡ captured_amount latest.id es +ℤ pos n
  unfolding capture_settled
  captured-settled latest n es = elim (Bool-cases (n == 0)) [
    | inl e ↦ rw (e, eq_of_test n e) (add_zero (captured_amount latest.id es))
    | inr e ↦ rw e (captured-capture m latest.id (pos n) _ now es)
  ]

-- The ledger after a settlement: none of the rows holds anything, and what is captured for the latest has grown
-- by the settled figure.
abbrev pub IsClosed :
    (latest : AuthorizationRow)
    → List AuthorizationRow
    → (settled : ℕ) → (before after : List LedgerEntryRow) → Type 0
IsClosed latest rows settled before after =
    All (λ (row : AuthorizationRow). hold_amount row.id after ≡ pos 0) rows
    × (captured_amount latest.id after ≡ captured_amount latest.id before +ℤ pos settled)

module _ (intl : Formatter) (s : Repository) (now : ℕ) (i : SettleExternalInput) where
  settle_rows-IsClosed :
      (latest : AuthorizationRow) (rows : List AuthorizationRow)
      → IsClosed latest rows i.settled_amount
          (entries_of s i.mandate_id)
          (entries_of (settle_rows intl s now i latest rows).0 i.mandate_id)
  unfolding settle_rows
  settle_rows-IsClosed latest rows =
      let es = entries_of s i.mandate_id in
      let m = i.mandate_id in
      let left = (release_rows intl s m now rows (es, pos 0)).0 in
      rw (entries_of-with_entries m (capture_settled intl s m now latest i.settled_amount left) s) (
        All-rows
            (λ id.
              hold_amount id (capture_settled intl s m now latest i.settled_amount left) ≡ pos 0)
            rows
            (λ id h.
              captured-hold intl s m now id latest i.settled_amount left
              ∙ release_rows-zero intl s m now id rows es (pos 0) (inr h)),
        captured-settled intl s m now latest i.settled_amount left
            ∙ ap (λ c. c +ℤ pos i.settled_amount)
                (release_rows-captured intl s m now latest.id rows es (pos 0)),
      )

  -- A settlement of an external reference that has rows in the mandate, in the currency of its latest
  -- revision, succeeds. No row of the reference then holds anything in the mandate's ledger, and what is
  -- captured for the latest revision has grown by the settled amount.
  pub settle_external_authorization-IsClosed :
      (latest : AuthorizationRow)
      → last_row (by_revision (external_rows s i.mandate_id i.external_ref)) ≡ some latest
      → text_eq (currency_text latest.action.currency) (to_upper_case i.settled_currency) ≡ true
      → (t : Repository) × (o : SettlementOutcome) × (settle_external_authorization intl s now i
          ≡ Result.ok (t, o))
        × IsClosed latest
            (by_revision (external_rows s i.mandate_id i.external_ref))
            i.settled_amount
            (entries_of s i.mandate_id)
            (entries_of t i.mandate_id)
  unfolding settle_external_authorization
  settle_external_authorization-IsClosed latest h c =
      let rows = by_revision (external_rows s i.mandate_id i.external_ref) in
      let done = settle_rows intl s now i latest rows in
      (
        done.0,
        done.1,
        rw (h, settle_external_authorization) (rw c refl),
        settle_rows-IsClosed latest rows,
      )

-- An authorization that holds nothing, and has captured what it had.
abbrev pub IsFreed : (before after : List LedgerEntryRow) → (id : Text) → Type 0
IsFreed before after id =
    (hold_amount id after ≡ pos 0) × (captured_amount id after ≡ captured_amount id before)

module _ (intl : Formatter) (s : Repository) (now : ℕ) (m ref : Text) where
  release_named-IsFreed :
      (rows : List AuthorizationRow)
      → All
          (λ (row : AuthorizationRow).
            IsFreed (entries_of s m) (entries_of (release_named intl s now m ref rows).0 m) row.id)
          rows
  unfolding release_named
  release_named-IsFreed [] = tt
  release_named-IsFreed (row ∷ rows) =
      let es = entries_of s m in
      let left = (release_rows intl s m now (row ∷ rows) (es, pos 0)).0 in
      All-rows (IsFreed es (entries_of (release_named intl s now m ref (row ∷ rows)).0 m))
        (row ∷ rows)
        (λ id h. rw (entries_of-with_entries m left s) (
          release_rows-zero intl s m now id (row ∷ rows) es (pos 0) (inr h),
          release_rows-captured intl s m now id (row ∷ rows) es (pos 0),
        ))

  -- A release of an external reference leaves no hold on any of its rows, and what each has captured stays.
  pub release_external_authorization-IsFreed :
      All
        (λ (row : AuthorizationRow).
          IsFreed
            (entries_of s m)
            (entries_of (release_external_authorization intl s now m ref).0 m)
            row.id)
        (external_rows s m ref)
  unfolding release_external_authorization
  release_external_authorization-IsFreed = release_named-IsFreed (external_rows s m ref)
