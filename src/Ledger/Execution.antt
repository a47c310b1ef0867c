-- ===== src/Ledger/Execution.antt =====
-- apps/api/src/authorization/in-memory-repository.ts: what `recordExecution` does to the books, and what
-- a step-up's outcome does to the hold.
use waysafe.Prelude.{
  ℕ, ◌≡◌, refl, ap, ◌∙◌, ◌⊎◌, inl, inr, true, false, Option, none, some, List, Text, find, text_eq,
  text_eq_iff, Option-cases, Bool-cases, arith,
}
use waysafe.Prelude.Int.{ℤ, pos, ◌+ℤ◌, ◌-ℤ◌, neg, int_laws}
use waysafe.Time.{Formatter}
use waysafe.Engine.Rollup.{LedgerEntryType}
use waysafe.Ledger.{
  AuthorizationStatus, AuthorizationRow, LedgerEntryRow, Repository, Result, entries_of,
}
use waysafe.Ledger.Maps.{get, get-set}
use waysafe.Ledger.Operations.{
  is_reservation_of, is_executed, is_executable, push_entry, window_keys_for, executed_entries,
  execute, record_execution, captured_amount,
}
use waysafe.Ledger.Sums.{
  entries_of-with_entries, text_eq_same, hold_amount, captured-release, captured-capture,
  hold-release, hold-capture,
}

-- The amount of the reservation that is found.
abbrev pub reserved_amount : Option LedgerEntryRow → ℤ
reserved_amount none = pos 0
reserved_amount (some r) = r.amount

-- The books of an authorization after its execution: the first reservation is given back, and the amount
-- is captured.
abbrev pub IsSettled : Text → ℕ → List LedgerEntryRow → List LedgerEntryRow → Type 0
IsSettled id amount before after =
    (hold_amount id after
      ≡ hold_amount id before -ℤ reserved_amount (find (is_reservation_of id) before))
    × (captured_amount id after ≡ captured_amount id before +ℤ pos amount)

pub add_neg : (a b : ℤ) → a +ℤ neg b ≡ a -ℤ b
add_neg a b = grind int_laws

pub sub_zero : (a : ℤ) → a ≡ a -ℤ pos 0
sub_zero a = grind int_laws

executed_entries-IsSettled :
    (intl : Formatter) (s : Repository) (auth : AuthorizationRow) (id : Text) (now : ℕ)
    (es : List LedgerEntryRow)
    → IsSettled id auth.action.amount es (executed_entries intl s auth id now es)
unfolding executed_entries
executed_entries-IsSettled intl s auth id now es =
    let m = auth.mandate_id in
    let z = pos auth.action.amount in
    elim (Option-cases (find (is_reservation_of id) es)) [
      | inl e ↦
          let keys = window_keys_for intl s auth none in
          rw e (
            hold-capture m id z keys now es ∙ sub_zero (hold_amount id es),
            captured-capture m id z keys now es,
          )
      | inr (r, e) ↦
          let keys = window_keys_for intl s auth (some r) in
          let es' = push_entry m id LedgerEntryType.release (neg r.amount) keys now es in
          rw e (
            hold-capture m id z keys now es'
                ∙ (hold-release m id (neg r.amount) keys now es
                    ∙ add_neg (hold_amount id es) r.amount),
            captured-capture m id z keys now es'
                ∙ ap (λ c. c +ℤ z) (captured-release m id (neg r.amount) keys now es),
          )
    ]

-- The row after an execution.
abbrev executed_row : AuthorizationRow → AuthorizationRow
executed_row auth = record auth { status = AuthorizationStatus.executed }

module _ (intl : Formatter) (s : Repository) (id : Text) (auth : AuthorizationRow) (now : ℕ) where
  record_execution-ok :
      get id s.authorizations ≡ some auth
      → is_executed auth.status ≡ false
      → is_executable auth.status ≡ true
      → record_execution intl s auth.mandate_id id now ≡ Result.ok (execute intl s id auth now)
  unfolding record_execution
  record_execution-ok h e k =
      rw (h, record_execution) (rw (text_eq_same auth.mandate_id, e, k) refl)

  execute-books :
      IsSettled id auth.action.amount
        (entries_of s auth.mandate_id)
        (entries_of (execute intl s id auth now) auth.mandate_id)
  unfolding execute
  execute-books =
      let es = entries_of s auth.mandate_id in
      let es' = executed_entries intl s auth id now es in
      rw (entries_of-with_entries auth.mandate_id es' s)
        (executed_entries-IsSettled intl s auth id now es)

  execute-status : get id (execute intl s id auth now).authorizations ≡ some (executed_row auth)
  unfolding execute
  execute-status = get-set id (executed_row auth) s.authorizations

executable_not_executed : (t : AuthorizationStatus) → is_executable t ≡ true → is_executed t ≡ false
executable_not_executed t h = ground arith

-- An authorization that is AUTHORIZED or STEP_UP_APPROVED is executed against its own mandate: the call
-- succeeds, the row becomes EXECUTED and is otherwise as it was, its first reservation is released in
-- full, and exactly its amount is captured.
pub record_execution-IsSettled :
    (intl : Formatter) (s : Repository) (id : Text) (auth : AuthorizationRow) (now : ℕ)
    → get id s.authorizations ≡ some auth
    → is_executable auth.status ≡ true
    → (s' : Repository) × (record_execution intl s auth.mandate_id id now ≡ Result.ok s')
      × (get id s'.authorizations ≡ some (record auth { status = AuthorizationStatus.executed }))
      × IsSettled id auth.action.amount
          (entries_of s auth.mandate_id)
          (entries_of s' auth.mandate_id)
record_execution-IsSettled intl s id auth now h k = (
  execute intl s id auth now,
  record_execution-ok intl s id auth now h (executable_not_executed auth.status k) k,
  execute-status intl s id auth now,
  execute-books intl s id auth now,
)

-- What an execution that succeeds has done: nothing, on an executed row, or the execution.
pub record_execution-cases :
    (intl : Formatter) (s s' : Repository) (m id : Text) (now : ℕ)
    → record_execution intl s m id now ≡ Result.ok s'
    → (auth : AuthorizationRow) × (get id s.authorizations ≡ some auth)
      × (auth.mandate_id ≡ m)
      × (((is_executed auth.status ≡ true) × (s ≡ s'))
          ⊎ ((is_executable auth.status ≡ true) × (execute intl s id auth now ≡ s')))
unfolding record_execution
record_execution-cases intl s s' m id now h = elim (Option-cases (get id s.authorizations)) [
  | inl q ↦ let bad = rw (q, record_execution) at h in cc
  | inr (auth, q) ↦ elim (Bool-cases (text_eq auth.mandate_id m)) [
    | inr e ↦ let bad = rw e at (rw (q, record_execution) at h) in cc
    | inl e ↦ elim (Bool-cases (is_executed auth.status)) [
      | inl x ↦
          let same = rw (e, x) at (rw (q, record_execution) at h) in
          (auth, q, (text_eq_iff auth.mandate_id m).0 e, inl (x, cc))
      | inr x ↦ elim (Bool-cases (is_executable auth.status)) [
        | inr k ↦ let bad = rw (e, x, k) at (rw (q, record_execution) at h) in cc
        | inl k ↦
            let same = rw (e, x, k) at (rw (q, record_execution) at h) in
            (auth, q, (text_eq_iff auth.mandate_id m).0 e, inr (k, cc))
      ]
    ]
  ]
]

record_execution-executed :
    (intl : Formatter) (s : Repository) (id : Text) (auth : AuthorizationRow) (now : ℕ)
    → get id s.authorizations ≡ some auth
    → is_executed auth.status ≡ true
    → record_execution intl s auth.mandate_id id now ≡ Result.ok s
unfolding record_execution
record_execution-executed intl s id auth now h e =
    rw (h, record_execution) (rw (text_eq_same auth.mandate_id, e) refl)

-- After an execution that succeeds, a second one of the same authorization against the same mandate, at
-- whatever time, succeeds too and leaves the store as it is.
pub record_execution_twice :
    (intl : Formatter) (s s' : Repository) (mandate_id id : Text) (now later : ℕ)
    → record_execution intl s mandate_id id now ≡ Result.ok s'
    → record_execution intl s' mandate_id id later ≡ Result.ok s'
record_execution_twice intl s s' m id now later h =
    let (auth, q, e, done) = record_execution-cases intl s s' m id now h in
    elim done [
      | inl (x, same) ↦ rw (← same) (rw (← e) (record_execution-executed intl s id auth later q x))
      | inr (k, same) ↦ rw (← same) (
          rw (← e) (
            record_execution-executed intl (execute intl s id auth now) id (executed_row auth) later
              (execute-status intl s id auth now) refl))
    ]
