-- ===== src/Ledger/Refunds.antt =====
-- apps/api/src/authorization/in-memory-repository.ts: what `recordRefund` credits in all.
use waysafe.Prelude.{
  ℕ, ◌≡◌, refl, ap, Option-cases, ◌∙◌, inl, inr, true, none, some, List, Text, arith, Bool-cases,
}
use waysafe.Prelude.Int.{ℤ, pos, ◌-ℤ◌, neg, int_laws}
use waysafe.Time.{Formatter}
use waysafe.Engine.Rollup.{LedgerEntryType}
use waysafe.Ledger.{AuthorizationRow, LedgerEntryRow, Repository, Result, entries_of}
use waysafe.Ledger.Maps.{get}
use waysafe.Ledger.Operations.{
  min_ℤ, max_ℤ, is_zero, refund_delta, refund, record_refund, already_credited, captured_amount,
  push_entry, window_keys_for,
}
use waysafe.Ledger.Sums.{entries_of-with_entries, credited-credit, captured-credit}

pub is_zero-eq : (z : ℤ) → is_zero z ≡ true → z ≡ pos 0
is_zero-eq z h = ground arith

-- Crediting the rest raises what is credited to the asked total, but not above what was captured.
credit_rest : (a n c : ℤ) → a -ℤ neg (max_ℤ (pos 0) (min_ℤ (n -ℤ a) (c -ℤ a))) ≡ max_ℤ a (min_ℤ n c)
credit_rest a n c = grind int_laws

-- Nothing is left to credit exactly when that is reached already.
no_rest : (a n c : ℤ) → max_ℤ (pos 0) (min_ℤ (n -ℤ a) (c -ℤ a)) ≡ pos 0 → a ≡ max_ℤ a (min_ℤ n c)
no_rest a n c h = grind int_laws

rest_done :
    (a n c : ℤ)
    → max_ℤ (pos 0) (min_ℤ (n -ℤ max_ℤ a (min_ℤ n c)) (c -ℤ max_ℤ a (min_ℤ n c))) ≡ pos 0
rest_done a n c = grind int_laws

-- The books of one authorization after its refund.
abbrev pub IsRefunded : Text → ℕ → List LedgerEntryRow → List LedgerEntryRow → Type 0
IsRefunded id amount before after =
    (already_credited id after
      ≡ max_ℤ (already_credited id before) (min_ℤ (pos amount) (captured_amount id before)))
    × (captured_amount id after ≡ captured_amount id before)

refund-IsRefunded :
    (intl : Formatter) (s : Repository) (auth : AuthorizationRow) (id : Text) (amount now : ℕ)
    → IsRefunded id amount
        (entries_of s auth.mandate_id)
        (entries_of (refund intl s auth id amount now) auth.mandate_id)
unfolding refund refund_delta
refund-IsRefunded intl s auth id amount now =
    let m = auth.mandate_id in
    let es = entries_of s m in
    let a = already_credited id es in
    let c = captured_amount id es in
    let d = refund_delta id amount es in
    let keys = window_keys_for intl s auth none in
    let es' = push_entry m id LedgerEntryType.credit (neg d) keys now es in
    elim (Bool-cases (is_zero d)) [
      | inl e ↦ rw e (no_rest a (pos amount) c (is_zero-eq d e), refl)
      | inr e ↦ rw e (
          rw (entries_of-with_entries m es' s) (
            credited-credit m id (neg d) keys now es ∙ credit_rest a (pos amount) c,
            captured-credit m id (neg d) keys now es,
          ))
    ]

refund-nothing :
    (intl : Formatter) (s : Repository) (auth : AuthorizationRow) (id : Text) (amount now : ℕ)
    → refund_delta id amount (entries_of s auth.mandate_id) ≡ pos 0
    → refund intl s auth id amount now ≡ s
unfolding refund
refund-nothing intl s auth id amount now h = rw (h, refund) refl

record_refund-some :
    (intl : Formatter) (s : Repository) (auth : AuthorizationRow) (id : Text) (amount now : ℕ)
    → get id s.authorizations ≡ some auth
    → record_refund intl s id amount now ≡ Result.ok (refund intl s auth id amount now)
unfolding record_refund
record_refund-some intl s auth id amount now h = rw (h, record_refund) refl

refund_again :
    (intl : Formatter) (s : Repository) (auth : AuthorizationRow) (id : Text) (amount now later : ℕ)
    → refund intl (refund intl s auth id amount now) auth id amount later
      ≡ refund intl s auth id amount now
unfolding refund refund_delta
refund_again intl s auth id amount now later =
    let es = entries_of s auth.mandate_id in
    let s' = refund intl s auth id amount now in
    let es' = entries_of s' auth.mandate_id in
    let books = refund-IsRefunded intl s auth id amount now in
    let done : refund_delta id amount es' ≡ pos 0 =
      rw (books.0, books.1)
        (rest_done (already_credited id es) (pos amount) (captured_amount id es)) in
    refund-nothing intl s' auth id amount later done

pub refund-authorizations :
    (intl : Formatter) (s : Repository) (auth : AuthorizationRow) (id : Text) (amount now : ℕ)
    → (refund intl s auth id amount now).authorizations ≡ s.authorizations
unfolding refund
refund-authorizations intl s auth id amount now =
    elim (Bool-cases (is_zero (refund_delta id amount (entries_of s auth.mandate_id)))) [
      | inl e ↦ rw e refl
      | inr e ↦ rw e refl
    ]

-- A refund of a recorded authorization succeeds. In its mandate's ledger the authorization is then
-- credited with the asked total, but never with more than was captured, and never with less than it
-- was before; what was captured is as it was.
pub record_refund-IsRefunded :
    (intl : Formatter) (s : Repository) (id : Text) (auth : AuthorizationRow) (amount now : ℕ)
    → get id s.authorizations ≡ some auth
    → (s' : Repository) × (record_refund intl s id amount now ≡ Result.ok s')
      × IsRefunded id amount (entries_of s auth.mandate_id) (entries_of s' auth.mandate_id)
record_refund-IsRefunded intl s id auth amount now h = (
  refund intl s auth id amount now,
  record_refund-some intl s auth id amount now h,
  refund-IsRefunded intl s auth id amount now,
)

-- After a refund that succeeds, a second one of the same authorization with the same total, at whatever
-- time, succeeds too and leaves the store as it is.
pub record_refund_twice :
    (intl : Formatter) (s s' : Repository) (id : Text) (amount now later : ℕ)
    → record_refund intl s id amount now ≡ Result.ok s'
    → record_refund intl s' id amount later ≡ Result.ok s'
unfolding record_refund
record_refund_twice intl s s' id amount now later h =
    elim (Option-cases (get id s.authorizations)) [
      | inl q ↦ let bad = rw (q, record_refund) at h in cc
      | inr (auth, q) ↦
          let first = record_refund-some intl s auth id amount now q in
          let same : refund intl s auth id amount now ≡ s' = cc in
          let kept : get id (refund intl s auth id amount now).authorizations ≡ some auth =
            rw (refund-authorizations intl s auth id amount now) q in
          rw (← same) (
            record_refund-some intl (refund intl s auth id amount now) auth id amount later kept
            ∙ ap (λ t. Result.ok t) (refund_again intl s auth id amount now later))
    ]
