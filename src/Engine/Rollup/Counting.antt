-- ===== src/Engine/Rollup/Counting.antt =====
-- packages/core/src/engine/window-rollup.ts: how one more entry changes the count.
use waysafe.Prelude.{
  ◌+◌, ◌≡◌, refl, inl, inr, Bool, true, false, Option, none, List, [], ◌∷◌, ◌++◌, Text, arith,
  if◌then◌else◌, text_eq, text_eq_iff, Bool-cases,
}
use waysafe.Prelude.Int.{ℤ, pos, ◌+ℤ◌}
use waysafe.Policy.{Accounting}
use waysafe.Engine.Rollup.{
  LedgerEntryType, LedgerRollupEntry, Seen, unseen, Transactions, is_credit, mark, touch,
  roll_up_entry, roll_up_entries, slots, count_transactions, roll_up_window,
}

-- What the entries say about one transaction, read off the list without a map.
abbrev pub seen_after : Text → LedgerRollupEntry → Seen → Seen
seen_after k e s =
    if is_credit e.type then s else if text_eq e.transaction_key k then mark e.type s else s

abbrev pub seen_from : Text → List LedgerRollupEntry → Seen → Seen
seen_from k [] s = s
seen_from k (e ∷ es) s = seen_from k es (seen_after k e s)

abbrev pub seen_of : Text → List LedgerRollupEntry → Seen
seen_of k es = seen_from k es unseen

-- `transactions.get(k)`, an unseen transaction where it is missing.
abbrev pub get_seen : Text → Transactions → Seen
get_seen k [] = unseen
get_seen k ((key, s) ∷ m) = if text_eq key k then s else get_seen k m

text_eq_refl : (k : Text) → text_eq k k ≡ true
text_eq_refl k = (text_eq_iff k k).1 refl

pub get_seen-touch :
    (k k' : Text) (t : LedgerEntryType) (m : Transactions)
    → get_seen k (touch k' t m) ≡ (if text_eq k' k then mark t (get_seen k m) else get_seen k m)
unfolding touch
get_seen-touch k k' t [] = refl
get_seen-touch k k' t ((key, s) ∷ m) =
    let ih = get_seen-touch k k' t m in
    elim (Bool-cases (text_eq key k')) [
      | inl e ↦
          let q = (text_eq_iff key k').0 e in
          elim (Bool-cases (text_eq key k)) [ inl f ↦ rw (e, ← q, f) | inr f ↦ rw (e, ← q, f) ]
      | inr e ↦ elim (Bool-cases (text_eq key k)) [
        | inl f ↦
            let q = (text_eq_iff key k).0 f in
            rw (e, f)
              (elim (Bool-cases (text_eq k' k)) [
                | inl g ↦ let r = (text_eq_iff k' k).0 g in cc
                | inr g ↦ rw g
              ])
        | inr f ↦ rw (e, f, ih)
      ]
    ]

-- The count changes by what the one touched transaction adds before and after.
pub count-touch :
    (x : Option Text) (k : Text) (t : LedgerEntryType) (m : Transactions)
    → count_transactions x (touch k t m) + slots x k (get_seen k m)
      ≡ count_transactions x m + slots x k (mark t (get_seen k m))
unfolding touch count_transactions
count-touch x k t [] = ground arith
count-touch x k t ((key, s) ∷ m) = elim (Bool-cases (text_eq key k)) [
  | inl e ↦ let q = (text_eq_iff key k).0 e in rw (q, text_eq_refl k) (omega arith)
  | inr e ↦ let ih = count-touch x k t m in rw e (omega (arith, ih))
]

-- The map of the roll-up says of every transaction what the entries say.
pub get_seen-roll_up_entry :
    (r : Bool) (k : Text) (e : LedgerRollupEntry) (acc : ℤ × Transactions)
    → get_seen k (roll_up_entry r e acc).1 ≡ seen_after k e (get_seen k acc.1)
unfolding roll_up_entry
get_seen-roll_up_entry r k e acc = elim (Bool-cases (is_credit e.type)) [
  | inl c ↦ elim (Bool-cases r) [ inl q ↦ rw (c, q) | inr q ↦ rw (c, q) ]
  | inr c ↦ rw c (get_seen-touch k e.transaction_key e.type acc.1)
]

pub get_seen-roll_up_entries :
    (r : Bool) (k : Text) (es : List LedgerRollupEntry) (acc : ℤ × Transactions)
    → get_seen k (roll_up_entries r es acc).1 ≡ seen_from k es (get_seen k acc.1)
unfolding roll_up_entries
get_seen-roll_up_entries r k [] acc = refl
get_seen-roll_up_entries r k (e ∷ es) acc =
    rw (get_seen-roll_up_entries r k es (roll_up_entry r e acc), get_seen-roll_up_entry r k e acc)

roll_up_entries-append :
    (r : Bool) (es fs : List LedgerRollupEntry) (acc : ℤ × Transactions)
    → roll_up_entries r (es ++ fs) acc ≡ roll_up_entries r fs (roll_up_entries r es acc)
unfolding roll_up_entries
roll_up_entries-append r [] fs acc = refl
roll_up_entries-append r (e ∷ es) fs acc = roll_up_entries-append r es fs (roll_up_entry r e acc)

count-roll_up_entry :
    (r : Bool) (x : Option Text) (e : LedgerRollupEntry) (acc : ℤ × Transactions)
    → count_transactions x (roll_up_entry r e acc).1
        + slots x e.transaction_key (get_seen e.transaction_key acc.1)
      ≡ count_transactions x acc.1
        + slots x e.transaction_key
            (seen_after e.transaction_key e (get_seen e.transaction_key acc.1))
unfolding roll_up_entry
count-roll_up_entry r x e acc = elim (Bool-cases (is_credit e.type)) [
  | inl c ↦ elim (Bool-cases r) [ inl q ↦ rw (c, q) | inr q ↦ rw (c, q) ]
  | inr c ↦ rw (c, text_eq_refl e.transaction_key) (count-touch x e.transaction_key e.type acc.1)
]

-- Appending one entry to a window changes the count by what its own transaction adds after the entry
-- less what it added before, whatever the other entries are; the other transactions keep their slots.
pub roll_up_window-append :
    (es : List LedgerRollupEntry) (e : LedgerRollupEntry) (a : Accounting) (x : Option Text)
    → (roll_up_window (es ++ (e ∷ [])) a x).count
        + slots x e.transaction_key (seen_of e.transaction_key es)
      ≡ (roll_up_window es a x).count
        + slots x e.transaction_key (seen_after e.transaction_key e (seen_of e.transaction_key es))
unfolding roll_up_window roll_up_entries
roll_up_window-append es e a x =
    let r = a.refunds_credit_budget in
    let k = e.transaction_key in
    let acc = roll_up_entries r es (pos 0, []) in
    let split = roll_up_entries-append r es (e ∷ []) (pos 0, []) in
    let seen = get_seen-roll_up_entries r k es (pos 0, []) in
    rw split (rw seen at (count-roll_up_entry r x e acc))

pub seen_from-append :
    (k : Text) (es fs : List LedgerRollupEntry) (s : Seen)
    → seen_from k (es ++ fs) s ≡ seen_from k fs (seen_from k es s)
seen_from-append k [] fs s = refl
seen_from-append k (e ∷ es) fs s = seen_from-append k es fs (seen_after k e s)

-- An entry that is no credit adds its amount.
pub amount-append :
    (es : List LedgerRollupEntry) (e : LedgerRollupEntry) (a : Accounting) (x : Option Text)
    → is_credit e.type ≡ false
    → (roll_up_window (es ++ (e ∷ [])) a x).amount ≡ (roll_up_window es a x).amount +ℤ e.amount
unfolding roll_up_window roll_up_entries roll_up_entry
amount-append es e a x h =
    rw (roll_up_entries-append a.refunds_credit_budget es (e ∷ []) (pos 0, []), h)

abbrev held : Seen
held = record { reserved = true; released = false; captured = false }

abbrev pub release_entry : Text → ℤ → LedgerRollupEntry
release_entry k z = record { transaction_key = k; type = LedgerEntryType.release; amount = z }

abbrev pub capture_entry : Text → ℤ → LedgerRollupEntry
capture_entry k z = record { transaction_key = k; type = LedgerEntryType.capture; amount = z }

-- Settling: when a transaction has been reserved, and neither released nor captured, the release of
-- the hold alone gives its slot back; the release and the capture of the settled amount together leave
-- the count as it was, and add both amounts to the sum.
pub roll_up_window-settle :
    (es : List LedgerRollupEntry) (k : Text) (hold settled : ℤ) (a : Accounting)
    → seen_of k es ≡ record { reserved = true; released = false; captured = false }
    → let released = es ++ (release_entry k hold ∷ []) in
      let captured = released ++ (capture_entry k settled ∷ []) in
      ((roll_up_window released a none).count + 1 ≡ (roll_up_window es a none).count)
      × ((roll_up_window captured a none).count ≡ (roll_up_window es a none).count)
      × ((roll_up_window captured a none).amount
          ≡ (roll_up_window es a none).amount +ℤ hold +ℤ settled)
roll_up_window-settle es k hold settled a h =
    let r = release_entry k hold in
    let c = capture_entry k settled in
    let one = rw (h, text_eq_refl k) at (roll_up_window-append es r a none) in
    let seen = rw (h, text_eq_refl k) at (seen_from-append k es (r ∷ []) unseen) in
    let two = rw (seen, text_eq_refl k) at (roll_up_window-append (es ++ (r ∷ [])) c a none) in
    (
      omega (arith, one),
      omega (arith, one, two),
      rw (amount-append (es ++ (r ∷ [])) c a none refl, amount-append es r a none refl),
    )
