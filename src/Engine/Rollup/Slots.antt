-- ===== src/Engine/Rollup/Slots.antt =====
-- packages/core/src/engine/window-rollup.ts: the count as the size of a set of transactions.
use waysafe.Prelude.{
  ◌≡◌, ◌≢◌, refl, ◌∙◌, ◌↔◌, ◌⊎◌, inl, inr, Bool, true, false, Option, List, [], ◌∷◌, Text, arith,
  if◌then◌else◌, text_eq, text_eq_iff, Bool-cases, not, ◌&&◌, ◌||◌, All, Any, any, filter, length,
}
use waysafe.Prelude.Int.{ℤ, pos}
use waysafe.Policy.{Accounting}
use waysafe.Engine.Rollup.{
  LedgerEntryType, LedgerRollupEntry, Seen, unseen, Transactions, is_credit, mark, touch,
  roll_up_entry, roll_up_entries, slots, count_transactions, roll_up_window, is_excluded,
}
use waysafe.Engine.Rollup.Counting.{get_seen, get_seen-roll_up_entries, seen_of, seen_from}

abbrev pub type_eq : LedgerEntryType → LedgerEntryType → Bool
type_eq LedgerEntryType.reservation LedgerEntryType.reservation = true
type_eq LedgerEntryType.release LedgerEntryType.release = true
type_eq LedgerEntryType.capture LedgerEntryType.capture = true
type_eq LedgerEntryType.credit LedgerEntryType.credit = true
type_eq _ _ = false

-- Some entry of the transaction has the type.
abbrev pub has : LedgerEntryType → Text → List LedgerRollupEntry → Bool
has t k es = any (λ e. type_eq e.type t && text_eq e.transaction_key k) es

-- A transaction holds a slot when it was captured, or reserved and never released.
abbrev pub holds_slot : Option Text → List LedgerRollupEntry → Text → Bool
holds_slot x es k =
    not (is_excluded x k)
    && (has LedgerEntryType.capture k es
        || (has LedgerEntryType.reservation k es && not (has LedgerEntryType.release k es)))

abbrev pub Distinct : List Text → Type 0
Distinct [] = Unit
Distinct (k ∷ ks) = All (λ y. text_eq k y ≡ false) ks × Distinct ks

abbrev keys : Transactions → List Text
keys [] = []
keys ((k, s) ∷ m) = k ∷ keys m

Seen-ext :
    {a a' b b' c c' : Bool}
    → a ≡ a'
    → b ≡ b'
    → c ≡ c'
    → Path Seen
        (record { reserved = a; released = b; captured = c })
        (record { reserved = a'; released = b'; captured = c' })
Seen-ext p q r = cc

or_false : (b : Bool) → b ≡ (b || false)
or_false true = refl
or_false false = refl

or_true : (b : Bool) → true ≡ (b || true)
or_true true = refl
or_true false = refl

mark-flags :
    (t : LedgerEntryType) (b : Bool) (s : Seen)
    → (if is_credit t then s else if b then mark t s else s) ≡ record {
      reserved = s.reserved || (type_eq t LedgerEntryType.reservation && b);
      released = s.released || (type_eq t LedgerEntryType.release && b);
      captured = s.captured || (type_eq t LedgerEntryType.capture && b);
    }
mark-flags LedgerEntryType.reservation true s =
    Seen-ext (or_true s.reserved) (or_false s.released) (or_false s.captured)
mark-flags LedgerEntryType.release true s =
    Seen-ext (or_false s.reserved) (or_true s.released) (or_false s.captured)
mark-flags LedgerEntryType.capture true s =
    Seen-ext (or_false s.reserved) (or_false s.released) (or_true s.captured)
mark-flags LedgerEntryType.credit b s =
    Seen-ext (or_false s.reserved) (or_false s.released) (or_false s.captured)
mark-flags LedgerEntryType.reservation false s =
    Seen-ext (or_false s.reserved) (or_false s.released) (or_false s.captured)
mark-flags LedgerEntryType.release false s =
    Seen-ext (or_false s.reserved) (or_false s.released) (or_false s.captured)
mark-flags LedgerEntryType.capture false s =
    Seen-ext (or_false s.reserved) (or_false s.released) (or_false s.captured)

or_assoc : (a b c : Bool) → ((a || b) || c) ≡ (a || (b || c))
or_assoc true b c = refl
or_assoc false b c = refl

seen_from-has :
    (k : Text) (es : List LedgerRollupEntry) (s : Seen)
    → seen_from k es s ≡ record {
      reserved = s.reserved || has LedgerEntryType.reservation k es;
      released = s.released || has LedgerEntryType.release k es;
      captured = s.captured || has LedgerEntryType.capture k es;
    }
seen_from-has k [] s = Seen-ext (or_false s.reserved) (or_false s.released) (or_false s.captured)
seen_from-has k (e ∷ es) s =
    let b = text_eq e.transaction_key k in
    let f = type_eq e.type in
    rw (mark-flags e.type b s) (
      seen_from-has k es (record {
        reserved = s.reserved || (f LedgerEntryType.reservation && b);
        released = s.released || (f LedgerEntryType.release && b);
        captured = s.captured || (f LedgerEntryType.capture && b);
      })
      ∙ Seen-ext
          (or_assoc s.reserved (f LedgerEntryType.reservation && b)
            (has LedgerEntryType.reservation k es))
          (or_assoc s.released (f LedgerEntryType.release && b) (has LedgerEntryType.release k es))
          (or_assoc s.captured (f LedgerEntryType.capture && b) (has LedgerEntryType.capture k es)))

pub slots-holds :
    (x : Option Text) (es : List LedgerRollupEntry) (k : Text)
    → slots x k (seen_of k es) ≡ (if holds_slot x es k then 1 else 0)
slots-holds x es k = rw (seen_from-has k es unseen) (ground arith)

keys-touch :
    (k : Text) (t : LedgerEntryType) (m : Transactions) (y : Text)
    → text_eq y k ≡ false
    → All (λ z. text_eq y z ≡ false) (keys m)
    → All (λ z. text_eq y z ≡ false) (keys (touch k t m))
unfolding touch
keys-touch k t [] y h a = (h, tt)
keys-touch k t ((key, s) ∷ m) y h a = elim (Bool-cases (text_eq key k)) [
  | inl e ↦ rw e a
  | inr e ↦ rw e (a.0, keys-touch k t m y h a.1)
]

Distinct-touch :
    (k : Text) (t : LedgerEntryType) (m : Transactions)
    → Distinct (keys m)
    → Distinct (keys (touch k t m))
unfolding touch
Distinct-touch k t [] d = (tt, tt)
Distinct-touch k t ((key, s) ∷ m) d = elim (Bool-cases (text_eq key k)) [
  | inl e ↦ rw e d
  | inr e ↦ rw e (keys-touch k t m key e d.0, Distinct-touch k t m d.1)
]

Distinct-roll_up_entries :
    (r : Bool) (es : List LedgerRollupEntry) (acc : ℤ × Transactions)
    → Distinct (keys acc.1)
    → Distinct (keys (roll_up_entries r es acc).1)
unfolding roll_up_entries roll_up_entry
Distinct-roll_up_entries r [] acc d = d
Distinct-roll_up_entries r (e ∷ es) acc d =
    Distinct-roll_up_entries r es (roll_up_entry r e acc) (elim (Bool-cases (is_credit e.type)) [
      | inl c ↦ elim (Bool-cases r) [ inl q ↦ rw (c, q) d | inr q ↦ rw (c, q) d ]
      | inr c ↦ rw c (Distinct-touch e.transaction_key e.type acc.1 d)
    ])

-- A key of the map, where the map is touched.
keys-touch_iff :
    (k : Text) (t : LedgerEntryType) (m : Transactions) (y : Text)
    → Any (λ z. z ≡ y) (keys (touch k t m)) ↔ ((k ≡ y) ⊎ Any (λ z. z ≡ y) (keys m))
unfolding touch
keys-touch_iff k t [] y =
    (λ h. elim h [ inl a ↦ inl a | inr b ↦ inr b ], λ h. elim h [ inl a ↦ inl a | inr b ↦ inr b ])
keys-touch_iff k t ((key, s) ∷ m) y = elim (Bool-cases (text_eq key k)) [
  | inl e ↦
      let q = (text_eq_iff key k).0 e in
      rw e (λ h. inr h, λ h. elim h [ inl a ↦ inl (q ∙ a) | inr b ↦ b ])
  | inr e ↦
      let ih = keys-touch_iff k t m y in
      rw e (
        λ h. elim h [
          | inl a ↦ inr (inl a)
          | inr b ↦ elim (ih.0 b) [ inl c ↦ inl c | inr d ↦ inr (inr d) ]
        ],
        λ h. elim h [
          | inl a ↦ inr (ih.1 (inl a))
          | inr b ↦ elim b [ inl c ↦ inl c | inr d ↦ inr (ih.1 (inr d)) ]
        ],
      )
]

-- The entry is about the transaction, and no credit.
abbrev pub Concerns : Text → LedgerRollupEntry → Type 0
Concerns k e = (is_credit e.type ≡ false) × (e.transaction_key ≡ k)

keys-roll_up_entry :
    (r : Bool) (e : LedgerRollupEntry) (acc : ℤ × Transactions) (y : Text)
    → Any (λ z. z ≡ y) (keys (roll_up_entry r e acc).1)
      ↔ (Concerns y e ⊎ Any (λ z. z ≡ y) (keys acc.1))
unfolding roll_up_entry
keys-roll_up_entry r e acc y = elim (Bool-cases (is_credit e.type)) [
  | inl c ↦
      let M : Type 0 = Any (λ z. z ≡ y) (keys acc.1) in
      let skip : true ≢ false = (λ q. cc) in
      let same : M ↔ (((true ≡ false) × (e.transaction_key ≡ y)) ⊎ M) =
        (λ h. inr h, λ h. elim h [ inl a ↦ absurd (skip a.0) | inr b ↦ b ]) in
      elim (Bool-cases r) [ inl q ↦ rw (c, q) same | inr q ↦ rw (c, q) same ]
  | inr c ↦
      let t = keys-touch_iff e.transaction_key e.type acc.1 y in
      rw c (
        λ h. elim (t.0 h) [ inl a ↦ inl (refl, a) | inr b ↦ inr b ],
        λ h. t.1 (elim h [ inl a ↦ inl a.1 | inr b ↦ inr b ]),
      )
]

keys-roll_up_entries :
    (r : Bool) (es : List LedgerRollupEntry) (acc : ℤ × Transactions) (y : Text)
    → Any (λ z. z ≡ y) (keys (roll_up_entries r es acc).1)
      ↔ (Any (Concerns y) es ⊎ Any (λ z. z ≡ y) (keys acc.1))
unfolding roll_up_entries
keys-roll_up_entries r [] acc y = (λ h. inr h, λ h. elim h [ inl a ↦ absurd a | inr b ↦ b ])
keys-roll_up_entries r (e ∷ es) acc y =
    let ih = keys-roll_up_entries r es (roll_up_entry r e acc) y in
    let one = keys-roll_up_entry r e acc y in
    (
      λ h. elim (ih.0 h) [
        | inl a ↦ inl (inr a)
        | inr b ↦ elim (one.0 b) [ inl c ↦ inl (inl c) | inr d ↦ inr d ]
      ],
      λ h. ih.1 (elim h [
        | inl a ↦ elim a [ inl c ↦ inr (one.1 (inl c)) | inr d ↦ inl d ]
        | inr b ↦ inr (one.1 (inr b))
      ]),
    )

All-at : (Q : Text → Type 0) (ks : List Text) (k : Text) → All Q ks → Any (λ z. z ≡ k) ks → Q k
All-at Q [] k a h = absurd h
All-at Q (y ∷ ks) k a (inl q) = rw (← q) a.0
All-at Q (y ∷ ks) k a (inr h) = All-at Q ks k a.1 h

-- In a map without repeated keys, a pair's own flags are the ones that its key looks up.
pairs-All :
    (P : Text → Seen → Type 0) (m : Transactions)
    → Distinct (keys m)
    → ((k : Text) → Any (λ z. z ≡ k) (keys m) → P k (get_seen k m))
    → All (λ b. P b.0 b.1) m
pairs-All P [] d h = tt
pairs-All P ((key, s) ∷ m) d h =
    let self = (text_eq_iff key key).1 refl in
    let first : P key s = rw self at (h key (inl refl)) in
    let rest : (k : Text) → Any (λ z. z ≡ k) (keys m) → P k (get_seen k m) =
      (λ k a. rw (All-at (λ y. text_eq key y ≡ false) (keys m) k d.0 a) at (h k (inr a))) in
    (first, pairs-All P m d.1 rest)

count-filter :
    (x : Option Text) (p : Text → Bool) (m : Transactions)
    → All (λ b. slots x b.0 b.1 ≡ (if p b.0 then 1 else 0)) m
    → count_transactions x m ≡ length (filter p (keys m))
unfolding count_transactions
count-filter x p [] h = refl
count-filter x p ((k, s) ∷ m) h =
    let ih = count-filter x p m h.1 in
    elim (Bool-cases (p k)) [
      | inl e ↦ rw (h.0, e) (omega (arith, ih))
      | inr e ↦ rw (h.0, e) (omega (arith, ih))
    ]

-- The count of a window is the number of its distinct transactions, those with an entry that is no
-- credit, which hold a slot: captured, or reserved and never released, and not the excluded one.
pub roll_up_window-count :
    (es : List LedgerRollupEntry) (a : Accounting) (x : Option Text)
    → (ks : List Text) × Distinct ks
      × ((k : Text) → Any (λ z. z ≡ k) ks ↔ Any (Concerns k) es)
      × ((roll_up_window es a x).count ≡ length (filter (holds_slot x es) ks))
unfolding roll_up_window
roll_up_window-count es a x =
    let r = a.refunds_credit_budget in
    let m = (roll_up_entries r es (pos 0, [])).1 in
    let d = Distinct-roll_up_entries r es (pos 0, []) tt in
    let member = (λ (k : Text). keys-roll_up_entries r es (pos 0, []) k) in
    let each =
      pairs-All (λ k s. slots x k s ≡ (if holds_slot x es k then 1 else 0)) m d
        (λ k h. rw (get_seen-roll_up_entries r k es (pos 0, [])) (slots-holds x es k)) in
    (
      keys m,
      d,
      λ k. (λ h. elim ((member k).0 h) [ inl c ↦ c | inr n ↦ absurd n ], λ h. (member k).1 (inl h)),
      count-filter x (holds_slot x es) m each,
    )
