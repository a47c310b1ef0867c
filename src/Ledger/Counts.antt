-- ===== src/Ledger/Counts.antt =====
-- apps/api/src/authorization/in-memory-repository.ts with window-rollup.ts: how operations move the count of
-- a window.
use waysafe.Prelude.{
  ℕ, ◌+◌, ◌≤◌, ◌≡◌, refl, ap, ◌∙◌, inl, inr, Bool, true, false, Option, some, List, [], ◌∷◌, ◌++◌,
  Text, arith, text_eq, text_eq_iff, sym, not, filter, map, map-append, append-nil, Bool-cases, All,
  find, ◌&&◌, ◌||◌, if◌then◌else◌,
}
use waysafe.Prelude.Int.{ℤ}
use waysafe.Policy.{Accounting}
use waysafe.Engine.Rollup.{
  LedgerEntryType, LedgerRollupEntry, Seen, unseen, is_excluded, mark, slots, roll_up_window,
}
use waysafe.Engine.Rollup.Counting.{
  roll_up_window-append, seen_of, seen_after, seen_from-append, release_entry, capture_entry,
}
use waysafe.Engine.Rollup.Slots.{has, slots-holds, type_eq}
use waysafe.Ledger.{AuthorizationStatus, LedgerEntryRow, AuthorizationRow}
use waysafe.Ledger.Maps.{Map, get, set, get-set, get-set_other}
use waysafe.Ledger.Operations.{is_reservation_of, is_reservation}
use waysafe.Ledger.Sums.{filter-append}
use waysafe.Ledger.Snapshot.{rollup_entry, sum_where, ref_or}

-- No entry is one of the authorization.
abbrev pub IsNewTo : Text → List LedgerEntryRow → Type 0
IsNewTo id es = All (λ (e : LedgerEntryRow). text_eq id e.authorization_id ≡ false) es

-- An authorization that is new to the entries changes no transaction of theirs.
rollup-new :
    (id : Text) (row : AuthorizationRow) (m : Map AuthorizationRow) (p : LedgerEntryRow → Bool)
    (es : List LedgerEntryRow)
    → IsNewTo id es
    → map (rollup_entry (set id row m)) (filter p es) ≡ map (rollup_entry m) (filter p es)
rollup-new id row m p [] h = refl
rollup-new id row m p (e ∷ es) h =
    let ih = rollup-new id row m p es h.1 in
    elim (Bool-cases (p e)) [
      | inr q ↦ rw q ih
      | inl q ↦ rw (q, get-set_other e.authorization_id id row m h.0) (rw ih refl)
    ]

-- A transaction holds one slot at most.
slots-le : (x : Option Text) (k : Text) (s : Seen) → slots x k s ≤ 1
slots-le x k s = ground arith

one_more : (a b c d : ℕ) → a + b ≡ c + d → d ≤ 1 → a ≤ c + 1
one_more a b c d h k = omega (arith, h, k)

-- One more entry takes one slot more at most.
count-append_le :
    (es : List LedgerRollupEntry) (e : LedgerRollupEntry) (a : Accounting) (x : Option Text)
    → (roll_up_window (es ++ (e ∷ [])) a x).count ≤ (roll_up_window es a x).count + 1
count-append_le es e a x =
    let k = e.transaction_key in
    one_more _ _ _ _ (roll_up_window-append es e a x) (slots-le x k (seen_after k e (seen_of k es)))

module _ (id : Text) (row : AuthorizationRow) (m : Map AuthorizationRow) (a : Accounting)
    (x : Option Text) (p : LedgerEntryRow → Bool) where
  -- An authorization that is new to the ledger takes, with an entry of its own, one slot more at most.
  pub sum_where-count_le :
      (es : List LedgerEntryRow) (e : LedgerEntryRow)
      → IsNewTo id es
      → (sum_where (set id row m) (es ++ (e ∷ [])) a x p).count ≤ (sum_where m es a x p).count + 1
  unfolding sum_where
  sum_where-count_le es e h =
      let same = rollup-new id row m p es h in
      elim (Bool-cases (p e)) [
        | inl q ↦
            rw (filter-append p es (e ∷ []), q)
              (rw (map-append (rollup_entry (set id row m)) (filter p es) (e ∷ [])) (
                rw same (
                  count-append_le (map (rollup_entry m) (filter p es))
                    (rollup_entry (set id row m) e) a x)))
        | inr q ↦
            rw (filter-append p es (e ∷ []), q)
              (rw (append-nil (filter p es)) (rw same (omega arith)))
      ]

-- The status of a row does not say which transaction its entries belong to.
ref_or-status :
    (id k : Text) (auth : AuthorizationRow) (t : AuthorizationStatus) (m : Map AuthorizationRow)
    → get id m ≡ some auth
    → ref_or k (get k (set id (record auth { status = t }) m)) ≡ ref_or k (get k m)
ref_or-status id k auth t m h = elim (Bool-cases (text_eq id k)) [
  | inl e ↦
      let q = (text_eq_iff id k).0 e in
      rw (← q) (rw (get-set id (record auth { status = t }) m, h) refl)
  | inr e ↦ rw (get-set_other k id (record auth { status = t }) m e) refl
]

pub rollup-status :
    (id : Text) (auth : AuthorizationRow) (t : AuthorizationStatus) (m : Map AuthorizationRow)
    (es : List LedgerEntryRow)
    → get id m ≡ some auth
    → map (rollup_entry (set id (record auth { status = t }) m)) es ≡ map (rollup_entry m) es
rollup-status id auth t m [] h = refl
rollup-status id auth t m (e ∷ es) h =
    rw (ref_or-status id e.authorization_id auth t m h, rollup-status id auth t m es h) refl

settled_slot : (a b c d e s : ℕ) → b + d ≡ a + e → c + e ≡ b + s → d ≡ s → c ≡ a
settled_slot a b c d e s h k q = omega (arith, h, k, q)

text_eq_refl : (k : Text) → text_eq k k ≡ true
text_eq_refl k = (text_eq_iff k k).1 refl

captured_slot :
    (x : Option Text) (k : Text) (s : Seen)
    → slots x k (mark LedgerEntryType.capture s) ≡ (if is_excluded x k then 0 else 1)
captured_slot x k s = ground arith

slot_of_flags :
    (x c r n : Bool)
    → r ≡ true
    → n ≡ false
    → ◌≡◌ {A = ℕ} (if not x && (c || (r && not n)) then 1 else 0) (if x then 0 else 1)
slot_of_flags x c r n h k = ground arith

-- A transaction that is reserved and not released keeps its slot when it is released and captured.
pub roll_up_window-settled :
    (es : List LedgerRollupEntry) (k : Text) (hold settled : ℤ) (a : Accounting) (x : Option Text)
    → has LedgerEntryType.reservation k es ≡ true
    → has LedgerEntryType.release k es ≡ false
    → (roll_up_window
        ((es ++ (release_entry k hold ∷ [])) ++ (capture_entry k settled ∷ []))
        a
        x).count
      ≡ (roll_up_window es a x).count
roll_up_window-settled es k hold settled a x r n =
    let e = release_entry k hold in
    let f = capture_entry k settled in
    let self = text_eq_refl k in
    let seen = rw self at (seen_from-append k es (e ∷ []) unseen) in
    let one = rw self at (roll_up_window-append es e a x) in
    let two = rw (seen, self) at (roll_up_window-append (es ++ (e ∷ [])) f a x) in
    settled_slot _ _ _ _ _ _ one two (
      slots-holds x es k
      ∙ slot_of_flags (is_excluded x k) (has LedgerEntryType.capture k es) _ _ r n
      ∙ sym (captured_slot x k (mark LedgerEntryType.release (seen_of k es))))

is_reservation-type_eq :
    (t : LedgerEntryType) → is_reservation t ≡ true → type_eq t LedgerEntryType.reservation ≡ true
is_reservation-type_eq LedgerEntryType.reservation h = refl
is_reservation-type_eq LedgerEntryType.release h = cc
is_reservation-type_eq LedgerEntryType.capture h = cc
is_reservation-type_eq LedgerEntryType.credit h = cc

and_true : (a b : Bool) → a && b ≡ true → (a ≡ true) × (b ≡ true)
and_true a b h = ground arith

or_false : (a b : Bool) → a || b ≡ false → (a ≡ false) × (b ≡ false)
or_false a b h = ground arith

or_right : (a b : Bool) → b ≡ true → a || b ≡ true
or_right a b h = ground arith

module _ (m : Map AuthorizationRow) (p : LedgerEntryRow → Bool) where
  -- The reservation that is found is one of its transaction in its window.
  has-found :
      (id : Text) (es : List LedgerEntryRow) (r : LedgerEntryRow)
      → find (is_reservation_of id) es ≡ some r
      → p r ≡ true
      → has LedgerEntryType.reservation (ref_or id (get id m)) (map (rollup_entry m) (filter p es))
        ≡ true
  has-found id [] r h k = cc
  has-found id (e ∷ es) r h k = elim (Bool-cases (is_reservation_of id e)) [
    | inl q ↦
        let same : e ≡ r = cc in
        let (own, type) = and_true (text_eq e.authorization_id id) (is_reservation e.type) q in
        let name = (text_eq_iff e.authorization_id id).0 own in
        rw (ap p same ∙ k)
          (rw (name, is_reservation-type_eq e.type type, text_eq_refl (ref_or id (get id m))) refl)
    | inr q ↦
        let ih = has-found id es r (rw q at h) k in
        elim (Bool-cases (p e)) [ inr f ↦ rw f ih | inl f ↦ rw f (or_right _ _ ih) ]
  ]

  -- What the ledger has not, its window has not.
  has-filter :
      (t : LedgerEntryType) (k : Text) (es : List LedgerEntryRow)
      → has t k (map (rollup_entry m) es) ≡ false
      → has t k (map (rollup_entry m) (filter p es)) ≡ false
  has-filter t k [] h = refl
  has-filter t k (e ∷ es) h =
      let entry = rollup_entry m e in
      let (first, rest) =
        or_false (type_eq entry.type t && text_eq entry.transaction_key k)
          (has t k (map (rollup_entry m) es)) h in
      let ih = has-filter t k es rest in
      elim (Bool-cases (p e)) [ inr f ↦ rw f ih | inl f ↦ rw (f, first) ih ]

module _ (m : Map AuthorizationRow) (id : Text) (auth : AuthorizationRow) (t : AuthorizationStatus)
    (stored : get id m ≡ some auth) (es : List LedgerEntryRow) (r : LedgerEntryRow)
    (found : find (is_reservation_of id) es ≡ some r)
    (unreleased : has LedgerEntryType.release (ref_or id (some auth)) (map (rollup_entry m) es)
      ≡ false) where
  abbrev after : Map AuthorizationRow
  after = set id (record auth { status = t }) m

  abbrev key : Text
  key = ref_or id (some auth)

  rollup-own :
      (type : LedgerEntryType) (e : LedgerEntryRow)
      → e.authorization_id ≡ id
      → e.type ≡ type
      → rollup_entry after e ≡ record { transaction_key = key; type = type; amount = e.amount }
  rollup-own type e own same = rw (own, same) (rw (get-set id (record auth { status = t }) m) refl)

  -- Where the found reservation's windows are the release's and the capture's, the count stays, in those
  -- windows and in all others.
  pub sum_where-settled :
      (a : Accounting) (x : Option Text) (p : LedgerEntryRow → Bool) (rel cap : LedgerEntryRow)
      → (p rel ≡ p r) × (p cap ≡ p r)
      → (rel.authorization_id ≡ id) × (rel.type ≡ LedgerEntryType.release)
      → (cap.authorization_id ≡ id) × (cap.type ≡ LedgerEntryType.capture)
      → (sum_where after ((es ++ (rel ∷ [])) ++ (cap ∷ [])) a x p).count
        ≡ (sum_where m es a x p).count
  unfolding sum_where
  sum_where-settled a x p rel cap here is_rel is_cap =
      let W = filter p es in
      let same = rollup-status id auth t m W stored in
      rw
        (
          filter-append p (es ++ (rel ∷ [])) (cap ∷ []),
          filter-append p es (rel ∷ []),
          here.0,
          here.1,
        )
        (elim (Bool-cases (p r)) [
          | inr q ↦ rw q (rw (append-nil W) (rw (append-nil W) (rw same refl)))
          | inl q ↦
              let reserved = rw stored at (has-found m p id es r found q) in
              let released = has-filter m p LedgerEntryType.release key es unreleased in
              rw q (
                rw
                  (
                    map-append (rollup_entry after) (W ++ (rel ∷ [])) (cap ∷ []),
                    map-append (rollup_entry after) W (rel ∷ []),
                    same,
                  )
                  (rw
                    (
                      rollup-own LedgerEntryType.release rel is_rel.0 is_rel.1,
                      rollup-own LedgerEntryType.capture cap is_cap.0 is_cap.1,
                    )
                    (roll_up_window-settled (map (rollup_entry m) W) key rel.amount cap.amount a x
                      reserved released)))
        ])
