-- ===== src/Ledger/Lifecycle/Rows.antt =====
-- apps/api/src/authorization/in-memory-repository.ts: what writing a status does to the stored rows.
use waysafe.Prelude.{
  ◌≡◌, refl, ◌⊎◌, inl, inr, true, Option, none, some, [], ◌∷◌, Text, text_eq, text_eq_iff,
  Bool-cases, Bool, if◌then◌else◌, ◌&&◌, arith,
}
use waysafe.Ledger.{AuthorizationStatus, AuthorizationRow, RepositoryError, Result}
use waysafe.Ledger.Maps.{get, set, get-set, get-set_other, Map}
use waysafe.Ledger.External.{restatus}
use waysafe.Ledger.Lifecycle.{Operation, Moves, stays, StatusMoves}

pub rows_stay : (op : Operation) (o : Option AuthorizationRow) → StatusMoves op o o
rows_stay op none = refl
rows_stay op (some a) = (stays, refl)

pub same_rows : (op : Operation) {o o' : Option AuthorizationRow} → o' ≡ o → StatusMoves op o o'
same_rows op {o} {o'} h = rw h (rows_stay op o)

-- Setting the status of one row moves that row alone.
pub set-StatusMoves :
    (op : Operation) (k id : Text) (auth : AuthorizationRow) (t : AuthorizationStatus)
    (m : Map AuthorizationRow)
    → get id m ≡ some auth
    → Moves op auth t
    → StatusMoves op (get k m) (get k (set id (record auth { status = t }) m))
set-StatusMoves op k id auth t m h v = elim (Bool-cases (text_eq id k)) [
  | inl e ↦
      let q = (text_eq_iff id k).0 e in
      let row : AuthorizationRow = record auth { status = t } in
      let old : get k m ≡ some auth = rw (← q) h in
      let new : get k (set id row m) ≡ some row = rw (← q) (get-set id row m) in
      rw (old, new) (v, refl)
  | inr e ↦ same_rows op (get-set_other k id (record auth { status = t }) m e)
]

abbrev pub restatus_row :
    (AuthorizationRow → Bool)
    → AuthorizationStatus
    → Option AuthorizationRow
    → Option AuthorizationRow
restatus_row p t none = none
restatus_row p t (some a) = some (if p a then record a { status = t } else a)

pub get-restatus :
    (p : AuthorizationRow → Bool) (t : AuthorizationStatus) (k : Text) (m : Map AuthorizationRow)
    → get k (restatus p t m) ≡ restatus_row p t (get k m)
unfolding get
get-restatus p t k [] = refl
get-restatus p t k ((key, a) ∷ m) = elim (Bool-cases (text_eq key k)) [
  | inl e ↦ rw e refl
  | inr e ↦ rw e (get-restatus p t k m)
]

-- Setting the status of the rows that pass a test moves those rows.
pub restatus_row-StatusMoves :
    (op : Operation) (p : AuthorizationRow → Bool) (t : AuthorizationStatus)
    (o : Option AuthorizationRow)
    → ((a : AuthorizationRow) → p a ≡ true → Moves op a t)
    → StatusMoves op o (restatus_row p t o)
restatus_row-StatusMoves op p t none h = refl
restatus_row-StatusMoves op p t (some a) h = elim (Bool-cases (p a)) [
  | inl e ↦ rw e (h a e, refl)
  | inr e ↦ rw e (stays, refl)
]

pub restatus-StatusMoves :
    (op : Operation) (p : AuthorizationRow → Bool) (t : AuthorizationStatus) (k : Text)
    (m : Map AuthorizationRow)
    → ((a : AuthorizationRow) → p a ≡ true → Moves op a t)
    → StatusMoves op (get k m) (get k (restatus p t m))
restatus-StatusMoves op p t k m h =
    rw (get-restatus p t k m) (restatus_row-StatusMoves op p t (get k m) h)

pub and_true : (a b : Bool) → a && b ≡ true → (a ≡ true) × (b ≡ true)
and_true a b h = ground arith

pub Result-cases :
    {A : Type 0} (r : Result A)
    → ((a : A) × (r ≡ Result.ok a)) ⊎ ((e : RepositoryError) × (r ≡ Result.thrown e))
Result-cases (Result.ok a) = inl (a, refl)
Result-cases (Result.thrown e) = inr (e, refl)
