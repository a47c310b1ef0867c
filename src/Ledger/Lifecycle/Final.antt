-- ===== src/Ledger/Lifecycle/Final.antt =====
-- packages/core/src/domain.ts and apps/api/src/authorization/in-memory-repository.ts: what becomes of a final
-- authorization under any sequence of the repository's operations.
use waysafe.Prelude.{
  ◌≡◌, refl, ap, ◌∙◌, ◌⊎◌, inl, inr, true, false, Option, none, some, List, [], ◌∷◌, Text, text_eq,
  Bool, All, Any, ◌&&◌,
}
use waysafe.Time.{Formatter}
use waysafe.Ledger.{AuthorizationStatus, AuthorizationRow, Repository}
use waysafe.Ledger.Maps.{get}
use waysafe.Ledger.Operations.{is_executable, is_pending}
use waysafe.Ledger.Save.{is_ref}
use waysafe.Ledger.Lifecycle.{
  Operation, run, run_all, Moves, stays, executes, resolves, settles, lapses, StatusMoves, Spares,
}
use waysafe.Ledger.Lifecycle.Steps.{run-StatusMoves}

-- The statuses that domain.ts calls terminal, without AUTHORIZED, which waits for its execution.
abbrev pub is_final : AuthorizationStatus → Bool
is_final AuthorizationStatus.denied = true
is_final AuthorizationStatus.step_up_declined = true
is_final AuthorizationStatus.expired = true
is_final AuthorizationStatus.executed = true
is_final _ = false

-- The operation is the settlement of an external reference, this one of this mandate.
abbrev pub Settles : (mandate_id : Text) → (external_ref : Option Text) → Operation → Type 0
Settles m x (Operation.settlement i now) = text_eq m i.mandate_id && is_ref i.external_ref x ≡ true
Settles m x _ = ⊥

final-not-executable : (t : AuthorizationStatus) → is_final t ≡ true → is_executable t ≡ true → ⊥
final-not-executable AuthorizationStatus.authorized h k = cc
final-not-executable AuthorizationStatus.step_up_approved h k = cc
final-not-executable AuthorizationStatus.denied h k = cc
final-not-executable AuthorizationStatus.pending_step_up h k = cc
final-not-executable AuthorizationStatus.step_up_declined h k = cc
final-not-executable AuthorizationStatus.expired h k = cc
final-not-executable AuthorizationStatus.executed h k = cc

final-not-pending : (t : AuthorizationStatus) → is_final t ≡ true → is_pending t ≡ true → ⊥
final-not-pending AuthorizationStatus.authorized h k = cc
final-not-pending AuthorizationStatus.step_up_approved h k = cc
final-not-pending AuthorizationStatus.denied h k = cc
final-not-pending AuthorizationStatus.pending_step_up h k = cc
final-not-pending AuthorizationStatus.step_up_declined h k = cc
final-not-pending AuthorizationStatus.expired h k = cc
final-not-pending AuthorizationStatus.executed h k = cc

-- A final status stays, or a settlement of the row's reference makes it EXECUTED.
final-Moves :
    (op : Operation) (a : AuthorizationRow) (t : AuthorizationStatus)
    → is_final a.status ≡ true
    → Moves op a t
    → (t ≡ a.status) ⊎ ((t ≡ AuthorizationStatus.executed) × Settles a.mandate_id a.external_ref op)
final-Moves op a t h stays = inl refl
final-Moves op a t h (executes e) = absurd (final-not-executable a.status h e)
final-Moves op a t h (resolves e) = absurd (final-not-pending a.status h e)
final-Moves op a t h (settles n) = inr (refl, n)
final-Moves op a t h (lapses n e) = absurd (final-not-executable a.status h e)

row_of_StatusMoves :
    (op : Operation) (a : AuthorizationRow) (o : Option AuthorizationRow)
    → StatusMoves op (some a) o
    → (b : AuthorizationRow) × (o ≡ some b)
      × Moves op a b.status
      × (b ≡ record a { status = b.status })
row_of_StatusMoves op a none h = absurd h
row_of_StatusMoves op a (some b) h = (b, refl, h.0, h.1)

still_final :
    {a : AuthorizationStatus} {S : Type 0} (t : AuthorizationStatus)
    → is_final a ≡ true
    → (t ≡ a) ⊎ ((t ≡ AuthorizationStatus.executed) × S)
    → is_final t ≡ true
still_final t f (inl q) = rw q f
still_final t f (inr (q, _)) = rw q refl

-- What the operations have left of a final authorization.
abbrev pub IsLeft : List Operation → AuthorizationRow → AuthorizationRow → Type 0
IsLeft ops a b =
    (b ≡ record a { status = b.status })
    × ((b.status ≡ a.status)
        ⊎ ((b.status ≡ AuthorizationStatus.executed)
            × Any (Settles a.mandate_id a.external_ref) ops))

IsLeft-cons :
    (op : Operation) (ops : List Operation) (a b c : AuthorizationRow)
    → b ≡ record a { status = b.status }
    → (b.status ≡ a.status)
      ⊎ ((b.status ≡ AuthorizationStatus.executed) × Settles a.mandate_id a.external_ref op)
    → IsLeft ops b c
    → IsLeft (op ∷ ops) a c
IsLeft-cons op ops a b c same first (rest, moved) =
    let whole : c ≡ record a { status = c.status } =
      rest ∙ ap (λ (r : AuthorizationRow). record r { status = c.status }) same in
    let later : (c.status ≡ b.status)
        ⊎ ((c.status ≡ AuthorizationStatus.executed)
            × Any (Settles a.mandate_id a.external_ref) ops) =
      rw same at moved in
    (
      whole,
      elim later [
        | inr (e, q) ↦ inr (e, inr q)
        | inl q ↦ elim first [ inl f ↦ inl (q ∙ f) | inr (e, f) ↦ inr (q ∙ e, inl f) ]
      ],
    )

-- However long a sequence of the operations of `Operation` is, none of which saves an authorization of this id:
-- an authorization stored under the id that is denied, declined, expired or executed stays stored with all but
-- its status. Its status stays too, or it is EXECUTED, and then the sequence has an external settlement of its
-- own mandate and reference.
pub run_all_final :
    (intl : Formatter) (ops : List Operation) (s : Repository) (k : Text) (a : AuthorizationRow)
    → All (Spares k) ops
    → get k s.authorizations ≡ some a
    → is_final a.status ≡ true
    → (b : AuthorizationRow) × (get k (run_all intl ops s).authorizations ≡ some b) × IsLeft ops a b
run_all_final intl [] s k a fresh h f = (a, h, (refl, inl refl))
run_all_final intl (op ∷ ops) s k a fresh h f =
    let t = run intl op s in
    let (b, g, v, same) =
      row_of_StatusMoves op a (get k t.authorizations)
        (rw h at (run-StatusMoves intl s k op fresh.0)) in
    let first = final-Moves op a b.status f v in
    let (c, g', left) = run_all_final intl ops t k b fresh.1 g (still_final b.status f first) in
    (c, g', IsLeft-cons op ops a b c same first left)
