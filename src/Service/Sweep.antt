-- ===== src/Service/Sweep.antt =====
-- apps/api/src/authorization/service.ts: `sweepExpiredStepUps`, with `listExpiredPendingStepUps`.
use waysafe.Prelude.{ℕ, Bool, ◌&&◌, List, [], ◌∷◌, Text, if◌then◌else◌, length}
use waysafe.Time.{Formatter}
use waysafe.Ledger.{AuthorizationRow, Repository, Result}
use waysafe.Ledger.Operations.{StepUpOutcome, is_pending, resolve_step_up}
use waysafe.Ledger.Save.{values}
use waysafe.Service.StepUp.{has_lapsed}

-- `listExpiredPendingStepUps`: mandate ids and authorization ids.
abbrev pub is_expired_pending : ℕ → AuthorizationRow → Bool
is_expired_pending now a = is_pending a.status && has_lapsed a.step_up_expires_at now

unfoldable pub list_expired_pending_step_ups : ℕ → List AuthorizationRow → List (Text × Text)
list_expired_pending_step_ups now [] = []
list_expired_pending_step_ups now (a ∷ rows) =
    let rest = list_expired_pending_step_ups now rows in
    if is_expired_pending now a then (a.mandate_id, a.id) ∷ rest else rest

-- A resolution that throws is only logged.
abbrev pub or_else_same : Repository → Result Repository → Repository
or_else_same s (Result.ok t) = t
or_else_same s (Result.thrown e) = s

unfoldable pub sweep : Formatter → ℕ → List (Text × Text) → Repository → Repository
sweep intl now [] s = s
sweep intl now ((mandate_id, id) ∷ rest) s =
    sweep intl now rest
      (or_else_same s (resolve_step_up intl s mandate_id id StepUpOutcome.expired now))

-- The store after `sweepExpiredStepUps`, and how many it went through.
unfoldable pub sweep_expired_step_ups : Formatter → Repository → ℕ → Repository × ℕ
unfolding sweep list_expired_pending_step_ups
sweep_expired_step_ups intl s now =
    let expired = list_expired_pending_step_ups now (values s.authorizations) in
    (sweep intl now expired s, length expired)
