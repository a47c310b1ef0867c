-- ===== src/Tests/Stores.antt =====
-- apps/api/src/authorization/in-memory-repository.ts: snapshots and idempotency keys at a sample store.
use waysafe.Prelude.{All, ◌≡◌, refl, none, some, [], ◌∷◌, txt}
use waysafe.Policy.{LimitWindow}
use waysafe.Engine.Types.{window_spend}
use waysafe.Ledger.{
  ActorKind, AuthorizationStatus, AuthorizationRow, Repository, RepositoryError, Result, entries_of,
}
use waysafe.Ledger.Maps.{get}
use waysafe.Ledger.Operations.{execute}
use waysafe.Ledger.Save.{
  SaveAuthorizationInput, save_authorization, find_by_idempotency_key, has_conflict,
}
use waysafe.Ledger.Snapshot.{get_spend_snapshot}
use waysafe.Ledger.Caps.Executed.{execute-window}
use waysafe.Ledger.Idempotency.{save_authorization_conflict}
use waysafe.Ledger.External.{
  release_external_authorization, settle_external_authorization, SettlementOutcome,
  SettleExternalInput, external_rows, by_revision, insert_row, last_row,
}
use waysafe.Ledger.External.Settled.{
  IsClosed, IsFreed, settle_external_authorization-IsClosed, release_external_authorization-IsFreed,
}
use waysafe.Tests.Samples.{tuesday, policy, ten}
use waysafe.Tests.Ledgers.{row, ready, held}

execute-window_example :
    window_spend
      (get_spend_snapshot tuesday
        (execute tuesday ready (txt "a1") (row AuthorizationStatus.authorized) 7)
        (txt "m1")
        policy.accounting
        ten
        none)
      LimitWindow.day
    ≡ window_spend
        (get_spend_snapshot tuesday ready (txt "m1") policy.accounting ten none)
        LimitWindow.day
unfolding get
execute-window_example =
    execute-window tuesday ready (txt "a1") (row AuthorizationStatus.authorized) 7 ten
      policy.accounting none LimitWindow.day held refl refl refl refl

-- A rail's authorization is stored already.
abbrev recorded : Repository
recorded = record ready {
  authorizations =
      (
        txt "a1",
        record (row AuthorizationStatus.authorized) { external_ref = some (txt "iauth_1") },
      )
      ∷ [];
}

-- It comes again, with an idempotency key.
abbrev again : SaveAuthorizationInput
again =
    let a = row AuthorizationStatus.authorized in
    record {
      id = txt "a2";
      organization_id = txt "o1";
      actor_kind = ActorKind.agent;
      agent_id = some (txt "g1");
      instrument_id = none;
      principal_id = txt "p1";
      mandate_id = txt "m1";
      mandate_version_id = txt "v1";
      policy_hash = txt "h";
      decision = a.decision;
      status = a.status;
      reasons = [];
      action = a.action;
      merchant = a.merchant;
      idempotency_key = some (txt "order-77");
      request_hash = none;
      external_ref = some (txt "iauth_1");
      external_revision = none;
      step_up_expires_at = none;
      now = ten;
      ledger_entries = [];
    }

save_authorization_conflict_example :
    let s' = (save_authorization tuesday recorded again).0 in
    ((save_authorization tuesday recorded again).1
      ≡ Result.thrown RepositoryError.external_ref_conflict)
    × (s'.authorizations ≡ recorded.authorizations)
    × (s'.ledger_by_mandate ≡ recorded.ledger_by_mandate)
    × (find_by_idempotency_key s' (txt "o1") (txt "order-77")
        ≡ get (txt "a2") recorded.authorizations)
    × ((save_authorization tuesday s' again).1
        ≡ Result.thrown RepositoryError.idempotency_key_claimed)
unfolding get has_conflict waysafe.Ledger.Save.is_valid_actor
save_authorization_conflict_example =
    save_authorization_conflict tuesday recorded again again (txt "order-77") refl refl refl refl
      refl refl refl refl

-- The network takes more than was authorized.
abbrev settled : SettleExternalInput
settled = record {
  mandate_id = txt "m1";
  external_ref = txt "iauth_1";
  settled_amount = 5200;
  settled_currency = txt "usd";
}

settle_external_authorization-IsClosed_example :
    let a = record (row AuthorizationStatus.authorized) { external_ref = some (txt "iauth_1") } in
    (t : Repository) × (o : SettlementOutcome) × (settle_external_authorization tuesday recorded 7
        settled
      ≡ Result.ok (t, o))
    × IsClosed a
        (by_revision (external_rows recorded (txt "m1") (txt "iauth_1")))
        5200
        (entries_of recorded (txt "m1"))
        (entries_of t (txt "m1"))
unfolding external_rows by_revision insert_row last_row
settle_external_authorization-IsClosed_example =
    settle_external_authorization-IsClosed tuesday recorded 7 settled
      (record (row AuthorizationStatus.authorized) { external_ref = some (txt "iauth_1") }) refl
      refl

release_external_authorization-IsFreed_example :
    All
      (λ (a : AuthorizationRow).
        IsFreed
          (entries_of recorded (txt "m1"))
          (entries_of
            (release_external_authorization tuesday recorded 7 (txt "m1") (txt "iauth_1")).0
            (txt "m1"))
          a.id)
      (external_rows recorded (txt "m1") (txt "iauth_1"))
release_external_authorization-IsFreed_example =
    release_external_authorization-IsFreed tuesday recorded 7 (txt "m1") (txt "iauth_1")
