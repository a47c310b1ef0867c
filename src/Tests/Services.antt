-- ===== src/Tests/Services.antt =====
-- apps/api/src/authorization/service.ts: the theorems at a sample request.
use waysafe.Prelude.{
  ◌≡◌, ◌≢◌, ◌∙◌, if◌then◌else◌, refl, true, false, none, some, [], Text, txt, text_eq, text_eq_iff,
}
use waysafe.Ledger.{
  AuthorizationStatus, AgentStatus, AuthorizationRow, MandateRow, Repository, Result, entries_of,
}
use waysafe.Ledger.Maps.{get, set}
use waysafe.Evidence.{Platform, EvidenceSigner}
use waysafe.Evidence.Append.{IsHonest}
use waysafe.AgentKeys.{AgentKeys, take, create_key}
use waysafe.Service.{
  Environment, AuthorizeRepos, AuthorizeParams, AuthorizationRequest, AuthorizeResult, decided,
  idempotency_conflict, no_mandate,
}
use waysafe.Service.Authorize.{authorize, request_hash}
use waysafe.Reason.{Decision}
use waysafe.Ledger.Snapshot.{get_spend_snapshot}
use waysafe.Ledger.Caps.{WithinLimits}
use waysafe.Ledger.Counts.{IsNewTo}
use waysafe.Service.{should_reserve}
use waysafe.Service.Limits.{IsKeyed, authorize-WithinLimits}
use waysafe.Service.Receipts.{HasReceipt, authorize-HasReceipt, authorize-EveryChain}
use waysafe.Service.Replay.{authorize_twice}
use waysafe.Evidence.{signing_key, list_for_organization}
use waysafe.Evidence.Chain.{no_events}
use waysafe.Evidence.Append.{NamesSigner, EveryChain}
use waysafe.Tests.Decisions.{allow_test}
use waysafe.Engine.Evaluate.{evaluate}
use waysafe.Ledger.Snapshot.{sum_where}
use waysafe.Engine.Rollup.{roll_up_window}
use waysafe.Service.Grant.{Granted, authorize-Granted}
use waysafe.Tests.Samples.{tuesday, policy, action, directory, ten, input}
use waysafe.Tests.Ledgers.{row, mandate, ready}

-- A stand-in for Node: the digest is the beginning of the text, and a signature is the hash.
abbrev pub node : Platform
node = record {
  sha256 = take 24;
  to_iso_string = λ n. txt "2026-09-08T10:00:00.000Z";
  verify = λ key hash signature. text_eq signature hash;
}

abbrev pub signer : EvidenceSigner
signer = record { key_id = txt "k1"; public_key = txt "pk"; sign = λ h. h }

abbrev pub env : Environment
env = record { intl = tuesday; node = node; signer = signer; directory = directory }

-- The key of the agent g1, with the text that it presents.
abbrev pub created : AgentKeys × Text
created =
    create_key node.sha256 (record { by_id = []; by_prefix = [] }) (txt "o1") (some (txt "g1"))
      (txt "key1") (txt "12345678") (txt "secret") 1

abbrev pub repos : AuthorizeRepos
repos = record {
  authorization = record ready { ledger_by_mandate = []; authorizations = [] };
  agent_keys = created.0;
  evidence = [];
}

abbrev pub params : AuthorizeParams
params = record {
  organization_id = txt "o1";
  request = record {
    agent_id = txt "g1";
    principal_id = txt "p1";
    mandate_id = none;
    action = action;
    idempotency_key = some (txt "order-77");
  };
  now = ten;
  api_key = created.1;
  id = txt "a2";
  clock = 0;
}

-- The row of a decision.
abbrev pub row_of : Result AuthorizeResult → AuthorizationRow
row_of (Result.ok (decided a replayed)) = a
row_of _ = row AuthorizationStatus.denied

abbrev pub sample_row : AuthorizationRow
sample_row = row_of (authorize env params repos).1

sample_test : (authorize env params repos).1 ≡ Result.ok (decided sample_row false)
unfolding authorize waysafe.Service.Authorize.replay waysafe.Ledger.Save.find_by_idempotency_key get
    waysafe.Ledger.Gate.resolve_mandate_gate waysafe.Service.verify_agent_key
    waysafe.AgentKeys.verify_key create_key set waysafe.Service.record_decision
    waysafe.Ledger.Save.save_authorization
sample_test = refl

sample_verdict : sample_row.decision ≡ (evaluate tuesday input).decision
unfolding authorize waysafe.Service.Authorize.replay waysafe.Ledger.Save.find_by_idempotency_key get
    waysafe.Ledger.Gate.resolve_mandate_gate waysafe.Service.verify_agent_key
    waysafe.AgentKeys.verify_key create_key set waysafe.Service.record_decision
    waysafe.Ledger.Save.save_authorization waysafe.Ledger.Gate.authorized_mandate_gate
    get_spend_snapshot sum_where roll_up_window
sample_verdict = refl

sample_decision : sample_row.decision ≡ Decision.allow
sample_decision = sample_verdict ∙ allow_test

sample_not_deny : sample_row.decision ≢ Decision.deny
sample_not_deny h = let t = sample_decision in cc

sample_mandate : sample_row.mandate_id ≡ txt "m1"
unfolding authorize waysafe.Service.Authorize.replay waysafe.Ledger.Save.find_by_idempotency_key get
    waysafe.Ledger.Gate.resolve_mandate_gate waysafe.Service.verify_agent_key
    waysafe.AgentKeys.verify_key create_key set waysafe.Service.record_decision
    waysafe.Ledger.Save.save_authorization
sample_mandate = refl

sample_IsKeyed : IsKeyed repos.authorization.mandates
unfolding get
sample_IsKeyed = (refl, tt)

sample_found : get sample_row.mandate_id repos.authorization.mandates ≡ some mandate
unfolding get
sample_found = rw sample_mandate refl

sample_reserves :
    should_reserve sample_row.decision mandate.current_version.policy.accounting.reserve_on_step_up
    ≡ true
unfolding should_reserve
sample_reserves = rw sample_decision refl

authorize-Granted_example :
    Granted env params repos (authorize env params repos).0.authorization sample_row
authorize-Granted_example =
    authorize-Granted env params repos sample_row sample_test sample_not_deny

-- The ledger of the mandate is empty.
sample_IsNewTo : IsNewTo sample_row.id (entries_of repos.authorization sample_row.mandate_id)
unfolding get
sample_IsNewTo = tt

authorize-WithinLimits_example :
    WithinLimits
      (get_spend_snapshot tuesday
        (authorize env params repos).0.authorization
        sample_row.mandate_id
        policy.accounting
        ten
        none)
      policy.cumulative_limits
authorize-WithinLimits_example =
    authorize-WithinLimits env params repos sample_row mandate sample_IsKeyed sample_test
      sample_found sample_reserves sample_IsNewTo

authorize-HasReceipt_example :
    HasReceipt env (txt "o1") repos (authorize env params repos).0 sample_row
authorize-HasReceipt_example = authorize-HasReceipt env params repos sample_row sample_test

-- The same key with another amount, a day later, by whoever.
abbrev other_params : AuthorizeParams
other_params = record params {
  request = record params.request { action = record action { amount = 9900 } };
  now = 90000000;
  api_key = txt "none";
  id = txt "a3";
}

authorize_twice_example :
    let after = (authorize env params repos).0 in
    authorize env other_params after ≡ (
      after,
      Result.ok (
          if text_eq (request_hash env params) (request_hash env other_params)
          then decided sample_row true
          else idempotency_conflict sample_row),
    )
authorize_twice_example =
    authorize_twice env params other_params repos sample_row (txt "order-77") sample_test refl refl
      refl refl

pub signer_IsHonest : IsHonest node signer
signer_IsHonest h = (text_eq_iff h h).1 refl

sample_NamesSigner : NamesSigner node signer none
unfolding signing_key
sample_NamesSigner e h = refl

authorize-EveryChain_example :
    EveryChain node signer none signer_IsHonest sample_NamesSigner
      (authorize env params repos).0.evidence
unfolding list_for_organization get
authorize-EveryChain_example =
    authorize-EveryChain env params none signer_IsHonest sample_NamesSigner repos (λ o. no_events)
