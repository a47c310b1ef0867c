-- ===== src/Tests/Samples.antt =====
-- Sample data for the tests: a merchant directory, a policy, an action and a clock.
use waysafe.Prelude.{ℕ, ◌/◌, ◌%◌, true, false, none, some, List, [], ◌∷◌, txt}
use waysafe.Prelude.Int.{pos}
use waysafe.Merchant.Types.{
  MerchantScheme, MerchantRef, MerchantAssertion, MerchantDirectory, MerchantDirectoryEntry,
}
use waysafe.Merchant.Directory.{create_static_directory}
use waysafe.Policy.{
  UnlistedDisposition, LimitWindow, Basis, Accounting, Operator, Scalar, ConstraintValue, Currency,
  Policy, ProposedAction,
}
use waysafe.Time.{Formatter}
use waysafe.Engine.Types.{EngineInput, empty_spend_snapshot}
use waysafe.Engine.Trust.{agent_input}

abbrev pub no_assertion : MerchantAssertion
no_assertion = record {
  name = none;
  domain = none;
  psp_account = none;
  network_mid = none;
  mcc = none;
  onchain_address = none;
}

abbrev pub staples_entry : MerchantDirectoryEntry
staples_entry = record {
  domain = txt "staples.com";
  display_name = txt "Staples";
  mcc = some (txt "5943");
  hosts = some (txt "shop.staples.com" ∷ []);
  include_subdomains = none;
}

abbrev pub entries : List MerchantDirectoryEntry
entries = staples_entry ∷ []

abbrev pub directory : MerchantDirectory
directory = create_static_directory entries

abbrev pub staples_ref : MerchantRef
staples_ref = record { scheme = MerchantScheme.domain; value = txt "staples.com" }

abbrev pub blocked_ref : MerchantRef
blocked_ref = record { scheme = MerchantScheme.domain; value = txt "blocked.com" }

-- 2026-09-08, a Tuesday, at the instant's own time of day.
abbrev pub tuesday : Formatter
tuesday zone now = record {
  year = 2026;
  month = 9;
  day = 8;
  hour = now / 3600000 % 24;
  minute = now / 60000 % 60;
}

abbrev pub accounting : Accounting
accounting = record {
  timezone = txt "UTC";
  basis = Basis.authorization;
  reserve_on_step_up = true;
  refunds_credit_budget = false;
}

abbrev pub policy : Policy
policy = record {
  currency = Currency.usd;
  per_transaction_max = some 10000;
  cumulative_limits =
      record { window = LimitWindow.day; max_amount = 20000; max_count = some 3 } ∷ [];
  merchants = record {
    allow = staples_ref ∷ [];
    deny = blocked_ref ∷ [];
    unlisted = UnlistedDisposition.step_up;
    step_up_on_first_use = false;
  };
  categories = record {
    allow = txt "office" ∷ [];
    deny = [];
    deny_mcc = txt "7995" ∷ [];
    unlisted = UnlistedDisposition.deny;
  };
  step_up = record { above_amount = some 5000; above_cumulative = none; ttl_seconds = 900 };
  escalation = record { approvers = [] };
  accounting = accounting;
  time_window = some (record {
    days_of_week = some (1 ∷ 2 ∷ 3 ∷ 4 ∷ 5 ∷ []);
    start_time = some (txt "09:00");
    end_time = some (txt "17:00");
  });
  constraints =
      record {
        key = txt "nights";
        operator = Operator.lte;
        value = ConstraintValue.scalar (Scalar.number (pos 3));
        required = true;
      }
      ∷ [];
  expires_at = some 90000000;
}

abbrev pub staples_assertion : MerchantAssertion
staples_assertion = record no_assertion { domain = some (txt "https://www.staples.com/deals") }

-- 40 dollars of office supplies.
abbrev pub action : ProposedAction
action = record {
  amount = 4000;
  currency = Currency.usd;
  merchant = staples_assertion;
  category = some (txt "office");
  description = none;
  attestations = (txt "nights", Scalar.number (pos 2)) ∷ [];
  payment_method_ref = none;
}

-- Ten o'clock.
abbrev pub ten : ℕ
ten = 36000000

abbrev pub input : EngineInput
input = agent_input policy action empty_spend_snapshot directory 0 ten

-- The same action at a blocked merchant.
abbrev pub with_blocked : EngineInput
with_blocked =
    agent_input policy
      (record action { merchant = record no_assertion { domain = some (txt "blocked.com") } })
      empty_spend_snapshot directory 0 ten

-- The same action for 60 dollars.
abbrev pub with_large : EngineInput
with_large =
    agent_input policy (record action { amount = 6000 }) empty_spend_snapshot directory 0 ten
