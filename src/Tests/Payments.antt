-- ===== src/Tests/Payments.antt =====
-- apps/api/src/execution: the execution of a sample authorization.
use waysafe.Prelude.{refl, [], txt}
use waysafe.Ledger.{AuthorizationStatus}
use waysafe.Ledger.Maps.{get}
use waysafe.Execution.{
  ExecutableAuthorization, paid, declined, PaymentAdapter, ExecutionRepos, execution_request,
  execute_payment,
}
use waysafe.Execution.Payments.{IsPaidOut, execute_payment-IsPaidOut}
use waysafe.Prelude.{if◌then◌else◌, ltb}
use waysafe.Tests.Ledgers.{row, ready}
use waysafe.Tests.Services.{env}

-- An adapter that pays up to 50 dollars.
abbrev adapter : PaymentAdapter
adapter = record {
  name = txt "stripe";
  execute = λ r. if ltb 5000 r.amount then declined (txt "too much") else paid (txt "ch_1") 30;
}

abbrev repos : ExecutionRepos
repos = record { authorization = ready; evidence = [] }

abbrev executable : ExecutableAuthorization
executable = record { authorization = row AuthorizationStatus.authorized; brand = refl }

execute_payment-IsPaidOut_example :
    IsPaidOut
      (row AuthorizationStatus.authorized)
      repos
      (adapter.execute (execution_request (row AuthorizationStatus.authorized) (txt "pm_1")))
      (execute_payment env adapter 7 repos executable (txt "pm_1"))
unfolding get
execute_payment-IsPaidOut_example =
    execute_payment-IsPaidOut env adapter 7 repos executable (txt "pm_1") refl
