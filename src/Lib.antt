-- ===== src/Lib.antt =====
-- Verification of Waysafe's authorization core (packages/core), of its ledger, its authorization service and
-- its evidence (apps/api).
--
-- Waysafe decides whether an agent may spend a principal's money. A policy (policy.ts) says what is
-- delegated; `evaluate` (engine/evaluate.ts) holds a proposed action (domain.ts) against it, given the
-- merchant as resolved (merchant.ts), the spend so far in each window (engine/window-rollup.ts) and the
-- clock (time.ts), and answers with reasons (reason-codes.ts) and a decision ALLOW, STEP_UP or DENY. The
-- repository (apps/api/src/authorization) keeps the authorizations and, for each mandate, the ledger of
-- holds, captures and credits that the windows sum up.
--
-- Files and code:
--   Prelude/            lists, texts, Boolean tests and integers that all parts share
--   Reason              packages/core/src/reason-codes.ts: Decision, ReasonCode, decisionForReasonCode
--   Policy              packages/core/src/policy.ts, domain.ts, money.ts: the types the engine reads
--   Time, Time/Keys     packages/core/src/time.ts: zonedParts, windowKeys
--   Merchant/Types      packages/core/src/merchant.ts: schemes, trust, references, directory entries
--   Merchant/Domain     normalizeDomain, domainMatches; Domain/Laws has its laws
--   Merchant/Matching   findMatchingRef, satisfiesAllowlist, matchesDenylist, verifiedMerchantKeys
--   Merchant/Matches    what those decide, without their loops
--   Merchant/Resolve    resolveMerchant, summarizeTrust; Merchant/Trust says what is verified
--   Merchant/Directory  createStaticDirectory; Merchant/Hosts says which hosts it vouches for
--   Engine/Types        packages/core/src/engine/types.ts
--   Engine/Window       evaluateExpiry, evaluateCurrency, evaluateTimeWindow, parseClockTime
--   Engine/Checks       evaluateMerchant, evaluateCategory, evaluateConstraints, constraintSatisfied
--   Engine/Limits       evaluateLimits, evaluateStepUpThresholds
--   Engine/Evaluate     evaluate: all_reasons gathers, combine decides
--   Engine/Spec         what a policy promises: Permits and Tolerates, stated without the engine
--   Engine/Combine, Timing, Budget, Claims, Categories, Counterparty, Verdict
--                       each dimension against the specification, put together in Verdict
--   Engine/Monotone     decisions on different amounts
--   Engine/Trust        the engine together with resolveMerchant
--   Engine/Rollup       packages/core/src/engine/window-rollup.ts: rollUpWindow; Rollup/Counting and
--                       Rollup/Slots have its laws
--   Ledger              apps/api/src/authorization/in-memory-repository.ts: the store; Ledger/Maps its maps
--   Ledger/Operations   resolveStepUp, recordStepUpApprovalHold, recordExecution, recordRefund,
--                       getAuthorizationHold, windowKeysFor
--   Ledger/Sums, Execution, Refunds, StepUp
--                       the sums over a ledger, and what each operation does to them
--   Ledger/Gate         resolveMandateGate, findActiveMandate, withAuthorizedMandate's gate, and
--                       apps/api/src/authorization/mandate-gate.ts; Ledger/Access says whom they let through
--   Ledger/Approvers    checkApproverCycle
--   Ledger/Lifecycle    the repository's operations and the moves of a status; Lifecycle/Steps one operation's,
--                       Lifecycle/Final sequences of them
--   Ledger/Save         saveAuthorization, findByIdempotencyKey and actor.ts; Ledger/Idempotency says what a
--                       key finds
--   Ledger/Snapshot     getSpendSnapshot, seenMerchants; Ledger/Windows, Counts and Caps say how saving and
--                       executing move the windows
--   Json                sortKeysDeep and canonicalizePolicy (policy.ts), JSON.stringify; Json/Order has its law
--   Wire                the texts and JSON objects of decisions, reasons, merchants and actions
--   Evidence            packages/core/src/evidence.ts and apps/api/src/evidence/in-memory-repository.ts;
--                       Evidence/Chain says what verifies, Evidence/Append what appendEvent makes
--   AgentKeys           apps/api/src/agent-keys: createKey, verifyKey, revokeKey; AgentKeys/Credentials says
--                       what a key is good for
--   Engine/Cumulative   what a result without a cumulative denial means
--   Service             apps/api/src/authorization/service.ts: recordDecision, verifyAgentKey; idempotency.ts
--   Service/Authorize   authorize
--   Service/Sound, Grant, Record, Limits, Replay, Receipts
--                       what stands behind a decision, what it reserves, what a replay gives, its events
--   Service/StepUp      resolveStepUpAsApprover, writeStepUpEvidence; Service/Sweep sweepExpiredStepUps
--   Service/Settling, Approval, Boundary
--                       what an approval rests on, and the windows that its hold is entered in
--   Execution           apps/api/src/execution: asExecutable, executePayment; Execution/Payments says what an
--                       execution does to the books
--   Ledger/External     settleExternalAuthorization and releaseExternalAuthorization; Ledger/External/Settled
--                       says what they leave
--   Tests/              sample data, runs and examples
--
-- How the code is read. Functions are pure, so they are functions by clauses; `null` and
-- `undefined` are `none`; a loop is recursion on its list; an early return is a branch of a
-- conditional; what throws is a value of `Result`. Fuel stands in `digits` alone, where the number
-- itself is enough. The store is passed from call to call; an operation of the repository runs
-- under the mandate's lock, so it is one step, and the returned row is left out, since the store
-- has it. A `Map` is an association list in order of insertion. Texts are lists of ASCII codes.
-- Amounts of actions and limits are natural numbers, as the schemas demand; sums of ledger amounts
-- and the numbers of constraints are integers, so no number exceeds a safe integer or has a
-- fraction. Instants are milliseconds since the epoch; an `expires_at` that does not parse is
-- `none`. A reason keeps its code and its policy path and drops message and detail. Attestations
-- are looked up in an association list, which leaves the keys of Object.prototype aside. The
-- schemas admit USD only; the currency type has a second constructor for other texts, so that the
-- test has two outcomes. `Intl.DateTimeFormat` is outside the repository: the parts it gives are a
-- parameter of `evaluate`. A `Date.UTC` date is its number of days, for years from 100 on.
-- `resolveMerchant` takes the clock reading as an argument, as in the source.
--
-- The service. `authorize` and `resolveStepUpAsApprover` pass three stores along (AuthorizeRepos): the
-- authorizations, the agent keys and the events of each organization; a call that throws leaves what it
-- wrote before. Node's SHA-256, `toISOString` and signature check are a record of parameters, and so is the
-- signer. Ids that a generator makes are arguments. The JSON texts that are hashed are built from the model's
-- values, with object keys that are no array indices; numbers in them are integers.
--
-- Not modelled: the repository's settlement without an authorization and its creation of mandates and
-- agents, the Prisma repositories, the adapters of the payment providers, webhooks, the rails, key handling,
-- the policy compiler, the HTTP server, the SDK and the dashboard. The parsing of policies and requests by zod
-- schemas is taken as done: the model starts from parsed values. The prose of a reason is in no model of an
-- event. Calls run one at a time: the locks' interleavings are left out.
pub mod Prelude
pub mod Reason
pub mod Merchant
pub mod Policy
pub mod Time
pub mod Engine
pub mod Ledger
pub mod Json
pub mod Evidence
pub mod Wire
pub mod AgentKeys
pub mod Service
pub mod Execution
pub mod Tests
