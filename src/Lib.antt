-- ===== src/Lib.antt =====
-- Obolos: agents that buy digital services within the limits that a human owner signed.
--
-- A run buys repository data for HBAR, drafts a report and has it verified for USDC. The run engine
-- advances it stage by stage through a gateway, under a mandate that only a signed approval may
-- change, and keeps a hash chained log. A private runner executes a job once: it checks the signed
-- mandate, guards every capability of the gateway, and keeps a journal on disk.
--
--   Prelude    tests, equality, lists, results and the parts of a template text
--   Contracts  lib/contracts.ts, lib/market/contracts.ts, the interface of lib/gateway.ts
--   Policy     lib/policy.ts: assess_quote (assessQuote), append_audit (appendAudit), verify_audit
--              (verifyAudit); Quotes, Audit and Commits hold what follows
--   Engine     lib/engine.ts and checkReport of lib/gateway.ts. Create: create_run (createRun).
--              Choose, Pay, Verify, Step: advance_run (advanceRun), one function for each stage.
--              Control: apply_shock, approve_run, pause_run. Moves says which calls make the life
--              of a run; Sound, Frame, PurchaseSound, VerifySound and Reached are its invariant,
--              Approvals, Authority and Trail who may change the mandate and what the log shows,
--              Cheapest the choice of the provider
--   Runner     lib/runner and lib/platform/execution-contracts.ts. Message: mandate_message.
--              Mandate: validate_signed_mandate, validate_job. Journal: the methods of
--              RunnerJournal. Lock: open and close under runner.lock. Guard: the gateway of
--              createMandatedGateway. Execution: execute_job (executeJob). Once, Recovery and Lock
--              are about the journal, Scope and Signed about the mandate, Terms and Capability about
--              the guard, Progress and Ends about the loop
--   Tasks      lib/platform/tasks.ts and lib/tasks/model.ts. Plan: create_task_plan (createTaskPlan).
--              Create: create_task (createTask), on the table. Owner, Claim, Report: update_task,
--              claim_task, update_runner_task, which read one row and write the row that stands.
--              Sound, Reported, Kept, Writes and Histories are what the rows of a task keep,
--              Affordable what a plan promises, Idempotent what a creation does
--   Negotiation  lib/hedera/a2a.ts, with validateRepos and createQuote of lib/repository-service.ts.
--              Base64, Schema, Config: the encoding, the schemas, trusted_base, validate_config,
--              create_agent_card. Token: sign, verify_offer (verifyA2AOffer). Seller:
--              validate_seller_offer. Answer: handle_request (handleA2ARequest). Buying:
--              purchase_accepted_offer and validate_evidence (lib/integrations/hedera.ts). Issued,
--              Signed, Agreed, Terms, Deal and Stands are about the offer that is issued, Bounds
--              about one that is verified, Agreement about one that the buyer takes, Codes and
--              Replies about the errors, Paid about the payment
--   OneShot, Stateful  the machine of one attempt that both buyers implement, and actions that
--              keep a state when they throw
--   HtsBuyer   scripts/hedera-token-buyer.ts and the token checks of lib/hedera/commerce.ts: Terms,
--              Receive, Market are its checks, Action its effects, Buy
--              purchase_hts_repositories (purchaseHtsRepositories) and recover. Once and Refines
--              are about the one attempt, Proven and Settled about the result
--   A2aBuyer   scripts/hedera-a2a-buyer.ts: Operation is run_a2a_buyer (runA2ABuyer); Once and
--              Within are about the one attempt and the limits
--   Broker     services/broker.ts: execute (DurablePayments.execute) over the journal of the broker,
--              result, authorization. Calls says what one call may do, Spending what calls add up
--              to, Repeats what a request is answered when it is given again
--   Executor   lib/economy/executor.ts over scripts/economy-circle.ts. Operations: durable_operation
--              (durableOperation), reconcile; Stages and Run: run_executor (runEconomyExecutor);
--              Directory: the files of all orders. Frames, Refresh and Submits are about the
--              operations, InStep, GivenUp, Paid, Finished and Opened about one run, Reached about
--              any runs
--   Platform   lib/platform/execution.ts: classify_runner_status. Terms: the
--              conditions on one part of a result, Upload: validate_runner_result. Payments is about
--              its loop over the receipts, Accepted about what it returns
--   Economy    lib/economy: Reputation (reputation.ts), with its properties in Score, and Receipts
--              (accounting-draft.ts)
--   Store      lib/store.ts: insert, get, and mutate, whose first write is mark_intent; Interrupted is
--              about a process that dies between its writes
--
-- The buyers of the command line negotiate an offer with a seller's agent and pay for it, each
-- operation under one file that is written before anything is sent.
--
-- The paths are below src/ of the repository. State is passed on: an operation that changes a run
-- returns the run that it leaves, an operation that may throw returns a Result, and a step of the
-- engine that throws midway returns the run with the changes made before (Attempt).
--
-- Amounts, counts and versions are natural numbers, as the schemas demand of the input; where the
-- source tests Number.isSafeInteger the bound 2^53 - 1 is written out. A date text is what
-- Date.parse makes of it, with none for NaN, so that dates are compared as instants; the guard's
-- comparison of two expiry texts is a comparison of instants too. The clock is read once for
-- each call of an operation. A template text is the list of its parts, and the text of an approval
-- is the record of the values that it prints; the text of a mandate is written out, with twenty digits
-- at most for a number. Texts are equal by code
-- points, and a length of a text counts them. Where a schema is not written out, an operation takes
-- the arguments that it admits. In the negotiation a date text is what toISOString wrote, or another
-- text with its parsed instant, and texts of dates are compared as texts; dates before 1970 are not
-- modelled. A process that dies is a call whose next write is lost.
--
-- Parameters: SHA-256 over JSON, random identifiers, viem's check of a signature, what zod decides
-- of an identifier, an origin and a verification service, the answers of the gateway, the end of a
-- write to disk (done, lost before the rename, failed after it) and the abort signal; for tasks the
-- hash of a plan, the catalogue with the checks of its definitions and inputs, and the evidence of a
-- paid order; for the negotiation JSON of an offer, HMAC and the parser of URLs, and for the buyers the
-- answers of the seller, the signer, the mirror node and the disk; for the executor the answers of
-- Circle, the chain and the platform. The theorems hold for all of them.
--
-- The loop of executeJob runs on fuel. Six units are enough for every job: each of the at most five
-- steps of the engine ends the run or moves it to the next stage, and one unit is for the finish.
--
-- Not modelled: the HTTP client of the gateway and of the runner, the lock files of the other processes, the routes of the
-- broker and its hash over canonical JSON, the SQL of the platform's runs, the
-- listings of tasks, the platform's other tables, scheduled payments, the policy checks
-- before an order of the executor, the economy's indexer, measurements and recovery, the web application, and the Solidity contracts.
pub mod Prelude
pub mod Contracts
pub mod Policy
pub mod Engine
pub mod Runner
pub mod Tasks
pub mod Negotiation
pub mod OneShot
pub mod Stateful
pub mod HtsBuyer
pub mod A2aBuyer
pub mod Broker
pub mod Executor
pub mod Platform
pub mod Economy
pub mod Store
