-- ===== src/Runner/Execution.antt =====
-- `executeJob` of src/lib/runner/execution.ts. What happens outside during one iteration of its loop
-- is an `Iteration`: any gateway, the guarded one included, with its answers.
use obolos.Prelude.{ℕ, zero, suc, String, Bool, true, false, Option, none, some, ok}
use obolos.Prelude.{err}
use obolos.Contracts.{Run, Gateway, live}
use obolos.Engine.{Env}
use obolos.Engine.Create.{RunInput, create_run}
use obolos.Engine.Step.{advance_run, message_of}
use obolos.Runner.{RunnerJob, RunnerPins}
use obolos.Runner.Mandate.{Checks, validate_job}
use obolos.Runner.Journal.{Hashes, WriteEnd, start, checkpoint, finish, existing, is_terminal}
use obolos.Runner.Journal.{stop_uncertain, Outcome}
use obolos.Runner.Once.{JournalState, after}

pub record Iteration : Type 0 where
  pub env : Env
  pub gateway : Gateway
  pub aborted : Bool
  pub end : WriteEnd

-- How the call ended: what it left of the run and the journal, and what it threw.
pub record Ended : Type 0 where
  pub run : Option Run
  pub journal : JournalState
  pub error : Option String

abbrev pub ended_with : Run → Outcome → Ended
ended_with run o = record { run = some run; journal = after o; error = o.error }

abbrev pub stopped : JournalState → Option Run → String → Ended
stopped s run message = record { run = run; journal = s; error = some message }

module _ (world : ℕ → Iteration) (id : String) where
  abbrev pub finished_with : ℕ → JournalState → Run → Ended
  finished_with i s run = ended_with run (finish (world i).end s.file s.journal id run)

  -- The `while` with the `finish` behind it, from iteration `i` on; `none` when the fuel is spent.
  unfoldable pub run_loop : ℕ → ℕ → JournalState → Run → Option Ended
  unfolding advance_run checkpoint finish stop_uncertain
  run_loop zero i s run = none
  run_loop (suc fuel) i s run = elim (is_terminal run.status) [
    | true ↦ some (finished_with i s run)
    | false ↦ elim (world i).aborted [
      | true ↦ some (finished_with i s (stop_uncertain (world i).env run))
      | false ↦ elim (advance_run (world i).env (world i).gateway run) [
        | err message ↦ some (stopped s (some run) message)
        | ok stepped ↦
            let o = checkpoint (world i).end s.file s.journal id stepped in
            elim o.error [
              | some message ↦ some (ended_with stepped o)
              | none ↦ run_loop fuel (suc i) (after o) stepped
            ]
      ]
    ]
  ]

-- The request that the job makes of the engine.
abbrev pub run_input : RunnerJob → RunInput
run_input job = record {
  repos = job.repos;
  mode = live;
  mandate = record {
    data_budget_atomic = some job.mandate.data_budget_atomic;
    max_data_unit_price_atomic = some job.mandate.max_data_unit_price_atomic;
    verification_budget_atomic = some job.mandate.verification_budget_atomic;
    allowed_providers = some job.mandate.allowed_providers;
    expires_at = job.mandate.expires_at;
    verification_service = job.mandate.verification_service;
  };
}

module _ (hashes : Hashes) (world : ℕ → Iteration) where
  -- From the `start` on, with the run that the engine made.
  unfoldable pub start_and_loop : ℕ → WriteEnd → JournalState → RunnerJob → Run → Option Ended
  unfolding run_loop start
  start_and_loop fuel end s job run =
      let o = start hashes end s.file s.journal job run in
      elim o.error [
        | some message ↦ some (ended_with run o)
        | none ↦ run_loop world job.id fuel 0 (after o) run
      ]

  -- `id` is the random identifier that `createRun` gives before the job's own replaces it.
  unfoldable pub create_and_start :
      ℕ → Env → WriteEnd → String → JournalState → RunnerJob → Option Ended
  unfolding start_and_loop create_run
  create_and_start fuel env end id s job = elim (create_run env id (run_input job)) [
    | err message ↦ some (stopped s none message)
    | ok run ↦ start_and_loop fuel end s job (record run { id = job.id })
  ]

  unfoldable pub execute_job :
      ℕ → Env → Checks → RunnerPins → WriteEnd → String → JournalState → RunnerJob → Option Ended
  unfolding create_and_start validate_job existing
  execute_job fuel env checks pins end id s job = elim (existing hashes s.journal job) [
    | err message ↦ some (stopped s none message)
    | ok true ↦ some (record { run = none; journal = s; error = none })
    | ok false ↦ elim (validate_job checks job pins) [
      | err thrown ↦ some (stopped s none (message_of thrown))
      | ok _ ↦ create_and_start fuel env end id s job
    ]
  ]
