-- ===== src/Runner/Tests.antt =====
-- The runner of src/lib/runner on a sample job.
use obolos.Prelude.{
  Option, ◌⊎◌, ◌≡◌, ◌≢◌, refl, ℕ, String, [], ◌∷◌, some, none, true, false, ok, err, is_hex_text,
}
use obolos.Contracts.{Run}
use obolos.Engine.Samples.{sample_env, fresh_run, sample_evidence, sample_signature}
use obolos.Runner.{RunnerJob, SignedMandate}
use obolos.Runner.Journal.{Hashes, JournalData, contents, written, half_done}
use obolos.Runner.Journal.{start, load, checkpoint, existing}
use obolos.Runner.Once.{JournalState, JournalSteps, here, next, after, checkpointing, reopening}
use obolos.Runner.Once.{IsStarted, start-IsStarted, start_once}
use obolos.Runner.Lock.{Locked, free}
use obolos.Contracts.{DataPurchase, completed, RunStatus}
use obolos.Policy.{assess_quote}
use obolos.Engine.Create.{create_run}
use obolos.Engine.Choose.{eligible_providers}
use obolos.Engine.Step.{advance_run, is_stopped}
use obolos.Engine.Sound.{IsSound}
use obolos.Engine.Reached.{Reached-IsSound}
use obolos.Engine.Tests.{quoted_run-Reached}
use obolos.Engine.Samples.{quoted_run, advanced_run, sample_gateway, sample_hash}
use obolos.Runner.Signed.{IsAuthorized, validate_job-IsAuthorized}
use obolos.Runner.Progress.{HasAdvanced, stage_rank, advance_run-HasAdvanced}
use obolos.Runner.Execution.{Iteration, Ended, execute_job, run_loop}
use obolos.Runner.Ends.{EndsWell, execute_job-ends}
use obolos.Runner.{RunnerPins}
use obolos.Runner.Mandate.{Checks, date_discrete, validate_job, date_eq}
use obolos.Prelude.{codes}
use obolos.Runner.Message.{mandate_message}
use obolos.Runner.Guard.{admit_purchase, fresh_guard, note_purchase}
use obolos.Runner.Capability.{Session, opened, called, bought, IsWithinScope}
use obolos.Runner.Capability.{Calls-IsWithinScope}

abbrev unsigned : SignedMandate
unsigned = record {
  id = "m1";
  agent_id = "agent";
  owner = "0x00000000000000000000000000000000000000Aa";
  origin = "https://app";
  repos = "a/b" ∷ [];
  allowed_providers = "repo-standard" ∷ [];
  data_budget_atomic = 300000;
  verification_budget_atomic = 100000;
  max_data_unit_price_atomic = 150000;
  max_runs = 1;
  expires_text = "1970-01-01T00:00:05.000Z";
  expires_at = some 5000;
  verification_service = none;
  message = [];
  signature = sample_signature;
}

-- The text that the owner signs.
message_text :
    mandate_message unsigned
    ≡ codes
        "Obolos isolated runner spending mandate v1\nOrigin: https://app\nMandate: m1\nAgent: agent\nOwner: 0x00000000000000000000000000000000000000aa\nSigning provenance: wallet\nRepositories: [\"a/b\"]\nAllowed providers: [\"repo-standard\"]\nMaximum HBAR atomic units per repository: 150000\nHBAR atomic units per run: 300000\nUSDC atomic units per run: 100000\nMaximum runs: 1\nTotal HBAR atomic units: 300000\nTotal USDC atomic units: 100000\nExpires: 1970-01-01T00:00:05.000Z\nNetwork scope: Hedera testnet and Arc testnet only.\nI authorize my paired runner to execute only this scope. This is spending approval, not an identity login."
unfolding mandate_message
message_text = refl

abbrev mandate : SignedMandate
unfolding mandate_message
mandate = record unsigned { message = mandate_message unsigned }

abbrev job : RunnerJob
job = record { id = "run-1"; agent_id = "agent"; repos = "a/b" ∷ []; mandate = mandate }

abbrev hashes : Hashes
hashes = record { of_job = λ j. j.id; of_mandate = λ m. m.id }

abbrev empty : JournalState
empty =
    let entries : JournalData = record { agent_id = "agent"; jobs = [] } in
    record {
      file = contents entries;
      journal = record { closed = false; poisoned = false; entries = entries };
    }

abbrev run : Run
run = record fresh_run { id = "run-1" }

start_lem : (start hashes written empty.file empty.journal job run).error ≡ none
unfolding start mandate
start_lem = refl

start-IsStarted_example :
    IsStarted hashes empty job run (start hashes written empty.file empty.journal job run)
start-IsStarted_example = start-IsStarted hashes empty written job run start_lem

abbrev started_state : JournalState
started_state = after (start hashes written empty.file empty.journal job run)

-- A write that fails after the rename, and a new process.
abbrev crashed : JournalState
crashed =
    let failed =
      after (checkpoint half_done started_state.file started_state.journal "run-1" run) in
    after (load hashes sample_env written "agent" failed.file)

crash : JournalSteps hashes started_state crashed
crash =
    next (next here (checkpointing half_done "run-1" run)) (reopening sample_env written "agent")

start_once_example :
    ((start hashes written crashed.file crashed.journal job run).error ≢ none)
    × ((start hashes written crashed.file crashed.journal job run).file ≡ crashed.file)
start_once_example =
    start_once hashes empty crashed written written job job run run start_lem crash refl

-- The process died in a checkpoint, and an operator took its lock away.
abbrev reconciled : Locked
reconciled =
    let failed =
      after (checkpoint half_done started_state.file started_state.journal "run-1" run) in
    let shut : JournalState = record {
      file = failed.file;
      journal = record (failed.journal) { closed = true };
    } in
    record { lock = free; state = shut }

abbrev pins : RunnerPins
pins = record {
  origin = "https://app";
  agent_id = "agent";
  owner = "0x00000000000000000000000000000000000000Aa";
}

abbrev all_found : Checks
all_found = record {
  now = 1000;
  is_uuid = λ id. true;
  is_origin = λ o. true;
  is_verification_service = λ s. true;
  verify_message = λ address text signature. true;
}

abbrev request : DataPurchase
request = record {
  run_id = "run-1";
  request_id = "run-1:data";
  repos = "a/b" ∷ [];
  provider_id = "repo-standard";
  max_amount_atomic = 100000;
  unit_price_atomic = 100000;
  mandate_expires_at = some 5000;
}

abbrev bought_session : Session
bought_session = record {
  guard = note_purchase (record fresh_guard { data_started = true }) (sample_evidence ∷ []);
  data_requests = request ∷ [];
  verify_requests = [];
}

purchase_lem :
    admit_purchase job all_found all_found (ok tt) pins fresh_guard request
    ≡ ok (record fresh_guard { data_started = true })
unfolding admit_purchase date_discrete is_hex_text
purchase_lem = refl

-- The same purchase is refused when it is asked for again.
again_lem :
    admit_purchase job all_found all_found (ok tt) pins bought_session.guard request
    ≡ err (some "Data purchase exceeds or differs from the signed scope, or was already attempted.")
unfolding admit_purchase date_discrete is_hex_text
again_lem = refl

Calls-IsWithinScope_example : IsWithinScope job bought_session
Calls-IsWithinScope_example = Calls-IsWithinScope job pins (
    called opened
      (bought all_found all_found (ok tt) _ request (some (sample_evidence ∷ [])) purchase_lem))

job-valid : validate_job all_found job pins ≡ ok tt
unfolding validate_job date_discrete is_hex_text
job-valid = refl

validate_job-IsAuthorized_example : IsAuthorized all_found job pins
validate_job-IsAuthorized_example = validate_job-IsAuthorized all_found job pins job-valid

quoted_run-IsSound : IsSound (quoted_run 100000)
quoted_run-IsSound = Reached-IsSound sample_hash (quoted_run-Reached 100000)

quoted_run-going : is_stopped (quoted_run 100000).status ≡ false
unfolding create_run advanced_run eligible_providers
quoted_run-going = refl

advance_run-HasAdvanced_example :
    (after : Run) × (advance_run sample_env (sample_gateway 100000) (quoted_run 100000) ≡ ok after)
    × HasAdvanced (stage_rank (quoted_run 100000).stage) after
advance_run-HasAdvanced_example =
    advance_run-HasAdvanced sample_env (sample_gateway 100000) (quoted_run 100000)
      quoted_run-IsSound quoted_run-going

abbrev quiet_world : ℕ → Iteration
quiet_world i = record {
  env = sample_env;
  gateway = sample_gateway 100000;
  aborted = false;
  end = written;
}

abbrev status_of : Option Ended → Option RunStatus
status_of none = none
status_of (some e) = elim e.run [ none ↦ none | some r ↦ some r.status ]

abbrev execution : Option Ended
execution = execute_job hashes quiet_world 6 sample_env all_found pins written "id" empty job

execution_lem : status_of execution ≡ some completed
unfolding execute_job create_run existing run_loop eligible_providers assess_quote validate_job
    date_discrete is_hex_text
execution_lem = refl

execute_job-ends_example :
    (e : Ended) × (execution ≡ some e)
    × (((message : String) × (e.error ≡ some message))
        ⊎ (existing hashes empty.journal job ≡ ok true) × (e.journal ≡ empty)
        ⊎ EndsWell job.id e)
execute_job-ends_example =
    execute_job-ends hashes quiet_world sample_env all_found pins written "id" empty job
