-- ===== src/Store.antt =====
-- src/lib/store.ts: the runs on disk. Operations are serialised, so one runs at a time on the
-- snapshot that the last one wrote; a process that dies during `mutate` leaves the first of its two
-- writes.
pub mod Interrupted
pub mod Tests
use obolos.Prelude.{
  ℕ, String, Bool, true, false, ◌&&◌, List, [], ◌∷◌, ◌++◌, Option, none, some, leb, lit,
}
use obolos.Prelude.{date, ◌==◌, string_eq, if◌then◌else◌, length, keep, find, Result, ok, err}
use obolos.Contracts.{Run, Stage, failed, broker, blocked}
use obolos.Policy.{append_audit}
use obolos.Engine.{Env}

pub record InFlight : Type 0 where
  pub stage : Stage
  pub started_at : ℕ

pub record StoredRun : Type 0 where
  pub owner : String
  pub run : Run
  pub in_flight : Option InFlight

abbrev pub interrupted_error : String
interrupted_error =
    "The server restarted during an operation. Reconcile the broker payment journal before starting another job; this operation will not be retried."

abbrev pub stage_name : Stage → String
stage_name Stage.mandate = "mandate"
stage_name Stage.discovery = "discovery"
stage_name Stage.purchase = "purchase"
stage_name Stage.report = "report"
stage_name Stage.verification = "verification"
stage_name Stage.complete = "complete"

abbrev pub stop_interrupted : Env → Run → InFlight → Run
stop_interrupted env run flight = record run {
  status = failed;
  error = some interrupted_error;
  events =
      append_audit env.event_hash env.now (env.uuid (length run.events)) run.events broker blocked
        "Interrupted operation"
        (lit (stage_name flight.stage)
          ∷ lit " started at "
          ∷ date (some flight.started_at)
          ∷ lit ". "
          ∷ lit interrupted_error
          ∷ []);
}

-- `recover`, of the run and of what was in flight.
abbrev pub recover_run : Env → Run → Option InFlight → Run
recover_run env run none = run
recover_run env run (some flight) = stop_interrupted env run flight

abbrev pub recover : Env → StoredRun → StoredRun
recover env r = record r { run = recover_run env r.run r.in_flight; in_flight = none }

abbrev pub is_record : String → String → StoredRun → Bool
is_record owner id r = r.owner == owner && r.run.id == id

-- A change of the first record of the owner with the identifier.
unfoldable pub amend_record :
    String → String → (StoredRun → StoredRun) → List StoredRun → List StoredRun
amend_record owner id f [] = []
amend_record owner id f (r ∷ rs) =
    if is_record owner id r then f r ∷ rs else r ∷ amend_record owner id f rs

abbrev pub run_of : Env → Option StoredRun → Result String Run
run_of env none = err "Run not found."
run_of env (some r) = ok (recover env r).run

unfoldable pub get : Env → String → String → List StoredRun → Result String Run
get env owner id records = run_of env (find (is_record owner id) records)

-- `insert`: the new snapshot.
unfoldable pub insert : String → Run → List StoredRun → Result String (List StoredRun)
insert owner run records =
    if leb 50 (length (keep (λ (r : StoredRun). r.owner == owner) records))
    then err
        "This session has reached 50 jobs. Export your records and start a new browser session."
    else if leb 500 (length records)
    then err "This demo server has reached its run capacity. Ask the operator to archive the data."
    else ok (records ++ record { owner = owner; run = run; in_flight = none } ∷ [])

-- The first write of `mutate`: the record is recovered, and marked.
abbrev pub mark : Env → StoredRun → StoredRun
mark env r =
    let fixed = recover env r in
    record fixed { in_flight = some (record { stage = fixed.run.stage; started_at = env.now }) }

unfoldable pub mark_intent : Env → String → String → List StoredRun → List StoredRun
unfolding amend_record
mark_intent env owner id records = amend_record owner id (mark env) records

-- What `mutate` wrote at last and what it answered. An action returns the run as it left it, with
-- the error that it threw.
pub record Mutated : Type 0 where
  pub records : List StoredRun
  pub answer : Result String Run

abbrev pub answer_of : Run → Option String → Result String Run
answer_of run none = ok run
answer_of run (some message) = err message

abbrev pub mutate_found :
    Env
    → String
    → String
    → (Run → Run × Option String)
    → List StoredRun
    → Option StoredRun
    → Mutated
mutate_found env owner id action records none = record {
  records = records;
  answer = err "Run not found.";
}
mutate_found env owner id action records (some r) =
    let left = action (recover env r).run in
    record {
      records =
          amend_record owner id (λ x. record x { run = left.0; in_flight = none })
            (mark_intent env owner id records);
      answer = answer_of left.0 left.1;
    }

unfoldable pub mutate :
    Env → String → String → (Run → Run × Option String) → List StoredRun → Mutated
unfolding mark_intent
mutate env owner id action records =
    mutate_found env owner id action records (find (is_record owner id) records)
