-- ===== src/Runner/Journal.antt =====
-- src/lib/runner/journal.ts: the runner's journal, in memory and on disk. A method returns the
-- file and the object that it leaves, and the error that it threw. SHA-256 over the JSON of a job
-- and of a mandate are the parameters of `Hashes`.
use obolos.Prelude.{ℕ, String, Bool, true, false, ◌&&◌, ◌||◌, not, List, [], ◌∷◌, ◌++◌, map}
use obolos.Prelude.{Option, none, some, leb, ◌==◌, string_eq, if◌then◌else◌, length, any, all}
use obolos.Prelude.{keep, find, is_distinct, lit, Result, ok, err}
use obolos.Contracts.{Run, RunStatus, failed, completed, awaiting_approval, broker, blocked}
use obolos.Engine.{Env, log}
use obolos.Runner.{RunnerJob, SignedMandate}

pub record Hashes : Type 0 where
  pub of_job : RunnerJob → String
  pub of_mandate : SignedMandate → String

pub data EntryState : Type 0 where
  started finished acknowledged : EntryState

pub record Entry : Type 0 where
  pub job : RunnerJob
  pub fingerprint : String
  pub state : EntryState
  pub run : Run

pub record JournalData : Type 0 where
  pub agent_id : String
  pub jobs : List Entry

-- The journal's file: not there, not readable as a journal of version 1, or its contents.
pub data JournalFile : Type 0 where
  missing unreadable : JournalFile
  contents : JournalData → JournalFile

pub record RunnerJournal : Type 0 where
  pub closed : Bool
  pub poisoned : Bool
  pub entries : JournalData

-- How a write ends: the file is replaced; it fails before the rename, or after it.
pub data WriteEnd : Type 0 where
  written lost half_done : WriteEnd

pub record Outcome : Type 0 where
  pub file : JournalFile
  pub journal : RunnerJournal
  pub error : Option String

abbrev uncertain_error : String
uncertain_error =
    "Execution interrupted; settlement may be uncertain. Reconcile the local broker journal manually. This job will never execute again."

unfoldable pub stop_uncertain : Env → Run → Run
stop_uncertain env run =
    log env (record run { status = failed; error = some uncertain_error }) broker blocked
      "Runner execution interrupted" (lit uncertain_error ∷ [])

abbrev pub is_started : EntryState → Bool
is_started started = true
is_started _ = false

abbrev pub is_finished : EntryState → Bool
is_finished finished = true
is_finished _ = false

unfoldable pub recover_entry : Env → Entry → Entry
unfolding stop_uncertain
recover_entry env e =
    if is_started e.state then record e { run = stop_uncertain env e.run; state = finished } else e

unfoldable pub is_healthy : RunnerJournal → Bool
is_healthy j = not (j.closed || j.poisoned)

abbrev unhealthy : String
unhealthy = "Runner journal is closed or requires recovery."

-- `persist`, after `assertHealthy`.
unfoldable pub persist : WriteEnd → JournalFile → RunnerJournal → Outcome
unfolding is_healthy
persist end file j =
    if is_healthy j
    then elim end [
      | written ↦ record { file = contents j.entries; journal = j; error = none }
      | lost ↦ record {
        file = file;
        journal = record j { poisoned = true };
        error = some "write failed";
      }
      | half_done ↦ record {
        file = contents j.entries;
        journal = record j { poisoned = true };
        error = some "sync failed";
      }
    ]
    else record { file = file; journal = j; error = some unhealthy }

abbrev pub refuse : JournalFile → RunnerJournal → String → Outcome
refuse file j message = record { file = file; journal = j; error = some message }

abbrev pub entry_of : String → List Entry → Option Entry
entry_of id = find (λ e. e.job.id == id)

abbrev pub runs_of : SignedMandate → List Entry → List Entry
runs_of m = keep (λ e. e.job.mandate.id == m.id)

abbrev pub entry_is_intact : Hashes → String → Entry → Bool
entry_is_intact hashes agent e =
    (e.job.agent_id == agent) && (e.run.id == e.job.id) && (e.fingerprint == hashes.of_job e.job)

abbrev pub is_there : Option Entry → Bool
is_there none = false
is_there (some e) = true

module _ (hashes : Hashes) where
  -- The integrity check of `open`.
  unfoldable pub is_intact : String → JournalData → Bool
  is_intact agent d =
      is_distinct (map (λ (e : Entry). e.job.id) d.jobs)
      && all (entry_is_intact hashes agent) d.jobs

  -- `RunnerJournal.open`, under its lock: the journal, or the error and an unchanged file.
  unfoldable pub load : Env → WriteEnd → String → JournalFile → Outcome
  unfolding is_intact recover_entry persist
  load env end agent missing = persist end missing (record {
    closed = false;
    poisoned = false;
    entries = record { agent_id = agent; jobs = [] };
  })
  load env end agent unreadable =
      refuse unreadable
        (record {
          closed = true;
          poisoned = false;
          entries = record { agent_id = agent; jobs = [] };
        })
        "Runner journal is corrupt or unreadable. Manual reconciliation required."
  load env end agent (contents d) =
      let shut : RunnerJournal = record { closed = true; poisoned = false; entries = d } in
      if not (d.agent_id == agent)
      then refuse (contents d) shut
          "Runner journal does not match the pinned agent or journal version."
      else if not (is_intact agent d)
      then refuse (contents d) shut
          "Runner journal integrity check failed. Manual reconciliation required."
      else persist end (contents d) (record {
        closed = false;
        poisoned = false;
        entries = record d { jobs = map (recover_entry env) d.jobs };
      })

  abbrev pub is_run_limit : ℕ → Bool
  is_run_limit n = leb 1 n && leb n 10

  abbrev pub is_changed : RunnerJob → Option Entry → Bool
  is_changed job none = false
  is_changed job (some e) = not (e.fingerprint == hashes.of_job job)

  unfoldable pub existing : RunnerJournal → RunnerJob → Result String Bool
  unfolding is_healthy
  existing j job =
      let found = entry_of job.id j.entries.jobs in
      if not (is_healthy j)
      then err unhealthy
      else if is_changed job found
      then err "Existing job parameters changed."
      else ok (is_there found)

  abbrev pub new_entry : RunnerJob → Run → Entry
  new_entry job run = record {
    job = job;
    fingerprint = hashes.of_job job;
    state = started;
    run = run;
  }

  -- `start`, with `existing` in it; the file is written at the end only.
  unfoldable pub start : WriteEnd → JournalFile → RunnerJournal → RunnerJob → Run → Outcome
  unfolding persist is_healthy
  start end file j job run =
      let jobs = j.entries.jobs in
      let found = entry_of job.id jobs in
      let previous = runs_of job.mandate jobs in
      let grown = record (j.entries) { jobs = jobs ++ new_entry job run ∷ [] } in
      if not (job.agent_id == j.entries.agent_id) || not (run.id == job.id)
      then refuse file j "Job does not match the pinned agent or run."
      else if not (is_healthy j)
      then refuse file j unhealthy
      else if is_changed job found
      then refuse file j "Existing job parameters changed."
      else if is_there found
      then refuse file j "Job already started; it cannot execute again."
      else if any (λ e. not (hashes.of_mandate e.job.mandate == hashes.of_mandate job.mandate))
          previous
      then refuse file j "Mandate nonce parameters changed."
      else if not (is_run_limit job.mandate.max_runs) || leb job.mandate.max_runs (length previous)
      then refuse file j "Signed mandate run limit exhausted."
      else persist end file (record j { entries = grown })

-- A write to the first entry with the identifier.
unfoldable pub amend : String → (Entry → Entry) → List Entry → List Entry
amend id f [] = []
amend id f (e ∷ es) = if e.job.id == id then f e ∷ es else e ∷ amend id f es

abbrev pub state_is : (EntryState → Bool) → Option Entry → Bool
state_is p none = false
state_is p (some e) = p e.state

abbrev pub is_terminal : RunStatus → Bool
is_terminal completed = true
is_terminal failed = true
is_terminal awaiting_approval = true
is_terminal _ = false

abbrev pub amend_entries : String → (Entry → Entry) → RunnerJournal → RunnerJournal
amend_entries id f j = record j {
  entries = record (j.entries) { jobs = amend id f j.entries.jobs };
}

unfoldable pub checkpoint : WriteEnd → JournalFile → RunnerJournal → String → Run → Outcome
unfolding persist amend
checkpoint end file j id run =
    if not (state_is is_started (entry_of id j.entries.jobs)) || not (run.id == id)
    then refuse file j "Invalid runner checkpoint."
    else persist end file (amend_entries id (λ e. record e { run = run }) j)

unfoldable pub finish : WriteEnd → JournalFile → RunnerJournal → String → Run → Outcome
unfolding persist amend
finish end file j id run =
    if not (state_is is_started (entry_of id j.entries.jobs))
      || not (run.id == id)
      || not (is_terminal run.status)
    then refuse file j "Invalid terminal runner result."
    else persist end file (amend_entries id (λ e. record e { run = run; state = finished }) j)

unfoldable pub acknowledge : WriteEnd → JournalFile → RunnerJournal → String → Outcome
unfolding persist amend
acknowledge end file j id =
    if not (state_is is_finished (entry_of id j.entries.jobs))
    then refuse file j "Invalid runner acknowledgment."
    else persist end file (amend_entries id (λ e. record e { state = acknowledged }) j)

-- `pending`
unfoldable pub pending : RunnerJournal → List Entry
pending j = keep (λ e. is_finished e.state) j.entries.jobs

-- `close`
unfoldable pub close : JournalFile → RunnerJournal → Outcome
close file j = record { file = file; journal = record j { closed = true }; error = none }
