-- ===== src/Runner/Once.antt =====
-- A job that the journal has recorded is never started again, through writes that fail, crashes
-- and reopenings.
use obolos.Prelude.{String, ◌≡◌, refl, ◌≢◌, Bool, true, false, List, [], ◌∷◌, ◌++◌, map}
use obolos.Prelude.{none, string_eq, arith, ◌<◌, ◌≤◌, length}
use obolos.Contracts.{Run}
use obolos.Engine.{Env}
use obolos.Runner.{RunnerJob}
use obolos.Runner.Journal.{Hashes, Entry, JournalFile, missing, unreadable, contents, RunnerJournal}
use obolos.Runner.Journal.{WriteEnd, Outcome, entry_of, is_there, start}
use obolos.Runner.Journal.{
  persist, amend, checkpoint, finish, acknowledge, close, load, recover_entry,
}
use obolos.Runner.Journal.{finished, acknowledged, runs_of}
use obolos.Runner.Journal.{new_entry, amend_entries, is_healthy}

abbrev pub has_entry : String → List Entry → Bool
has_entry id jobs = is_there (entry_of id jobs)

abbrev pub file_has : String → JournalFile → Bool
file_has id missing = false
file_has id unreadable = false
file_has id (contents d) = has_entry id d.jobs

-- The journal as one method left it for the next.
pub record JournalState : Type 0 where
  pub file : JournalFile
  pub journal : RunnerJournal

abbrev pub after : Outcome → JournalState
after o = record { file = o.file; journal = o.journal }

-- One method, or a new process that opens what the last one left.
pub data JournalStep (hashes : Hashes) (s : JournalState) : JournalState → Type 0 where
  starting :
      (end : WriteEnd) (job : RunnerJob) (run : Run)
      → JournalStep hashes s (after (start hashes end s.file s.journal job run))
  checkpointing :
      (end : WriteEnd) (id : String) (run : Run)
      → JournalStep hashes s (after (checkpoint end s.file s.journal id run))
  finishing :
      (end : WriteEnd) (id : String) (run : Run)
      → JournalStep hashes s (after (finish end s.file s.journal id run))
  acknowledging :
      (end : WriteEnd) (id : String)
      → JournalStep hashes s (after (acknowledge end s.file s.journal id))
  closing : JournalStep hashes s (after (close s.file s.journal))
  reopening :
      (env : Env) (end : WriteEnd) (agent : String)
      → JournalStep hashes s (after (load hashes env end agent s.file))

pub data JournalSteps (hashes : Hashes) (s : JournalState) : JournalState → Type 0 where
  here : JournalSteps hashes s s
  next :
      {t u : JournalState}
      → JournalSteps hashes s t
      → JournalStep hashes t u
      → JournalSteps hashes s u

-- The job is in the file and in memory.
abbrev pub IsRecorded : String → JournalState → Type 0
IsRecorded id s = (file_has id s.file ≡ true) × (has_entry id s.journal.entries.jobs ≡ true)

has_entry-append :
    (id : String) (jobs : List Entry) (e : Entry)
    → has_entry id jobs ≡ true
    → has_entry id (jobs ++ e ∷ []) ≡ true
has_entry-append id [] e h = cc
has_entry-append id (x ∷ jobs) e h = ground (arith, has_entry-append id jobs e)

has_entry-amend :
    (id other : String) (f : Entry → Entry) (jobs : List Entry)
    → ((e : Entry) → (f e).job ≡ e.job)
    → has_entry id jobs ≡ true
    → has_entry id (amend other f jobs) ≡ true
unfolding amend
has_entry-amend id other f [] keep h = cc
has_entry-amend id other f (x ∷ jobs) keep h =
    ground (arith, keep x, has_entry-amend id other f jobs keep)

has_entry-recover :
    (env : Env) (id : String) (jobs : List Entry)
    → has_entry id jobs ≡ true
    → has_entry id (map (recover_entry env) jobs) ≡ true
unfolding recover_entry
has_entry-recover env id [] h = cc
has_entry-recover env id (x ∷ jobs) h = ground (arith, has_entry-recover env id jobs)

persist-IsRecorded :
    (id : String) (end : WriteEnd) (file : JournalFile) (j : RunnerJournal)
    → file_has id file ≡ true
    → has_entry id j.entries.jobs ≡ true
    → IsRecorded id (after (persist end file j))
unfolding persist
persist-IsRecorded id end file j f h = ground arith

module _ (hashes : Hashes) (id : String) where
  start-IsRecorded :
      (end : WriteEnd) (file : JournalFile) (j : RunnerJournal) (job : RunnerJob) (run : Run)
      → file_has id file ≡ true
      → has_entry id j.entries.jobs ≡ true
      → IsRecorded id (after (start hashes end file j job run))
  unfolding start
  start-IsRecorded end file j job run f h =
      ground (arith, has_entry-append id j.entries.jobs (new_entry hashes job run))

  amended-IsRecorded :
      (other : String) (change : Entry → Entry) (end : WriteEnd) (file : JournalFile)
      (j : RunnerJournal)
      → ((e : Entry) → (change e).job ≡ e.job)
      → file_has id file ≡ true
      → has_entry id j.entries.jobs ≡ true
      → IsRecorded id (after (persist end file (amend_entries other change j)))
  amended-IsRecorded other change end file j keep f h =
      persist-IsRecorded id end file (amend_entries other change j) f
        (has_entry-amend id other change j.entries.jobs keep h)

  load-IsRecorded :
      (env : Env) (end : WriteEnd) (agent : String) (file : JournalFile)
      → file_has id file ≡ true
      → IsRecorded id (after (load hashes env end agent file))
  unfolding load
  load-IsRecorded env end agent missing f = cc
  load-IsRecorded env end agent unreadable f = cc
  load-IsRecorded env end agent (contents d) f = ground (arith, has_entry-recover env id d.jobs)

  JournalStep-IsRecorded :
      (s t : JournalState) → JournalStep hashes s t → IsRecorded id s → IsRecorded id t
  unfolding checkpoint finish acknowledge close
  JournalStep-IsRecorded s t (starting end job run) (f, h) =
      start-IsRecorded end s.file s.journal job run f h
  JournalStep-IsRecorded s t (checkpointing end other run) (f, h) = ground (
    arith,
    amended-IsRecorded other (λ e. record e { run = run }) end s.file s.journal (λ e. refl),
  )
  JournalStep-IsRecorded s t (finishing end other run) (f, h) = ground (
    arith,
    amended-IsRecorded other (λ e. record e { run = run; state = finished }) end s.file s.journal
        (λ e. refl),
  )
  JournalStep-IsRecorded s t (acknowledging end other) (f, h) = ground (
    arith,
    amended-IsRecorded other (λ e. record e { state = acknowledged }) end s.file s.journal
        (λ e. refl),
  )
  JournalStep-IsRecorded s t closing (f, h) = (f, h)
  JournalStep-IsRecorded s t (reopening env end agent) (f, h) =
      load-IsRecorded env end agent s.file f

  JournalSteps-IsRecorded :
      {s t : JournalState} → IsRecorded id s → JournalSteps hashes s t → IsRecorded id t
  JournalSteps-IsRecorded h here = h
  JournalSteps-IsRecorded h (next {t} {u} r st) =
      JournalStep-IsRecorded t u st (JournalSteps-IsRecorded h r)

has_entry_new :
    (hashes : Hashes) (jobs : List Entry) (job : RunnerJob) (run : Run)
    → has_entry job.id (jobs ++ new_entry hashes job run ∷ []) ≡ true
has_entry_new hashes [] job run = ground (arith, string_eq.same_iff job.id job.id)
has_entry_new hashes (x ∷ jobs) job run = ground (arith, has_entry_new hashes jobs job run)

-- What an accepted start found and left.
pub record IsStarted (hashes : Hashes) (s : JournalState) (job : RunnerJob) (run : Run)
    (o : Outcome) : Type 0 where
  pub pinned : job.agent_id ≡ s.journal.entries.agent_id
  pub healthy : is_healthy s.journal ≡ true
  pub fresh : has_entry job.id s.journal.entries.jobs ≡ false
  pub room : length (runs_of job.mandate s.journal.entries.jobs) < job.mandate.max_runs
  pub limit : job.mandate.max_runs ≤ 10
  pub appended : o.journal.entries.jobs ≡ s.journal.entries.jobs ++ new_entry hashes job run ∷ []
  pub stored : o.file ≡ contents o.journal.entries

-- A start that throws nothing is for the pinned agent, on a healthy journal that does not hold the
-- job, with a run of the mandate (ten at most) to spare, and the job stands in the file after it.
pub start-IsStarted :
    (hashes : Hashes) (s : JournalState) (end : WriteEnd) (job : RunnerJob) (run : Run)
    → (start hashes end s.file s.journal job run).error ≡ none
    → IsStarted hashes s job run (start hashes end s.file s.journal job run)
unfolding start
start-IsStarted hashes s end job run e =
    ground (arith, string_eq.same_iff job.agent_id s.journal.entries.agent_id)

start_refused :
    (hashes : Hashes) (s : JournalState) (end : WriteEnd) (job : RunnerJob) (run : Run)
    → has_entry job.id s.journal.entries.jobs ≡ true
    → ((start hashes end s.file s.journal job run).error ≢ none)
      × ((start hashes end s.file s.journal job run).file ≡ s.file)
unfolding start
start_refused hashes s end job run h = (λ e. ground arith, ground arith)

-- Once a job was started without an error, every later start with its identifier throws and writes
-- nothing, whatever methods, failed writes, crashes and reopenings lie between.
pub start_once :
    (hashes : Hashes) (s t : JournalState) (end again : WriteEnd) (job other : RunnerJob)
    (run run' : Run)
    → (start hashes end s.file s.journal job run).error ≡ none
    → JournalSteps hashes (after (start hashes end s.file s.journal job run)) t
    → other.id ≡ job.id
    → ((start hashes again t.file t.journal other run').error ≢ none)
      × ((start hashes again t.file t.journal other run').file ≡ t.file)
start_once hashes s t end again job other run run' e steps same =
    let st = start-IsStarted hashes s end job run e in
    let o = start hashes end s.file s.journal job run in
    let stands : has_entry job.id o.journal.entries.jobs ≡ true =
      rw st.appended (has_entry_new hashes s.journal.entries.jobs job run) in
    let recorded : IsRecorded job.id (after o) = (rw st.stored stands, stands) in
    start_refused hashes t again other run'
      (rw same (JournalSteps-IsRecorded hashes job.id recorded steps).1)
