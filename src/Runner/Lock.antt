-- ===== src/Runner/Lock.antt =====
-- `runner.lock` of src/lib/runner/journal.ts: `RunnerJournal.open` takes it before it reads the file and
-- `close` removes it; a process that dies leaves it, until an operator takes it away by hand
-- (docs/runner-setup.md).
use obolos.Prelude.{String, ◌≡◌, true, not, Option, none, some, all, if◌then◌else◌}
use obolos.Contracts.{Run}
use obolos.Engine.{Env}
use obolos.Runner.{RunnerJob}
use obolos.Runner.Journal.{Hashes, Entry, WriteEnd}
use obolos.Runner.Journal.{load, start, checkpoint, finish, acknowledge, is_healthy}
use obolos.Runner.Journal.{is_started}
use obolos.Runner.Once.{JournalState, after}
use obolos.Runner.Recovery.{ids, ids_in}

pub data Lock : Type 0 where
  free held : Lock

-- The directory with its lock, and the journal of the process that works in it or worked last.
pub record Locked : Type 0 where
  pub lock : Lock
  pub state : JournalState

-- What `open` leaves: the lock, the file, and a journal or an error.
pub record Opening : Type 0 where
  pub lock : Lock
  pub state : JournalState
  pub error : Option String

abbrev pub lock_error : String
lock_error =
    "Runner lock exists or cannot be created. Stop other writers and reconcile any stale lock manually."

-- The lock stays with a journal that opened, and an open that throws removes it.
abbrev lock_after : Option String → Lock
lock_after none = held
lock_after (some e) = free

-- `RunnerJournal.open`; a second process throws at the lock and touches nothing.
unfoldable pub open_journal : Hashes → Env → WriteEnd → String → Locked → Opening
open_journal hashes env end agent d = elim d.lock [
  | held ↦ record { lock = held; state = d.state; error = some lock_error }
  | free ↦
      let o = load hashes env end agent d.state.file in
      record { lock = lock_after o.error; state = after o; error = o.error }
]

-- `close`: a journal that failed to write keeps its lock, and closing again does nothing.
unfoldable pub close_journal : Locked → Locked
close_journal d =
    let j = d.state.journal in
    if j.closed then d else record {
      lock = if j.poisoned then d.lock else free;
      state = record { file = d.state.file; journal = record j { closed = true } };
    }

-- The process dies: its journal is of no use, and file and lock stay.
abbrev dead : JournalState → JournalState
dead s = record { file = s.file; journal = record (s.journal) { closed = true } }

abbrev with_state : Locked → JournalState → Locked
with_state d s = record { lock = d.lock; state = s }

abbrev pub opened : Opening → Locked
opened o = record { lock = o.lock; state = o.state }

-- A method of the journal, a normal stop, a death, an attempt to open, or the operator's removal of
-- the lock of a process that is gone.
pub data LockedStep (hashes : Hashes) (d : Locked) : Locked → Type 0 where
  lock_starting :
      (end : WriteEnd) (job : RunnerJob) (run : Run)
      → LockedStep hashes d
          (with_state d (after (start hashes end d.state.file d.state.journal job run)))
  lock_checkpointing :
      (end : WriteEnd) (id : String) (run : Run)
      → LockedStep hashes d
          (with_state d (after (checkpoint end d.state.file d.state.journal id run)))
  lock_finishing :
      (end : WriteEnd) (id : String) (run : Run)
      → LockedStep hashes d (with_state d (after (finish end d.state.file d.state.journal id run)))
  lock_acknowledging :
      (end : WriteEnd) (id : String)
      → LockedStep hashes d (with_state d (after (acknowledge end d.state.file d.state.journal id)))
  lock_closing : LockedStep hashes d (close_journal d)
  dying : LockedStep hashes d (with_state d (dead d.state))
  opening :
      (env : Env) (end : WriteEnd) (agent : String)
      → LockedStep hashes d (opened (open_journal hashes env end agent d))
  reconciling :
      d.state.journal.closed ≡ true → LockedStep hashes d (record { lock = free; state = d.state })

pub data LockedSteps (hashes : Hashes) (d : Locked) : Locked → Type 0 where
  lock_here : LockedSteps hashes d d
  lock_next :
      {t u : Locked} → LockedSteps hashes d t → LockedStep hashes t u → LockedSteps hashes d u

-- While the lock stands, opening throws and leaves everything as it is. Without it the file opens: the
-- lock is taken, and the journal is healthy and holds the jobs of the file in order, none started.
abbrev pub IsOpening : Lock → JournalState → Opening → Type 0
IsOpening held s o = (o.error ≡ some lock_error) × (o.state ≡ s) × (o.lock ≡ held)
IsOpening free s o =
    (o.error ≡ none)
    × (o.lock ≡ held)
    × (is_healthy o.state.journal ≡ true)
    × (all (λ (e : Entry). not (is_started e.state)) o.state.journal.entries.jobs ≡ true)
    × (ids o.state.journal.entries.jobs ≡ ids_in s.file)
