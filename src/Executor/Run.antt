-- ===== src/Executor/Run.antt =====
-- `runEconomyExecutor` of lib/economy/executor.ts: what it opens, and which way it takes.
use obolos.Prelude.{String, Bool, true, false, ◌||◌, not, Option, none, some, ltb, ◌==◌, string_eq}
use obolos.Prelude.{Result, ok, err, throw_if, if◌then◌else◌}
use obolos.Stateful.{Stateful, lift, ◌>>=◌, ◌>>◌}
use obolos.Executor.{ExecutorPhase, prepared, aborted, File, missing, unreadable, contents}
use obolos.Executor.{ExecutorInput, ExecutorState, Desk, Answers, Runtime}
use obolos.Executor.Stages.{persist, release, amount_of, is_aborting, abort_order, verify_aborted}
use obolos.Executor.Stages.{resume}

-- `read`
unfoldable pub read_file : {A : Type 0} → File A → Result String (Option A)
read_file missing = ok none
read_file unreadable = err "Invalid executor journal; preserve it for inspection."
read_file (contents a) = ok (some a)

abbrev pub is_bad_intent : ExecutorInput → Bool
is_bad_intent intent =
    not (intent.service_hash == intent.definition.service_hash)
    || ltb intent.max_amount_atomic (amount_of intent)

abbrev pub is_other_intent : Runtime → ExecutorInput → Option ExecutorState → Bool
is_other_intent runtime intent none = false
is_other_intent runtime intent (some state) =
    not (state.intent_hash == runtime.hash_intent intent)
    || not (runtime.hash_intent state.intent == runtime.hash_intent intent)

abbrev pub is_other_holder : ExecutorInput → Option String → Bool
is_other_holder intent none = false
is_other_holder intent (some id) = not (id == intent.order_id)

abbrev pub new_state : Runtime → ExecutorInput → String → ExecutorState
new_state runtime intent versions = record {
  intent = intent;
  intent_hash = runtime.hash_intent intent;
  versions = versions;
  phase = prepared;
  abort_hash = none;
  abort_revoke_required = false;
  request = none;
  payment_hash = none;
  output = "";
  output_hash = none;
  acknowledgment_hash = none;
}

-- The stored order, or a new one.
unfoldable pub open_order :
    Runtime → ExecutorInput → Answers → Option ExecutorState → Stateful Desk ExecutorState
open_order runtime intent a (some state) = lift (ok state)
open_order runtime intent a none = do
  lift (throw_if a.abort_unpaid "No stored unpaid order to abort.")
  versions ← lift (a.preflight 0)
  persist (a.save_end 0) (new_state runtime intent versions)
  lift (ok (new_state runtime intent versions))

abbrev pub is_aborted : ExecutorPhase → Bool
is_aborted aborted = true
is_aborted _ = false

abbrev pub confirm_aborted : Answers → ExecutorState → Stateful Desk ExecutorState
confirm_aborted a state = verify_aborted a state >> (release (a.unlink_end 2) >> lift (ok state))

unfoldable pub take_way :
    Runtime → Answers → Option String → ExecutorState → Stateful Desk ExecutorState
unfolding verify_aborted abort_order resume
take_way runtime a held state =
    if is_aborted state.phase
    then confirm_aborted a state
    else if a.abort_unpaid || is_aborting state.phase
    then abort_order runtime a state
    else resume runtime a held state

abbrev pub read_journal : Stateful Desk (Option ExecutorState)
read_journal s = (s, read_file s.journal)

abbrev pub read_reservation : Stateful Desk (Option String)
read_reservation s = (s, read_file s.reservation)

abbrev pub authenticate : Answers → Result String (Unit {0})
authenticate a = if a.abort_unpaid then ok tt else a.authenticated 0

unfoldable pub run_executor : Runtime → ExecutorInput → Answers → Stateful Desk ExecutorState
unfolding read_file open_order take_way
run_executor runtime intent a = do
  lift a.valid
  lift (throw_if (is_bad_intent intent) "Service or maximum amount mismatch.")
  stored ← read_journal
  lift (
      throw_if (is_other_intent runtime intent stored)
        "Order intent is immutable; preserve the original input and journal.")
  lift (authenticate a)
  held ← read_reservation
  lift (
      throw_if (is_other_holder intent held)
        "Another order holds the allowance reservation; reconcile that order first.")
  state ← open_order runtime intent a stored
  take_way runtime a held state
