-- ===== src/Store/Interrupted.antt =====
-- An operation on a stored run that the process did not survive is never taken up again.
use obolos.Prelude.{String, ◌≡◌, ◌∙◌, refl, List, [], ◌∷◌, Option, none, some}
use obolos.Prelude.{string_eq, find, Result, ok, err, arith}
use obolos.Contracts.{Run, Gateway, failed, live}
use obolos.Engine.{Env}
use obolos.Engine.Step.{advance_run}
use obolos.Store.{StoredRun, InFlight, is_record, recover, mark, mark_intent, mutate, get}
use obolos.Store.{recover_run}

-- `advanceRun` as an action of `mutate`, by its answer.
abbrev pub left_by : Run → Result String Run → Run × Option String
left_by run (ok after) = (after, none)
left_by run (err message) = (run, some message)

abbrev pub advance_action : Env → Gateway → Run → Run × Option String
advance_action env gateway run = left_by run (advance_run env gateway run)

-- The run after the interruption: stopped, with the payments that were on the books.
pub record IsStopped (before : Run) (answer : Result String Run) : Type 0 where
  pub run : Run
  pub answered : answer ≡ ok run
  pub stopped : run.status ≡ failed
  pub same_receipts : run.receipts ≡ before.receipts
  pub same_data : run.data_spent_atomic ≡ before.data_spent_atomic
  pub same_verification : run.verification_spent_atomic ≡ before.verification_spent_atomic

recovered_id : (env : Env) (run : Run) (o : Option InFlight) → (recover_run env run o).id ≡ run.id
recovered_id env run none = refl
recovered_id env run (some flight) = refl

find-mark :
    (env : Env) (owner id : String) (records : List StoredRun) (r : StoredRun)
    → find (is_record owner id) records ≡ some r
    → find (is_record owner id) (mark_intent env owner id records) ≡ some (mark env r)
unfolding mark_intent
find-mark env owner id [] r h = cc
find-mark env owner id (x ∷ records) r h =
    ground (arith, recovered_id env x.run x.in_flight, find-mark env owner id records r)

record SameBooks (run after : Run) : Type 0 where
  mode : after.mode ≡ run.mode
  receipts : after.receipts ≡ run.receipts
  data_spent : after.data_spent_atomic ≡ run.data_spent_atomic
  verification_spent : after.verification_spent_atomic ≡ run.verification_spent_atomic

recovered-SameBooks :
    (env : Env) (run : Run) (o : Option InFlight) → SameBooks run (recover_run env run o)
recovered-SameBooks env run none = record {
  mode = refl;
  receipts = refl;
  data_spent = refl;
  verification_spent = refl;
}
recovered-SameBooks env run (some flight) = record {
  mode = refl;
  receipts = refl;
  data_spent = refl;
  verification_spent = refl;
}

advance_stopped :
    (env : Env) (gateway : Gateway) (run : Run)
    → run.mode ≡ live
    → run.status ≡ failed
    → advance_run env gateway run ≡ ok run
unfolding advance_run
advance_stopped env gateway run m s = rw (m, s) refl

-- If the process dies while it advances a live run, so that only the intent was written, then the next
-- time the run is read, or advanced by any gateway, it is failed and has the receipts and the spending
-- that it had before: the interrupted operation is not repeated.
pub interrupted-IsStopped :
    (env env' : Env) (gateway : Gateway) (owner id : String) (records : List StoredRun)
    (r : StoredRun)
    → find (is_record owner id) records ≡ some r
    → r.run.mode ≡ live
    → IsStopped r.run (get env' owner id (mark_intent env owner id records))
      × IsStopped r.run
          (mutate env' owner id
            (advance_action env' gateway)
            (mark_intent env owner id records)).answer
unfolding get mutate
interrupted-IsStopped env env' gateway owner id records r found m =
    let marked = find-mark env owner id records r found in
    let books = recovered-SameBooks env r.run r.in_flight in
    let again = (recover env' (mark env r)).run in
    let still = advance_stopped env' gateway again (books.mode ∙ m) refl in
    (
      record {
        run = again;
        answered = rw marked refl;
        stopped = refl;
        same_receipts = books.receipts;
        same_data = books.data_spent;
        same_verification = books.verification_spent;
      },
      record {
        run = again;
        answered = rw (marked, still) refl;
        stopped = refl;
        same_receipts = books.receipts;
        same_data = books.data_spent;
        same_verification = books.verification_spent;
      },
    )
