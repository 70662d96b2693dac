-- ===== src/Store/Tests.antt =====
-- The store of src/lib/store.ts with one sample run.
use obolos.Prelude.{◌≡◌, refl, [], ◌∷◌, some, none, find}
use obolos.Contracts.{live}
use obolos.Engine.Create.{create_run}
use obolos.Engine.Samples.{sample_env, fresh_run, sample_gateway}
use obolos.Store.{StoredRun, is_record, get, mutate, mark_intent}
use obolos.Store.Interrupted.{IsStopped, advance_action, interrupted-IsStopped}

abbrev stored : StoredRun
stored = record { owner = "me"; run = fresh_run; in_flight = none }

stored_lem : find (is_record "me" "run-1") (stored ∷ []) ≡ some stored
unfolding create_run
stored_lem = refl

stored-live : stored.run.mode ≡ live
unfolding create_run
stored-live = refl

interrupted-IsStopped_example :
    IsStopped stored.run
      (get sample_env "me" "run-1" (mark_intent sample_env "me" "run-1" (stored ∷ [])))
    × IsStopped stored.run
        (mutate sample_env "me" "run-1"
          (advance_action sample_env (sample_gateway 100000))
          (mark_intent sample_env "me" "run-1" (stored ∷ []))).answer
interrupted-IsStopped_example =
    interrupted-IsStopped sample_env sample_env (sample_gateway 100000) "me" "run-1" (stored ∷ [])
      stored stored_lem stored-live
