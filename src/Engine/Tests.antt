-- ===== src/Engine/Tests.antt =====
-- The run engine of src/lib/engine.ts on sample runs.
use obolos.Prelude.{◌≡◌, ◌⊎◌, refl, ok, some, true, Option, String, ℕ, arith, is_hex_text}
use obolos.Contracts.{Run, completed, awaiting_approval, live}
use obolos.Policy.{verify_audit, assess_quote}
use obolos.Engine.Choose.{eligible_providers}
use obolos.Engine.Samples.{sample_env, sample_hash, sample_input, sample_gateway, fresh_run}
use obolos.Engine.Samples.{quoted_run, complete_run, waiting_run, approved_run, sample_signature}
use obolos.Engine.Samples.{advanced_run}
use obolos.Engine.Create.{create_run}
use obolos.Engine.Step.{advance_run}
use obolos.Engine.Control.{approve_run}
use obolos.Engine.Pay.{approved_provider}
use obolos.Engine.Moves.{Reached, created, moved, advanced, approved}
use obolos.Engine.Sound.{IsSound}
use obolos.Engine.Reached.{Reached-IsSound}
use obolos.Engine.Approvals.{IsApproved, approve_run-IsApproved}
use obolos.Engine.Authority.{Move-mandate, Reached-verify_audit}
use obolos.Engine.Cheapest.{IsBestChoice, approved_provider-IsBestChoice}

complete_run_lem : complete_run.status ≡ completed
unfolding create_run advanced_run eligible_providers assess_quote
complete_run_lem = refl

waiting_run_lem : waiting_run.status ≡ awaiting_approval
unfolding create_run advanced_run eligible_providers assess_quote
waiting_run_lem = refl

approval_lem : approve_run sample_env waiting_run (some sample_signature) ≡ ok approved_run
unfolding create_run advanced_run eligible_providers assess_quote approve_run is_hex_text
approval_lem = refl

advanced_lem :
    (price : ℕ) (run : Run)
    → run.mode ≡ live
    → advance_run sample_env (sample_gateway price) run ≡ ok (advanced_run price run)
unfolding advance_run advanced_run
advanced_lem price run m = ground arith

fresh_run-Reached : Reached sample_hash fresh_run
unfolding create_run
fresh_run-Reached = created sample_env "run-1" sample_input refl refl

advanced_run-Reached :
    (price : ℕ) (run : Run) → Reached sample_hash run → Reached sample_hash (advanced_run price run)
advanced_run-Reached price run r = moved sample_env refl r (
    advanced (sample_gateway price)
      (advanced_lem price run (Reached-IsSound sample_hash r).live_mode))

pub quoted_run-Reached : (price : ℕ) → Reached sample_hash (quoted_run price)
quoted_run-Reached price =
    advanced_run-Reached price _ (advanced_run-Reached price _ fresh_run-Reached)

complete_run-Reached : Reached sample_hash complete_run
complete_run-Reached =
    advanced_run-Reached 100000 _
      (advanced_run-Reached 100000 _ (advanced_run-Reached 100000 _ (quoted_run-Reached 100000)))

waiting_run-Reached : Reached sample_hash waiting_run
waiting_run-Reached = advanced_run-Reached 250000 _ (quoted_run-Reached 250000)

Reached-IsSound_example : IsSound complete_run
Reached-IsSound_example = Reached-IsSound sample_hash complete_run-Reached

Reached-verify_audit_example : verify_audit sample_hash complete_run.events ≡ true
Reached-verify_audit_example = Reached-verify_audit sample_hash complete_run-Reached

waiting_run-live : waiting_run.mode ≡ live
waiting_run-live = (Reached-IsSound sample_hash waiting_run-Reached).live_mode

approve_run-IsApproved_example :
    IsApproved sample_env waiting_run approved_run (some sample_signature)
approve_run-IsApproved_example =
    approve_run-IsApproved sample_env waiting_run approved_run (some sample_signature)
      waiting_run-live approval_lem

Move-mandate_example :
    (approved_run.mandate ≡ waiting_run.mandate)
    ⊎ ((signature : Option String) × IsApproved sample_env waiting_run approved_run signature)
Move-mandate_example =
    Move-mandate sample_env waiting_run approved_run waiting_run-live
      (approved (some sample_signature) approval_lem)

approved_provider-IsBestChoice_example :
    IsBestChoice sample_env (quoted_run 100000) (approved_provider sample_env (quoted_run 100000))
approved_provider-IsBestChoice_example =
    approved_provider-IsBestChoice sample_env (quoted_run 100000)
