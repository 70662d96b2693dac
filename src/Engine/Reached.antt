-- ===== src/Engine/Reached.antt =====
-- Every run that is reached by any calls keeps its mandate's budgets and its books.
use obolos.Prelude.{◌≤◌, ◌≡◌, refl, Option, some, List, [], ◌∷◌, arith, String, sym}
use obolos.Prelude.{ok, inl, inr, Bool-cases, false}
use obolos.Prelude.{◌∙◌, subst}
use obolos.Contracts.{Run, Gateway, Stage, running, Receipt}
use obolos.Contracts.{Provider, ApprovalRequest, completed, mode_eq}
use obolos.Contracts.{has_passed}
use obolos.Prelude.{>>=-ok, ok_injective, ◌≢◌}
use obolos.Engine.Approvals.{approve_run-IsApproved}
use obolos.Contracts.{AuditBody}
use obolos.Contracts.{awaiting_approval, failed}
use obolos.Engine.{Env, require_live_run}
use obolos.Engine.Create.{RunInput, create_run}
use obolos.Engine.Step.{by_stage, attempt, settle, advance_run, is_stopped}
use obolos.Engine.Control.{apply_shock, approve_run, accept_approval, pause_run}
use obolos.Engine.Sound.{IsSound, Accounts, ApprovalKeeps, is_completed}
use obolos.Engine.Frame.{Frame-IsSound, step_mandate-IsSound, step_discovery-IsSound}
use obolos.Engine.PurchaseSound.{step_purchase-IsSound}
use obolos.Engine.VerifySound.{step_report-IsSound, step_verification-IsSound}
use obolos.Engine.Moves.{Move, advanced, shocked, approved, toggled, Reached, created, moved}

module _ (env : Env) (gateway : Gateway) where
  by_stage-IsSound :
      (stage : Stage) (run : Run)
      → run.status ≡ running
      → run.stage ≡ stage
      → IsSound run
      → IsSound (settle env (by_stage stage env gateway run))
  unfolding by_stage
  by_stage-IsSound Stage.mandate run s t h = step_mandate-IsSound env run s t h
  by_stage-IsSound Stage.discovery run s t h = step_discovery-IsSound env gateway run s t h
  by_stage-IsSound Stage.purchase run s t h = step_purchase-IsSound env gateway run s t h
  by_stage-IsSound Stage.report run s t h = step_report-IsSound env gateway run s t h
  by_stage-IsSound Stage.verification run s t h = step_verification-IsSound env gateway run s t h
  by_stage-IsSound Stage.complete run s t h = h

  attempt-IsSound :
      (run : Run)
      → run.status ≡ running
      → IsSound run
      → IsSound (settle env (attempt env gateway run))
  unfolding attempt
  attempt-IsSound run s h = elim (Bool-cases (has_passed run.mandate.expires_at env.now)) [
    | inl late ↦ rw late (Frame-IsSound s (ground arith) h)
    | inr early ↦ rw early (by_stage-IsSound run.stage run s refl h)
  ]

-- To go on with a run that is not stopped changes none of its books.
resume-Accounts :
    (receipts : List Receipt) (run : Run)
    → is_stopped run.status ≡ false
    → Accounts receipts run
    → Accounts receipts (record run { status = running })
resume-Accounts [] run o a = ground arith
resume-Accounts (r ∷ []) run o a = ground arith
resume-Accounts (r ∷ s ∷ []) run o a = absurd (ground arith)
resume-Accounts (r ∷ s ∷ t ∷ more) run o a = a

resume-IsSound :
    (run : Run)
    → is_stopped run.status ≡ false
    → IsSound run
    → IsSound (record run { status = running })
resume-IsSound run o h = record {
  live_mode = h.live_mode;
  data_within = h.data_within;
  verification_within = h.verification_within;
  approval = h.approval;
  accounts = resume-Accounts run.receipts run o h.accounts;
}

pub advance_run-IsSound :
    (env : Env) (gateway : Gateway) (run after : Run)
    → advance_run env gateway run ≡ ok after
    → IsSound run
    → IsSound after
unfolding advance_run
advance_run-IsSound env gateway run after e h =
    let (u, _, e') = >>=-ok (require_live_run run) _ e in
    let going = record run { status = running } in
    elim (Bool-cases (is_stopped run.status)) [
      | inl stopped ↦ subst IsSound (ok_injective _ _ (rw stopped at e')) h
      | inr live_on ↦
          subst IsSound (ok_injective _ _ (rw live_on at e'))
            (attempt-IsSound env gateway going refl (resume-IsSound run live_on h))
    ]

-- A change that does not touch the books, on a run that may still be stopped.
record SameBooks (run after : Run) : Type 0 where
  same_id : after.id ≡ run.id
  same_mode : after.mode ≡ run.mode
  more_data : run.mandate.data_budget_atomic ≤ after.mandate.data_budget_atomic
  same_budget : after.mandate.verification_budget_atomic ≡ run.mandate.verification_budget_atomic
  same_data : after.data_spent_atomic ≡ run.data_spent_atomic
  same_verification : after.verification_spent_atomic ≡ run.verification_spent_atomic
  same_receipts : after.receipts ≡ run.receipts
  same_stage : after.stage ≡ run.stage
  open_status : is_completed after.status ≡ false
  was_open : (run.status ≢ completed) × (run.status ≢ failed)
  approval : ApprovalKeeps after.approval after.mandate

SameBooks-Accounts :
    (receipts : List Receipt) (run after : Run)
    → SameBooks run after
    → Accounts receipts run
    → Accounts receipts after
SameBooks-Accounts [] run after f a = ground arith
SameBooks-Accounts (r ∷ []) run after f a = ground arith
SameBooks-Accounts (r ∷ t ∷ []) run after f a = absurd (ground arith)
SameBooks-Accounts (r ∷ t ∷ u ∷ more) run after f a = a

SameBooks-IsSound : (run after : Run) → SameBooks run after → IsSound run → IsSound after
SameBooks-IsSound run after f h = record {
  live_mode = f.same_mode ∙ h.live_mode;
  data_within = omega (arith, f, h);
  verification_within = omega (arith, f, h);
  approval = f.approval;
  accounts =
      subst (λ receipts. Accounts receipts after) (sym f.same_receipts)
        (SameBooks-Accounts run.receipts run after f h.accounts);
}

apply_shock-IsSound :
    (env : Env) (run after : Run) (quotes : Option (List Provider))
    → apply_shock env run quotes ≡ ok after
    → IsSound run
    → IsSound after
unfolding apply_shock
apply_shock-IsSound env run after quotes e h = SameBooks-IsSound run after (ground arith) h

pause_run-IsSound :
    (env : Env) (run after : Run) → pause_run env run ≡ ok after → IsSound run → IsSound after
unfolding pause_run
pause_run-IsSound env run after e h = SameBooks-IsSound run after (ground arith) h

accept_approval-SameBooks :
    (env : Env) (run : Run) (a : ApprovalRequest) (signature : Option String)
    → run.status ≡ awaiting_approval
    → ApprovalKeeps (some a) run.mandate
    → SameBooks run (accept_approval env run a signature)
unfolding accept_approval
accept_approval-SameBooks env run a signature s k = ground arith

approve_run-IsSound :
    (env : Env) (run after : Run) (signature : Option String)
    → approve_run env run signature ≡ ok after
    → IsSound run
    → IsSound after
approve_run-IsSound env run after signature e h =
    let a = approve_run-IsApproved env run after signature h.live_mode e in
    subst IsSound (sym a.result) (
      SameBooks-IsSound run _
        (accept_approval-SameBooks env run a.request signature a.waiting
          (subst (λ o. ApprovalKeeps o run.mandate) a.pending h.approval))
        h)

-- A new run has an empty ledger.
pub create_run-IsSound :
    (env : Env) (id : String) (input : RunInput) (run : Run)
    → create_run env id input ≡ ok run
    → IsSound run
unfolding create_run
create_run-IsSound env id input run e = ground arith

Move-IsSound : (env : Env) (run after : Run) → Move env run after → IsSound run → IsSound after
Move-IsSound env run after (advanced gateway e) h = advance_run-IsSound env gateway run after e h
Move-IsSound env run after (shocked quotes e) h = apply_shock-IsSound env run after quotes e h
Move-IsSound env run after (approved signature e) h =
    approve_run-IsSound env run after signature e h
Move-IsSound env run after (toggled e) h = pause_run-IsSound env run after e h

-- After any calls on a created run: the data spent is within the data budget and the verification
-- spent within the verification budget of its mandate, a pending approval lowers neither and keeps
-- the verification budget and the providers, and the receipts are none, one confirmed data payment,
-- or one data and one verification payment, each for the amount on the books and in step with the
-- stage; a completed run has both, and a report whose checks all passed.
pub Reached-IsSound :
    (event_hash : AuditBody → String) {run : Run} → Reached event_hash run → IsSound run
Reached-IsSound event_hash (created {run} env id input same e) =
    create_run-IsSound env id input run e
Reached-IsSound event_hash (moved {run} {after} env same r m) =
    Move-IsSound env run after m (Reached-IsSound event_hash r)
