-- ===== src/Engine/Frame.antt =====
-- Changes without a payment keep a run sound, and so do the first stages of `advanceRun`.
use obolos.Prelude.{◌≡◌, refl, List, [], ◌∷◌, arith}
use obolos.Prelude.{ok, err, false, sym}
use obolos.Prelude.{subst, ◌∙◌, Result, ap}
use obolos.Contracts.{Run, Mandate, Gateway, Provider, Stage, Receipt}
use obolos.Contracts.{running, Thrown}
use obolos.Engine.{Env}
use obolos.Engine.Choose.{eligible_providers}
use obolos.Engine.Pay.{Attempt, threw, await}
use obolos.Engine.Step.{step_mandate, step_discovery, choose_first, settle}
use obolos.Engine.Sound.{ApprovalKeeps, Accounts, IsSound}
use obolos.Engine.Sound.{is_early, is_middle, is_completed}

-- What a change without a payment leaves as it was.
pub record Frame (run after : Run) : Type 0 where
  pub same_id : after.id ≡ run.id
  pub same_mode : after.mode ≡ run.mode
  pub same_mandate : after.mandate ≡ run.mandate
  pub same_data : after.data_spent_atomic ≡ run.data_spent_atomic
  pub same_verification : after.verification_spent_atomic ≡ run.verification_spent_atomic
  pub same_receipts : after.receipts ≡ run.receipts
  pub early : is_early after.stage ≡ is_early run.stage
  pub middle : is_middle after.stage ≡ is_middle run.stage
  pub open_status : is_completed after.status ≡ false
  pub approval : ApprovalKeeps after.approval after.mandate

Frame-Accounts :
    (receipts : List Receipt) (run after : Run)
    → run.status ≡ running
    → Frame run after
    → Accounts receipts run
    → Accounts receipts after
Frame-Accounts [] run after s f a = ground arith
Frame-Accounts (r ∷ []) run after s f a = ground arith
Frame-Accounts (r ∷ t ∷ []) run after s f a = absurd (ground arith)
Frame-Accounts (r ∷ t ∷ u ∷ more) run after s f a = a

pub Frame-IsSound :
    {run after : Run} → run.status ≡ running → Frame run after → IsSound run → IsSound after
Frame-IsSound {run} {after} s f h = record {
  live_mode = f.same_mode ∙ h.live_mode;
  data_within = ground (arith, ap (λ (m : Mandate). m.data_budget_atomic) f.same_mandate);
  verification_within =
      ground (arith, ap (λ (m : Mandate). m.verification_budget_atomic) f.same_mandate);
  approval = f.approval;
  accounts =
      subst (λ receipts. Accounts receipts after) (sym f.same_receipts)
        (Frame-Accounts run.receipts run after s f h.accounts);
}

module _ (env : Env) where
  pub threw-IsSound :
      (run : Run) (e : Thrown)
      → run.status ≡ running
      → IsSound run
      → IsSound (settle env (threw run e))
  threw-IsSound run e s h = Frame-IsSound s (ground arith) h

  pub await-IsSound :
      {A : Type 0} (run : Run) (r : Result Thrown A) (k : A → Attempt)
      → run.status ≡ running
      → IsSound run
      → ((a : A) → r ≡ ok a → IsSound (settle env (k a)))
      → IsSound (settle env (await run r k))
  await-IsSound run (ok a) k s h next = next a refl
  await-IsSound run (err e) k s h next = threw-IsSound run e s h

  pub step_mandate-IsSound :
      (run : Run)
      → run.status ≡ running
      → run.stage ≡ Stage.mandate
      → IsSound run
      → IsSound (settle env (step_mandate env run))
  unfolding step_mandate
  step_mandate-IsSound run s t h = Frame-IsSound s (ground arith) h

  choose_first-IsSound :
      (run : Run) (ps : List Provider)
      → run.status ≡ running
      → run.stage ≡ Stage.discovery
      → IsSound run
      → IsSound (settle env (choose_first env run ps))
  unfolding choose_first
  choose_first-IsSound run [] s t h = Frame-IsSound s (ground arith) h
  choose_first-IsSound run (p ∷ ps) s t h = Frame-IsSound s (ground arith) h

  pub step_discovery-IsSound :
      (gateway : Gateway) (run : Run)
      → run.status ≡ running
      → run.stage ≡ Stage.discovery
      → IsSound run
      → IsSound (settle env (step_discovery env gateway run))
  unfolding step_discovery
  step_discovery-IsSound gateway run s t h = await-IsSound run gateway.discover _ s h λ providers e.
      let seen = record run { providers = providers } in
      choose_first-IsSound seen (eligible_providers seen.mandate providers) s t
        (Frame-IsSound s (ground arith) h)
