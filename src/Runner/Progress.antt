-- ===== src/Runner/Progress.antt =====
-- `advanceRun` of src/lib/engine.ts makes progress: a call on an open run ends it, or hands it to
-- the owner, or moves it to the next stage.
use obolos.Prelude.{
  ℕ, suc, ◌+◌, ◌≡◌, ◌∙◌, refl, true, false, ◌⊎◌, inl, inr, Bool-cases, Option, none, some,
}
use obolos.Prelude.{List, [], ◌∷◌, Result, ok, err, arith, ltb, is_empty}
use obolos.Prelude.{all, ◌&&◌, ◌==◌, ◌++◌, ◌<◌, length, ◌*◌}
use obolos.Contracts.{Run, Stage, running, live, Gateway, Thrown, Provider, Report, Check}
use obolos.Contracts.{has_passed, mode_eq, hedera_testnet, arc_testnet, Receipt, RepoEvidence}
use obolos.Engine.{Env}
use obolos.Engine.Choose.{eligible_providers}
use obolos.Engine.Pay.{Attempt, await, buy, buy_from, ask_owner, accept_purchase}
use obolos.Engine.Pay.{accept_evidence, validate_receipt, data_request_id, verify_request_id}
use obolos.Engine.Pay.{step_purchase, authorize_purchase, buy_or_ask}
use obolos.Engine.Verify.{step_report, draft_report, step_verification, verify_report, judge}
use obolos.Engine.Verify.{accept_verification, record_verification, listed, check_report}
use obolos.Engine.Verify.{verification_price, verification_purchase}
use obolos.Engine.Pay.{data_purchase}
use obolos.Engine.Step.{step_mandate, step_discovery, choose_first, by_stage, attempt, settle}
use obolos.Engine.Step.{advance_run, is_stopped}
use obolos.Engine.Sound.{IsSound, Accounts}
use obolos.Runner.Journal.{is_terminal}

abbrev pub stage_rank : Stage → ℕ
stage_rank Stage.mandate = 0
stage_rank Stage.discovery = 1
stage_rank Stage.purchase = 2
stage_rank Stage.report = 3
stage_rank Stage.verification = 4
stage_rank Stage.complete = 5

abbrev pub HasAdvanced : ℕ → Run → Type 0
HasAdvanced n r =
    (is_terminal r.status ≡ true) ⊎ (r.status ≡ running) × (stage_rank r.stage ≡ suc n)

module _ (env : Env) where
  await-HasAdvanced :
      {A : Type 0} (n : ℕ) (run : Run) (r : Result Thrown A) (k : A → Attempt)
      → ((a : A) → HasAdvanced n (settle env (k a)))
      → HasAdvanced n (settle env (await run r k))
  await-HasAdvanced n run (ok a) k next = next a
  await-HasAdvanced n run (err e) k next = inl refl

  choose_first-HasAdvanced :
      (run : Run) (ps : List Provider)
      → run.status ≡ running
      → HasAdvanced 1 (settle env (choose_first env run ps))
  unfolding choose_first
  choose_first-HasAdvanced run [] s = inl refl
  choose_first-HasAdvanced run (p ∷ ps) s = inr (s, refl)

  accept_evidence-HasAdvanced :
      (run : Run) (amount : ℕ) (result : List RepoEvidence × Receipt)
      → run.status ≡ running
      → HasAdvanced 2 (settle env (accept_evidence env run amount result))
  unfolding accept_evidence
  accept_evidence-HasAdvanced run amount (evidence, receipt) s = ground arith

  accept_purchase-HasAdvanced :
      (run : Run) (amount : ℕ) (result : List RepoEvidence × Receipt)
      → run.status ≡ running
      → HasAdvanced 2 (settle env (accept_purchase env run amount result))
  unfolding accept_purchase
  accept_purchase-HasAdvanced run amount result s =
      await-HasAdvanced 2 run
        (validate_receipt run result.1 (data_request_id run) hedera_testnet amount)
        (λ _. accept_evidence env run amount result)
        (λ _. accept_evidence-HasAdvanced run amount result s)

  ask_owner-HasAdvanced :
      (run : Run) (ps : List Provider) → HasAdvanced 2 (settle env (ask_owner env run ps))
  unfolding ask_owner
  ask_owner-HasAdvanced run [] = inl refl
  ask_owner-HasAdvanced run (p ∷ ps) = inl refl

  authorize_purchase-status :
      (run : Run) (p : Provider) → (authorize_purchase env run p).status ≡ run.status
  unfolding authorize_purchase
  authorize_purchase-status run p = ground arith

  judge-HasAdvanced :
      (run : Run) (report : Report) (checks : List Check)
      → HasAdvanced 4 (settle env (judge env run report checks))
  unfolding judge
  judge-HasAdvanced run report checks =
      elim (Bool-cases (all (λ (c : Check). c.passed) (check_report report ++ checks))) [
        | inl good ↦ rw good (inl refl)
        | inr bad ↦ rw bad (inl refl)
      ]

  record_verification-HasAdvanced :
      (run : Run) (report : Report) (amount : ℕ) (result : Receipt × Option (List Check))
      → HasAdvanced 4 (settle env (record_verification env run report amount result))
  unfolding record_verification
  record_verification-HasAdvanced run report amount (receipt, checks) =
      elim (Bool-cases (run.mode == live && is_empty (listed checks))) [
        | inl unchecked ↦ rw unchecked (inl refl)
        | inr checked ↦ rw checked (
            judge-HasAdvanced
              (record run {
                receipts = run.receipts ++ receipt ∷ [];
                verification_spent_atomic = run.verification_spent_atomic + amount;
              })
              report (listed checks))
      ]

  accept_verification-HasAdvanced :
      (run : Run) (report : Report) (amount : ℕ) (result : Receipt × Option (List Check))
      → HasAdvanced 4 (settle env (accept_verification env run report amount result))
  unfolding accept_verification
  accept_verification-HasAdvanced run report amount result =
      await-HasAdvanced 4 run
        (validate_receipt run result.0 (verify_request_id run) arc_testnet amount)
        (λ _. record_verification env run report amount result)
        (λ _. record_verification-HasAdvanced run report amount result)

  module _ (gateway : Gateway) where
    buy-HasAdvanced :
        (run : Run) (p : Provider)
        → run.status ≡ running
        → HasAdvanced 2 (settle env (buy env gateway run p))
    unfolding buy
    buy-HasAdvanced run p s =
        let paying = authorize_purchase env run p in
        await-HasAdvanced 2 paying (gateway.purchase_data (data_purchase run p))
          (accept_purchase env paying (p.unit_price_atomic * length run.repos))
          (λ result.
            accept_purchase-HasAdvanced paying _ result (authorize_purchase-status run p ∙ s))

    buy_from-HasAdvanced :
        (run : Run) (o : Option Provider)
        → run.status ≡ running
        → HasAdvanced 2 (settle env (buy_from env gateway run o))
    unfolding buy_from
    buy_from-HasAdvanced run none s =
        ask_owner-HasAdvanced run (eligible_providers run.mandate run.providers)
    buy_from-HasAdvanced run (some p) s = buy-HasAdvanced run p s

    verify_report-HasAdvanced :
        (run : Run) (o : Option Report)
        → HasAdvanced 4 (settle env (verify_report env gateway run o))
    unfolding verify_report
    verify_report-HasAdvanced run none = inl refl
    verify_report-HasAdvanced run (some report) =
        await-HasAdvanced 4 run (gateway.verify (verification_purchase run report))
          (accept_verification env run report (verification_price run))
          (accept_verification-HasAdvanced run report (verification_price run))

    step_verification-HasAdvanced :
        (run : Run) → HasAdvanced 4 (settle env (step_verification env gateway run))
    unfolding step_verification
    step_verification-HasAdvanced run =
        elim (Bool-cases (
          ltb run.mandate.verification_budget_atomic
            (run.verification_spent_atomic + verification_price run))) [
              | inl over ↦ rw over (inl refl)
              | inr within ↦ rw within (verify_report-HasAdvanced run run.report)
            ]

    by_stage-HasAdvanced :
        (stage : Stage) (run : Run)
        → run.status ≡ running
        → stage_rank stage < 5
        → HasAdvanced (stage_rank stage) (settle env (by_stage stage env gateway run))
    unfolding by_stage step_mandate step_discovery step_purchase step_report draft_report buy_or_ask
    by_stage-HasAdvanced Stage.mandate run s o = inr (s, refl)
    by_stage-HasAdvanced Stage.discovery run s o =
        await-HasAdvanced 1 run gateway.discover _
          λ ps. choose_first-HasAdvanced (record run { providers = ps }) _ s
    by_stage-HasAdvanced Stage.purchase run s o =
        await-HasAdvanced 2 run gateway.discover _
          λ ps. buy_from-HasAdvanced (record run { providers = ps }) _ s
    by_stage-HasAdvanced Stage.report run s o =
        await-HasAdvanced 3 run (gateway.generate_report run.evidence run.id) _
          λ summary. inr (s, refl)
    by_stage-HasAdvanced Stage.verification run s o = step_verification-HasAdvanced run
    by_stage-HasAdvanced Stage.complete run s o = absurd (omega (arith, o))

    attempt-HasAdvanced :
        (run : Run)
        → run.status ≡ running
        → stage_rank run.stage < 5
        → HasAdvanced (stage_rank run.stage) (settle env (attempt env gateway run))
    unfolding attempt
    attempt-HasAdvanced run s o = elim (Bool-cases (has_passed run.mandate.expires_at env.now)) [
      | inl late ↦ rw late (inl refl)
      | inr early ↦ rw early (by_stage-HasAdvanced run.stage run s o)
    ]

-- An open sound run is not at the last stage.
pub open_rank :
    (receipts : List Receipt) (run : Run)
    → Accounts receipts run
    → is_stopped run.status ≡ false
    → stage_rank run.stage < 5
open_rank [] run a o = ground arith
open_rank (r ∷ []) run a o = ground arith
open_rank (r ∷ q ∷ []) run a o = absurd (ground arith)
open_rank (r ∷ q ∷ p ∷ more) run a o = absurd a

-- A call of `advanceRun` on a sound run that is not stopped returns; it leaves the run completed,
-- failed or waiting for the owner, or running at the very next stage.
pub advance_run-HasAdvanced :
    (env : Env) (gateway : Gateway) (run : Run)
    → IsSound run
    → is_stopped run.status ≡ false
    → (after : Run) × (advance_run env gateway run ≡ ok after)
      × HasAdvanced (stage_rank run.stage) after
unfolding advance_run
advance_run-HasAdvanced env gateway run h o =
    let going = record run { status = running } in
    (
      settle env (attempt env gateway going),
      rw (h.live_mode, o) refl,
      attempt-HasAdvanced env gateway going refl (open_rank run.receipts run h.accounts o),
    )
