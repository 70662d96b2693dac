-- ===== src/Engine/VerifySound.antt =====
-- The stages that draft and verify the report keep a run sound.
use obolos.Prelude.{ℕ, ◌+◌, ◌≤◌, ◌≡◌, refl, Option, none, some, List, [], ◌∷◌, ◌++◌, arith}
use obolos.Prelude.{inl, inr, Bool-cases, true, sym}
use obolos.Prelude.{subst, ap, all, is_empty}
use obolos.Contracts.{Run, Gateway, Report, Stage, Check, Receipt}
use obolos.Contracts.{running, hedera_testnet, arc_testnet, live}
use obolos.Engine.{Env}
use obolos.Engine.Pay.{validate_receipt}
use obolos.Engine.Pay.{data_request_id, verify_request_id}
use obolos.Engine.Verify.{draft_report, record_verification, accept_verification}
use obolos.Engine.Verify.{verification_purchase}
use obolos.Engine.Verify.{step_report, step_verification, verify_report, judge, verification_price}
use obolos.Engine.Step.{settle}
use obolos.Engine.Sound.{ApprovalKeeps, Accounts, IsSound, IsPayment, validate_receipt-IsPayment}
use obolos.Engine.Sound.{is_middle, Ending}
use obolos.Engine.Verify.{check_report, listed}
use obolos.Contracts.{mode_eq}
use obolos.Prelude.{◌==◌, ◌&&◌, ltb}
use obolos.Engine.Frame.{Frame-IsSound, await-IsSound}

-- A run that has paid for its verification, whatever its stage and status.
abbrev IsPaid : Run → Type 0
IsPaid run =
    (run.mode ≡ live)
    × (run.data_spent_atomic ≤ run.mandate.data_budget_atomic)
    × (run.verification_spent_atomic ≤ run.mandate.verification_budget_atomic)
    × ApprovalKeeps run.approval run.mandate
    × ((r : Receipt) × (s : Receipt) × (run.receipts ≡ r ∷ s ∷ [])
        × IsPayment r (data_request_id run) hedera_testnet run.data_spent_atomic
        × IsPayment s (verify_request_id run) arc_testnet run.verification_spent_atomic)

Ending-IsSound : (run : Run) → IsPaid run → Ending run → IsSound run
Ending-IsSound run (m, d, v, a, (r, s, both, paid_data, paid_verification)) e = record {
  live_mode = m;
  data_within = d;
  verification_within = v;
  approval = a;
  accounts = subst (λ receipts. Accounts receipts run) (sym both) (e, paid_data, paid_verification);
}

module _ (env : Env) where
  pub step_report-IsSound :
      (gateway : Gateway) (run : Run)
      → run.status ≡ running
      → run.stage ≡ Stage.report
      → IsSound run
      → IsSound (settle env (step_report env gateway run))
  unfolding step_report draft_report
  step_report-IsSound gateway run s t h =
      await-IsSound env run (gateway.generate_report run.evidence run.id) (draft_report env run) s h
        λ summary e. Frame-IsSound s (ground arith) h

  -- The books before a payment for verification: the data is paid, and nothing else.
  pub middle-Accounts :
      (receipts : List Receipt) (run : Run)
      → run.status ≡ running
      → is_middle run.stage ≡ true
      → Accounts receipts run
      → (r : Receipt) × (receipts ≡ r ∷ [])
        × IsPayment r (data_request_id run) hedera_testnet run.data_spent_atomic
        × (run.verification_spent_atomic ≡ 0)
  middle-Accounts [] run s t a = absurd (ground arith)
  middle-Accounts (r ∷ []) run s t a = (r, refl, a.3, a.1)
  middle-Accounts (r ∷ u ∷ []) run s t a = absurd (ground arith)
  middle-Accounts (r ∷ u ∷ v ∷ more) run s t a = absurd a

  judge-IsSound :
      (run : Run) (report : Report) (checks : List Check)
      → run.stage ≡ Stage.verification
      → IsPaid run
      → IsSound (settle env (judge env run report checks))
  unfolding judge
  judge-IsSound run report checks t h =
      let results = check_report report ++ checks in
      elim (Bool-cases (all (λ (c : Check). c.passed) results)) [
        | inl passed ↦ rw passed (Ending-IsSound _ h (inl (refl, refl, (refl, passed))))
        | inr broken ↦ rw broken (Ending-IsSound _ h (inr (t, refl)))
      ]

  record_verification-IsSound :
      (run : Run) (report : Report) (amount : ℕ) (result : Receipt × Option (List Check))
      → run.status ≡ running
      → run.stage ≡ Stage.verification
      → run.verification_spent_atomic + amount ≤ run.mandate.verification_budget_atomic
      → IsPayment result.0 (verify_request_id run) arc_testnet amount
      → IsSound run
      → IsSound (settle env (record_verification env run report amount result))
  unfolding record_verification
  record_verification-IsSound run report amount (receipt, checks) s t b p h =
      let (r, one, paid_data, v) = middle-Accounts run.receipts run s (ground arith) h.accounts in
      let paid = record run {
        receipts = run.receipts ++ receipt ∷ [];
        verification_spent_atomic = run.verification_spent_atomic + amount;
      } in
      let is_paid : IsPaid paid = (
        h.live_mode,
        h.data_within,
        b,
        h.approval,
        (r, receipt, ap (λ rs. rs ++ receipt ∷ []) one, paid_data, ground (arith, p, v)),
      ) in
      elim (Bool-cases (run.mode == live && is_empty (listed checks))) [
        | inl absent ↦ rw absent (Ending-IsSound _ is_paid (inr (t, refl)))
        | inr given ↦ rw given (judge-IsSound paid report (listed checks) t is_paid)
      ]

  verify_report-IsSound :
      (gateway : Gateway) (run : Run) (o : Option Report)
      → run.status ≡ running
      → run.stage ≡ Stage.verification
      → run.verification_spent_atomic + verification_price run
        ≤ run.mandate.verification_budget_atomic
      → IsSound run
      → IsSound (settle env (verify_report env gateway run o))
  unfolding verify_report accept_verification
  verify_report-IsSound gateway run none s t b h = Frame-IsSound s (ground arith) h
  verify_report-IsSound gateway run (some report) s t b h =
      let amount = verification_price run in
      await-IsSound env run (gateway.verify (verification_purchase run report))
        (accept_verification env run report amount) s h
        λ result e.
          await-IsSound env run
            (validate_receipt run result.0 (verify_request_id run) arc_testnet amount)
            (λ _. record_verification env run report amount result) s h
            λ u valid.
              record_verification-IsSound run report amount result s t b
                (validate_receipt-IsPayment run result.0 _ arc_testnet amount h.live_mode valid) h

  pub step_verification-IsSound :
      (gateway : Gateway) (run : Run)
      → run.status ≡ running
      → run.stage ≡ Stage.verification
      → IsSound run
      → IsSound (settle env (step_verification env gateway run))
  unfolding step_verification
  step_verification-IsSound gateway run s t h =
      elim (Bool-cases (
        ltb run.mandate.verification_budget_atomic
          (run.verification_spent_atomic + verification_price run))) [
            | inl beyond ↦ rw beyond (Frame-IsSound s (ground arith) h)
            | inr within ↦
                rw within
                  (verify_report-IsSound gateway run run.report s t (ground (arith, within)) h)
          ]
