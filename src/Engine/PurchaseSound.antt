-- ===== src/Engine/PurchaseSound.antt =====
-- The stage that buys the data keeps a run sound.
use obolos.Prelude.{
  ℕ, ◌+◌, ◌*◌, ◌≤◌, ◌≡◌, refl, Option, none, some, List, [], ◌∷◌, ◌++◌, length, arith,
}
use obolos.Prelude.{find-true, inl, inr, Bool-cases, true}
use obolos.Prelude.{ap}
use obolos.Contracts.{Run, Mandate, Gateway, Provider, Stage, Receipt, RepoEvidence}
use obolos.Contracts.{running, hedera_testnet}
use obolos.Policy.Quotes.{approved_iff}
use obolos.Engine.{Env}
use obolos.Engine.Choose.{eligible_providers, is_approved_for}
use obolos.Engine.Pay.{buy, buy_or_ask, ask_owner, step_purchase}
use obolos.Engine.Pay.{authorize_purchase, record_purchase, approved_provider, validate_receipt}
use obolos.Engine.Pay.{data_request_id, data_purchase, covers, accept_evidence}
use obolos.Engine.Pay.{accept_purchase, buy_from}
use obolos.Engine.Step.{settle}
use obolos.Engine.Sound.{Accounts, IsSound, IsPayment, validate_receipt-IsPayment}
use obolos.Engine.Sound.{is_early}
use obolos.Engine.Frame.{Frame, Frame-IsSound, await-IsSound}

module _ (env : Env) where
  ask_owner-IsSound :
      (run : Run) (ps : List Provider)
      → run.status ≡ running
      → IsSound run
      → IsSound (settle env (ask_owner env run ps))
  unfolding ask_owner
  ask_owner-IsSound run [] s h = Frame-IsSound s (ground arith) h
  ask_owner-IsSound run (p ∷ ps) s h = Frame-IsSound s (ground arith) h

  authorize_purchase-Frame :
      (run : Run) (p : Provider)
      → run.status ≡ running
      → IsSound run
      → Frame run (authorize_purchase env run p)
  unfolding authorize_purchase
  authorize_purchase-Frame run p s h = ground arith

  authorize_purchase_status :
      (run : Run) (p : Provider)
      → run.status ≡ running
      → ((authorize_purchase env run p).status ≡ running)
        × ((authorize_purchase env run p).stage ≡ run.stage)
  unfolding authorize_purchase
  authorize_purchase_status run p s = ground arith

  approved_budget :
      (run : Run) (p : Provider)
      → approved_provider env run ≡ some p
      → run.data_spent_atomic + p.unit_price_atomic * length run.repos
        ≤ run.mandate.data_budget_atomic
  approved_budget run p h =
      let passed =
        find-true (is_approved_for env run) (eligible_providers run.mandate run.providers) p h in
      ((approved_iff env.now run.mandate p (length run.repos) run.data_spent_atomic).0
        (ground (arith, passed))).budget

  -- The books before a payment for data: none was made.
  early-Accounts :
      (receipts : List Receipt) (run : Run)
      → run.status ≡ running
      → is_early run.stage ≡ true
      → Accounts receipts run
      → (receipts ≡ []) × (run.data_spent_atomic ≡ 0) × (run.verification_spent_atomic ≡ 0)
  early-Accounts [] run s t a = ground arith
  early-Accounts (r ∷ []) run s t a = absurd (ground arith)
  early-Accounts (r ∷ u ∷ []) run s t a = absurd (ground arith)
  early-Accounts (r ∷ u ∷ v ∷ more) run s t a = absurd a

  record_purchase-Accounts :
      (run : Run) (amount : ℕ) (evidence : List RepoEvidence) (r : Receipt)
      (receipts : List Receipt)
      → run.status ≡ running
      → receipts ≡ []
      → run.data_spent_atomic ≡ 0
      → run.verification_spent_atomic ≡ 0
      → IsPayment r (data_request_id run) hedera_testnet amount
      → Accounts (receipts ++ r ∷ []) (record_purchase env run amount evidence r)
  unfolding record_purchase
  record_purchase-Accounts run amount evidence r [] s n d v p = ground arith
  record_purchase-Accounts run amount evidence r (x ∷ xs) s n d v p = absurd (cc)

  record_purchase-IsSound :
      (run : Run) (amount : ℕ) (evidence : List RepoEvidence) (r : Receipt)
      → run.status ≡ running
      → is_early run.stage ≡ true
      → run.data_spent_atomic + amount ≤ run.mandate.data_budget_atomic
      → IsPayment r (data_request_id run) hedera_testnet amount
      → IsSound run
      → IsSound (record_purchase env run amount evidence r)
  unfolding record_purchase
  record_purchase-IsSound run amount evidence r s t b p h =
      let (none_made, d, v) = early-Accounts run.receipts run s t h.accounts in
      record {
        live_mode = h.live_mode;
        data_within = b;
        verification_within = h.verification_within;
        approval = h.approval;
        accounts = record_purchase-Accounts run amount evidence r run.receipts s none_made d v p;
      }

  accept_evidence-IsSound :
      (run : Run) (amount : ℕ) (result : List RepoEvidence × Receipt)
      → run.status ≡ running
      → is_early run.stage ≡ true
      → run.data_spent_atomic + amount ≤ run.mandate.data_budget_atomic
      → IsPayment result.1 (data_request_id run) hedera_testnet amount
      → IsSound run
      → IsSound (settle env (accept_evidence env run amount result))
  unfolding accept_evidence
  accept_evidence-IsSound run amount (evidence, r) s t b p h =
      elim (Bool-cases (covers evidence run.repos)) [
        | inl full ↦ rw full (record_purchase-IsSound run amount evidence r s t b p h)
        | inr short ↦ rw short (Frame-IsSound s (ground arith) h)
      ]

  accept_purchase-IsSound :
      (run : Run) (amount : ℕ) (result : List RepoEvidence × Receipt)
      → run.status ≡ running
      → is_early run.stage ≡ true
      → run.data_spent_atomic + amount ≤ run.mandate.data_budget_atomic
      → IsSound run
      → IsSound (settle env (accept_purchase env run amount result))
  unfolding accept_purchase
  accept_purchase-IsSound run amount result s t b h =
      await-IsSound env run
        (validate_receipt run result.1 (data_request_id run) hedera_testnet amount)
        (λ _. accept_evidence env run amount result) s h
        λ u valid.
          accept_evidence-IsSound run amount result s t b
            (validate_receipt-IsPayment run result.1 _ hedera_testnet amount h.live_mode valid) h

  buy-IsSound :
      (gateway : Gateway) (run : Run) (p : Provider)
      → run.status ≡ running
      → is_early run.stage ≡ true
      → approved_provider env run ≡ some p
      → IsSound run
      → IsSound (settle env (buy env gateway run p))
  unfolding buy
  buy-IsSound gateway run p s t a h =
      let paying = authorize_purchase env run p in
      let frame = authorize_purchase-Frame run p s h in
      let (s', t') = authorize_purchase_status run p s in
      let h' = Frame-IsSound s frame h in
      let amount = p.unit_price_atomic * length run.repos in
      await-IsSound env paying (gateway.purchase_data (data_purchase run p))
        (accept_purchase env paying amount) s' h'
        λ result e.
          accept_purchase-IsSound paying amount result s' (ground (arith, frame))
            (ground (
              arith,
              frame,
              approved_budget run p a,
              ap (λ (m : Mandate). m.data_budget_atomic) frame.same_mandate,
            ))
            h'

  buy_from-IsSound :
      (gateway : Gateway) (run : Run) (o : Option Provider)
      → run.status ≡ running
      → is_early run.stage ≡ true
      → approved_provider env run ≡ o
      → IsSound run
      → IsSound (settle env (buy_from env gateway run o))
  unfolding buy_from
  buy_from-IsSound gateway run none s t e h =
      ask_owner-IsSound run (eligible_providers run.mandate run.providers) s h
  buy_from-IsSound gateway run (some p) s t e h = buy-IsSound gateway run p s t e h

  pub step_purchase-IsSound :
      (gateway : Gateway) (run : Run)
      → run.status ≡ running
      → run.stage ≡ Stage.purchase
      → IsSound run
      → IsSound (settle env (step_purchase env gateway run))
  unfolding step_purchase buy_or_ask
  step_purchase-IsSound gateway run s t h =
      await-IsSound env run gateway.discover (buy_or_ask env gateway run) s h λ providers e.
        let seen = record run { providers = providers } in
        buy_from-IsSound gateway seen (approved_provider env seen) s (ground arith) refl
          (Frame-IsSound s (ground arith) h)
