-- ===== src/Engine/Sound.antt =====
-- What holds of a run between two calls: the budgets are kept, and the receipts are at most one
-- data payment and one verification payment, for the amounts on the books.
use obolos.Prelude.{ℕ, String, ◌≤◌, ◌≡◌, ◌⊎◌, Bool, true, false, List, [], ◌∷◌, Option, none, some}
use obolos.Prelude.{all, arith, string_eq, ok}
use obolos.Contracts.{Run, Mandate, ApprovalRequest, Receipt, Network, live, Report}
use obolos.Contracts.{hedera_testnet, arc_testnet, settled, Stage, RunStatus, completed}
use obolos.Contracts.{failed}
use obolos.Engine.{is_absent}
use obolos.Engine.Pay.{validate_receipt, asset_of, data_request_id, verify_request_id}

-- A pending approval raises only the data budget and the unit price.
abbrev pub ApprovalKeeps : Option ApprovalRequest → Mandate → Type 0
ApprovalKeeps none m = Unit
ApprovalKeeps (some a) m =
    (m.data_budget_atomic ≤ a.proposed_mandate.data_budget_atomic)
    × (a.proposed_mandate.verification_budget_atomic ≡ m.verification_budget_atomic)
    × (a.proposed_mandate.allowed_providers ≡ m.allowed_providers)

-- A confirmed live payment of the amount, under the request's own identifier.
pub record IsPayment (r : Receipt) (request : String) (network : Network) (amount : ℕ)
    : Type 0 where
  pub live_mode : r.mode ≡ live
  pub same_request : r.request_id ≡ request
  pub same_network : r.network ≡ network
  pub same_asset : r.asset ≡ asset_of network
  pub same_amount : r.amount_atomic ≡ amount
  pub confirmed : r.status ≡ settled
  pub identified : is_absent r.transaction_id ≡ false

abbrev pub HasPassed : Option Report → Type 0
HasPassed none = ⊥
HasPassed (some report) = (report.verified ≡ true) × (all (λ c. c.passed) report.checks ≡ true)

abbrev pub is_completed : RunStatus → Bool
is_completed completed = true
is_completed _ = false

abbrev pub is_middle : Stage → Bool
is_middle Stage.report = true
is_middle Stage.verification = true
is_middle _ = false

abbrev pub is_early : Stage → Bool
is_early Stage.mandate = true
is_early Stage.discovery = true
is_early Stage.purchase = true
is_early _ = false

-- The last payment is followed by completion with a passed report, or by failure.
abbrev pub Ending : Run → Type 0
Ending run =
    (run.stage ≡ Stage.complete) × (run.status ≡ completed) × HasPassed run.report
    ⊎ (run.stage ≡ Stage.verification) × (run.status ≡ failed)

-- The receipts, in step with the stage, the status and the books.
abbrev pub Accounts : List Receipt → Run → Type 0
Accounts [] run =
    (is_early run.stage ≡ true)
    × (run.data_spent_atomic ≡ 0)
    × (run.verification_spent_atomic ≡ 0)
    × (is_completed run.status ≡ false)
Accounts (r ∷ []) run =
    (is_middle run.stage ≡ true)
    × (run.verification_spent_atomic ≡ 0)
    × (is_completed run.status ≡ false)
    × IsPayment r (data_request_id run) hedera_testnet run.data_spent_atomic
Accounts (r ∷ s ∷ []) run =
    Ending run
    × IsPayment r (data_request_id run) hedera_testnet run.data_spent_atomic
    × IsPayment s (verify_request_id run) arc_testnet run.verification_spent_atomic
Accounts (r ∷ s ∷ t ∷ more) run = ⊥

pub record IsSound (run : Run) : Type 0 where
  pub live_mode : run.mode ≡ live
  pub data_within : run.data_spent_atomic ≤ run.mandate.data_budget_atomic
  pub verification_within : run.verification_spent_atomic ≤ run.mandate.verification_budget_atomic
  pub approval : ApprovalKeeps run.approval run.mandate
  pub accounts : Accounts run.receipts run

pub validate_receipt-IsPayment :
    (run : Run) (r : Receipt) (request : String) (network : Network) (amount : ℕ)
    → run.mode ≡ live
    → validate_receipt run r request network amount ≡ ok tt
    → IsPayment r request network amount
unfolding validate_receipt
validate_receipt-IsPayment run r request network amount h e =
    ground (arith, string_eq.same_iff r.request_id request)
