-- ===== src/Engine/Pay.antt =====
-- `advanceRun` of src/lib/engine.ts: `validateReceipt` and the stage that buys the data. A step
-- that throws keeps the changes made before.
use Prim.Native.String
use obolos.Prelude.{ℕ, ◌+◌, ◌*◌, String, Bool, true, false, ◌&&◌, ◌||◌, not, List, [], ◌∷◌}
use obolos.Prelude.{◌++◌, map, Option, none, some, ◌==◌, nat_eq, string_eq, if◌then◌else◌}
use obolos.Prelude.{length, all, find, includes, set_size, lit, num, scaled}
use obolos.Prelude.{Result, ok, err, ◌>>◌, throw_if}
use obolos.Contracts.{live, Stage, Run, Provider, RepoEvidence, Receipt}
use obolos.Contracts.{Gateway, Thrown, Network, hedera_testnet}
use obolos.Contracts.{hbar, usdc, settled, simulated, ReceiptStatus}
use obolos.Contracts.{mode_eq, network_eq}
use obolos.Contracts.{DataPurchase}
use obolos.Contracts.{asset_eq, broker, planner, Asset, success, warning, info}
use obolos.Policy.{assess_quote, reason}
use obolos.Engine.{Env, log, is_absent}
use obolos.Engine.Choose.{eligible_providers, is_approved_for, is_other, request_approval}

pub data Attempt : Type 0 where
  stepped : Run → Attempt
  threw : Run → Thrown → Attempt

-- An awaited call of the gateway in the middle of a step on `run`.
abbrev pub await : {A : Type 0} → Run → Result Thrown A → (A → Attempt) → Attempt
await run (ok a) k = k a
await run (err e) k = threw run e

abbrev pub asset_of : Network → Asset
asset_of hedera_testnet = hbar
asset_of _ = usdc

abbrev pub is_unsettled : ReceiptStatus → Bool
is_unsettled settled = false
is_unsettled simulated = true

unfoldable pub validate_receipt : Run → Receipt → String → Network → ℕ → Result Thrown (Unit {0})
validate_receipt run r request_id network amount = do
  throw_if
      (not (r.mode == run.mode)
        || not (r.request_id == request_id)
        || not (r.network == network)
        || not (r.asset == asset_of network)
        || not (r.amount_atomic == amount))
      (some "Receipt does not match the authorized payment.")
  throw_if (run.mode == live && (is_unsettled r.status || is_absent r.transaction_id))
      (some "No confirmed live settlement was returned.")

abbrev pub text_of : Option String → String
text_of none = "undefined"
text_of (some s) = s

-- Purchased evidence covers exactly the requested repositories, once each.
abbrev pub covers : List RepoEvidence → List String → Bool
covers evidence repos =
    length evidence == length repos
    && all (λ e. includes repos e.repo) evidence
    && (set_size (map (λ e. e.repo) evidence) == length repos)

abbrev pub data_request_id : Run → String
data_request_id run = String.◌++◌ run.id ":data"

abbrev pub verify_request_id : Run → String
verify_request_id run = String.◌++◌ run.id ":verify"

-- The request that goes to the gateway.
abbrev pub data_purchase : Run → Provider → DataPurchase
data_purchase run p = record {
  run_id = run.id;
  request_id = data_request_id run;
  repos = run.repos;
  provider_id = p.id;
  max_amount_atomic = p.unit_price_atomic * length run.repos;
  unit_price_atomic = p.unit_price_atomic;
  mandate_expires_at = run.mandate.expires_at;
}

-- From the receipt on: `run.evidence=…` to the end of the branch.
unfoldable pub record_purchase : Env → Run → ℕ → List RepoEvidence → Receipt → Run
record_purchase env run amount evidence receipt =
    let bought = record run {
      evidence = evidence;
      receipts = run.receipts ++ receipt ∷ [];
      data_spent_atomic = run.data_spent_atomic + amount;
      stage = Stage.report;
    } in
    log env bought broker success "Hedera payment settled" (
      scaled amount 8
      ∷ lit " HBAR purchased "
      ∷ num (length evidence)
      ∷ lit " source records. "
      ∷ lit (text_of receipt.transaction_id)
      ∷ [])

-- The logs before the payment, and the choice of the provider.
unfoldable pub authorize_purchase : Env → Run → Provider → Run
authorize_purchase env run p =
    let rerouted =
      if is_other run.selected_provider p.id
      then log env run planner warning "Provider rerouted"
          (lit "Selected " ∷ lit p.name ∷ lit " because its current quote fits the mandate." ∷ [])
      else run in
    let selected = record rerouted { selected_provider = some p.id } in
    log env selected broker info "Payment authorized" (
      lit "Request "
      ∷ lit (data_request_id run)
      ∷ lit ": "
      ∷ num (p.unit_price_atomic * length run.repos)
      ∷ lit " tinybar for "
      ∷ num (length run.repos)
      ∷ lit " repository units. A failed or uncertain transfer is never automatically repeated."
      ∷ [])

-- From the check of the evidence on.
unfoldable pub accept_evidence : Env → Run → ℕ → List RepoEvidence × Receipt → Attempt
unfolding record_purchase
accept_evidence env run amount (evidence, receipt) =
    if covers evidence run.repos
    then stepped (record_purchase env run amount evidence receipt)
    else threw run (some "Purchased evidence does not cover the requested repositories.")

-- From the answer of `purchaseData` on.
unfoldable pub accept_purchase : Env → Run → ℕ → List RepoEvidence × Receipt → Attempt
unfolding validate_receipt accept_evidence
accept_purchase env run amount result =
    await run (validate_receipt run result.1 (data_request_id run) hedera_testnet amount)
      λ _. accept_evidence env run amount result

unfoldable pub buy : Env → Gateway → Run → Provider → Attempt
unfolding authorize_purchase accept_purchase
buy env gateway run p =
    let paying = authorize_purchase env run p in
    await paying (gateway.purchase_data (data_purchase run p))
      (accept_purchase env paying (p.unit_price_atomic * length run.repos))

-- No quote is approved: the owner is asked about the cheapest eligible one.
unfoldable pub ask_owner : Env → Run → List Provider → Attempt
unfolding request_approval
ask_owner env run [] = threw run (some "No approved provider is available.")
ask_owner env run (p ∷ ps) = stepped (
    request_approval env run p
      (reason (assess_quote env.now run.mandate p (length run.repos) run.data_spent_atomic)))

abbrev pub approved_provider : Env → Run → Option Provider
approved_provider env run =
    find (is_approved_for env run) (eligible_providers run.mandate run.providers)

unfoldable pub buy_from : Env → Gateway → Run → Option Provider → Attempt
unfolding buy ask_owner
buy_from env gateway run none = ask_owner env run (eligible_providers run.mandate run.providers)
buy_from env gateway run (some p) = buy env gateway run p

unfoldable pub buy_or_ask : Env → Gateway → Run → List Provider → Attempt
unfolding buy_from
buy_or_ask env gateway run providers =
    let seen = record run { providers = providers } in
    buy_from env gateway seen (approved_provider env seen)

unfoldable pub step_purchase : Env → Gateway → Run → Attempt
unfolding buy_or_ask
step_purchase env gateway run = await run gateway.discover (buy_or_ask env gateway run)
