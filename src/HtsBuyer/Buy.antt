-- ===== src/HtsBuyer/Buy.antt =====
-- `recover` and `purchaseHtsRepositories` of scripts/hedera-token-buyer.ts, on the file of the
-- request's identity. The hash of an input stands for SHA-256 over its JSON.
use obolos.Prelude.{ℕ, String, Bool, ◌||◌, not, Option, none, some, ◌==◌, nat_beq}
use obolos.Prelude.{nat_eq, list_eq, string_eq, Result, ok, err, throw_if, or_throw, if◌then◌else◌}
use obolos.Contracts.{has_passed}
use obolos.Negotiation.{Runtime}
use obolos.Negotiation.Schema.{instant_of}
use obolos.Negotiation.Buying.{HederaCredentials}
use obolos.HtsBuyer.{HtsRepositoryPurchase, HtsPurchaseResult, Intent, an_intent, is_signed}
use obolos.HtsBuyer.{is_received, is_settled, Received, StoredReceipt, World, TokenQuote}
use obolos.HtsBuyer.Terms.{validate_input, validate_token_transfer, active}
use obolos.HtsBuyer.Receive.{check_received, completed, normalize_transaction_id}
use obolos.HtsBuyer.Action.{Action, emit, signing, dispatching, replace_file, create_file}
use obolos.HtsBuyer.Action.{read_file}
use obolos.Stateful.{lift, ◌>>=◌, ◌>>◌}
use obolos.HtsBuyer.Market.{check_market}
use obolos.Prelude.{◌>>=◌ as ◌and◌}

unfoldable pub is_other_stored : StoredReceipt → HtsRepositoryPurchase → String → Bool
unfolding normalize_transaction_id
is_other_stored body input transaction_id =
    not (body.state == "settled")
    || not (normalize_transaction_id body.transaction_id == normalize_transaction_id transaction_id)
    || not (body.provider_id == input.provider_id)
    || not (body.repos == input.repos)
    || not (nat_beq body.amount_atomic input.terms.amount_atomic)
    || not (body.asset == input.terms.asset)

-- `mirrorProof`
unfoldable pub mirror_proof : World → HtsRepositoryPurchase → Result String (Unit {0})
unfolding validate_token_transfer
mirror_proof world input = world.mirror and λ body. validate_token_transfer body input.terms

-- The response that was saved, or the persisted receipt of the resource.
unfoldable pub stored_response :
    World → Option Received → HtsRepositoryPurchase → String → Result String Received
unfolding is_other_stored
stored_response world (some response) input transaction_id = ok response
stored_response world none input transaction_id = world.stored and λ body.
    (throw_if (is_other_stored body input transaction_id)
        "Stored HTS resource receipt differs from the paid request."
      and λ done. ok body.received)

abbrev settled_intent : Intent → Received → HtsPurchaseResult → Intent
settled_intent intent checked result = record intent {
  status = is_settled;
  received = some checked;
  result = some result;
}

-- The proof and the response of a transaction that was saved, checked again.
unfoldable pub recovered : World → Intent → HtsRepositoryPurchase → String → Result String Received
unfolding mirror_proof stored_response check_received
recovered world intent input transaction_id = mirror_proof world input and λ done.
    (stored_response world intent.received input transaction_id and λ response.
    check_received response input transaction_id)

-- By the result that the intent holds already.
unfoldable pub recover_from :
    World
    → Intent
    → HtsRepositoryPurchase
    → String
    → Option HtsPurchaseResult
    → Action HtsPurchaseResult
unfolding recovered check_received replace_file
recover_from world intent input transaction_id (some result) = do
  checked ← lift (
      check_received (record { settlement = result.settlement; evidence = result.evidence }) input
        transaction_id)
  lift (ok (completed input transaction_id checked))
recover_from world intent input transaction_id none = do
  checked ← lift (recovered world intent input transaction_id)
  replace_file world.settle_end
      (settled_intent intent checked (completed input transaction_id checked))
  lift (ok (completed input transaction_id checked))

abbrev pub recover_transaction :
    World → Intent → HtsRepositoryPurchase → String → Action HtsPurchaseResult
unfolding recover_from
recover_transaction world intent input transaction_id =
    recover_from world intent input transaction_id intent.result

unfoldable pub recover_saved :
    World → Intent → HtsRepositoryPurchase → Option String → Action HtsPurchaseResult
unfolding recover_from
recover_saved world intent input none =
    lift (err "HTS purchase already attempted without a saved transaction; reconcile the intent.")
recover_saved world intent input (some transaction_id) =
    recover_transaction world intent input transaction_id

-- `recover`
abbrev pub recover : World → Intent → HtsRepositoryPurchase → Action HtsPurchaseResult
unfolding recover_saved
recover world intent input = recover_saved world intent input intent.transaction_id

abbrev pub new_intent : String → HtsRepositoryPurchase → Intent
new_intent fingerprint input = record {
  fingerprint = fingerprint;
  status = an_intent;
  input = input;
  transaction_id = none;
  received = none;
  result = none;
}

-- The paid request and what follows it, for an intent with a transaction that was saved.
unfoldable pub dispatch_and_settle :
    World → Intent → HtsRepositoryPurchase → String → Action HtsPurchaseResult
unfolding replace_file check_received mirror_proof
dispatch_and_settle world intent input transaction_id = do
  emit (dispatching transaction_id)
  answer ← lift world.paid
  response ← lift (or_throw "HTS payment result uncertain; reconcile the saved transaction." answer)
  checked ← lift (check_received response input transaction_id)
  replace_file world.receive_end (record intent { status = is_received; received = some checked })
  lift (mirror_proof world input)
  replace_file world.settle_end
      (settled_intent intent checked (completed input transaction_id checked))
  lift (ok (completed input transaction_id checked))

abbrev pub quote_is_open : TokenQuote → ℕ → Result String (Unit {0})
quote_is_open quote now =
    throw_if (has_passed (instant_of quote.expires_at) now) "HTS quote expired; reconcile."

-- The signature and what follows it, for a reserved intent.
unfoldable pub sign_and_dispatch :
    World → Intent → HtsRepositoryPurchase → TokenQuote → Action HtsPurchaseResult
unfolding replace_file dispatch_and_settle
sign_and_dispatch world intent input quote = do
  lift (active input world.reserved_at)
  lift (quote_is_open quote world.reserved_at)
  emit signing
  identity ← lift world.signer
  transaction_id ← lift (or_throw "HTS signed transaction lacks permanent identity." identity)
  replace_file world.sign_end
      (record intent { status = is_signed; transaction_id = some transaction_id })
  lift (active input world.signed_at)
  lift (quote_is_open quote world.signed_at)
  dispatch_and_settle world
      (record intent { status = is_signed; transaction_id = some transaction_id }) input
      transaction_id

-- A first purchase under this identity.
unfoldable pub buy_new : World → String → HtsRepositoryPurchase → Action HtsPurchaseResult
unfolding check_market create_file sign_and_dispatch
buy_new world fingerprint input = do
  quote ← lift (check_market world input)
  create_file world.reserve_end (new_intent fingerprint input)
  sign_and_dispatch world (new_intent fingerprint input) input quote

unfoldable pub buy_or_recover :
    World → String → HtsRepositoryPurchase → Option Intent → Action HtsPurchaseResult
unfolding recover_saved buy_new
buy_or_recover world fingerprint input none = buy_new world fingerprint input
buy_or_recover world fingerprint input (some previous) =
    if not (previous.fingerprint == fingerprint)
    then lift (err "HTS request identity was reused with different terms.")
    else recover world previous input

-- `purchaseHtsRepositories`
unfoldable pub purchase_hts_repositories :
    Runtime
    → (HtsRepositoryPurchase → String)
    → World
    → HtsRepositoryPurchase
    → HederaCredentials
    → Action HtsPurchaseResult
unfolding validate_input read_file buy_or_recover
purchase_hts_repositories runtime hash world value credentials = do
  input ← lift (validate_input runtime value credentials)
  lift world.lock
  previous ← read_file
  buy_or_recover world (hash input) input previous
