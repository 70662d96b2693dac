-- ===== src/HtsBuyer/Proven.antt =====
-- What a purchase of test credits returns.
use obolos.Prelude.{String, Option, none, some, ◌≡◌}
use obolos.Prelude.{>>=-ok, ok, arith, or_throw, ok_injective, sym}
use obolos.Prelude.{Bool-cases, ◌==◌, string_eq, inl, inr}
use obolos.Negotiation.{Runtime}
use obolos.Negotiation.Buying.{HederaCredentials}
use obolos.HtsBuyer.{HtsRepositoryPurchase, Intent, Received, HtsPurchaseResult, World, TokenQuote}
use obolos.HtsBuyer.{is_signed}
use obolos.HtsBuyer.Terms.{validate_input, active}
use obolos.HtsBuyer.Receive.{check_received, completed}
use obolos.HtsBuyer.Action.{BuyerState, emit, signing, replace_file}
use obolos.HtsBuyer.Action.{create_file, read_file}
use obolos.Stateful.{lift, then_run-ok}
use obolos.HtsBuyer.Market.{check_market}
use obolos.HtsBuyer.Buy.{
  dispatch_and_settle, sign_and_dispatch, buy_new, buy_or_recover, new_intent,
}
use obolos.HtsBuyer.Buy.{
  recover_saved, recover_from, recovered, stored_response, purchase_hts_repositories,
}
use obolos.HtsBuyer.Buy.{mirror_proof, quote_is_open}

-- A result stands for an answer that was checked against the input and the transaction.
pub record IsProven (input : HtsRepositoryPurchase) (r : HtsPurchaseResult) : Type 0 where
  pub transaction_id : String
  pub answer : Received
  pub checked : Received
  pub received : check_received answer input transaction_id ≡ ok checked
  pub result : r ≡ completed input transaction_id checked

recovered-checked :
    (world : World) (intent : Intent) (input : HtsRepositoryPurchase) (t : String)
    (checked : Received)
    → recovered world intent input t ≡ ok checked
    → (answer : Received) × (check_received answer input t ≡ ok checked)
unfolding recovered
recovered-checked world intent input t checked e =
    let (u, mirror, e1) = >>=-ok (mirror_proof world input) _ e in
    let (answer, stored, e2) = >>=-ok (stored_response world intent.received input t) _ e1 in
    (answer, e2)

recover_from-IsProven :
    (world : World) (intent : Intent) (input : HtsRepositoryPurchase) (t : String) (s : BuyerState)
    (previous : Option HtsPurchaseResult) (r : HtsPurchaseResult)
    → (recover_from world intent input t previous s).1 ≡ ok r
    → IsProven input r
unfolding recover_from
recover_from-IsProven world intent input t s (some p) r e =
    let answer : Received = record { settlement = p.settlement; evidence = p.evidence } in
    let (s1, checked, valid, e1) = then_run-ok (lift (check_received answer input t) s) _ e in
    record {
      transaction_id = t;
      answer = answer;
      checked = checked;
      received = valid;
      result = sym (ok_injective _ r e1);
    }
recover_from-IsProven world intent input t s none r e =
    let (s1, checked, valid, e1) = then_run-ok (lift (recovered world intent input t) s) _ e in
    let (s2, u, settled, e2) = then_run-ok (replace_file world.settle_end _ s1) _ e1 in
    let (answer, received) = recovered-checked world intent input t checked valid in
    record {
      transaction_id = t;
      answer = answer;
      checked = checked;
      received = received;
      result = sym (ok_injective _ r e2);
    }

dispatch_and_settle-IsProven :
    (world : World) (intent : Intent) (input : HtsRepositoryPurchase) (t : String) (s : BuyerState)
    (r : HtsPurchaseResult)
    → (dispatch_and_settle world intent input t s).1 ≡ ok r
    → IsProven input r
unfolding dispatch_and_settle
dispatch_and_settle-IsProven world intent input t s r e =
    let (s1, answer, paid, e1) = then_run-ok (lift world.paid _) _ e in
    let (s2, response, some_answer, e2) =
      then_run-ok
        (lift (or_throw "HTS payment result uncertain; reconcile the saved transaction." answer) s1)
        _ e1 in
    let (s3, checked, valid, e3) = then_run-ok (lift (check_received response input t) s2) _ e2 in
    let (s4, u, saved, e4) = then_run-ok (replace_file world.receive_end _ s3) _ e3 in
    let (s5, u', mirror, e5) = then_run-ok (lift (mirror_proof world input) s4) _ e4 in
    let (s6, u'', settled, e6) = then_run-ok (replace_file world.settle_end _ s5) _ e5 in
    record {
      transaction_id = t;
      answer = response;
      checked = checked;
      received = valid;
      result = sym (ok_injective _ r e6);
    }

sign_and_dispatch-IsProven :
    (world : World) (intent : Intent) (input : HtsRepositoryPurchase) (quote : TokenQuote)
    (s : BuyerState) (r : HtsPurchaseResult)
    → (sign_and_dispatch world intent input quote s).1 ≡ ok r
    → IsProven input r
unfolding sign_and_dispatch
sign_and_dispatch-IsProven world intent input quote s r e =
    let (s1, u1, ahead, e1) = then_run-ok (lift (active input world.reserved_at) s) _ e in
    let (s2, u2, opened, e2) = then_run-ok (lift (quote_is_open quote world.reserved_at) s1) _ e1 in
    let (s3, identity, signed, e3) = then_run-ok (lift world.signer (emit signing s2).0) _ e2 in
    let (s4, t, given, e4) =
      then_run-ok (lift (or_throw "HTS signed transaction lacks permanent identity." identity) s3) _
        e3 in
    let (s5, u5, kept, e5) = then_run-ok (replace_file world.sign_end _ s4) _ e4 in
    let (s6, u6, still, e6) = then_run-ok (lift (active input world.signed_at) s5) _ e5 in
    let (s7, u7, open_still, e7) =
      then_run-ok (lift (quote_is_open quote world.signed_at) s6) _ e6 in
    dispatch_and_settle-IsProven world
      (record intent { status = is_signed; transaction_id = some t }) input t s7 r e7

buy_new-IsProven :
    (world : World) (fingerprint : String) (input : HtsRepositoryPurchase) (s : BuyerState)
    (r : HtsPurchaseResult)
    → (buy_new world fingerprint input s).1 ≡ ok r
    → IsProven input r
unfolding buy_new
buy_new-IsProven world fingerprint input s r e =
    let (s1, quote, sold, e1) = then_run-ok (lift (check_market world input) s) _ e in
    let (s2, u, created, e2) = then_run-ok (create_file world.reserve_end _ s1) _ e1 in
    sign_and_dispatch-IsProven world (new_intent fingerprint input) input quote s2 r e2

recover_saved-IsProven :
    (world : World) (intent : Intent) (input : HtsRepositoryPurchase) (t : Option String)
    (s : BuyerState) (r : HtsPurchaseResult)
    → (recover_saved world intent input t s).1 ≡ ok r
    → IsProven input r
unfolding recover_saved
recover_saved-IsProven world intent input none s r e = cc
recover_saved-IsProven world intent input (some t) s r e =
    recover_from-IsProven world intent input t s intent.result r e

buy_or_recover-IsProven :
    (world : World) (fingerprint : String) (input : HtsRepositoryPurchase)
    (previous : Option Intent) (s : BuyerState) (r : HtsPurchaseResult)
    → (buy_or_recover world fingerprint input previous s).1 ≡ ok r
    → IsProven input r
unfolding buy_or_recover
buy_or_recover-IsProven world fingerprint input none s r e =
    buy_new-IsProven world fingerprint input s r e
buy_or_recover-IsProven world fingerprint input (some intent) s r e =
    elim (Bool-cases (intent.fingerprint == fingerprint)) [
      | inl same ↦
          recover_saved-IsProven world intent input intent.transaction_id s r
            (ground (arith, e, same))
      | inr other ↦ absurd (ground (arith, e, other))
    ]

-- The input as it was checked.
pub purchase-IsProven :
    (runtime : Runtime) (hash : HtsRepositoryPurchase → String) (world : World)
    (value : HtsRepositoryPurchase) (credentials : HederaCredentials) (s : BuyerState)
    (r : HtsPurchaseResult)
    → (purchase_hts_repositories runtime hash world value credentials s).1 ≡ ok r
    → (input : HtsRepositoryPurchase) × (validate_input runtime value credentials ≡ ok input)
      × IsProven input r
unfolding purchase_hts_repositories
purchase-IsProven runtime hash world value credentials s r e =
    let (s1, input, valid, e1) =
      then_run-ok (lift (validate_input runtime value credentials) s) _ e in
    let (s2, u, locked, e2) = then_run-ok (lift world.lock s1) _ e1 in
    let (s3, previous, read, e3) = then_run-ok (read_file s2) _ e2 in
    (input, valid, buy_or_recover-IsProven world (hash input) input previous s3 r e3)
