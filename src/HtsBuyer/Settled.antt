-- ===== src/HtsBuyer/Settled.antt =====
-- A purchase of test credits that returns keeps to the terms that were given.
use obolos.Prelude.{◌*◌, ◌≤◌, String, true, false, not, List, ◌≡◌, refl, >>=-ok, ok}
use obolos.Prelude.{
  arith, length, throw_if, throw_if-ok, ok_injective, subst, sym, ap, ◌∙◌, ◌==◌, string_eq,
}
use obolos.Prelude.{list_eq, is_true_of_not, nat_eq}
use obolos.Contracts.{RepoEvidence}
use obolos.Negotiation.{Runtime, Url}
use obolos.Negotiation.Schema.{validate_repos}
use obolos.Negotiation.Config.{trusted_base, href}
use obolos.Negotiation.Buying.{HederaCredentials, validate_evidence, is_evidence}
use obolos.Negotiation.Paid.{IsEvidenceOf, is_evidence-IsEvidenceOf}
use obolos.HtsBuyer.{HtsRepositoryPurchase, Received, HtsPurchaseResult, World, SettleResponse}
use obolos.HtsBuyer.Terms.{validate_input, validate_token_terms, is_hts_input, exceeds_authority}
use obolos.HtsBuyer.Receive.{check_received, validate_settlement, normalize_transaction_id}
use obolos.HtsBuyer.Action.{BuyerState}
use obolos.HtsBuyer.Buy.{purchase_hts_repositories}
use obolos.HtsBuyer.Proven.{purchase-IsProven}

-- The terms of a purchase that was settled.
pub record IsSettledFor (value : HtsRepositoryPurchase) (credentials : HederaCredentials)
    (r : HtsPurchaseResult) : Type 0 where
  pub request_id : r.request_id ≡ value.request_id
  pub payer : credentials.account_id ≡ r.payer
  pub asset : r.asset ≡ value.terms.asset
  pub pay_to : r.pay_to ≡ value.terms.pay_to
  pub amount : r.amount_atomic ≡ value.unit_price_atomic * length value.repos
  pub bounded : r.amount_atomic ≤ value.max_amount_atomic
  pub units : r.units ≡ length value.repos
  pub evidence : IsEvidenceOf value.repos r.evidence
  pub succeeded : r.settlement.success ≡ true
  pub payer_settled : r.settlement.payer ≡ r.payer
  pub same_transaction :
      normalize_transaction_id r.settlement.transaction ≡ normalize_transaction_id r.transaction_id

validate_evidence-ok :
    (value : List RepoEvidence) (repos : List String) (es : List RepoEvidence)
    → validate_evidence value repos ≡ ok es
    → is_evidence es repos ≡ true
unfolding validate_evidence
validate_evidence-ok value repos es e = ground arith

validate_settlement-ok :
    (s : SettleResponse) (payer : String) (back : SettleResponse)
    → validate_settlement s payer ≡ ok back
    → (back.success ≡ true) × (back.payer ≡ payer)
unfolding validate_settlement
validate_settlement-ok s payer back e =
    (ground arith, ground (arith, string_eq.same_iff s.payer payer))

check_received-ok :
    (answer : Received) (input : HtsRepositoryPurchase) (t : String) (checked : Received)
    → check_received answer input t ≡ ok checked
    → (checked.settlement.success ≡ true)
      × (checked.settlement.payer ≡ input.terms.payer)
      × (normalize_transaction_id checked.settlement.transaction ≡ normalize_transaction_id t)
      × (is_evidence checked.evidence input.repos ≡ true)
unfolding check_received
check_received-ok answer input t checked e =
    let (s, valid, e1) = >>=-ok (validate_settlement answer.settlement input.terms.payer) _ e in
    let (u, same, e2) =
      >>=-ok
        (throw_if (not (normalize_transaction_id s.transaction == normalize_transaction_id t)) _) _
        e1 in
    let (es, found, e3) = >>=-ok (validate_evidence answer.evidence input.repos) _ e2 in
    let back = ok_injective _ checked e3 in
    let (succeeded, payer) = validate_settlement-ok answer.settlement _ s valid in
    let identity =
      (list_eq.same_iff (normalize_transaction_id s.transaction) (normalize_transaction_id t)).0
        (is_true_of_not _ (throw_if-ok _ _ same)) in
    subst
      (λ (x : Received).
        (x.settlement.success ≡ true)
        × (x.settlement.payer ≡ input.terms.payer)
        × (normalize_transaction_id x.settlement.transaction ≡ normalize_transaction_id t)
        × (is_evidence x.evidence input.repos ≡ true))
      back (succeeded, payer, identity, validate_evidence-ok answer.evidence input.repos es found)

exceeds_authority-false :
    (value : HtsRepositoryPurchase) (credentials : HederaCredentials) (base : Url)
    → exceeds_authority value credentials base ≡ false
    → (credentials.account_id ≡ value.terms.payer)
      × (value.terms.amount_atomic ≡ value.unit_price_atomic * length value.repos)
      × (value.terms.amount_atomic ≤ value.max_amount_atomic)
unfolding exceeds_authority
exceeds_authority-false value credentials base e = (
  ground (arith, string_eq.same_iff credentials.account_id value.terms.payer),
  ground arith,
  ground arith,
)

validate_input-ok :
    (runtime : Runtime) (value : HtsRepositoryPurchase) (credentials : HederaCredentials)
    (input : HtsRepositoryPurchase)
    → validate_input runtime value credentials ≡ ok input
    → (base : Url) × (exceeds_authority value credentials base ≡ false)
      × (input ≡ record value { resource_base_url = href base "" })
unfolding validate_input
validate_input-ok runtime value credentials input e =
    let (u, valid, e1) = >>=-ok (throw_if (not (is_hts_input value)) _) _ e in
    let (terms, bounded, e2) = >>=-ok (validate_token_terms value.terms) _ e1 in
    let (repos, named, e3) = >>=-ok (validate_repos value.repos) _ e2 in
    let (base, trusted, e4) = >>=-ok (trusted_base runtime value.resource_base_url) _ e3 in
    let (u', within, e5) = >>=-ok (throw_if (exceeds_authority value credentials base) _) _ e4 in
    (base, throw_if-ok _ _ within, sym (ok_injective _ input e5))

-- A purchase that returns, at once or by recovery, has the given request, asset and recipient, was
-- made from the payer's account, costs the unit price for each repository and at most the approved
-- maximum, has one entry of evidence for each repository in order, with its name, its address at
-- GitHub, two dates, counts that a number holds exactly and texts of at most 10000 characters, and a
-- successful settlement by the payer of the transaction that it names.
pub purchase-IsSettledFor :
    (runtime : Runtime) (hash : HtsRepositoryPurchase → String) (world : World)
    (value : HtsRepositoryPurchase) (credentials : HederaCredentials) (s : BuyerState)
    (r : HtsPurchaseResult)
    → (purchase_hts_repositories runtime hash world value credentials s).1 ≡ ok r
    → IsSettledFor value credentials r
purchase-IsSettledFor runtime hash world value credentials s r e =
    let (input, valid, proven) = purchase-IsProven runtime hash world value credentials s r e in
    let (base, within, same) = validate_input-ok runtime value credentials input valid in
    let (account, amount, bounded) = exceeds_authority-false value credentials base within in
    let (succeeded, payer, transaction, evidence) =
      check_received-ok proven.answer input proven.transaction_id proven.checked proven.received in
    let back = proven.result in
    record {
      request_id = ap (λ x. x.request_id) back ∙ ap (λ x. x.request_id) same;
      payer = rw (back, same) account;
      asset = rw (back, same) refl;
      pay_to = rw (back, same) refl;
      amount = rw (back, same) amount;
      bounded = rw (back, same) bounded;
      units = rw (back, same) refl;
      evidence = is_evidence-IsEvidenceOf r.evidence value.repos (
          rw back (
            subst
              (λ (x : HtsRepositoryPurchase). is_evidence proven.checked.evidence x.repos ≡ true)
              same evidence));
      succeeded = rw back succeeded;
      payer_settled = rw back payer;
      same_transaction = rw back transaction;
    }
