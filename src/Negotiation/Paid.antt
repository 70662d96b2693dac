-- ===== src/Negotiation/Paid.antt =====
-- What a paid offer shows.
use Prim.Native.String
use obolos.Prelude.{ℕ, ◌≡◌, ◌≤◌, refl, String, true, false, not, List, [], ◌∷◌, Option, none, some}
use obolos.Prelude.{codes, list_eq}
use obolos.Prelude.{ok, arith, length, string_eq, nat_eq, ◌==◌, Result}
use obolos.Prelude.{>>=-ok, throw_if-ok, throw_if, is_true_of_not}
use obolos.Contracts.{
  Receipt, RepoEvidence, live, settled, hedera_testnet, hbar, mode_eq, network_eq,
}
use obolos.Contracts.{asset_eq}
use obolos.Negotiation.{A2aOffer, Runtime}
use obolos.Negotiation.Buying.{HederaCredentials, TokenPurchase, PaidOffer, accepted_purchase}
use obolos.Negotiation.Buying.{
  purchase_accepted_offer, accept_result, is_other_receipt, is_evidence,
}
use obolos.Negotiation.Buying.{validate_evidence, is_valid_entry}
use obolos.Engine.Create.{lower_codes}
use obolos.Engine.Verify.{source_of, is_date}

-- An entry of evidence for a repository: its name without regard to case, its address at GitHub, two
-- dates, counts that a number holds, and short texts.
pub record IsEntryOf (repo : String) (e : RepoEvidence) : Type 0 where
  pub same_repo : lower_codes e.repo ≡ lower_codes repo
  pub source : e.source_url ≡ String.◌++◌ "https://api.github.com/repos/" repo
  pub fetched : (t : ℕ) × (e.fetched_at ≡ some t)
  pub pushed : (t : ℕ) × (e.pushed_at ≡ some t)
  pub stars : e.stars ≤ 9007199254740991
  pub forks : e.forks ≤ 9007199254740991
  pub issues : e.open_issues ≤ 9007199254740991
  pub description : length (codes e.description) ≤ 10000
  pub language : length (codes e.language) ≤ 10000
  pub license : length (codes e.license) ≤ 10000

-- One such entry for each repository, in their order, and no other.
abbrev pub IsEvidenceOf : List String → List RepoEvidence → Type 0
IsEvidenceOf [] [] = Unit
IsEvidenceOf (repo ∷ repos) (e ∷ es) = IsEntryOf repo e × IsEvidenceOf repos es
IsEvidenceOf [] (e ∷ es) = ⊥
IsEvidenceOf (repo ∷ repos) [] = ⊥

is_date-some : (d : Option ℕ) → is_date d ≡ true → (t : ℕ) × (d ≡ some t)
is_date-some none h = cc
is_date-some (some t) h = (t, refl)

is_valid_entry-IsEntryOf :
    (e : RepoEvidence) (repo : String) → is_valid_entry e repo ≡ true → IsEntryOf repo e
is_valid_entry-IsEntryOf e repo h = record {
  same_repo = (list_eq.same_iff (lower_codes e.repo) (lower_codes repo)).0 (ground arith);
  source = (string_eq.same_iff e.source_url (source_of repo)).0 (ground arith);
  fetched = is_date-some e.fetched_at (ground arith);
  pushed = is_date-some e.pushed_at (ground arith);
  stars = ground arith;
  forks = ground arith;
  issues = ground arith;
  description = ground arith;
  language = ground arith;
  license = ground arith;
}

pub is_evidence-IsEvidenceOf :
    (es : List RepoEvidence) (repos : List String)
    → is_evidence es repos ≡ true
    → IsEvidenceOf repos es
unfolding is_evidence
is_evidence-IsEvidenceOf [] [] h = tt
is_evidence-IsEvidenceOf (e ∷ es) (repo ∷ repos) h = (
  is_valid_entry-IsEntryOf e repo (ground arith),
  is_evidence-IsEvidenceOf es repos (ground arith),
)
is_evidence-IsEvidenceOf [] (repo ∷ repos) h = cc
is_evidence-IsEvidenceOf (e ∷ es) [] h = cc

-- The purchase that was made for an offer, and the receipt and the evidence that it brought.
pub record IsPaid (runtime : Runtime) (now : ℕ) (offer : A2aOffer) (credentials : HederaCredentials)
    (base : String) (purchase : TokenPurchase → Result String (Receipt × List RepoEvidence))
    (paid : PaidOffer) : Type 0 where
  pub request : TokenPurchase
  pub admitted : accepted_purchase runtime now offer credentials base ≡ ok request
  pub answered : purchase request ≡ ok (paid.receipt, paid.evidence)
  pub account : credentials.account_id ≡ offer.payload.payer
  pub same_offer : paid.offer_id ≡ offer.offer_id
  pub request_id : paid.receipt.request_id ≡ offer.payment_request_id
  pub mode : paid.receipt.mode ≡ live
  pub status : paid.receipt.status ≡ settled
  pub network : paid.receipt.network ≡ hedera_testnet
  pub asset : paid.receipt.asset ≡ hbar
  pub units : paid.receipt.units ≡ length offer.payload.repos
  pub amount : paid.receipt.amount_atomic ≡ offer.payload.amount_atomic
  pub evidence : IsEvidenceOf offer.payload.repos paid.evidence

pub is_other_receipt-false :
    (r : Receipt) (offer : A2aOffer)
    → is_other_receipt r offer ≡ false
    → (r.request_id ≡ offer.payment_request_id)
      × (r.mode ≡ live)
      × (r.status ≡ settled)
      × (r.network ≡ hedera_testnet)
      × (r.asset ≡ hbar)
      × (r.units ≡ length offer.payload.repos)
      × (r.amount_atomic ≡ offer.payload.amount_atomic)
unfolding is_other_receipt
is_other_receipt-false r offer e = (
  ground (arith, string_eq.same_iff r.request_id offer.payment_request_id),
  ground (arith, mode_eq.same_iff r.mode live),
  ground arith,
  ground (arith, network_eq.same_iff r.network hedera_testnet),
  ground (arith, asset_eq.same_iff r.asset hbar),
  ground arith,
  ground arith,
)

accepted_purchase-account :
    (runtime : Runtime) (now : ℕ) (offer : A2aOffer) (credentials : HederaCredentials)
    (base : String) (request : TokenPurchase)
    → accepted_purchase runtime now offer credentials base ≡ ok request
    → credentials.account_id ≡ offer.payload.payer
unfolding accepted_purchase
accepted_purchase-account runtime now offer credentials base request e =
    let (u, same, e1) =
      >>=-ok (throw_if (not (credentials.account_id == offer.payload.payer)) _) _ e in
    (string_eq.same_iff credentials.account_id offer.payload.payer).0
      (is_true_of_not _ (throw_if-ok _ _ same))

pub accept_result-ok :
    (offer : A2aOffer) (receipt : Receipt) (evidence : List RepoEvidence) (paid : PaidOffer)
    → accept_result offer (receipt, evidence) ≡ ok paid
    → (is_other_receipt receipt offer ≡ false)
      × (is_evidence evidence offer.payload.repos ≡ true)
      × (paid.receipt ≡ receipt)
      × (paid.evidence ≡ evidence)
      × (paid.offer_id ≡ offer.offer_id)
unfolding accept_result validate_evidence
accept_result-ok offer receipt evidence paid e =
    (ground arith, ground arith, ground arith, ground arith, ground arith)

-- A paid offer was bought by one purchase that the checks of the offer admitted, from the account
-- of its payer; the receipt is a live settlement of exactly the offer's amount, units, identifier,
-- network and asset; and the evidence has one entry for each repository in order, with its name, its
-- address at GitHub, two dates, counts that a number holds exactly and texts of at most 10000
-- characters.
pub purchase_accepted_offer-IsPaid :
    (runtime : Runtime) (now : ℕ) (offer : A2aOffer) (credentials : HederaCredentials)
    (base : String) (purchase : TokenPurchase → Result String (Receipt × List RepoEvidence))
    (paid : PaidOffer)
    → purchase_accepted_offer runtime now offer credentials base purchase ≡ ok paid
    → IsPaid runtime now offer credentials base purchase paid
unfolding purchase_accepted_offer
purchase_accepted_offer-IsPaid runtime now offer credentials base purchase paid e =
    let (request, admitted, e1) =
      >>=-ok (accepted_purchase runtime now offer credentials base) _ e in
    let (answer, answered, e2) = >>=-ok (purchase request) _ e1 in
    let (receipt, evidence) = answer in
    let (exact, full, r, v, same) = accept_result-ok offer receipt evidence paid e2 in
    let (request_id, mode, status, network, asset, units, amount) =
      is_other_receipt-false paid.receipt offer (rw r exact) in
    record {
      request = request;
      admitted = admitted;
      answered = rw (r, v) answered;
      account = accepted_purchase-account runtime now offer credentials base request admitted;
      same_offer = same;
      request_id = request_id;
      mode = mode;
      status = status;
      network = network;
      asset = asset;
      units = units;
      amount = amount;
      evidence = is_evidence-IsEvidenceOf paid.evidence offer.payload.repos (rw v full);
    }
