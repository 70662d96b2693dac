-- ===== src/Negotiation/Issued.antt =====
-- What stands behind an offer that an agent issues.
use obolos.Prelude.{ℕ, ◌≤◌, ◌≡◌, String, true, false, List, Option}
use obolos.Prelude.{some, ok, arith, string_eq, nat_eq, ◌==◌, Result-cases, inl, inr}
use obolos.Negotiation.{A2aConfig, Proposal, A2aOffer, Quote, Runtime, unpaid_offer}
use obolos.Negotiation.{Message}
use obolos.Negotiation.Schema.{is_proposal, validate_repos}
use obolos.Negotiation.Answer.{
  Desk, message, is_bad_quote, issue_offer, answer_proposal, answer_quote,
}

-- An offer that was issued for a proposal and a quote that passed the checks.
pub record IsIssued (runtime : Runtime) (now : ℕ) (config : A2aConfig) (p : Proposal) (q : Quote)
    (o : A2aOffer) : Type 0 where
  pub proposal : is_proposal p ≡ true
  pub repos : (rs : List String) × (validate_repos p.repos ≡ ok rs)
  pub payer : (p.payer == config.pay_to) ≡ false
  pub quote : is_bad_quote now config p q ≡ false
  pub affordable : q.amount_atomic ≤ p.max_amount_atomic
  pub offer : issue_offer runtime now config p q ≡ ok o

answer_quote-offer :
    (runtime : Runtime) (now : ℕ) (config : A2aConfig) (context : Option String) (p : Proposal)
    (q : Quote) (m : Message) (o : A2aOffer)
    → answer_quote runtime now config context p q ≡ ok m
    → m.content ≡ unpaid_offer o
    → (is_bad_quote now config p q ≡ false)
      × (q.amount_atomic ≤ p.max_amount_atomic)
      × (issue_offer runtime now config p q ≡ ok o)
unfolding answer_quote message
answer_quote-offer runtime now config context p q m o e c =
    elim (Result-cases (issue_offer runtime now config p q)) [
      | inl (o', i) ↦ ground (arith)
      | inr (x, i) ↦ ground (arith)
    ]

-- What an answer says of a proposal, its repositories and its quote.
answer_proposal-ok :
    (runtime : Runtime) (desk : Desk) (config : A2aConfig) (context : Option String) (p : Proposal)
    (m : Message)
    → answer_proposal runtime desk config context (some p) ≡ ok m
    → (is_proposal p ≡ true)
      × ((p.payer == config.pay_to) ≡ false)
      × (rs : List String) × (validate_repos p.repos ≡ ok rs)
      × (q : Quote) × (desk.quote p.provider_id rs ≡ ok q)
      × (answer_quote runtime desk.quoted_at config context p q ≡ ok m)
unfolding answer_proposal
answer_proposal-ok runtime desk config context p m e =
    elim (Result-cases (validate_repos p.repos)) [
      | inr (x, v) ↦ ground (arith)
      | inl (rs, v) ↦ elim (Result-cases (desk.quote p.provider_id rs)) [
        | inr (x, w) ↦ ground (arith)
        | inl (q, w) ↦ (ground arith, ground arith, rs, v, q, w, ground arith)
      ]
    ]

pub answer_proposal-IsIssued :
    (runtime : Runtime) (desk : Desk) (config : A2aConfig) (context : Option String) (p : Proposal)
    (m : Message) (o : A2aOffer)
    → answer_proposal runtime desk config context (some p) ≡ ok m
    → m.content ≡ unpaid_offer o
    → (q : Quote) × IsIssued runtime desk.quoted_at config p q o
answer_proposal-IsIssued runtime desk config context p m o e c =
    let (valid, payer, rs, v, q, w, answered) =
      answer_proposal-ok runtime desk config context p m e in
    let (good, affordable, issued) =
      answer_quote-offer runtime desk.quoted_at config context p q m o answered c in
    (
      q,
      record {
        proposal = valid;
        repos = (rs, v);
        payer = payer;
        quote = good;
        affordable = affordable;
        offer = issued;
      },
    )
