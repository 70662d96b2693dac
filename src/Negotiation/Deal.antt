-- ===== src/Negotiation/Deal.antt =====
-- An offer that a request brought out passes the checks of the agent and of the buyer.
use obolos.Prelude.{ℕ, ◌≡◌, sym, ap, String, true, false, not}
use obolos.Prelude.{Option, none, some, ok, arith, string_eq, nat_eq}
use obolos.Prelude.{
  list_eq, Result-cases, Option-cases, inl, inr, >>=-ok, is_true_of_not, throw_if-ok, throw_if,
  ok_injective,
}
use obolos.Negotiation.{Acceptance, A2aConfig, Proposal, A2aOffer, Quote, Runtime, unpaid_offer}
use obolos.Negotiation.{Message, accepted_offer}
use obolos.Negotiation.Schema.{is_acceptance}
use obolos.Negotiation.Config.{validate_config}
use obolos.Negotiation.Token.{verify_offer}
use obolos.Negotiation.Answer.{
  Desk, answer_proposal, answer_part, accept_data, other_data, PartData,
}
use obolos.Negotiation.Answer.{
  RpcId, RpcInput, no_object, an_object, RpcRequest, SendParams, method_of,
}
use obolos.Negotiation.Answer.{
  handle_request, handle_method, handle_send, answer_message, with_result,
}
use obolos.Negotiation.Answer.{send_message_of, message, accept_offer, is_other_identity}
use obolos.Negotiation.Issued.{IsIssued, answer_proposal-IsIssued}

-- A result comes from a part of a message, under a valid configuration.
pub record IsAnswer (runtime : Runtime) (desk : Desk) (config : A2aConfig) (m : Message)
    : Type 0 where
  pub configured : validate_config runtime config ≡ ok tt
  pub context : Option String
  pub part : PartData
  pub answered : answer_part runtime desk config context part ≡ ok m

answer_message-IsAnswer :
    (runtime : Runtime) (desk : Desk) (config : A2aConfig) (id back : RpcId) (s : SendParams)
    (part : PartData) (m : Message)
    → answer_message runtime desk config id s part ≡ with_result back m
    → answer_part runtime desk config s.context_id part ≡ ok m
unfolding answer_message
answer_message-IsAnswer runtime desk config id back s part m e =
    elim (Result-cases (answer_part runtime desk config s.context_id part)) [
      | inl (a, r) ↦ ground arith
      | inr (a, r) ↦ absurd (ground arith)
    ]

handle_send-IsAnswer :
    (runtime : Runtime) (desk : Desk) (config : A2aConfig) (r : RpcRequest) (back : RpcId)
    (m : Message)
    → handle_send runtime desk config r.id r.params ≡ with_result back m
    → IsAnswer runtime desk config m
unfolding handle_send
handle_send-IsAnswer runtime desk config r back m e =
    elim (Result-cases (validate_config runtime config)) [
      | inr (x, c) ↦ absurd (ground arith)
      | inl (u, c) ↦ elim (Option-cases (send_message_of r.params)) [
        | inl other ↦ absurd (ground arith)
        | inr ((s, part), sent) ↦ record {
          configured = c;
          context = s.context_id;
          part = part;
          answered = answer_message-IsAnswer runtime desk config r.id back s part m (ground arith);
        }
      ]
    ]

pub handle_request-IsAnswer :
    (runtime : Runtime) (desk : Desk) (config : A2aConfig) (input : RpcInput) (back : RpcId)
    (m : Message)
    → handle_request runtime desk config input ≡ with_result back m
    → IsAnswer runtime desk config m
unfolding handle_request handle_method
handle_request-IsAnswer runtime desk config no_object back m e = absurd (cc)
handle_request-IsAnswer runtime desk config (an_object r) back m e =
    elim (Option-cases (method_of r)) [
      | inl bad ↦ absurd (ground arith)
      | inr (name, found) ↦ handle_send-IsAnswer runtime desk config r back m (ground arith)
    ]

-- What an acceptance that succeeds found.
pub record IsAccepted (runtime : Runtime) (now : ℕ) (config : A2aConfig) (context : Option String)
    (a : Acceptance) (m : Message) : Type 0 where
  pub valid : is_acceptance a ≡ true
  pub offer : A2aOffer
  pub verified : verify_offer runtime now config false a.offer_token ≡ ok offer
  pub identity : is_other_identity context a offer ≡ false
  pub answer : m ≡ message runtime offer.payload.context_id (accepted_offer offer)

pub accept_offer-IsAccepted :
    (runtime : Runtime) (now : ℕ) (config : A2aConfig) (context : Option String) (a : Acceptance)
    (m : Message)
    → accept_offer runtime now config context (some a) ≡ ok m
    → IsAccepted runtime now config context a m
unfolding accept_offer
accept_offer-IsAccepted runtime now config context a m e =
    let (u, valid, e1) = >>=-ok (throw_if (not (is_acceptance a)) "Invalid acceptance.") _ e in
    let (offer, verified, e2) = >>=-ok (verify_offer runtime now config false a.offer_token) _ e1 in
    let (u', identity, e3) =
      >>=-ok (throw_if (is_other_identity context a offer) "Identity mismatch") _ e2 in
    record {
      valid = is_true_of_not _ (throw_if-ok _ _ valid);
      offer = offer;
      verified = verified;
      identity = throw_if-ok _ _ identity;
      answer = sym (ok_injective _ m e3);
    }

accepted-content :
    (runtime : Runtime) (now : ℕ) (config : A2aConfig) (context : Option String) (a : Acceptance)
    (m : Message)
    → (h : IsAccepted runtime now config context a m) → m.content ≡ accepted_offer h.offer
unfolding message
accepted-content runtime now config context a m h = ap (λ x. x.content) h.answer

no_acceptance :
    (runtime : Runtime) (now : ℕ) (config : A2aConfig) (context : Option String) (m : Message)
    → ¬ (accept_offer runtime now config context none ≡ ok m)
unfolding accept_offer
no_acceptance runtime now config context m e = cc

-- The acceptance of an offer never answers with an offer that is unpaid.
accept_offer-not_unpaid :
    (runtime : Runtime) (now : ℕ) (config : A2aConfig) (context : Option String)
    (a : Option Acceptance) (m : Message) (o : A2aOffer)
    → accept_offer runtime now config context a ≡ ok m
    → ¬ (m.content ≡ unpaid_offer o)
accept_offer-not_unpaid runtime now config context none m o e c =
    no_acceptance runtime now config context m e
accept_offer-not_unpaid runtime now config context (some a) m o e c =
    let h = accept_offer-IsAccepted runtime now config context a m e in
    let t = accepted-content runtime now config context a m h in cc

answer_part-offer :
    (runtime : Runtime) (desk : Desk) (config : A2aConfig) (context : Option String)
    (part : PartData) (m : Message) (o : A2aOffer)
    → answer_part runtime desk config context part ≡ ok m
    → m.content ≡ unpaid_offer o
    → (p : Proposal) × (q : Quote) × IsIssued runtime desk.quoted_at config p q o
unfolding answer_part answer_proposal
answer_part-offer runtime desk config context (accept_data a) m o e c =
    absurd (accept_offer-not_unpaid runtime desk.asked_at config context a m o e c)
answer_part-offer runtime desk config context (other_data none) m o e c = cc
answer_part-offer runtime desk config context (other_data (some p)) m o e c =
    let (q, issued) = answer_proposal-IsIssued runtime desk config context p m o e c in
    (p, q, issued)

-- The proposal and the quote behind an offer that was answered.
pub record IsOffered (runtime : Runtime) (desk : Desk) (config : A2aConfig) (o : A2aOffer)
    : Type 0 where
  pub configured : validate_config runtime config ≡ ok tt
  pub proposal : Proposal
  pub quote : Quote
  pub issued : IsIssued runtime desk.quoted_at config proposal quote o

pub handle_request-IsOffered :
    (runtime : Runtime) (desk : Desk) (config : A2aConfig) (input : RpcInput) (back : RpcId)
    (m : Message) (o : A2aOffer)
    → handle_request runtime desk config input ≡ with_result back m
    → m.content ≡ unpaid_offer o
    → IsOffered runtime desk config o
handle_request-IsOffered runtime desk config input back m o e c =
    let a = handle_request-IsAnswer runtime desk config input back m e in
    let (p, q, issued) = answer_part-offer runtime desk config a.context a.part m o a.answered c in
    record { configured = a.configured; proposal = p; quote = q; issued = issued }
