-- ===== src/Negotiation/Answer.antt =====
-- `handleA2ARequest` of src/lib/hedera/a2a.ts. The clock is read when the request comes and again
-- when the quote has come; the quote is a function of the provider and the repositories. The
-- parameters of a request are what the two strict schemas make of them.
use obolos.Prelude.{ℕ, ◌+◌, ◌*◌, String, Bool, true, false, ◌&&◌, ◌||◌, not, List, [], ◌∷◌, Option}
use obolos.Prelude.{none, some, leb, ltb, ◌==◌, nat_beq, nat_eq, string_eq, length, codes, includes}
use obolos.Prelude.{joined, prefix_of, min, Result, ok, err, ◌>>◌, ◌>>=◌, throw_if, or_throw}
use obolos.Prelude.{if◌then◌else◌, list_eq}
use obolos.Contracts.{ParsedDate, has_passed}
use obolos.Policy.{is_safe_integer}
use obolos.Negotiation.{
  A2aConfig, Proposal, Acceptance, OfferPayload, A2aOffer, Quote, DateText, iso,
}
use obolos.Negotiation.{AnswerData, accepted_offer, unpaid_offer, counteroffer, Message, Runtime}
use obolos.Negotiation.{extension, hedera_network, hbar_asset}
use obolos.Negotiation.Schema.{is_proposal, is_acceptance, is_identity, is_atomic, validate_repos}
use obolos.Negotiation.Schema.{instant_of}
use obolos.Negotiation.Config.{validate_config, href_below, evidence_path}
use obolos.Negotiation.Token.{sign, verify_offer}

-- An identifier of JSON-RPC: a text, an integer by its sign and size, null, or another value.
pub data RpcId : Type 0 where
  text_id : String → RpcId
  number_id : Bool → ℕ → RpcId
  null_id other_id : RpcId

-- The data of a message, by its action: what the schema of an acceptance makes of an "accept",
-- and what that of a proposal makes of anything else.
pub data PartData : Type 0 where
  accept_data : Option Acceptance → PartData
  other_data : Option Proposal → PartData

pub record SendParams : Type 0 where
  pub message_id : String
  pub context_id : Option String
  pub task_id : Option String
  pub parts : List PartData
  pub accepted_output_modes : Option (List String)

-- Parameters with the shape of a task query, of a message, or of neither.
pub data RpcParams : Type 0 where
  task_params : String → RpcParams
  send_params : SendParams → RpcParams
  other_params : RpcParams

pub record RpcRequest : Type 0 where
  pub jsonrpc : Option String
  pub id : RpcId
  pub method : Option String
  pub params : RpcParams

pub data RpcInput : Type 0 where
  no_object : RpcInput
  an_object : RpcRequest → RpcInput

pub data ErrorCode : Type 0 where
  minus_32600 minus_32601 minus_32602 minus_32001 minus_32005 : ErrorCode

pub data A2aResponse : Type 0 where
  with_result : RpcId → Message → A2aResponse
  with_error : RpcId → ErrorCode → String → A2aResponse

-- The clock at the request and at the quote, and `A2AQuote`.
pub record Desk : Type 0 where
  pub asked_at : ℕ
  pub quoted_at : ℕ
  pub quote : String → List String → Result String Quote

-- `message`
unfoldable pub message : Runtime → String → AnswerData → Message
message runtime context_id answer = record {
  context_id = context_id;
  message_id = joined ("response-" ∷ prefix_of 32 (runtime.sha_answer answer) ∷ []);
  content = answer;
  extensions = extension ∷ [];
}

abbrev pub is_version_2 : Option String → Bool
is_version_2 none = false
is_version_2 (some v) = v == "2.0"

abbrev pub is_rpc_id : RpcId → Bool
is_rpc_id (text_id s) = leb (length (codes s)) 180
is_rpc_id (number_id sign n) = is_safe_integer n
is_rpc_id null_id = true
is_rpc_id other_id = false

-- The request's method when the envelope is valid.
abbrev pub method_of : RpcRequest → Option String
method_of r = if is_version_2 r.jsonrpc && is_rpc_id r.id then r.method else none

abbrev pub is_optional_identity : Option String → Bool
is_optional_identity none = true
is_optional_identity (some s) = is_identity s

-- The one part of a message whose parameters the schema takes.
unfoldable pub part_of : SendParams → Option PartData
unfolding is_identity
part_of p = elim p.parts [
  | d ∷ [] ↦
      (if leb 1 (length (codes p.message_id))
          && leb (length (codes p.message_id)) 180
          && is_optional_identity p.context_id
        then some d
        else none)
  | _ ↦ none
]

abbrev pub is_text : Option String → Bool
is_text none = false
is_text (some s) = not (s == "")

abbrev pub refuses_json : Option (List String) → Bool
refuses_json none = false
refuses_json (some modes) = not (includes modes "application/json")

abbrev pub is_context : Option String → String → Bool
is_context none context = false
is_context (some c) context = c == context

-- `params.message.contextId&&params.message.contextId!==contextId`
abbrev is_other_context : Option String → String → Bool
is_other_context none context = false
is_other_context (some c) context = not (c == "") && not (c == context)

abbrev pub is_other_identity : Option String → Acceptance → A2aOffer → Bool
is_other_identity context acceptance offer =
    not (offer.payload.payer == acceptance.payer)
    || not (offer.payload.request_id == acceptance.request_id)
    || not (is_context context offer.payload.context_id)

-- The answer to an "accept".
unfoldable pub accept_offer :
    Runtime → ℕ → A2aConfig → Option String → Option Acceptance → Result String Message
unfolding is_acceptance verify_offer message
accept_offer runtime now config context parsed = do
  acceptance ← or_throw "Invalid acceptance." parsed
  throw_if (not (is_acceptance acceptance)) "Invalid acceptance."
  offer ← verify_offer runtime now config false acceptance.offer_token
  throw_if (is_other_identity context acceptance offer) "Identity mismatch"
  ok (message runtime offer.payload.context_id (accepted_offer offer))

unfoldable pub is_bad_quote : ℕ → A2aConfig → Proposal → Quote → Bool
is_bad_quote now config proposal q =
    not (q.provider_id == proposal.provider_id)
    || not (nat_beq q.units (length proposal.repos))
    || not (nat_beq q.amount_atomic (q.unit_price_atomic * length proposal.repos))
    || not (is_atomic q.unit_price_atomic)
    || not (is_atomic q.amount_atomic)
    || not (q.network == hedera_network)
    || not (q.asset == "HBAR")
    || not (q.pay_to == config.pay_to)
    || not (elim (instant_of q.expires_at) [ none ↦ false | some t ↦ ltb now t ])

abbrev pub context_of : Runtime → Proposal → String
context_of runtime p =
    joined ("commerce-" ∷ prefix_of 40 (runtime.sha_identity p.payer p.request_id) ∷ [])

-- `Math.min` of the minute, the mandate and the quote; NaN is excluded before for the quote, and
-- makes `toISOString` throw for the mandate.
abbrev pub offer_expiry : ℕ → ParsedDate → ParsedDate → Option DateText
offer_expiry now (some mandate) (some quote) = some (iso (min (now + 60000) (min mandate quote)))
offer_expiry now _ _ = none

abbrev pub offer_payload :
    Runtime → ℕ → A2aConfig → Proposal → Quote → String → DateText → OfferPayload
offer_payload runtime now config p q resource expiry = record {
  version = 1;
  context_id = context_of runtime p;
  request_id = p.request_id;
  payer = p.payer;
  provider_id = p.provider_id;
  repos = p.repos;
  resource_url = resource;
  unit_price_atomic = q.unit_price_atomic;
  amount_atomic = q.amount_atomic;
  max_amount_atomic = p.max_amount_atomic;
  mandate_expires_at = p.mandate_expires_at;
  issued_at = iso now;
  expires_at = expiry;
  network = hedera_network;
  asset = hbar_asset;
  pay_to = config.pay_to;
}

-- The signed offer for a proposal and a quote that were checked.
unfoldable pub issue_offer : Runtime → ℕ → A2aConfig → Proposal → Quote → Result String A2aOffer
unfolding sign
issue_offer runtime now config p q = do
  resource ← href_below runtime config.resource_base_url (evidence_path p.provider_id)
  expiry ←
      or_throw "Invalid time value"
        (offer_expiry now (instant_of p.mandate_expires_at) (instant_of q.expires_at))
  ok (sign runtime (offer_payload runtime now config p q resource expiry) config)

-- The answer to a proposal with its quote.
unfoldable pub answer_quote :
    Runtime → ℕ → A2aConfig → Option String → Proposal → Quote → Result String Message
unfolding is_bad_quote message issue_offer
answer_quote runtime now config context p q = do
  throw_if (is_bad_quote now config p q) "Invalid quote"
  throw_if (is_other_context context (context_of runtime p)) "Identity mismatch"
  if ltb p.max_amount_atomic q.amount_atomic
      then ok (message runtime (context_of runtime p) (counteroffer q))
      else do
        offer ← issue_offer runtime now config p q
        ok (message runtime (context_of runtime p) (unpaid_offer offer))

abbrev pub may_not_negotiate : ℕ → A2aConfig → Proposal → Bool
may_not_negotiate now config p =
    has_passed (instant_of p.mandate_expires_at) now || (p.payer == config.pay_to)

-- The answer to a proposal.
unfoldable pub answer_proposal :
    Runtime → Desk → A2aConfig → Option String → Option Proposal → Result String Message
unfolding is_proposal validate_repos answer_quote
answer_proposal runtime desk config context parsed = do
  p ← or_throw "Invalid proposal." parsed
  throw_if (not (is_proposal p)) "Invalid proposal."
  repos ← validate_repos p.repos
  throw_if (may_not_negotiate desk.asked_at config p) "Expired mandate"
  q ← desk.quote p.provider_id repos
  answer_quote runtime desk.quoted_at config context p q

unfoldable pub answer_part :
    Runtime → Desk → A2aConfig → Option String → PartData → Result String Message
unfolding accept_offer answer_proposal
answer_part runtime desk config context (accept_data parsed) =
    accept_offer runtime desk.asked_at config context parsed
answer_part runtime desk config context (other_data parsed) =
    answer_proposal runtime desk config context parsed

-- The catch of the handler.
abbrev caught : RpcId → Result String Message → A2aResponse
caught id (ok m) = with_result id m
caught id (err e) =
    with_error id minus_32602
      "Invalid params, expired authorization or unavailable valid service quote"

-- What the schema of "message/send" took.
unfoldable pub answer_message :
    Runtime → Desk → A2aConfig → RpcId → SendParams → PartData → A2aResponse
unfolding answer_part
answer_message runtime desk config id p part =
    if is_text p.task_id
    then with_error id minus_32001 "Task not found"
    else if refuses_json p.accepted_output_modes
    then with_error id minus_32005 "Unsupported content type"
    else caught id (answer_part runtime desk config p.context_id part)

abbrev pub send_message_of : RpcParams → Option (SendParams × PartData)
send_message_of (send_params p) = elim (part_of p) [ none ↦ none | some d ↦ some (p, d) ]
send_message_of _ = none

abbrev pub is_task_query : RpcParams → Bool
is_task_query (task_params id) = not (id == "")
is_task_query _ = false

abbrev pub is_task_method : String → Bool
is_task_method m = m == "tasks/get" || m == "tasks/cancel"

abbrev pub bad_params : RpcId → A2aResponse
bad_params id = with_error id minus_32602 "Invalid params"

-- The body of the try block.
unfoldable pub handle_send : Runtime → Desk → A2aConfig → RpcId → RpcParams → A2aResponse
unfolding validate_config answer_message
handle_send runtime desk config id params = elim (validate_config runtime config) [
  | err e ↦ caught id (err e)
  | ok done ↦ elim (send_message_of params) [
    | none ↦ caught id (err "Invalid params")
    | some (p, part) ↦ answer_message runtime desk config id p part
  ]
]

unfoldable pub handle_method : Runtime → Desk → A2aConfig → RpcRequest → String → A2aResponse
unfolding handle_send
handle_method runtime desk config r m =
    if is_task_method m
    then (if is_task_query r.params
        then with_error r.id minus_32001
            "Task not found. This agent returns Messages without creating Tasks."
        else bad_params r.id)
    else if not (m == "message/send")
    then with_error r.id minus_32601 "Method not found"
    else handle_send runtime desk config r.id r.params

-- `handleA2ARequest`
unfoldable pub handle_request : Runtime → Desk → A2aConfig → RpcInput → A2aResponse
unfolding handle_method
handle_request runtime desk config no_object = with_error null_id minus_32600 "Invalid Request"
handle_request runtime desk config (an_object r) = elim (method_of r) [
  | none ↦ with_error null_id minus_32600 "Invalid Request"
  | some m ↦ handle_method runtime desk config r m
]
