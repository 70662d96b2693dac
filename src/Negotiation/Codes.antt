-- ===== src/Negotiation/Codes.antt =====
-- The errors of the handler, as JSON-RPC and A2A number them.
use obolos.Prelude.{◌≡◌, String, Bool, true, false, not, Option, none, some, ok, err, arith}
use obolos.Prelude.{if◌then◌else◌, ◌==◌, string_eq, Result, Result-cases, Option-cases, inl, inr}
use obolos.Negotiation.{A2aConfig, Runtime, Message}
use obolos.Negotiation.Config.{validate_config}
use obolos.Negotiation.Answer.{Desk, RpcId, RpcRequest, RpcParams, an_object, null_id}
use obolos.Negotiation.Answer.{
  A2aResponse, with_result, with_error, ErrorCode, minus_32600, minus_32601,
}
use obolos.Negotiation.Answer.{minus_32602, minus_32001, minus_32005, method_of, is_task_method}
use obolos.Negotiation.Answer.{is_task_query, send_message_of, SendParams, PartData, handle_request}
use obolos.Negotiation.Answer.{
  handle_method, handle_send, answer_message, answer_part, refuses_json,
}
use obolos.Negotiation.Answer.{is_text}

abbrev pub id_in : A2aResponse → RpcId
id_in (with_result id m) = id
id_in (with_error id code text) = id

abbrev pub code_in : A2aResponse → Option ErrorCode
code_in (with_result id m) = none
code_in (with_error id code text) = some code

abbrev pub succeeds : Result String Message → Bool
succeeds (ok m) = true
succeeds (err e) = false

-- The code of a message that the schema takes, under a valid configuration.
abbrev pub message_code :
    Runtime → Desk → A2aConfig → Option (SendParams × PartData) → Option ErrorCode
message_code runtime desk config none = some minus_32602
message_code runtime desk config (some (s, part)) =
    if is_text s.task_id
    then some minus_32001
    else if refuses_json s.accepted_output_modes
    then some minus_32005
    else if succeeds (answer_part runtime desk config s.context_id part)
    then none
    else some minus_32602

abbrev pub is_configured : Result String (Unit {0}) → Bool
is_configured (ok u) = true
is_configured (err e) = false

-- The code that a request with this method is to have.
abbrev pub expected_code : Runtime → Desk → A2aConfig → RpcParams → String → Option ErrorCode
expected_code runtime desk config params m =
    if is_task_method m
    then (if is_task_query params then some minus_32001 else some minus_32602)
    else if not (m == "message/send")
    then some minus_32601
    else if is_configured (validate_config runtime config)
    then message_code runtime desk config (send_message_of params)
    else some minus_32602

abbrev pub reply_id : RpcRequest → RpcId
reply_id r = elim (method_of r) [ none ↦ null_id | some m ↦ r.id ]

abbrev pub reply_code : Runtime → Desk → A2aConfig → RpcRequest → Option ErrorCode
reply_code runtime desk config r = elim (method_of r) [
  | none ↦ some minus_32600
  | some m ↦ expected_code runtime desk config r.params m
]

answer_message-code :
    (runtime : Runtime) (desk : Desk) (config : A2aConfig) (id : RpcId) (s : SendParams)
    (part : PartData)
    → (id_in (answer_message runtime desk config id s part) ≡ id)
      × (code_in (answer_message runtime desk config id s part)
          ≡ message_code runtime desk config (some (s, part)))
unfolding answer_message
answer_message-code runtime desk config id s part =
    elim (Result-cases (answer_part runtime desk config s.context_id part)) [
      | inl (m, r) ↦ (ground arith, ground arith)
      | inr (e, r) ↦ (ground arith, ground arith)
    ]

handle_send-code :
    (runtime : Runtime) (desk : Desk) (config : A2aConfig) (id : RpcId) (params : RpcParams)
    → (id_in (handle_send runtime desk config id params) ≡ id)
      × (code_in (handle_send runtime desk config id params) ≡ (
          if is_configured (validate_config runtime config)
          then message_code runtime desk config (send_message_of params)
          else some minus_32602))
unfolding handle_send
handle_send-code runtime desk config id params =
    elim (Result-cases (validate_config runtime config)) [
      | inr (e, c) ↦ (ground arith, ground arith)
      | inl (u, c) ↦ elim (Option-cases (send_message_of params)) [
        | inl n ↦ (ground arith, ground arith)
        | inr (x, n) ↦ (
          ground (arith, answer_message-code runtime desk config id x.0 x.1),
          ground (arith, answer_message-code runtime desk config id x.0 x.1),
        )
      ]
    ]

handle_method-code :
    (runtime : Runtime) (desk : Desk) (config : A2aConfig) (r : RpcRequest) (m : String)
    → (id_in (handle_method runtime desk config r m) ≡ r.id)
      × (code_in (handle_method runtime desk config r m)
          ≡ expected_code runtime desk config r.params m)
unfolding handle_method
handle_method-code runtime desk config r m = (
  ground (arith, handle_send-code runtime desk config r.id r.params),
  ground (arith, handle_send-code runtime desk config r.id r.params),
)

-- The answer to a request of JSON-RPC 2.0 with a usable identifier and a method repeats the
-- identifier, and its error is: -32001 or -32602 for a task method, as its parameters are a query
-- or not; -32601 for another method than "message/send"; for a message -32602 under an invalid
-- configuration or with other parameters, -32001 when it names a task, -32005 when it refuses
-- JSON, -32602 when its part throws, and none otherwise. Any other request is answered with -32600
-- and a null identifier.
pub handle_request-codes :
    (runtime : Runtime) (desk : Desk) (config : A2aConfig) (r : RpcRequest)
    → (id_in (handle_request runtime desk config (an_object r)) ≡ reply_id r)
      × (code_in (handle_request runtime desk config (an_object r))
          ≡ reply_code runtime desk config r)
unfolding handle_request
handle_request-codes runtime desk config r = elim (Option-cases (method_of r)) [
  | inl bad ↦ (ground arith, ground arith)
  | inr (m, found) ↦ (
    ground (arith, handle_method-code runtime desk config r m),
    ground (arith, handle_method-code runtime desk config r m),
  )
]
