-- ===== src/Negotiation/Replies.antt =====
-- Which answer a JSON-RPC request of `handleA2ARequest` gets, by what it holds.
use obolos.Prelude.{◌≤◌, ◌≡◌, ◌≢◌, ◌⊎◌, inl, inr, refl, sym, ap, ◌∙◌, subst, String, true, false}
use obolos.Prelude.{List, [], ◌∷◌, Option, none, some, ok, err, ◌==◌, not, string_eq, length, codes}
use obolos.Prelude.{includes, arith, Bool-cases, Option-cases, Result-cases, if◌then◌else◌}
use obolos.Negotiation.{A2aConfig, Runtime, Message}
use obolos.Negotiation.Schema.{is_identity}
use obolos.Negotiation.Config.{validate_config}
use obolos.Negotiation.Answer.{Desk, RpcId, RpcRequest, RpcParams, an_object, null_id, text_id}
use obolos.Negotiation.Answer.{number_id, other_id, task_params, send_params, other_params}
use obolos.Negotiation.Answer.{ErrorCode, minus_32600, minus_32601, minus_32602, minus_32001}
use obolos.Negotiation.Answer.{minus_32005, method_of, is_version_2, is_rpc_id, is_task_method}
use obolos.Negotiation.Answer.{is_task_query, send_message_of, part_of, SendParams, PartData}
use obolos.Negotiation.Answer.{is_optional_identity, is_text, refuses_json, answer_part}
use obolos.Negotiation.Answer.{handle_request}
use obolos.Negotiation.Codes.{id_in, code_in, reply_id, reply_code, expected_code, message_code}
use obolos.Negotiation.Codes.{is_configured, handle_request-codes}

-- A text of at most 180 characters, an integer that a number holds exactly, or null.
abbrev pub IsUsableId : RpcId → Type 0
IsUsableId (text_id s) = length (codes s) ≤ 180
IsUsableId (number_id sign n) = n ≤ 9007199254740991
IsUsableId null_id = Unit
IsUsableId other_id = ⊥

-- A request of JSON-RPC 2.0 for a method.
pub record IsEnvelope (r : RpcRequest) (m : String) : Type 0 where
  pub version : r.jsonrpc ≡ some "2.0"
  pub identified : IsUsableId r.id
  pub named : r.method ≡ some m

-- The parameters of one message with one part.
pub record IsMessage (params : RpcParams) (s : SendParams) (part : PartData) : Type 0 where
  pub sent : params ≡ send_params s
  pub one_part : s.parts ≡ part ∷ []
  pub some_id : 1 ≤ length (codes s.message_id)
  pub short_id : length (codes s.message_id) ≤ 180
  pub context : (c : String) → s.context_id ≡ some c → is_identity c ≡ true

-- The method of a query or a cancellation of a task.
abbrev pub IsTaskMethod : String → Type 0
IsTaskMethod m = (m ≡ "tasks/get") ⊎ (m ≡ "tasks/cancel")

-- No task, or an empty one, is named.
abbrev pub NamesNoTask : SendParams → Type 0
NamesNoTask s = (t : String) → s.task_id ≡ some t → t ≡ ""

abbrev pub TakesJson : SendParams → Type 0
TakesJson s =
    (modes : List String)
    → s.accepted_output_modes ≡ some modes
    → includes modes "application/json" ≡ true

-- The identifier and the error code of the answer to a request.
pub data Answers (runtime : Runtime) (desk : Desk) (config : A2aConfig) (r : RpcRequest)
    : RpcId → Option ErrorCode → Type 0 where
  refused :
      ((m : String) → IsEnvelope r m → ⊥) → Answers runtime desk config r null_id (some minus_32600)
  no_task :
      (m t : String)
      → IsEnvelope r m
      → IsTaskMethod m
      → r.params ≡ task_params t
      → t ≢ ""
      → Answers runtime desk config r r.id (some minus_32001)
  no_query :
      (m : String)
      → IsEnvelope r m
      → IsTaskMethod m
      → ((t : String) → r.params ≡ task_params t → t ≡ "")
      → Answers runtime desk config r r.id (some minus_32602)
  no_method :
      (m : String)
      → IsEnvelope r m
      → m ≢ "tasks/get"
      → m ≢ "tasks/cancel"
      → m ≢ "message/send"
      → Answers runtime desk config r r.id (some minus_32601)
  not_configured :
      (e : String)
      → IsEnvelope r "message/send"
      → validate_config runtime config ≡ err e
      → Answers runtime desk config r r.id (some minus_32602)
  no_message :
      IsEnvelope r "message/send"
      → validate_config runtime config ≡ ok tt
      → ((s : SendParams) (part : PartData) → IsMessage r.params s part → ⊥)
      → Answers runtime desk config r r.id (some minus_32602)
  names_task :
      (s : SendParams) (part : PartData) (t : String)
      → IsEnvelope r "message/send"
      → validate_config runtime config ≡ ok tt
      → IsMessage r.params s part
      → s.task_id ≡ some t
      → t ≢ ""
      → Answers runtime desk config r r.id (some minus_32001)
  takes_no_json :
      (s : SendParams) (part : PartData) (modes : List String)
      → IsEnvelope r "message/send"
      → validate_config runtime config ≡ ok tt
      → IsMessage r.params s part
      → NamesNoTask s
      → s.accepted_output_modes ≡ some modes
      → includes modes "application/json" ≡ false
      → Answers runtime desk config r r.id (some minus_32005)
  thrown :
      (s : SendParams) (part : PartData) (e : String)
      → IsEnvelope r "message/send"
      → validate_config runtime config ≡ ok tt
      → IsMessage r.params s part
      → NamesNoTask s
      → TakesJson s
      → answer_part runtime desk config s.context_id part ≡ err e
      → Answers runtime desk config r r.id (some minus_32602)
  answered :
      (s : SendParams) (part : PartData) (m : Message)
      → IsEnvelope r "message/send"
      → validate_config runtime config ≡ ok tt
      → IsMessage r.params s part
      → NamesNoTask s
      → TakesJson s
      → answer_part runtime desk config s.context_id part ≡ ok m
      → Answers runtime desk config r r.id none

is_version_2-same : (o : Option String) → is_version_2 o ≡ true → o ≡ some "2.0"
is_version_2-same none h = cc
is_version_2-same (some v) h = ap some ((string_eq.same_iff v "2.0").0 h)

is_rpc_id-IsUsableId : (i : RpcId) → is_rpc_id i ≡ true → IsUsableId i
is_rpc_id-IsUsableId (text_id s) h = ground arith
is_rpc_id-IsUsableId (number_id sign n) h = ground arith
is_rpc_id-IsUsableId null_id h = tt
is_rpc_id-IsUsableId other_id h = cc

IsUsableId-is_rpc_id : (i : RpcId) → IsUsableId i → is_rpc_id i ≡ true
IsUsableId-is_rpc_id (text_id s) h = ground arith
IsUsableId-is_rpc_id (number_id sign n) h = ground arith
IsUsableId-is_rpc_id null_id h = refl
IsUsableId-is_rpc_id other_id h = absurd h

method_of-IsEnvelope : (r : RpcRequest) (m : String) → method_of r ≡ some m → IsEnvelope r m
method_of-IsEnvelope r m h = record {
  version = is_version_2-same r.jsonrpc (ground arith);
  identified = is_rpc_id-IsUsableId r.id (ground arith);
  named = ground arith;
}

IsEnvelope-method_of : (r : RpcRequest) (m : String) → IsEnvelope r m → method_of r ≡ some m
IsEnvelope-method_of r m e = rw (e.version, IsUsableId-is_rpc_id r.id e.identified) e.named

is_optional_identity-fact :
    (o : Option String)
    → is_optional_identity o ≡ true
    → (c : String) → o ≡ some c
    → is_identity c ≡ true
is_optional_identity-fact o h c same = rw same at h

is_optional_identity-true :
    (o : Option String)
    → ((c : String) → o ≡ some c → is_identity c ≡ true)
    → is_optional_identity o ≡ true
is_optional_identity-true none h = refl
is_optional_identity-true (some c) h = h c refl

single-part_of :
    (s : SendParams) (ps : List PartData) (part : PartData)
    → part_of (record s { parts = ps }) ≡ some part
    → (ps ≡ part ∷ [])
      × (1 ≤ length (codes s.message_id))
      × (length (codes s.message_id) ≤ 180)
      × (is_optional_identity s.context_id ≡ true)
unfolding part_of
single-part_of s [] part h = absurd (ground arith)
single-part_of s (d ∷ []) part h = (ground arith, ground arith, ground arith, ground arith)
single-part_of s (d ∷ e ∷ ps) part h = absurd (ground arith)

send_message_of-IsMessage :
    (params : RpcParams) (s : SendParams) (part : PartData)
    → send_message_of params ≡ some (s, part)
    → IsMessage params s part
send_message_of-IsMessage (task_params t) s part h = cc
send_message_of-IsMessage other_params s part h = cc
send_message_of-IsMessage (send_params p) s part h = elim (Option-cases (part_of p)) [
  | inl none_found ↦ absurd (ground (arith, h, none_found))
  | inr (d, found) ↦
      let same : some (p, d) ≡ some (s, part) = sym (rw (found, send_message_of) refl) ∙ h in
      let pair : ◌≡◌ {A = SendParams × PartData} (p, d) (s, part) =
        ap (λ o. elim o [ none ↦ (p, d) | some y ↦ y ]) same in
      let found' : part_of s ≡ some part = subst (λ x. part_of x.0 ≡ some x.1) pair found in
      let (one, some_id, short, context) = single-part_of s s.parts part found' in
      record {
        sent = ap (λ x. send_params x.0) pair;
        one_part = one;
        some_id = some_id;
        short_id = short;
        context = is_optional_identity-fact s.context_id context;
      }
]

part_of-single :
    (s : SendParams) (part : PartData)
    → 1 ≤ length (codes s.message_id)
    → length (codes s.message_id) ≤ 180
    → is_optional_identity s.context_id ≡ true
    → part_of (record s { parts = part ∷ [] }) ≡ some part
unfolding part_of
part_of-single s part a b c = ground arith

IsMessage-send_message_of :
    (params : RpcParams) (s : SendParams) (part : PartData)
    → IsMessage params s part
    → send_message_of params ≡ some (s, part)
IsMessage-send_message_of params s part m =
    let found : part_of s ≡ some part =
      subst (λ ps. part_of (record s { parts = ps }) ≡ some part) (sym m.one_part)
        (part_of-single s part m.some_id m.short_id
          (is_optional_identity-true s.context_id m.context)) in
    rw (m.sent, send_message_of, found) refl

not_empty : (t : String) → not (t == "") ≡ true → t ≢ ""
not_empty t h same = ground (arith, string_eq.same_iff t "")

is_text-some : (o : Option String) → is_text o ≡ true → (t : String) × (o ≡ some t) × (t ≢ "")
is_text-some none h = cc
is_text-some (some t) h = (t, refl, not_empty t h)

is_text-NamesNoTask : (s : SendParams) → is_text s.task_id ≡ false → NamesNoTask s
is_text-NamesNoTask s h t same = ground (arith, same, string_eq.same_iff t "")

refuses_json-some :
    (o : Option (List String))
    → refuses_json o ≡ true
    → (modes : List String) × (o ≡ some modes) × (includes modes "application/json" ≡ false)
refuses_json-some none h = cc
refuses_json-some (some modes) h = (modes, refl, ground arith)

refuses_json-TakesJson :
    (s : SendParams) → refuses_json s.accepted_output_modes ≡ false → TakesJson s
refuses_json-TakesJson s h modes same = ground (arith, same)

is_task_method-IsTaskMethod : (m : String) → is_task_method m ≡ true → IsTaskMethod m
is_task_method-IsTaskMethod m h = elim (Bool-cases (m == "tasks/get")) [
  | inl get ↦ inl ((string_eq.same_iff m "tasks/get").0 get)
  | inr other ↦ inr ((string_eq.same_iff m "tasks/cancel").0 (ground (arith, other)))
]

other_text : (m n : String) → (m == n) ≡ false → m ≢ n
other_text m n h same = ground (arith, string_eq.same_iff m n)

query-Answers :
    (params : RpcParams)
    → ((t : String) × (params ≡ task_params t) × (t ≢ "") × (is_task_query params ≡ true))
      ⊎ (((t : String) → params ≡ task_params t → t ≡ "") × (is_task_query params ≡ false))
query-Answers (send_params p) = inr (λ t same. cc, refl)
query-Answers other_params = inr (λ t same. cc, refl)
query-Answers (task_params t) = elim (Bool-cases (t == "")) [
  | inl empty ↦ inr (
    λ u same.
        subst
          (λ (p : RpcParams). elim p [
            | task_params x ↦ x ≡ ""
            | send_params x ↦ Unit
            | other_params ↦ Unit
          ])
          same ((string_eq.same_iff t "").0 empty),
    ground (arith, empty),
  )
  | inr some_text ↦ inl (t, refl, other_text t "" some_text, ground (arith, some_text))
]

module _ (runtime : Runtime) (desk : Desk) (config : A2aConfig) (r : RpcRequest) where
  message-Answers :
      IsEnvelope r "message/send"
      → validate_config runtime config ≡ ok tt
      → Answers runtime desk config r r.id
          (message_code runtime desk config (send_message_of r.params))
  message-Answers envelope valid = elim (Option-cases (send_message_of r.params)) [
    | inl none_sent ↦ rw none_sent (
        no_message envelope valid
          (λ s part m. absurd (cc (IsMessage-send_message_of r.params s part m, none_sent))))
    | inr (x, sent) ↦
        let m = send_message_of-IsMessage r.params x.0 x.1 sent in
        rw sent (part-Answers x.0 x.1 envelope valid m)
  ]
    where
      part-Answers :
          (s : SendParams) (part : PartData)
          → IsEnvelope r "message/send"
          → validate_config runtime config ≡ ok tt
          → IsMessage r.params s part
          → Answers runtime desk config r r.id (message_code runtime desk config (some (s, part)))
      part-Answers s part envelope valid m = elim (Bool-cases (is_text s.task_id)) [
        | inl named ↦
            let (t, same, other) = is_text-some s.task_id named in
            rw named (names_task s part t envelope valid m same other)
        | inr unnamed ↦ elim (Bool-cases (refuses_json s.accepted_output_modes)) [
          | inl refuses ↦
              let (modes, same, absent) = refuses_json-some s.accepted_output_modes refuses in
              rw (unnamed, refuses)
                (takes_no_json s part modes envelope valid m (is_text-NamesNoTask s unnamed) same
                  absent)
          | inr takes ↦
              let no_task_named = is_text-NamesNoTask s unnamed in
              let json = refuses_json-TakesJson s takes in
              elim (Result-cases (answer_part runtime desk config s.context_id part)) [
                | inl (a, done) ↦
                    rw (unnamed, takes, done)
                      (answered s part a envelope valid m no_task_named json done)
                | inr (e, failed) ↦
                    rw (unnamed, takes, failed)
                      (thrown s part e envelope valid m no_task_named json failed)
              ]
        ]
      ]

  send-Answers :
      IsEnvelope r "message/send"
      → Answers runtime desk config r r.id (
          if is_configured (validate_config runtime config)
          then message_code runtime desk config (send_message_of r.params)
          else some minus_32602)
  send-Answers envelope = elim (Result-cases (validate_config runtime config)) [
    | inl (u, valid) ↦ rw valid (message-Answers envelope valid)
    | inr (e, invalid) ↦ rw invalid (not_configured e envelope invalid)
  ]

  method-Answers :
      (m : String)
      → IsEnvelope r m
      → Answers runtime desk config r r.id (expected_code runtime desk config r.params m)
  method-Answers m envelope = elim (Bool-cases (is_task_method m)) [
    | inl task ↦
        let method = is_task_method-IsTaskMethod m task in
        elim (query-Answers r.params) [
          | inl (t, same, some_text, query) ↦
              rw (task, query) (no_task m t envelope method same some_text)
          | inr (absent, query) ↦ rw (task, query) (no_query m envelope method absent)
        ]
    | inr other ↦
        let not_get = other_text m "tasks/get" (ground (arith, other)) in
        let not_cancel = other_text m "tasks/cancel" (ground (arith, other)) in
        elim (Bool-cases (m == "message/send")) [
          | inr unknown ↦
              rw (other, unknown)
                (no_method m envelope not_get not_cancel (other_text m "message/send" unknown))
          | inl send ↦
              rw (other, send)
                (send-Answers
                  (subst (IsEnvelope r) ((string_eq.same_iff m "message/send").0 send) envelope))
        ]
  ]

  reply-Answers : Answers runtime desk config r (reply_id r) (reply_code runtime desk config r)
  reply-Answers = elim (Option-cases (method_of r)) [
    | inl bad ↦
        rw (reply_id, reply_code, bad)
          (refused (λ m envelope. absurd (cc (IsEnvelope-method_of r m envelope, bad))))
    | inr (m, found) ↦
        rw (reply_id, reply_code, found) (method-Answers m (method_of-IsEnvelope r m found))
  ]

-- The answer to any request, by what the request holds. One that is not JSON-RPC "2.0" with a method
-- and a usable identifier gets a null identifier and -32600. Any other gets its own identifier, and:
-- for tasks/get and tasks/cancel -32001 if it names a task and else -32602; for a method other than
-- these and message/send -32601; for message/send -32602 under an invalid configuration or without
-- one message of one part, -32001 if the message names a task, -32005 if it does not take JSON, -32602
-- if the answer to its part throws, and else no error.
pub handle_request-Answers :
    (runtime : Runtime) (desk : Desk) (config : A2aConfig) (r : RpcRequest)
    → Answers runtime desk config r
        (id_in (handle_request runtime desk config (an_object r)))
        (code_in (handle_request runtime desk config (an_object r)))
handle_request-Answers runtime desk config r =
    let (id, code) = handle_request-codes runtime desk config r in
    subst
      (λ c.
        Answers runtime desk config r (id_in (handle_request runtime desk config (an_object r))) c)
      (sym code)
      (subst (λ i. Answers runtime desk config r i (reply_code runtime desk config r)) (sym id)
        (reply-Answers runtime desk config r))
