-- ===== src/Runner/Message.antt =====
-- `mandateMessage` of src/lib/platform/execution-contracts.ts: the text that the owner signs, as code
-- points, with the decimal numbers and the JSON that it prints.
use obolos.Prelude.{
  ℕ, ◌+◌, ◌*◌, ◌/◌, ◌%◌, ◌-◌, String, List, [], ◌∷◌, ◌++◌, map, Option, none, some, ltb,
}
use obolos.Prelude.{nat_beq, codes, if◌then◌else◌, zero, suc}
use obolos.Contracts.{VerificationService}
use obolos.Engine.Create.{lower_codes}
use obolos.Runner.{SignedMandate}

-- The decimal digits of a number of at most the given count of digits.
unfoldable digits : ℕ → ℕ → List ℕ
digits zero n = []
digits (suc fuel) n =
    let rest = digits fuel (n / 10) in
    if ltb n 10 then (b'0' + n) ∷ [] else rest ++ (b'0' + n % 10) ∷ []

-- Twenty digits are more than a safe integer, or ten times a budget of the schema, can have.
abbrev decimal : ℕ → List ℕ
decimal n = digits 20 n

-- The texts with one code between them.
unfoldable separated : ℕ → List (List ℕ) → List ℕ
separated c [] = []
separated c (x ∷ []) = x
separated c (x ∷ y ∷ rest) = x ++ c ∷ separated c (y ∷ rest)

abbrev hex_digit : ℕ → ℕ
hex_digit n = if ltb n 10 then b'0' + n else b'a' + (n - 10)

-- A character in the JSON of a text.
abbrev json_char : ℕ → List ℕ
json_char c =
    if nat_beq c 34
    then b'\\' ∷ 34 ∷ []
    else if nat_beq c b'\\'
    then b'\\' ∷ b'\\' ∷ []
    else if nat_beq c 8
    then b'\\' ∷ b'b' ∷ []
    else if nat_beq c 9
    then b'\\' ∷ b't' ∷ []
    else if nat_beq c 10
    then b'\\' ∷ b'n' ∷ []
    else if nat_beq c 12
    then b'\\' ∷ b'f' ∷ []
    else if nat_beq c 13
    then b'\\' ∷ b'r' ∷ []
    else if ltb c 32
    then codes "\\u00" ++ hex_digit (c / 16) ∷ hex_digit (c % 16) ∷ []
    else c ∷ []

unfoldable json_chars : List ℕ → List ℕ
json_chars [] = []
json_chars (c ∷ cs) = json_char c ++ json_chars cs

abbrev json_text : String → List ℕ
unfolding json_chars
json_text s = 34 ∷ json_chars (codes s) ++ 34 ∷ []

-- `JSON.stringify` of a list of texts.
abbrev json_texts : List String → List ℕ
json_texts ts = b'[' ∷ separated b',' (map json_text ts) ++ b']' ∷ []

-- An entry of the JSON of an object.
abbrev json_entry : String → List ℕ → List ℕ
json_entry key value = json_text key ++ b':' ∷ value

abbrev json_execution : Option String → List (List ℕ)
json_execution none = []
json_execution (some endpoint) =
    json_entry "execution" (json_text "external-repo-verifier")
    ∷ json_entry "providerEndpoint" (json_text endpoint)
    ∷ []

-- `JSON.stringify` of the service as the message picks its entries.
abbrev json_service : VerificationService → List ℕ
json_service s =
    b'{'
      ∷ separated b',' (
          json_entry "id" (json_text s.id)
          ∷ json_entry "revision" (decimal s.revision)
          ∷ json_entry "name" (json_text s.name)
          ∷ json_entry "recipient" (json_text s.recipient)
          ∷ json_entry "priceAtomic" (decimal s.price_atomic)
          ∷ json_entry "endpoint" (json_text s.endpoint)
          ∷ json_execution s.provider_endpoint)
    ++ b'}' ∷ []

-- `'execution' in m.verificationService`, which the schema grants together with its endpoint.
abbrev version_of : Option VerificationService → String
version_of none = "v1"
version_of (some s) = elim s.provider_endpoint [ none ↦ "v2" | some e ↦ "v3" ]

abbrev service_lines : Option VerificationService → List (List ℕ)
service_lines none = []
service_lines (some s) = (codes "Verification service: " ++ json_service s) ∷ []

unfoldable pub mandate_message : SignedMandate → List ℕ
unfolding digits separated json_chars
mandate_message m = separated 10 (
    (codes "Obolos isolated runner spending mandate " ++ codes (version_of m.verification_service))
    ∷ (codes "Origin: " ++ codes m.origin)
    ∷ (codes "Mandate: " ++ codes m.id)
    ∷ (codes "Agent: " ++ codes m.agent_id)
    ∷ (codes "Owner: " ++ lower_codes m.owner)
    ∷ codes "Signing provenance: wallet"
    ∷ (codes "Repositories: " ++ json_texts m.repos)
    ∷ (codes "Allowed providers: " ++ json_texts m.allowed_providers)
    ∷ (codes "Maximum HBAR atomic units per repository: " ++ decimal m.max_data_unit_price_atomic)
    ∷ (codes "HBAR atomic units per run: " ++ decimal m.data_budget_atomic)
    ∷ (codes "USDC atomic units per run: " ++ decimal m.verification_budget_atomic)
    ∷ (codes "Maximum runs: " ++ decimal m.max_runs)
    ∷ (codes "Total HBAR atomic units: " ++ decimal (m.data_budget_atomic * m.max_runs))
    ∷ (codes "Total USDC atomic units: " ++ decimal (m.verification_budget_atomic * m.max_runs))
    ∷ (service_lines m.verification_service
        ++ (codes "Expires: " ++ codes m.expires_text)
          ∷ codes "Network scope: Hedera testnet and Arc testnet only."
          ∷ codes
              "I authorize my paired runner to execute only this scope. This is spending approval, not an identity login."
          ∷ []))
