-- ===== src/Platform/Terms.antt =====
-- The terms of a job that `validateRunnerResult` holds a result, its evidence and its receipts to.
use Prim.Native.Char.{Char, code}
use Prim.Native.String
use obolos.Prelude.{ℕ, ◌*◌, ◌%◌, String, Bool, true, false, ◌&&◌, ◌||◌, not, List, [], ◌∷◌}
use obolos.Prelude.{Option, none, some, leb, ltb, ◌==◌, nat_beq, nat_eq, string_eq, list_eq, all}
use obolos.Prelude.{length, codes, joined, is_digit, is_hex_text, includes}
use obolos.Prelude.{Result, ok, ◌>>=◌, if◌then◌else◌}
use obolos.Contracts.{VerificationService, Thrown, Run, Asset, Receipt}
use obolos.Contracts.{RepoEvidence, network_eq, asset_eq, status_eq}
use obolos.Engine.Create.{lower_codes}
use obolos.Engine.Verify.{source_of}
use obolos.Runner.Mandate.{date_eq}
use obolos.Runner.Guard.{evidence_eq}
use obolos.Platform.{ResultJob, Readers, option_service_eq, text_or}

abbrev pub invalid_result : Thrown
invalid_result = some "Runner result does not match this job and its signed payment scope."

-- The first condition: another job, mandate or scope.
abbrev pub is_other_scope : Run → ResultJob → Bool
is_other_scope r job =
    not (r.id == job.id)
    || not (r.repos == job.repos)
    || not (nat_beq r.mandate.version 1)
    || not (nat_beq r.mandate.data_budget_atomic job.mandate.data_budget_atomic)
    || not (nat_beq r.mandate.verification_budget_atomic job.mandate.verification_budget_atomic)
    || not (nat_beq r.mandate.max_data_unit_price_atomic job.mandate.max_data_unit_price_atomic)
    || not (r.mandate.expires_at == job.mandate.expires_at)
    || not (r.mandate.allowed_providers == job.mandate.allowed_providers)
    || r.shock_applied

abbrev pub service_of : Readers → ResultJob → Result Thrown (Option VerificationService)
service_of readers job = elim job.mandate.verification_service [
  | none ↦ ok none
  | some s ↦ readers.read_service s >>= λ service. ok (some service)
]

abbrev pub is_other_provider : Run → ResultJob → Bool
is_other_provider r job =
    let chosen = text_or "" r.selected_provider in
    not (chosen == "") && not (includes job.mandate.allowed_providers chosen)

abbrev pub is_other_evidence : ResultJob → RepoEvidence → Bool
is_other_evidence job e = not (includes job.repos e.repo) || not (e.source_url == source_of e.repo)

-- \d+ and then the character
abbrev pub after_number : ℕ → Bool → List ℕ → Option (List ℕ)
after_number stop seen [] = none
after_number stop seen (c ∷ cs) =
    if is_digit c
    then after_number stop true cs
    else if seen && nat_beq c stop
    then some cs
    else none

abbrev pub is_number : List ℕ → Bool
is_number cs = leb 1 (length cs) && all is_digit cs

abbrev pub is_account_at : List ℕ → Bool
is_account_at cs = elim (after_number b'@' false cs) [
  | none ↦ false
  | some time ↦ elim (after_number b'.' false time) [ none ↦ false | some rest ↦ is_number rest ]
]

-- /^0\.0\.\d+@\d+\.\d+$/
unfoldable pub is_hedera_id : List ℕ → Bool
is_hedera_id (a ∷ b ∷ c ∷ d ∷ rest) =
    nat_beq a b'0' && nat_beq b b'.' && nat_beq c b'0' && nat_beq d b'.' && is_account_at rest
is_hedera_id _ = false

abbrev pub data_request : ResultJob → String
data_request job = joined (job.id ∷ ":data" ∷ [])

abbrev pub verify_request : ResultJob → String
verify_request job = joined (job.id ∷ ":verify" ∷ [])

abbrev pub is_bad_data_receipt : Run → ResultJob → Receipt → Bool
is_bad_data_receipt r job receipt =
    not (receipt.asset == Asset.hbar)
    || not (receipt.request_id == data_request job)
    || not (includes job.mandate.allowed_providers receipt.provider)
    || not (elim r.selected_provider [ none ↦ false | some p ↦ receipt.provider == p ])
    || not (nat_beq receipt.units (length job.repos))
    || nat_beq receipt.units 0
    || not (nat_beq (receipt.amount_atomic % receipt.units) 0)
    || ltb (job.mandate.max_data_unit_price_atomic * length job.repos) receipt.amount_atomic
    || not (is_hedera_id (codes (text_or "" receipt.transaction_id)))

-- The price of the service, or the fixed fee.
abbrev pub verification_fee : ResultJob → ℕ
verification_fee job = elim job.mandate.verification_service [
  | none ↦ 50000
  | some s ↦ s.price_atomic
]

abbrev pub is_bad_verification_receipt : ResultJob → Receipt → Bool
is_bad_verification_receipt job receipt =
    not (nat_beq receipt.amount_atomic (verification_fee job))
    || not (receipt.asset == Asset.usdc)
    || not (receipt.request_id == verify_request job)
    || not (receipt.provider == "arc-verifier")
    || not (nat_beq receipt.units 1)
    || not (is_hex_text 64 (text_or "" receipt.transaction_id))

abbrev pub is_unpaid_order : ResultJob → Receipt → Bool
is_unpaid_order job receipt = elim job.mandate.verification_service [
  | none ↦ false
  | some s ↦
      (text_or "" receipt.order_id == "")
      || not (elim receipt.recipient [
        | none ↦ false
        | some p ↦ lower_codes p == lower_codes s.recipient
      ])
]

-- `toLowerCase` of a hexadecimal text.
abbrev pub lower_hex : Char → Char
lower_hex c =
    if nat_beq (code c) b'A'
    then "a"
    else if nat_beq (code c) b'B'
    then "b"
    else if nat_beq (code c) b'C'
    then "c"
    else if nat_beq (code c) b'D'
    then "d"
    else if nat_beq (code c) b'E'
    then "e"
    else if nat_beq (code c) b'F'
    then "f"
    else c

abbrev pub lower_text : String → String
lower_text String.[] = String.[]
lower_text (String.◌∷◌ c s) = String.◌∷◌ (lower_hex c) (lower_text s)

-- `encodeURIComponent` of an identifier of Hedera, whose only other character is @.
abbrev pub encoded : String → String
encoded String.[] = String.[]
encoded (String.◌∷◌ c s) =
    if nat_beq (code c) b'@' then String.◌++◌ "%40" (encoded s) else String.◌∷◌ c (encoded s)
