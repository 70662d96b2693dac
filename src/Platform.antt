-- ===== src/Platform.antt =====
-- `classifyRunnerStatus` and `validateRunnerResult` of src/lib/platform/execution.ts: what the
-- platform accepts of a runner. A run is one that the schema of a result admits, so its receipts are
-- settled and have a transaction.
pub mod Terms
pub mod Upload
pub mod Payments
pub mod Accepted
mod Tests
use obolos.Prelude.{
  ℕ, ◌+◌, ◌*◌, ◌%◌, String, Bool, true, false, ◌&&◌, ◌||◌, not, List, [], ◌∷◌, map,
}
use obolos.Prelude.{
  Option, none, some, leb, ltb, ◌==◌, nat_beq, nat_eq, string_eq, list_eq, all, any,
}
use obolos.Prelude.{length, codes, joined, is_digit, is_hex_text, is_distinct, includes, Eq, find}
use obolos.Prelude.{discrete_eq, Result, ok, err, ◌>>◌, ◌>>=◌, throw_if, if◌then◌else◌}
use obolos.Contracts.{VerificationService, Thrown, Run, RunStatus, Stage, Network, Asset, Receipt}
use obolos.Contracts.{
  settled, simulated, Report, Check, RepoEvidence, AuditBody, mode_eq, network_eq, asset_eq,
  status_eq,
}
use obolos.Engine.Create.{lower_codes}
use obolos.Engine.Verify.{source_of}
use obolos.Policy.{verify_audit}
use obolos.Runner.{SignedMandate}
use obolos.Runner.Mandate.{date_eq, service_discrete}
use obolos.Runner.Guard.{evidence_eq}

pub data JobStatus : Type 0 where
  succeeded blocked uncertain failed : JobStatus

-- The job that the result is for.
pub record ResultJob : Type 0 where
  pub id : String
  pub repos : List String
  pub mandate : SignedMandate

-- SHA-256 of an event, and zod's reading of the service of a mandate.
pub record Readers : Type 0 where
  pub event_hash : AuditBody → String
  pub read_service : VerificationService → Result Thrown VerificationService

pub option_service_discrete : Discrete (Option VerificationService)
unfolding service_discrete
option_service_discrete = hlevel service_discrete

instance abbrev pub option_service_eq : Eq (Option VerificationService)
option_service_eq = discrete_eq option_service_discrete

-- A pattern of code points, where `none` is a point: any character but the ends of a line.
abbrev pub is_line_end : ℕ → Bool
is_line_end c = nat_beq c 10 || nat_beq c 13 || nat_beq c 8232 || nat_beq c 8233

abbrev pub fits_at : List (Option ℕ) → List ℕ → Bool
fits_at [] cs = true
fits_at (p ∷ ps) [] = false
fits_at (none ∷ ps) (c ∷ cs) = not (is_line_end c) && fits_at ps cs
fits_at (some x ∷ ps) (c ∷ cs) = nat_beq x c && fits_at ps cs

abbrev pub fits_in : List (Option ℕ) → List ℕ → Bool
fits_in ps [] = fits_at ps []
fits_in ps (c ∷ cs) = fits_at ps (c ∷ cs) || fits_in ps cs

abbrev pub word : String → List (Option ℕ)
word s = map (λ c. some c) (codes s)

-- /uncertain|pending|reconcil|timeout|unknown|in.flight/i
unfoldable pub is_uncertain_text : String → Bool
is_uncertain_text s =
    let cs = lower_codes s in
    fits_in (word "uncertain") cs
    || fits_in (word "pending") cs
    || fits_in (word "reconcil") cs
    || fits_in (word "timeout") cs
    || fits_in (word "unknown") cs
    || fits_in (some b'i' ∷ some b'n' ∷ none ∷ word "flight") cs

abbrev pub text_or : String → Option String → String
text_or fallback none = fallback
text_or fallback (some s) = s

abbrev pub is_settled_on : Network → Receipt → Bool
is_settled_on network receipt =
    receipt.network == network
    && (elim receipt.status [ settled ↦ true | simulated ↦ false ])
    && not (text_or "" receipt.transaction_id == "")

-- The proofs, by their networks.
abbrev pub is_proved_on : Network → Option (List (Option Network)) → Bool
is_proved_on network none = false
is_proved_on network (some proofs) =
    any (λ p. elim p [ none ↦ false | some n ↦ n == network ]) proofs

abbrev pub is_confirmed_on : Run → Option (List (Option Network)) → Network → Bool
is_confirmed_on r proofs network =
    any (is_settled_on network) r.receipts && is_proved_on network proofs

abbrev pub is_verification_stage : Stage → Bool
is_verification_stage Stage.verification = true
is_verification_stage _ = false

abbrev pub is_paying_stage : Stage → Bool
is_paying_stage Stage.purchase = true
is_paying_stage Stage.verification = true
is_paying_stage _ = false

abbrev pub has_failed_check : Option Report → Bool
has_failed_check none = false
has_failed_check (some report) = not report.verified && any (λ c. not c.passed) report.checks

abbrev pub is_confirmed_negative : Run → Option (List (Option Network)) → Bool
is_confirmed_negative r proofs =
    r.status == RunStatus.failed
    && is_verification_stage r.stage
    && has_failed_check r.report
    && is_confirmed_on r proofs Network.hedera_testnet
    && is_confirmed_on r proofs Network.arc_testnet

-- `classifyRunnerStatus`
unfoldable pub classify_runner_status : Run → Option (List (Option Network)) → JobStatus
unfolding is_uncertain_text
classify_runner_status r proofs =
    if r.status == RunStatus.completed
    then succeeded
    else if r.status == RunStatus.awaiting_approval || r.status == RunStatus.paused
    then blocked
    else if is_uncertain_text (text_or "" r.error)
    then uncertain
    else if is_confirmed_negative r proofs
    then failed
    else if is_paying_stage r.stage
    then uncertain
    else failed
