-- ===== src/Policy.antt =====
-- src/lib/policy.ts: the assessment of a quote against the mandate, and the hash chain of the audit
-- log. SHA-256 over the JSON of an entry is the parameter `event_hash`.
pub mod Quotes
pub mod Audit
pub mod Commits
pub mod Tests
use obolos.Prelude.{ℕ, ◌+◌, ◌*◌, String, Bool, true, false, ◌&&◌, ◌||◌, not}
use obolos.Prelude.{List, [], ◌∷◌, ◌++◌, Option, none, some, ltb, leb, ◌==◌, if◌then◌else◌}
use obolos.Prelude.{includes, last?, string_eq, Template}
use obolos.Contracts.{Mandate, Provider, AuditBody, AuditEvent, Actor, EventKind}
use obolos.Contracts.{has_passed, network_eq, asset_eq, hedera_testnet, hbar}

-- Number.MAX_SAFE_INTEGER
abbrev pub max_safe_integer : ℕ
max_safe_integer = 9007199254740991

abbrev pub is_safe_integer : ℕ → Bool
is_safe_integer n = leb n max_safe_integer

-- The `code` of an assessment; `reason` is its text.
pub data Assessment : Type 0 where
  invalid expired wrong_network wrong_provider over_price over_budget approved : Assessment

abbrev pub is_allowed : Assessment → Bool
is_allowed approved = true
is_allowed _ = false

unfoldable pub reason : Assessment → String
reason invalid = "Invalid quote units or amount."
reason expired = "The spending mandate has expired."
reason wrong_network = "Only HBAR on Hedera testnet is approved."
reason wrong_provider = "This provider is outside the approved mandate."
reason over_price = "The provider quote exceeds the approved price per repository."
reason over_budget = "The purchase would exceed the remaining HBAR allowance."
reason approved = "Provider, unit price, expiry and total budget are within mandate."

-- The first test of `assessQuote`.
abbrev pub is_valid_quote : Provider → ℕ → ℕ → Bool
is_valid_quote p units spent =
    (is_safe_integer units && leb 1 units && leb units 3)
    && (is_safe_integer p.unit_price_atomic && ltb 0 p.unit_price_atomic)
    && (is_safe_integer spent && is_safe_integer (p.unit_price_atomic * units + spent))

-- An expiry that is no date is refused as well.
abbrev pub is_in_force : Option ℕ → ℕ → Bool
is_in_force none now = false
is_in_force (some t) now = ltb now t

unfoldable pub assess_quote : ℕ → Mandate → Provider → ℕ → ℕ → Assessment
assess_quote now m p units spent =
    if not (is_valid_quote p units spent)
    then invalid
    else if not (is_in_force m.expires_at now)
    then expired
    else if not (p.network == hedera_testnet) || not (p.asset == hbar)
    then wrong_network
    else if not (includes m.allowed_providers p.id)
    then wrong_provider
    else if ltb m.max_data_unit_price_atomic p.unit_price_atomic
    then over_price
    else if ltb m.data_budget_atomic (spent + p.unit_price_atomic * units)
    then over_budget
    else approved

-- `events.at(-1)?.hash??'genesis'`
abbrev pub tip : List AuditEvent → String
tip events = elim (last? events) [ none ↦ "genesis" | some e ↦ e.hash ]

module _ (event_hash : AuditBody → String) where
  unfoldable pub append_audit :
      ℕ → String → List AuditEvent → Actor → EventKind → String → Template → List AuditEvent
  append_audit now uuid events actor kind title detail =
      let entry : AuditBody = record {
        id = uuid;
        timestamp = now;
        actor = actor;
        kind = kind;
        title = title;
        detail = detail;
        previous_hash = tip events;
      } in
      events ++ record { body = entry; hash = event_hash entry } ∷ []

  -- The loop of `verifyAudit`.
  unfoldable pub verify_from : String → List AuditEvent → Bool
  verify_from previous [] = true
  verify_from previous (e ∷ events) =
      (e.body.previous_hash == previous)
      && (event_hash e.body == e.hash)
      && verify_from e.hash events

  unfoldable pub verify_audit : List AuditEvent → Bool
  unfolding verify_from
  verify_audit events = verify_from "genesis" events
