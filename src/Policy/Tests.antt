-- ===== src/Policy/Tests.antt =====
-- The policy of src/lib/policy.ts on sample values.
use obolos.Prelude.{
  ◌≡◌, refl, ◌↔◌, ◌⊎◌, String, List, [], ◌∷◌, some, none, lit, true, map, Template,
}
use obolos.Contracts.{Mandate, Provider, AuditBody, AuditEvent, hedera_testnet, hbar, supervisor}
use obolos.Contracts.{info, broker, success}
use obolos.Policy.{assess_quote, approved, over_budget, append_audit, verify_audit}
use obolos.Policy.Quotes.{IsWithinMandate, approved_iff}
use obolos.Policy.Commits.{PrintedBody, printed_event, verify_audit-commits, Collision}

abbrev mandate : Mandate
mandate = record {
  data_budget_atomic = 300000;
  max_data_unit_price_atomic = 150000;
  verification_budget_atomic = 100000;
  allowed_providers = "repo-standard" ∷ [];
  expires_at = some 5000;
  version = 1;
  verification_service = none;
}

abbrev provider : Provider
provider = record {
  id = "repo-standard";
  name = "Standard";
  description = "";
  network = hedera_testnet;
  asset = hbar;
  unit = "repository";
  unit_price_atomic = 150000;
  endpoint = none;
}

spend_all_lem : assess_quote 1000 mandate provider 2 0 ≡ approved
unfolding assess_quote
spend_all_lem = refl

spend_more_lem : assess_quote 1000 mandate provider 2 1 ≡ over_budget
unfolding assess_quote
spend_more_lem = refl

approved_iff_example :
    (assess_quote 1000 mandate provider 2 0 ≡ approved) ↔ IsWithinMandate 1000 mandate provider 2 0
approved_iff_example = approved_iff 1000 mandate provider 2 0

abbrev title_hash : AuditBody → String
title_hash b = b.title

abbrev first_log : List AuditEvent
first_log = append_audit title_hash 1 "e1" [] supervisor info "created" (lit "run" ∷ [])

abbrev second_log : List AuditEvent
second_log = append_audit title_hash 2 "e2" first_log broker success "settled" []

first_log-verify : verify_audit title_hash first_log ≡ true
unfolding verify_audit append_audit
first_log-verify = refl

second_log-verify : verify_audit title_hash second_log ≡ true
unfolding verify_audit append_audit
second_log-verify = refl

-- A rendering and a hash of the printed entry.
abbrev first_text : Template → String
first_text [] = ""
first_text (lit s ∷ rest) = s
first_text (part ∷ rest) = "part"

abbrev print_hash : PrintedBody → String
print_hash b = b.title

verify_audit-commits_example :
    (map (printed_event first_text print_hash) second_log
      ≡ map (printed_event first_text print_hash) second_log)
    ⊎ Collision first_text print_hash second_log second_log
verify_audit-commits_example =
    verify_audit-commits first_text print_hash second_log second_log second_log-verify
      second_log-verify refl
