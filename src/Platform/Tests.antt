-- ===== src/Platform/Tests.antt =====
-- A result of a runner, sent to the platform.
use obolos.Prelude.{◌≡◌, refl, [], ◌∷◌, some, none, true, false, ok}
use obolos.Contracts.{Run, RunStatus, Stage, Network, Asset, Receipt, settled, live, Report, model}
use obolos.Contracts.{RepoEvidence}
use obolos.Policy.{verify_audit, verify_from}
use obolos.Prelude.{is_hex_text, string_discrete}
use obolos.Runner.{SignedMandate}
use obolos.Runner.Guard.{RepoEvidence-discrete}
use obolos.Runner.Mandate.{service_discrete, date_discrete}
use obolos.Platform.{ResultJob, Readers, succeeded, classify_runner_status}
use obolos.Platform.{is_uncertain_text, option_service_discrete}
use obolos.Platform.Terms.{is_hedera_id}
use obolos.Platform.Upload.{validate_runner_result, add_receipts, add_receipt, finish_result}
use obolos.Platform.Upload.{recorded_data, recorded_verification}
use obolos.Platform.Accepted.{IsAuthorized, IsComplete, validate_runner_result-IsAuthorized}
use obolos.Platform.Accepted.{validate_runner_result-IsComplete}

abbrev mandate : SignedMandate
mandate = record {
  id = "m1";
  agent_id = "agent";
  owner = "0xa";
  origin = "https://app";
  repos = "a/b" ∷ [];
  allowed_providers = "repo-standard" ∷ [];
  data_budget_atomic = 300000;
  verification_budget_atomic = 100000;
  max_data_unit_price_atomic = 150000;
  max_runs = 1;
  expires_text = "1970-01-01T00:00:05.000Z";
  expires_at = some 5000;
  verification_service = none;
  message = [];
  signature = "0x";
}

abbrev job : ResultJob
job = record { id = "job"; repos = "a/b" ∷ []; mandate = mandate }

abbrev readers : Readers
readers = record { event_hash = λ body. "hash"; read_service = λ s. ok s }

abbrev evidence : RepoEvidence
evidence = record {
  repo = "a/b";
  description = "";
  stars = 1;
  forks = 1;
  open_issues = 1;
  pushed_at = some 1;
  language = "";
  license = "";
  source_url = "https://api.github.com/repos/a/b";
  fetched_at = some 1;
}

abbrev data_receipt : Receipt
data_receipt = record {
  id = "r1";
  request_id = "job:data";
  mode = live;
  network = Network.hedera_testnet;
  asset = Asset.hbar;
  amount_atomic = 120000;
  units = 1;
  provider = "repo-standard";
  status = settled;
  timestamp = some 1;
  transaction_id = some "0.0.12@1700000000.5";
  explorer_url = none;
  order_id = none;
  recipient = none;
}

abbrev verification_receipt : Receipt
verification_receipt = record {
  id = "r2";
  request_id = "job:verify";
  mode = live;
  network = Network.arc_testnet;
  asset = Asset.usdc;
  amount_atomic = 50000;
  units = 1;
  provider = "arc-verifier";
  status = settled;
  timestamp = some 1;
  transaction_id = some "0xABCDEF0123456789ABCDEF0123456789abcdef0123456789abcdef0123456789";
  explorer_url = none;
  order_id = none;
  recipient = none;
}

abbrev report : Report
report = record {
  title = [];
  summary = "";
  recommendation = "";
  evidence = evidence ∷ [];
  generated_by = model;
  created_at = 1;
  checks = record { label = "check"; passed = true; detail = [] } ∷ [];
  verified = true;
}

abbrev run : Run
run = record {
  id = "job";
  mode = live;
  title = [];
  repos = "a/b" ∷ [];
  status = RunStatus.completed;
  stage = Stage.complete;
  created_at = 1;
  updated_at = 1;
  mandate = record {
    data_budget_atomic = 300000;
    max_data_unit_price_atomic = 150000;
    verification_budget_atomic = 100000;
    allowed_providers = "repo-standard" ∷ [];
    expires_at = some 5000;
    version = 1;
    verification_service = none;
  };
  providers = [];
  selected_provider = some "repo-standard";
  data_spent_atomic = 120000;
  verification_spent_atomic = 50000;
  evidence = evidence ∷ [];
  receipts = data_receipt ∷ verification_receipt ∷ [];
  events = [];
  report = some report;
  approval = none;
  shock_applied = false;
  error = none;
  authorizations = [];
}

abbrev recorded : Run
recorded = record run {
  receipts = recorded_data data_receipt ∷ recorded_verification verification_receipt ∷ [];
}

accepted : validate_runner_result readers run job ≡ ok (recorded, succeeded)
unfolding validate_runner_result verify_audit verify_from add_receipts add_receipt finish_result
    is_hedera_id is_hex_text classify_runner_status is_uncertain_text string_discrete
    service_discrete date_discrete option_service_discrete RepoEvidence-discrete
accepted = refl

validate_runner_result-IsAuthorized_example : IsAuthorized readers job recorded
validate_runner_result-IsAuthorized_example =
    validate_runner_result-IsAuthorized readers run recorded job succeeded accepted

validate_runner_result-IsComplete_example : IsComplete job recorded
validate_runner_result-IsComplete_example =
    validate_runner_result-IsComplete readers run recorded job accepted

in_flight : is_uncertain_text "Transfer In-Flight" ≡ true
unfolding is_uncertain_text
in_flight = refl
