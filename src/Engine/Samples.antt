-- ===== src/Engine/Samples.antt =====
-- Sample data for the tests: one run of src/lib/engine.ts, bought and verified.
use obolos.Prelude.{ℕ, String, true, [], ◌∷◌, none, some}
use obolos.Prelude.{ok, Result, err}
use obolos.Contracts.{Run, Provider, RepoEvidence, Receipt, Gateway, Check, live, settled}
use obolos.Contracts.{hedera_testnet, arc_testnet, hbar, usdc, AuditBody}
use obolos.Engine.{Env}
use obolos.Engine.Create.{RunInput, create_run, new_run}
use obolos.Engine.Step.{advance_run}
use obolos.Engine.Control.{approve_run}

abbrev pub sample_hash : AuditBody → String
sample_hash b = b.title

abbrev pub sample_env : Env
sample_env = record {
  now = 1000;
  uuid = λ n. "entry";
  nonce = "nonce-1";
  event_hash = sample_hash;
  ledger_signer_mode = none;
  ledger_controller_address = some "0x00000000000000000000000000000000000000aa";
  verify_message = λ address message signature. true;
  is_verification_service = λ s. true;
}

abbrev pub sample_input : RunInput
sample_input = record {
  repos = "a/b" ∷ [];
  mode = live;
  mandate = record {
    data_budget_atomic = none;
    max_data_unit_price_atomic = none;
    verification_budget_atomic = none;
    allowed_providers = none;
    expires_at = none;
    verification_service = none;
  };
}

abbrev pub sample_provider : ℕ → Provider
sample_provider price = record {
  id = "repo-standard";
  name = "Standard";
  description = "";
  network = hedera_testnet;
  asset = hbar;
  unit = "repository";
  unit_price_atomic = price;
  endpoint = none;
}

abbrev pub sample_evidence : RepoEvidence
sample_evidence = record {
  repo = "a/b";
  description = "";
  stars = 1;
  forks = 0;
  open_issues = 0;
  pushed_at = some 10;
  language = "C";
  license = "MIT";
  source_url = "https://api.github.com/repos/a/b";
  fetched_at = some 900;
}

abbrev pub sample_receipt : Receipt
sample_receipt = record {
  id = "r1";
  request_id = "run-1:data";
  mode = live;
  network = hedera_testnet;
  asset = hbar;
  amount_atomic = 100000;
  units = 1;
  provider = "repo-standard";
  status = settled;
  timestamp = some 1000;
  transaction_id = some "0.0.1@1";
  explorer_url = none;
  order_id = none;
  recipient = none;
}

abbrev pub sample_check : Check
sample_check = record { label = "Source"; passed = true; detail = [] }

-- A gateway whose provider asks the price.
abbrev pub sample_gateway : ℕ → Gateway
sample_gateway price = record {
  discover = ok (sample_provider price ∷ []);
  purchase_data = λ r. ok (sample_evidence ∷ [], sample_receipt);
  generate_report = λ evidence id. ok "A summary of the evidence.";
  verify = λ r. ok (
    record sample_receipt {
      request_id = "run-1:verify";
      network = arc_testnet;
      asset = usdc;
      amount_atomic = 50000;
    },
    some (sample_check ∷ []),
  );
}

-- What a call returned, or the run before it.
abbrev pub run_or : Run → Result String Run → Run
run_or run (ok after) = after
run_or run (err e) = run

unfoldable pub advanced_run : ℕ → Run → Run
unfolding advance_run
advanced_run price run = run_or run (advance_run sample_env (sample_gateway price) run)

-- The run as created, when the quotes are in, and when it is complete.
abbrev pub fresh_run : Run
fresh_run =
    run_or (new_run sample_env "run-1" sample_input) (create_run sample_env "run-1" sample_input)

abbrev pub quoted_run : ℕ → Run
quoted_run price = advanced_run price (advanced_run price fresh_run)

abbrev pub complete_run : Run
complete_run = advanced_run 100000 (advanced_run 100000 (advanced_run 100000 (quoted_run 100000)))

-- A provider that asks too much: the run waits for the owner.
abbrev pub waiting_run : Run
waiting_run = advanced_run 250000 (quoted_run 250000)

abbrev pub sample_signature : String
sample_signature =
    "0xaaaaaaaaaaaaaaaaaaaaaaaaaaaaaaaaaaaaaaaaaaaaaaaaaaaaaaaaaaaaaaaaaaaaaaaaaaaaaaaaaaaaaaaaaaaaaaaaaaaaaaaaaaaaaaaaaaaaaaaaaaaaaaaaaa"

abbrev pub approved_run : Run
approved_run = run_or waiting_run (approve_run sample_env waiting_run (some sample_signature))
