-- ===== src/A2aBuyer/Tests.antt =====
-- The buyer of offers on the sample of the negotiation.
use obolos.Prelude.{String, [], ◌∷◌, some, none, true, ok}
use obolos.Contracts.{hedera_testnet, hbar}
use obolos.Negotiation.{iso}
use obolos.Negotiation.Config.{trusted_base, create_agent_card}
use obolos.Negotiation.Samples.{runtime, config, offer, credentials, purchase}
use obolos.HtsBuyer.{written, lost}
use obolos.A2aBuyer.{BuyerArgs, BuyerEnv, BuyerIntent, Deal, OperationState, missing, PublicProof}
use obolos.A2aBuyer.{offer_data, accepted_data}
use obolos.A2aBuyer.Operation.{run_a2a_buyer}
use obolos.A2aBuyer.Once.{none_yet, and_then, Runs-IsOnce, A2aAttempt, machine_of}
use obolos.OneShot.{IsOnce}

abbrev args : BuyerArgs
args = record {
  operation = "op-1";
  provider_id = "repo-standard";
  max_value = "100000";
  mandate_expires_at = iso 9000000;
  repos = "octo/repo" ∷ [];
}

abbrev env : BuyerEnv
env = record {
  data_service_url = "https://data.example/";
  a2a_public_url = "https://data.example/";
  hedera_pay_to = "0.0.5001";
  broker_max_data_atomic = some 200000;
  broker_allowed_providers = "repo-standard" ∷ [];
}

unfoldable deal : Deal
unfolding create_agent_card trusted_base offer
deal = record {
  now = 1000000;
  card = create_agent_card runtime config;
  secrets = ok credentials;
  first_reply = ok (record { id = "op-1-propose"; is_message = true; content = offer_data offer });
  second_reply =
      ok (record { id = "op-1-accept"; is_message = true; content = accepted_data offer });
  purchase = purchase;
  reserve_end = written;
  accept_end = written;
  complete_end = written;
}

abbrev hash : BuyerIntent → String
hash intent = intent.operation

abbrev proof : PublicProof
proof = record {
  offer_id = "ab12";
  context_id = "commerce-00ff";
  payer = "0.0.7001";
  resource_url = "https://data.example/evidence/repo-standard";
  network = hedera_testnet;
  asset = hbar;
  amount_atomic = 100000;
  units = 1;
  transaction_id = some "0.0.7001-1700000000-1";
  explorer_url = none;
}

abbrev fresh : OperationState
fresh = record { file = missing; events = [] }

-- A run whose last write is lost, and another one after it.
unfoldable lost_deal : Deal
unfolding deal
lost_deal = record deal { complete_end = lost }

Runs-IsOnce_example : IsOnce A2aAttempt (
    machine_of
      (run_a2a_buyer runtime hash deal args env
        (run_a2a_buyer runtime hash lost_deal args env fresh).0).0)
Runs-IsOnce_example =
    Runs-IsOnce runtime hash _ (and_then deal args env (and_then lost_deal args env none_yet))
