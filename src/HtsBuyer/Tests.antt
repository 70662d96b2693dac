-- ===== src/HtsBuyer/Tests.antt =====
-- The buyer of test credits on a sample.
use obolos.Prelude.{◌≡◌, refl, String, [], ◌∷◌, some, none, true, ok, err}
use obolos.Contracts.{RepoEvidence}
use obolos.Negotiation.{iso, hedera_network, Url, Runtime}
use obolos.Negotiation.Buying.{HederaCredentials}
use obolos.HtsBuyer.{HtsRepositoryPurchase, Received, World, written}
use obolos.HtsBuyer.{lost, gain, loss, missing, MirrorTransaction, TokenQuote, PaymentRequirements}
use obolos.HtsBuyer.Receive.{completed}
use obolos.HtsBuyer.Action.{BuyerState, signing, dispatching}
use obolos.HtsBuyer.Buy.{purchase_hts_repositories}
use obolos.HtsBuyer.Once.{machine_of, HtsAttempt}
use obolos.HtsBuyer.Refines.{none_yet, and_then, Purchases-IsOnce}
use obolos.HtsBuyer.Settled.{IsSettledFor, purchase-IsSettledFor}
use obolos.OneShot.{IsOnce}

abbrev base_url : Url
base_url = record {
  protocol = "https:";
  username = "";
  password = "";
  host = "hts.example";
  hostname = "hts.example";
  pathname = "/x402/hts/";
  search = "";
  hash = "";
}

abbrev runtime : Runtime
runtime = record {
  json = λ p. [];
  parse_json = λ bytes. none;
  read_other = λ bytes. bytes;
  sha_offer = λ p. "";
  sha_identity = λ payer request. "";
  sha_answer = λ answer. "";
  hmac = λ secret body. [];
  parse_url = λ text. some base_url;
}

abbrev value : HtsRepositoryPurchase
value = record {
  request_id = "op-1";
  resource_base_url = "https://hts.example/x402/hts/";
  provider_id = "repo-standard";
  repos = "octo/repo" ∷ [];
  terms = record { asset = "0.0.900"; payer = "0.0.7001"; pay_to = "0.0.5001"; amount_atomic = 1 };
  unit_price_atomic = 1;
  max_amount_atomic = 3;
  mandate_expires_at = iso 9000;
  symbol = "OBO";
  decimals = 0;
}

abbrev credentials : HederaCredentials
credentials = record { account_id = "0.0.7001"; private_key = "key" }

abbrev transaction : String
transaction = "0.0.7001@1700000000.000000001"

abbrev evidence : RepoEvidence
evidence = record {
  repo = "Octo/Repo";
  description = "";
  stars = 1;
  forks = 2;
  open_issues = 3;
  pushed_at = some 1;
  language = "Rust";
  license = "MIT";
  source_url = "https://api.github.com/repos/octo/repo";
  fetched_at = some 2;
}

abbrev answer : Received
answer = record {
  settlement = record {
    success = true;
    network = hedera_network;
    payer = "0.0.7001";
    transaction = "0.0.7001-1700000000-000000001";
  };
  evidence = evidence ∷ [];
}

abbrev quote : TokenQuote
quote = record {
  provider_id = "repo-standard";
  units = 1;
  unit_price_atomic = 1;
  amount_atomic = 1;
  pay_to = "0.0.5001";
  network = hedera_network;
  asset = "0.0.900";
  decimals = 0;
  symbol = "OBO";
  expires_at = iso 8000;
}

abbrev requirements : PaymentRequirements
requirements = record {
  scheme = "exact";
  network = hedera_network;
  asset = "0.0.900";
  pay_to = "0.0.5001";
  amount = "1";
  fee_payer = some "0.0.800";
  max_timeout_seconds = 60;
  payment_flow = none;
}

abbrev transfer : MirrorTransaction
transfer = record {
  result = "SUCCESS";
  name = "CRYPTOTRANSFER";
  token_transfers =
      record { account = "0.0.7001"; token_id = "0.0.900"; amount = loss 1 }
      ∷ record { account = "0.0.5001"; token_id = "0.0.900"; amount = gain 1 }
      ∷ [];
}

abbrev world : World
world = record {
  lock = ok tt;
  begun_at = 1;
  quoted_at = 2;
  asked_at = 3;
  reserved_at = 4;
  signed_at = 5;
  quote = ok quote;
  metadata = ok (record {
    token_id = "0.0.900";
    kind = "FUNGIBLE_COMMON";
    supply_type = "FINITE";
    decimals = some 0;
    symbol = "OBO";
    custom_fees = some (0 ∷ 0 ∷ 0 ∷ []);
  });
  unpaid = ok (
    402,
    some (record {
      x402_version = 2;
      resource_url = some "https://hts.example/x402/hts/evidence/repo-standard";
      accepts = requirements ∷ [];
    }),
  );
  supported = ok (
      record {
        x402_version = 2;
        scheme = "exact";
        network = hedera_network;
        fee_payer = some "0.0.800";
      }
      ∷ []);
  key = ok tt;
  signer = ok (some transaction);
  paid = ok (some answer);
  mirror = ok (transfer ∷ []);
  stored = err "unavailable";
  reserve_end = written;
  sign_end = written;
  receive_end = written;
  settle_end = written;
}

abbrev fresh : BuyerState
fresh = record { file = missing; events = [] }

-- The input after its check.
abbrev input : HtsRepositoryPurchase
input = record value { resource_base_url = "https://hts.example/x402/hts/" }

abbrev hash : HtsRepositoryPurchase → String
hash p = p.request_id

bought :
    (purchase_hts_repositories runtime hash world value credentials fresh).1
    ≡ ok (completed input transaction answer)
unfolding purchase_hts_repositories
bought = refl

purchase-IsSettledFor_example : IsSettledFor value credentials (completed input transaction answer)
purchase-IsSettledFor_example =
    purchase-IsSettledFor runtime hash world value credentials fresh
      (completed input transaction answer) bought

-- A call that loses its last write, and a recovery.
abbrev lost_world : World
lost_world = record world { settle_end = lost }

abbrev after_loss : BuyerState
unfolding purchase_hts_repositories
after_loss = (purchase_hts_repositories runtime hash lost_world value credentials fresh).0

recovered_after_loss :
    (purchase_hts_repositories runtime hash world value credentials after_loss).1
    ≡ ok (completed input transaction answer)
unfolding purchase_hts_repositories
recovered_after_loss = refl

events_after :
    (purchase_hts_repositories runtime hash world value credentials after_loss).0.events
    ≡ dispatching transaction ∷ signing ∷ []
unfolding purchase_hts_repositories
events_after = refl

Purchases-IsOnce_example : IsOnce HtsAttempt (
    machine_of
      (purchase_hts_repositories runtime hash world value credentials
        (purchase_hts_repositories runtime hash lost_world value credentials fresh).0).0)
Purchases-IsOnce_example =
    Purchases-IsOnce runtime hash _
      (and_then world value credentials (and_then lost_world value credentials none_yet))
