-- ===== src/Negotiation/Samples.antt =====
-- A seller, a buyer and one negotiation between them.
use obolos.Prelude.{ℕ, String, List, [], ◌∷◌, Option, none, some, ok, Result}
use obolos.Prelude.{if◌then◌else◌, ◌==◌, string_eq}
use obolos.Contracts.{Receipt, RepoEvidence, live, settled, hedera_testnet, hbar}
use obolos.Negotiation.{A2aConfig, Proposal, OfferPayload, A2aOffer, iso}
use obolos.Negotiation.{Message, Url, Runtime, hedera_network, hbar_asset, unpaid_offer}
use obolos.Negotiation.Schema.{create_quote, PriceBook}
use obolos.Negotiation.Token.{sign}
use obolos.Negotiation.Answer.{
  Desk, RpcRequest, text_id, send_params, other_data, message, PartData,
}
use obolos.Negotiation.Buying.{HederaCredentials, TokenPurchase}

abbrev pub seller_url : Url
seller_url = record {
  protocol = "https:";
  username = "";
  password = "";
  host = "data.example";
  hostname = "data.example";
  pathname = "/";
  search = "";
  hash = "";
}

abbrev pub config : A2aConfig
config = record {
  public_url = "https://data.example/";
  resource_base_url = "https://data.example/";
  pay_to = "0.0.5001";
  offer_secret = "0123456789abcdef0123456789abcdef";
  uaid = none;
}

abbrev pub proposal : Proposal
proposal = record {
  payer = "0.0.7001";
  request_id = "op-1";
  provider_id = "repo-standard";
  repos = "octo/repo" ∷ [];
  max_amount_atomic = 100000;
  mandate_expires_at = iso 9000000;
}

abbrev pub digest : List ℕ
digest =
    0 ∷ 1 ∷ 2 ∷ 3 ∷ 4 ∷ 5 ∷ 6 ∷ 7 ∷ 8 ∷ 9 ∷ 10 ∷ 11 ∷ 12 ∷ 13 ∷ 14 ∷ 15 ∷ 240 ∷ 241 ∷ 242 ∷ 243
    ∷ 244 ∷ 245 ∷ 246 ∷ 247 ∷ 248 ∷ 249 ∷ 250 ∷ 251 ∷ 252 ∷ 253 ∷ 254 ∷ 255 ∷ []

-- The payload of the one offer.
abbrev pub payload : OfferPayload
payload = record {
  version = 1;
  context_id = "commerce-00ff";
  request_id = "op-1";
  payer = "0.0.7001";
  provider_id = "repo-standard";
  repos = "octo/repo" ∷ [];
  resource_url = "https://data.example/evidence/repo-standard";
  unit_price_atomic = 100000;
  amount_atomic = 100000;
  max_amount_atomic = 100000;
  mandate_expires_at = iso 9000000;
  issued_at = iso 1000000;
  expires_at = iso 1050000;
  network = hedera_network;
  asset = hbar_asset;
  pay_to = "0.0.5001";
}

abbrev pub runtime : Runtime
runtime = record {
  json = λ p. 123 ∷ 34 ∷ 118 ∷ 125 ∷ [];
  parse_json = λ bytes. some payload;
  read_other = λ bytes. bytes;
  sha_offer = λ p. "ab12";
  sha_identity = λ payer request. "00ff";
  sha_answer = λ answer. "cd34";
  hmac = λ secret body. digest;
  parse_url = λ text. (if text == "https://data.example/" then some seller_url else none);
}

abbrev pub prices : PriceBook
prices = record { repo_standard = 100000; repo_economy = 120000 }

-- The quote was made ten seconds before it was read.
abbrev pub desk : Desk
desk = record {
  asked_at = 990000;
  quoted_at = 1000000;
  quote = λ provider repos. create_quote 990000 provider repos prices "0.0.5001";
}

abbrev pub request_with : PartData → Option String → RpcRequest
request_with part context = record {
  jsonrpc = some "2.0";
  id = text_id "1";
  method = some "message/send";
  params = send_params (record {
    message_id = "m1";
    context_id = context;
    task_id = none;
    parts = part ∷ [];
    accepted_output_modes = none;
  });
}

abbrev pub request : RpcRequest
request = request_with (other_data (some proposal)) none

unfoldable pub offer : A2aOffer
unfolding sign
offer = sign runtime payload config

unfoldable pub offer_message : Message
unfolding message offer
offer_message = message runtime "commerce-00ff" (unpaid_offer offer)

abbrev pub credentials : HederaCredentials
credentials = record { account_id = "0.0.7001"; private_key = "key" }

abbrev pub evidence : RepoEvidence
evidence = record {
  repo = "octo/repo";
  description = "";
  stars = 1;
  forks = 2;
  open_issues = 3;
  pushed_at = some 1;
  language = "Rust";
  license = "MIT";
  source_url = "https://api.github.com/repos/octo/repo";
  fetched_at = some 2;
}

abbrev pub receipt : Receipt
receipt = record {
  id = "r1";
  request_id = "a2a:ab12";
  mode = live;
  network = hedera_testnet;
  asset = hbar;
  amount_atomic = 100000;
  units = 1;
  provider = "repo-standard";
  status = settled;
  timestamp = some 3;
  transaction_id = some "0.0.7001-1700000000-1";
  explorer_url = none;
  order_id = none;
  recipient = none;
}

abbrev pub purchase : TokenPurchase → Result String (Receipt × List RepoEvidence)
purchase asked = ok (receipt, evidence ∷ [])
