-- ===== src/Negotiation/Config.antt =====
-- The configuration of an agent of src/lib/hedera/a2a.ts and its card.
use obolos.Prelude.{
  ℕ, String, Bool, true, false, ◌&&◌, ◌||◌, not, List, [], ◌∷◌, Option, none, some,
}
use obolos.Prelude.{ltb, ◌==◌, nat_beq, string_eq, includes, codes, joined, last?, sum_of}
use obolos.Prelude.{Result, ok, ◌>>◌, ◌>>=◌, throw_if, or_throw, if◌then◌else◌}
use obolos.Negotiation.{A2aConfig, Url, Runtime, extension, hedera_network, hbar_asset}
use obolos.Negotiation.Schema.{is_account}

abbrev is_loopback : String → Bool
is_loopback = includes ("127.0.0.1" ∷ "localhost" ∷ "[::1]" ∷ [])

abbrev pub is_untrusted : Url → Bool
is_untrusted u =
    (not (u.protocol == "https:") && not (u.protocol == "http:" && is_loopback u.hostname))
    || not (u.username == "")
    || not (u.password == "")
    || not (u.search == "")
    || not (u.hash == "")

abbrev is_slash : Option ℕ → Bool
is_slash none = false
is_slash (some c) = nat_beq c b'/'

abbrev pub ends_with_slash : String → Bool
ends_with_slash s = is_slash (last? (codes s))

abbrev pub with_slash : Url → Url
with_slash u =
    if ends_with_slash u.pathname then u else record u { pathname = joined (u.pathname ∷ "/" ∷ []) }

-- `trustedBase`
unfoldable pub trusted_base : Runtime → String → Result String Url
trusted_base runtime value = do
  url ← or_throw "Invalid URL" (runtime.parse_url value)
  throw_if (is_untrusted url) "HTTPS or loopback URL required."
  ok (with_slash url)

-- `new URL(path,base).href` for a trusted base, which has no credentials, search or hash, and a
-- relative path.
abbrev pub href : Url → String → String
href base path = joined (base.protocol ∷ "//" ∷ base.host ∷ base.pathname ∷ path ∷ [])

-- `new URL(path,trustedBase(value)).href`
abbrev pub href_below : Runtime → String → String → Result String String
href_below runtime value path = do base ← trusted_base runtime value; ok (href base path)

abbrev pub evidence_path : String → String
evidence_path provider = joined ("evidence/" ∷ provider ∷ [])

-- The bytes of a code point in UTF-8.
abbrev utf8_width : ℕ → ℕ
utf8_width c = if ltb c 128 then 1 else if ltb c 2048 then 2 else if ltb c 65536 then 3 else 4

-- Buffer.byteLength
abbrev pub byte_length : String → ℕ
byte_length s = sum_of utf8_width (codes s)

-- `validateConfig`
unfoldable pub validate_config : Runtime → A2aConfig → Result String (Unit {0})
unfolding trusted_base is_account
validate_config runtime config = do
  public ← trusted_base runtime config.public_url
  resource ← trusted_base runtime config.resource_base_url
  throw_if (not (is_account config.pay_to)) "Invalid account."
  throw_if (ltb (byte_length config.offer_secret) 32)
      "Configure a private A2A_OFFER_SECRET with at least 32 bytes."

-- The variables of the environment.
pub record A2aEnvironment : Type 0 where
  pub a2a_public_url : Option String
  pub data_service_public_url : Option String
  pub data_service_url : Option String
  pub hedera_pay_to : Option String
  pub a2a_offer_secret : Option String
  pub hedera_service_uaid : Option String

abbrev pub or_text : Option String → String → String
or_text none text = text
or_text (some s) text = s

-- `uaid` is set when the variable is a text that is not empty.
abbrev truthy : Option String → Option String
truthy none = none
truthy (some s) = if s == "" then none else some s

-- `a2aConfiguration`
unfoldable pub a2a_configuration : Runtime → A2aEnvironment → Result String A2aConfig
unfolding validate_config
a2a_configuration runtime env =
    let config : A2aConfig = record {
      public_url = or_text env.a2a_public_url "";
      resource_base_url = or_text env.data_service_public_url (or_text env.data_service_url "");
      pay_to = or_text env.hedera_pay_to "";
      offer_secret = or_text env.a2a_offer_secret "";
      uaid = truthy env.hedera_service_uaid;
    } in
    do validate_config runtime config; ok config

pub record AgentExtension : Type 0 where
  pub uri : String
  pub required : Bool
  pub network : String
  pub asset : String
  pub max_units : ℕ
  pub uaid : Option String

-- The card, less its descriptions.
pub record AgentCard : Type 0 where
  pub protocol_version : String
  pub name : String
  pub url : String
  pub preferred_transport : String
  pub additional_interfaces : List (String × String)
  pub version : String
  pub streaming : Bool
  pub push_notifications : Bool
  pub extensions : List AgentExtension
  pub default_input_modes : List String
  pub default_output_modes : List String
  pub skill_ids : List String
  pub supports_authenticated_extended_card : Bool

-- `createAgentCard`
unfoldable pub create_agent_card : Runtime → A2aConfig → Result String AgentCard
unfolding validate_config
create_agent_card runtime config = do
  validate_config runtime config
  url ← href_below runtime config.public_url "api/hedera/a2a"
  ok (record {
    protocol_version = "0.3.0";
    name = "Obolos Hedera repository agent";
    url = url;
    preferred_transport = "JSONRPC";
    additional_interfaces = (url, "JSONRPC") ∷ [];
    version = "1.0.0";
    streaming = false;
    push_notifications = false;
    extensions =
        record {
          uri = extension;
          required = true;
          network = hedera_network;
          asset = hbar_asset;
          max_units = 3;
          uaid = config.uaid;
        }
        ∷ [];
    default_input_modes = "application/json" ∷ [];
    default_output_modes = "application/json" ∷ [];
    skill_ids = "repository-evidence" ∷ [];
    supports_authenticated_extended_card = false;
  })
