-- ===== src/Tests/World.antt =====
-- A configuration with one priced resource, a payment for it, and the parameters of the processors.
use machinepal.Prelude.{ℕ, true, false, Text, str, List, [], ◌∷◌, ◌++◌, none, some, inl}
use machinepal.Result.{ok}
use machinepal.Platform.{pos}
use machinepal.Http.{get, post, HttpRequest}
use machinepal.Http.Channel.{Channel, start, works}
use machinepal.Crypto.Encoding.{zeros}
use machinepal.Crypto.Domain.{Eip712Domain, Authorization}
use machinepal.Config.Resources.{
  ResourceConfig, OrganizationConfig, NetworkConfig, MachinePalConfig,
}
use machinepal.Db.EasyNet.Tables.{Tables, TransferRequest}
use machinepal.Payment.Payload.{PaymentPayload, Clock}
use machinepal.Payment.Manager.{Settlements, Context}
use machinepal.Url.{UrlParser, UriReference, host_name}
use machinepal.X402.Backend.{Curl, curle_ok}
use machinepal.X402.Responses.{X402State}
use machinepal.X402.Processor.{Env}
use machinepal.Facilitator.EasyNet.{EasyNet}
use machinepal.Facilitator.Processor.{FacilitatorState}
use machinepal.Tests.Demo.{demo, bytes, answer_tree, encode_hex}

abbrev pub payer : List ℕ
payer = bytes 20 1

abbrev pub wallet : List ℕ
wallet = bytes 20 2

abbrev pub token : List ℕ
token = bytes 20 3

abbrev pub domain_demo : Eip712Domain
domain_demo = record {
  name = str "USDC";
  version = str "2";
  chain_id = 5;
  asset_address = token;
  domain_separator = str "d";
}

abbrev pub network_demo : NetworkConfig
network_demo = record { name = str "easynet"; wallet_address = wallet; eip712_domain = domain_demo }

abbrev pub resource_demo : ResourceConfig
resource_demo = record {
  name = str "r";
  location = str "http://b/r";
  machine_pal_path = str "/r";
  price = 7;
  token = str "USDC";
  mime_type = [];
  description = [];
  payment_scheme = str "exact";
}

abbrev pub organization_demo : OrganizationConfig
organization_demo = record {
  resources = resource_demo ∷ [];
  organization_name = [];
  subdomain = [];
  pass_through_config = none;
}

abbrev pub config_demo : MachinePalConfig
config_demo = record {
  host_name = str "h.org";
  organizations_by_name = ([], organization_demo) ∷ [];
  organizations_by_subdomain = ([], organization_demo) ∷ [];
  network = network_demo;
}

abbrev pub authorization_demo : Authorization
authorization_demo = record {
  from = payer;
  to = wallet;
  value = 7;
  valid_after = 1;
  valid_before = 9;
  nonce = zeros 31 ++ 5 ∷ [];
}

abbrev pub payment_demo : PaymentPayload
payment_demo = record {
  x402_version = pos 1;
  scheme = str "exact";
  network = str "easynet";
  payload = record { signature = bytes 65 1; authorization = authorization_demo };
}

abbrev pub clock_demo : Clock
clock_demo = record { now = 5; time_check_disabled = false }

-- A facilitator whose answer says that it has not settled.
abbrev pub context_demo : Context demo
context_demo = record {
  clock = clock_demo;
  engine = λ s. ok tt;
  settle = λ request. ok (answer_tree false);
}

abbrev pub no_settlements : Settlements demo
no_settlements = record { payments = []; currently_settling = []; asked = [] }

abbrev pub paying_request : HttpRequest demo
paying_request = record {
  method = some get;
  method_string = str "GET";
  path = str "/r";
  headers = (str "host", str "h.org") ∷ (str "X-PAYMENT", str "pay") ∷ [];
  client_address = str "9.9.9.9";
}

abbrev pub settling_request : HttpRequest demo
settling_request = record {
  method = some post;
  method_string = str "POST";
  path = str "/machinepal-facilitator-easynet/settle";
  headers = (str "Content-Type", str " application/json") ∷ [];
  client_address = str "9.9.9.9";
}

abbrev pub reference_demo : Text → UriReference
reference_demo path = record {
  encoded_path = path;
  encoded_query = [];
  segments = [];
  decoded_path = path;
}

abbrev pub url_demo : UrlParser
url_demo = record {
  parse_uri_reference = λ path. inl (reference_demo path);
  parse_ipv4_address = λ t. false;
  parse_ipv6_address = λ t. false;
  parse_authority = λ t. some host_name;
  parse_uri = λ t. true;
}

abbrev pub curl_demo : Curl
curl_demo = record {
  can_init = true;
  perform = λ t. record {
    result = curle_ok;
    response_code = 200;
    header_lines = str "a: b" ∷ [];
    body = str "B";
  };
  strerror = λ c. [];
  to_lower_ascii = λ t. t;
  trim_whitespace = λ t. t;
}

abbrev pub env_demo : Env demo
env_demo = record {
  config = config_demo;
  url = url_demo;
  curl = curl_demo;
  payments = context_demo;
}

abbrev pub channel_demo : Channel demo
channel_demo = record { state = start; sender = works; handed = [] }

abbrev pub state_demo : X402State demo
state_demo = record {
  channel = channel_demo;
  decoded_path = str "/r";
  sub_domain_name = [];
  organization = some organization_demo;
  resource = none;
  method = get;
  settlements = no_settlements;
}

abbrev pub ledger_demo : Tables
ledger_demo = record {
  state =
      record {
        wallet_address = encode_hex payer;
        asset_address = encode_hex token;
        value = str "10";
      }
      ∷ [];
  transactions = [];
}

abbrev pub transfer_demo : TransferRequest
transfer_demo = record {
  from_address = payer;
  to_address = wallet;
  asset_address = token;
  value = 7;
  nonce = [];
  resource_location = [];
  from_ip_address = [];
  json_info = [];
  transaction_hash = [];
  chain_id = 5;
  authorization_signature_hash = [];
  now = 5;
}

abbrev pub easynet_demo : EasyNet
easynet_demo = record {
  config = config_demo;
  clock = clock_demo;
  engine = λ s. ok tt;
  chain_id = 5;
}

abbrev pub facilitator_demo : FacilitatorState demo
facilitator_demo = record { channel = channel_demo; path = []; tables = ledger_demo }
