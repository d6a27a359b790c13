-- ===== src/Config/Resources.antt =====
-- src/config: ResourceConfig, OrganizationConfig, PassThroughConfig, NetworkConfig, ServerConfig and
-- MachinePalConfig as far as requests read them, with the two lookups.
pub mod Lookup
use machinepal.Prelude.{
  ℕ, Bool, true, false, ◌&&◌, Text, str, List, [], ◌∷◌, Option, none, some, length, ltb, ◌==◌,
  if◌then◌else◌, text_eq, is_empty, not,
}
use machinepal.Result.{Result, ok, err, logic_error, ◌>>=◌, ◌>>◌, check_state}
use machinepal.Crypto.Values.{EthAddress}
use machinepal.Crypto.Domain.{Eip712Domain}

pub record ResourceConfig : Type 0 where
  pub name : Text
  pub location : Text
  pub machine_pal_path : Text
  pub price : ℕ
  pub token : Text
  pub mime_type : Text
  pub description : Text
  pub payment_scheme : Text

pub record PassThroughConfig : Type 0 where
  pub target_url : Text

pub record OrganizationConfig : Type 0 where
  pub resources : List ResourceConfig
  pub organization_name : Text
  pub subdomain : Text
  pub pass_through_config : Option PassThroughConfig

pub record NetworkConfig : Type 0 where
  pub name : Text
  pub wallet_address : EthAddress
  pub eip712_domain : Eip712Domain

pub record MachinePalConfig : Type 0 where
  pub host_name : Text
  pub organizations_by_name : List (Text × OrganizationConfig)
  pub organizations_by_subdomain : List (Text × OrganizationConfig)
  pub network : NetworkConfig

-- NetworkConfig::getTokenVersion, getTokenAddress
unfoldable pub get_token_version : Text → Text
get_token_version token_name = if text_eq token_name (str "USDC") then str "2" else []

unfoldable pub get_token_address : Text → Text
get_token_address token_name =
    if text_eq token_name (str "USDC") then str "0x036CbD53842c5426634e7929541eC2318f3dCF7e" else []

abbrev pub is_scheme_supported : Text → Bool
is_scheme_supported scheme = text_eq scheme (str "exact")

-- path.back() == c
unfoldable pub last_is : ℕ → Text → Bool
last_is c [] = false
last_is c (a ∷ []) = a == c
last_is c (a ∷ b ∷ t) = last_is c (b ∷ t)

-- path.substr( 0, path.size() - 1 )
unfoldable pub drop_last : Text → Text
drop_last [] = []
drop_last (a ∷ []) = []
drop_last (a ∷ b ∷ t) = a ∷ drop_last (b ∷ t)

-- matchString: the last slash is ignored.
unfoldable pub match_string : Text → Text
unfolding last_is drop_last
match_string path = if ltb 1 (length path) && last_is b'/' path then drop_last path else path

unfoldable pub find_resource : Text → List ResourceConfig → Option ResourceConfig
find_resource path [] = none
find_resource path (r ∷ resources) =
    if text_eq r.machine_pal_path path then some r else find_resource path resources

unfoldable pub get_resource_by_path : OrganizationConfig → Text → Option ResourceConfig
unfolding match_string find_resource
get_resource_by_path o path = find_resource (match_string path) o.resources

unfoldable pub find_organization :
    Text → List (Text × OrganizationConfig) → Option OrganizationConfig
find_organization key [] = none
find_organization key ((k, o) ∷ rest) = if text_eq k key then some o else find_organization key rest

unfoldable pub get_organization_by_subdomain_name :
    MachinePalConfig → Text → Option OrganizationConfig
unfolding find_organization
get_organization_by_subdomain_name c subdomain =
    find_organization subdomain c.organizations_by_subdomain

abbrev is_missing {ℓ} : {A : Type ℓ} → Option A → Bool
is_missing none = true
is_missing (some a) = false

-- The loop of MachinePalConfig's constructor: the two maps, or the exception on a duplicate.
unfoldable pub index_organizations :
    List OrganizationConfig
    → List (Text × OrganizationConfig)
    → List (Text × OrganizationConfig)
    → Result (List (Text × OrganizationConfig) × List (Text × OrganizationConfig))
index_organizations [] by_name by_subdomain = ok (by_name, by_subdomain)
index_organizations (o ∷ rest) by_name by_subdomain =
    let indexed =
      index_organizations rest ((o.organization_name, o) ∷ by_name)
        ((o.subdomain, o) ∷ by_subdomain) in
    do
      check_state (is_missing (find_organization o.organization_name by_name))
          (str "Duplicate organization name in config: ")
      check_state (is_missing (find_organization o.subdomain by_subdomain))
          (str "Duplicate organization domain in config: ")
      indexed

unfoldable pub make_config :
    Text → NetworkConfig → List OrganizationConfig → Result MachinePalConfig
unfolding index_organizations find_organization
make_config host_name network organizations = do
  (by_name, by_subdomain) ← index_organizations organizations [] []
  check_state (not (is_missing (find_organization [] by_name)))
      (str "organizationsByName_->contains( \"\" )")
  ok (record {
    host_name = host_name;
    organizations_by_name = by_name;
    organizations_by_subdomain = by_subdomain;
    network = network;
  })
