-- ===== src/Config/Organizations.antt =====
-- src/config/subconfigs: ResourceConfig, PassThroughConfig and OrganizationConfig from JSON.
use machinepal.Prelude.{
  ℕ, true, ◌||◌, not, Text, str, List, [], ◌∷◌, ◌++◌, map, ltb, length, if◌then◌else◌, text_eq,
  is_empty, Option, none, some,
}
use machinepal.Result.{
  Result, ok, err, json_error, require, rethrow_nested, check_state_json, ◌>>=◌, ◌>>◌,
}
use machinepal.Platform.{Platform}
use machinepal.Files.{FileManager, check_file_exists_and_readable_and_resolve}
use machinepal.Url.{UrlParser, get_location_from_url, is_valid_url}
use machinepal.Crypto.Values.{to_lower}
use machinepal.Payment.Messages.{must_contain_string}
use machinepal.Config.Labels.{is_label}
use machinepal.Config.Json.{Documents, must_contain_price}
use machinepal.Config.Resources.{ResourceConfig, PassThroughConfig, OrganizationConfig}

pub data ResourceType : Type 0 where
  local_file api_json_rpc api_rest : ResourceType

unfoldable pub validate_org_name : Text → Result (Unit {0})
validate_org_name name = do
  require (not (is_empty name || ltb 39 (length name))) (
      json_error (
        str "Invalid organization name: "
        ++ (name ++ str ". It must be between 1 and 39 characters.")))
  require (is_label name) (
      json_error (
        str "Invalid organization name: "
        ++ (name
            ++ str
                ". It must be between 1 and 39 characters, only contain lowercase letters, numbers, and hyphens, cannot start or end with a hyphen, and cannot have consecutive hyphens.")))
  ok tt

abbrev pub default_organization :
    List ResourceConfig → Option PassThroughConfig → OrganizationConfig
default_organization resources pass_through_config = record {
  resources = resources;
  organization_name = [];
  subdomain = [];
  pass_through_config = pass_through_config;
}

module _ (p : Platform) where
  unfoldable pub must_contain_resource_type : p.Json → Result ResourceType
  must_contain_resource_type j = do
    type_string ← must_contain_string p j (str "type")
    if text_eq type_string (str "local_file")
        then ok local_file
        else if text_eq type_string (str "api-jsonrpc")
        then ok api_json_rpc
        else if text_eq type_string (str "api-rest")
        then ok api_rest
        else err (json_error (str "Invalid resource type: " ++ type_string))

  unfoldable pub pass_through_config_from_json :
      Documents p → p.Json → Result (Option PassThroughConfig)
  pass_through_config_from_json d j = do
    enabled ←
        (if p.contains j (str "enable")
          then (do
            v ← p.at j (str "enable")
            check_state_json (d.is_boolean v) (str "enable must be boolean")
            p.get_bool v)
          else ok true)
    if not enabled then ok none else (do
      check_state_json (p.contains j (str "target_url"))
          (str "Passthrough config must contain target_url")
      v ← p.at j (str "target_url")
      check_state_json (p.is_string v) (str "target_url must be string")
      target_url ← p.get_string v
      ok (some (record { target_url = target_url })))

  unfoldable pub pass_through_member : Documents p → p.Json → Result (Option PassThroughConfig)
  pass_through_member d j =
      if p.contains j (str "passthrough")
      then (do
        v ← p.at j (str "passthrough")
        check_state_json (p.is_object v) (str "passthrough must be object")
        pass_through_config_from_json d v)
      else ok none

  module _ (d : Documents p) (u : UrlParser) (m : FileManager) where
    unfoldable pub make_resource_config :
        Text → Text → ResourceType → ℕ → Text → Result ResourceConfig
    make_resource_config name location local_file price token = ok (record {
      name = name;
      location = location;
      machine_pal_path = location;
      price = price;
      token = token;
      mime_type = str "application/octet-stream";
      description = [];
      payment_scheme = str "exact";
    })
    make_resource_config name location type price token = do
      path ← get_location_from_url u location
      ok (record {
        name = name;
        location = location;
        machine_pal_path = path;
        price = price;
        token = token;
        mime_type = str "application/json";
        description = [];
        payment_scheme = str "exact";
      })

    abbrev check_location : ResourceType → Text → Result (Unit {0})
    check_location local_file location = do
      resolved ← check_file_exists_and_readable_and_resolve m location
      ok tt
    check_location type location =
        check_state_json (is_valid_url u location)
          (str "Invalid URL format for resource location: " ++ location)

    unfoldable pub resource_config_from_json : p.Json → Result ResourceConfig
    resource_config_from_json j = rethrow_nested [] (do
      name ← must_contain_string p j (str "name")
      type ← must_contain_resource_type j
      location ← must_contain_string p j (str "location")
      price ← must_contain_price p d j (str "price")
      token ← must_contain_string p j (str "token")
      check_location type location
      make_resource_config name location type price token)

    -- for ( item : … ) result->push_back( createFromJson( item ) )
    unfoldable pub each : {A : Type 0} → (p.Json → Result A) → List p.Json → Result (List A)
    each read [] = ok []
    each read (item ∷ items) =
        let rest = each read items in do a ← read item; others ← rest; ok (a ∷ others)

    abbrev pub array_member :
        {A : Type 0} → p.Json → Text → Text → (p.Json → Result A) → Result (List A)
    array_member j key message read =
        if p.contains j key
        then (do
          items ← p.at j key
          check_state_json (d.is_array items) message
          each read (d.elements items))
        else ok []

    unfoldable pub resources_from_json : p.Json → Result (List ResourceConfig)
    resources_from_json j = rethrow_nested [] (
        array_member j (str "resources") (str "resources must be an array")
          resource_config_from_json)

    unfoldable pub organization_config_from_json : p.Json → Result OrganizationConfig
    organization_config_from_json j = rethrow_nested [] (do
      name ← must_contain_string p j (str "name")
      check_state_json (not (is_empty name)) (str "Organization name cannot be empty")
      let organization_name = map to_lower name
      validate_org_name organization_name
      subdomain ← must_contain_string p j (str "subdomain")
      check_state_json (not (is_empty subdomain)) (str "subdomain cannot be empty")
      check_state_json (is_label subdomain) (str "Invalid subdomain format")
      resources ← resources_from_json j
      pass_through_config ← pass_through_member d j
      ok (record {
        resources = resources;
        organization_name = organization_name;
        subdomain = subdomain;
        pass_through_config = pass_through_config;
      }))

    unfoldable pub organizations_from_json : p.Json → Result (List OrganizationConfig)
    organizations_from_json j = rethrow_nested [] (
        array_member j (str "organizations") (str "organizations must be an array")
          organization_config_from_json)
