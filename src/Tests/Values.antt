-- ===== src/Tests/Values.antt =====
-- Conversions, lookups and names at concrete inputs.
use mathlib.Core.List.Perm as Perm
use machinepal.Prelude.{refl, ◌≡◌, ◌≢◌, ◌++◌, false, ◌↔◌, str, [], ◌∷◌, some, inl}
use machinepal.Config.Resources.{get_resource_by_path, last_is}
use machinepal.Config.Resources.Lookup.{get_resource_by_path-slash}
use machinepal.Facilitator.Errors.{
  insufficient_funds, get_error_string, error_string_to_enum, get_error_from_string,
}
use machinepal.Facilitator.Errors.Lookup.{get_error_from_string-get_error_string}
use machinepal.X402.Host.{match_host_name}
use machinepal.X402.Host.Subdomain.{Names, match_host_name_iff}
use machinepal.Tests.World.{organization_demo}

r_path-not_empty : str "/r" ≢ []
unfolding str
r_path-not_empty h = cc

r_path-no_slash : last_is b'/' (str "/r") ≡ false
unfolding str last_is
r_path-no_slash = refl

get_resource_by_path-slash_example :
    get_resource_by_path organization_demo (str "/r" ++ b'/' ∷ [])
    ≡ get_resource_by_path organization_demo (str "/r")
get_resource_by_path-slash_example =
    get_resource_by_path-slash organization_demo (str "/r") r_path-not_empty r_path-no_slash

get_error_from_string-get_error_string_example :
    get_error_from_string error_string_to_enum (get_error_string insufficient_funds)
    ≡ some insufficient_funds
get_error_from_string-get_error_string_example =
    get_error_from_string-get_error_string error_string_to_enum insufficient_funds
      (Perm.refl error_string_to_enum)

match_host_name_iff_example :
    (match_host_name (str "h.org") (str "a.h.org") ≡ inl (str "a"))
    ↔ Names (str "h.org") (str "a") (str "a.h.org")
match_host_name_iff_example = match_host_name_iff (str "h.org") (str "a.h.org") (str "a")
