-- ===== src/Config/Resources/Lookup.antt =====
-- Finding a resource by its path, and an organization by its subdomain
-- (OrganizationConfig::getResourceByPath, MachinePalConfig).
use machinepal.Prelude.{
  ◌≡◌, ◌≢◌, refl, ap, true, false, Text, List, [], ◌∷◌, ◌++◌, some, arith, text_eq_iff,
  text_eq_refl, All, length-append,
}
use machinepal.Result.{ok, >>=-eq-ok}
use machinepal.Config.Resources.{
  NetworkConfig, OrganizationConfig, MachinePalConfig, match_string, last_is, drop_last,
  get_resource_by_path, find_organization, index_organizations, make_config,
  get_organization_by_subdomain_name,
}

drop_last-append : (path : Text) → drop_last (path ++ b'/' ∷ []) ≡ path
unfolding drop_last
drop_last-append [] = refl
drop_last-append (a ∷ []) = refl
drop_last-append (a ∷ b ∷ t) = ap (λ (s : Text). a ∷ s) (drop_last-append (b ∷ t))

last_is-append : (path : Text) → last_is b'/' (path ++ b'/' ∷ []) ≡ true
unfolding last_is
last_is-append [] = refl
last_is-append (a ∷ []) = refl
last_is-append (a ∷ b ∷ t) = last_is-append (b ∷ t)

match_string-slash : (path : Text) → path ≢ [] → match_string (path ++ b'/' ∷ []) ≡ path
unfolding match_string
match_string-slash [] some_path = absurd (some_path refl)
match_string-slash (a ∷ t) some_path =
    rw (last_is-append (a ∷ t), drop_last-append (a ∷ t))
      (ground (arith, length-append t (b'/' ∷ [])))

match_string-plain : (path : Text) → last_is b'/' path ≡ false → match_string path ≡ path
unfolding match_string
match_string-plain path no_slash = ground arith

-- A slash after a path that has none at its end makes no difference to the resource that is found.
pub get_resource_by_path-slash :
    (o : OrganizationConfig) (path : Text)
    → path ≢ []
    → last_is b'/' path ≡ false
    → get_resource_by_path o (path ++ b'/' ∷ []) ≡ get_resource_by_path o path
unfolding get_resource_by_path
get_resource_by_path-slash o path some_path no_slash =
    rw (match_string-slash path some_path, match_string-plain path no_slash)

find_organization-key :
    (k : Text) (o : OrganizationConfig) (m : List (Text × OrganizationConfig))
    → All (λ e. e.0 ≡ e.1.subdomain) m
    → find_organization k m ≡ some o
    → o.subdomain ≡ k
unfolding find_organization
find_organization-key k o [] a h = cc
find_organization-key k o ((j, x) ∷ m) a h =
    ground (arith, text_eq_iff j k, find_organization-key k o m)

index_keeps :
    (rest : List OrganizationConfig) (by_name by_subdomain : List (Text × OrganizationConfig))
    (r : List (Text × OrganizationConfig) × List (Text × OrganizationConfig)) (k : Text)
    (o : OrganizationConfig)
    → index_organizations rest by_name by_subdomain ≡ ok r
    → find_organization k by_subdomain ≡ some o
    → find_organization k r.1 ≡ some o
unfolding index_organizations find_organization
index_keeps [] by_name by_subdomain r k o e h = ground arith
index_keeps (x ∷ rest) by_name by_subdomain r k o e h = ground (
  arith,
  text_eq_iff x.subdomain k,
  index_keeps rest ((x.organization_name, x) ∷ by_name) ((x.subdomain, x) ∷ by_subdomain) r k o,
)

index_complete :
    (rest : List OrganizationConfig) (by_name by_subdomain : List (Text × OrganizationConfig))
    (r : List (Text × OrganizationConfig) × List (Text × OrganizationConfig))
    → index_organizations rest by_name by_subdomain ≡ ok r
    → All (λ o. find_organization o.subdomain r.1 ≡ some o) rest
unfolding index_organizations find_organization
index_complete [] by_name by_subdomain r e = tt
index_complete (x ∷ rest) by_name by_subdomain r e = (
  ground (
    arith,
    text_eq_refl x.subdomain,
    index_keeps rest ((x.organization_name, x) ∷ by_name) ((x.subdomain, x) ∷ by_subdomain) r
        x.subdomain x,
  ),
  index_complete rest ((x.organization_name, x) ∷ by_name) ((x.subdomain, x) ∷ by_subdomain) r
      (ground arith),
)

-- Where the configuration is accepted, each of its organizations is found under its own
-- subdomain: no other one shadows it.
pub make_config_complete :
    (host : Text) (network : NetworkConfig) (organizations : List OrganizationConfig)
    {c : MachinePalConfig}
    → make_config host network organizations ≡ ok c
    → All (λ o. get_organization_by_subdomain_name c o.subdomain ≡ some o) organizations
unfolding make_config get_organization_by_subdomain_name
make_config_complete host network organizations {c} e =
    let (r, indexed, rest) = >>=-eq-ok (index_organizations organizations [] []) _ e in
    let same : c.organizations_by_subdomain ≡ r.1 = ground arith in
    rw same (index_complete organizations [] [] r indexed)
