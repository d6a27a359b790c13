-- ===== src/Config/Reading/Accepted.antt =====
-- What an accepted configuration has (MachinePalConfig::createFromJson).
use machinepal.Prelude.{
  ◌≤◌, ◌≡◌, refl, true, ◌||◌, not, Text, str, List, [], ◌∷◌, All, length, ltb, arith, inl, inr,
  Bool-cases, some, map, is_empty,
}
use machinepal.Result.{
  Result, ok, >>=-eq-ok, rethrow_nested-eq-ok, require, ok-injective, check_state_json,
}
use machinepal.Platform.{Platform}
use machinepal.Files.{FileManager}
use machinepal.Url.{UrlParser}
use machinepal.Crypto.Values.{to_lower}
use machinepal.Facilitator.Client.{make_easynet_facilitator_client}
use machinepal.Payment.Messages.{must_contain_string}
use machinepal.Config.Labels.{is_label}
use machinepal.Config.Json.{Documents}
use machinepal.Config.Sections.{Checks, LogConfig, ServerConfig, server_config_from_json}
use machinepal.Config.Resources.{
  OrganizationConfig, make_config, get_organization_by_subdomain_name,
}
use machinepal.Config.Resources.Lookup.{make_config_complete}
use machinepal.Config.Sections.Served.{IsServed, server-IsServed}
use machinepal.Config.Reading.Networks.{IsSupported, network-IsSupported}
use machinepal.Config.Reading.{
  NetworkSettings, LoadedConfig, network_config_from_json, log_section, make_machine_pal_config,
  machine_pal_config_from_json, append_one, endpoint_of,
}
use machinepal.Config.Organizations.{
  array_member, default_organization, each, organization_config_from_json, organizations_from_json,
  pass_through_member, resources_from_json, validate_org_name,
}

-- An organization's two names.
pub record IsNamed (o : OrganizationConfig) : Type 0 where
  pub name : is_label o.organization_name ≡ true
  pub short : length o.organization_name ≤ 39
  pub subdomain : is_label o.subdomain ≡ true

valid_name : (t : Text) → validate_org_name t ≡ ok tt → (is_label t ≡ true) × (length t ≤ 39)
unfolding validate_org_name
valid_name t h =
    let (u0, e0, r0) = >>=-eq-ok (require (not (is_empty t || ltb 39 (length t))) _) _ h in
    let (u1, e1, r1) = >>=-eq-ok (require (is_label t) _) _ r0 in
    (ground (arith, e1), ground (arith, e0))

module _ (p : Platform) (d : Documents p) (u : UrlParser) (m : FileManager) (checks : Checks) where
  each-All :
      {A : Type 0} (P : A → Type 0) (read : p.Json → Result A) (items : List p.Json) (l : List A)
      → ((j : p.Json) (a : A) → read j ≡ ok a → P a)
      → each p d u m read items ≡ ok l
      → All P l
  unfolding each
  each-All P read [] l h e = rw (← ok-injective e) tt
  each-All P read (item ∷ items) l h e =
      let (a, e0, r0) = >>=-eq-ok (read item) _ e in
      let (others, e1, r1) = >>=-eq-ok (each p d u m read items) _ r0 in
      rw (← ok-injective r1) (h item a e0, each-All P read items others h e1)

  organization-IsNamed :
      (j : p.Json) (o : OrganizationConfig)
      → organization_config_from_json p d u m j ≡ ok o
      → IsNamed o
  unfolding organization_config_from_json
  organization-IsNamed j o h =
      let e = rethrow_nested-eq-ok [] _ h in
      let (name, e0, r0) = >>=-eq-ok (must_contain_string p j (str "name")) _ e in
      let (u1, e1, r1) = >>=-eq-ok (check_state_json (not (is_empty name)) _) _ r0 in
      let (u2, e2, r2) = >>=-eq-ok (validate_org_name (map to_lower name)) _ r1 in
      let (subdomain, e3, r3) = >>=-eq-ok (must_contain_string p j (str "subdomain")) _ r2 in
      let (u4, e4, r4) = >>=-eq-ok (check_state_json (not (is_empty subdomain)) _) _ r3 in
      let (u5, e5, r5) = >>=-eq-ok (check_state_json (is_label subdomain) _) _ r4 in
      let (resources, e6, r6) = >>=-eq-ok (resources_from_json p d u m j) _ r5 in
      let (pass_through, e7, r7) = >>=-eq-ok (pass_through_member p d j) _ r6 in
      let (label, short) = valid_name (map to_lower name) e2 in
      let accepted : is_label subdomain ≡ true = ground (arith, e5) in
      rw (← ok-injective r7) (record { name = label; short = short; subdomain = accepted })

  array_member-All :
      {A : Type 0} (P : A → Type 0) (read : p.Json → Result A) (j : p.Json) (key message : Text)
      (l : List A)
      → ((j : p.Json) (a : A) → read j ≡ ok a → P a)
      → array_member p d u m j key message read ≡ ok l
      → All P l
  array_member-All {A} P read j key message l h e = elim (Bool-cases (p.contains j key)) [
    | inl there ↦
        let (items, e0, r0) = >>=-eq-ok (p.at j key) _ (rw there at e) in
        let (u1, e1, r1) = >>=-eq-ok (check_state_json (d.is_array items) _) _ r0 in
        each-All P read (d.elements items) l h r1
    | inr absent ↦
        let none_there : ◌≡◌ {A = Result (List A)} (ok []) (ok l) = rw absent at e in
        rw (← ok-injective none_there) tt
  ]

  organizations-IsNamed :
      (j : p.Json) (l : List OrganizationConfig)
      → organizations_from_json p d u m j ≡ ok l
      → All IsNamed l
  unfolding organizations_from_json
  organizations-IsNamed j l h =
      array_member-All IsNamed (organization_config_from_json p d u m) j _ _ l organization-IsNamed
        (rethrow_nested-eq-ok [] _ h)

  -- What the server needs of its configuration.
  pub record IsAccepted (c : LoadedConfig) : Type 0 where
    pub server : IsServed c.server
    pub network : IsSupported c.settings
    pub organizations :
        (l : List OrganizationConfig) × (main : OrganizationConfig) × All IsNamed l
        × (main.subdomain ≡ [])
        × All
            (λ o. get_organization_by_subdomain_name c.config o.subdomain ≡ some o)
            (append_one l main)

  made-IsAccepted :
      (server : ServerConfig) (log : LogConfig) (l : List OrganizationConfig)
      (main : OrganizationConfig) (settings : NetworkSettings) (c : LoadedConfig)
      → IsServed server
      → IsSupported settings
      → All IsNamed l
      → main.subdomain ≡ []
      → make_machine_pal_config p d u m checks server log (append_one l main) settings ≡ ok c
      → IsAccepted c
  unfolding make_machine_pal_config
  made-IsAccepted server log l main settings c served network named rest h =
      let (config, e0, r0) =
        >>=-eq-ok (make_config server.host_name settings.network (append_one l main)) _ h in
      let (endpoint, e1, r1) = >>=-eq-ok (endpoint_of server.http server.https) _ r0 in
      let (client, e2, r2) = >>=-eq-ok (make_easynet_facilitator_client _) _ r1 in
      let found = make_config_complete server.host_name settings.network (append_one l main) e0 in
      rw (← ok-injective r2) (record {
        server = served;
        network = network;
        organizations = (l, main, named, rest, found);
      })

  -- A configuration that is accepted has a host name, ports of 16 bits and one protocol at least, a
  -- supported network with its facilitator, and organizations with valid names, each of which, like
  -- the default one, is found under its own subdomain.
  pub machine_pal_config_from_json-IsAccepted :
      (j : p.Json) (c : LoadedConfig)
      → machine_pal_config_from_json p d u m checks j ≡ ok c
      → IsAccepted c
  unfolding machine_pal_config_from_json
  machine_pal_config_from_json-IsAccepted j c h =
      let e = rethrow_nested-eq-ok [] _ h in
      let (u0, e0, r0) = >>=-eq-ok (check_state_json (p.contains j (str "server")) _) _ e in
      let (server_json, e1, r1) = >>=-eq-ok (p.at j (str "server")) _ r0 in
      let (server, e2, r2) = >>=-eq-ok (server_config_from_json p d m checks server_json) _ r1 in
      let (log, e3, r3) = >>=-eq-ok (log_section p d u m checks j) _ r2 in
      let (resources, e4, r4) = >>=-eq-ok (resources_from_json p d u m j) _ r3 in
      let (pass_through, e5, r5) = >>=-eq-ok (pass_through_member p d j) _ r4 in
      let (settings, e6, r6) = >>=-eq-ok (network_config_from_json p d u m checks j) _ r5 in
      let (organizations, e7, r7) = >>=-eq-ok (organizations_from_json p d u m j) _ r6 in
      made-IsAccepted server log organizations (default_organization resources pass_through)
        settings c (server-IsServed p d m checks server_json server e2)
        (network-IsSupported p d u m checks j settings e6)
        (organizations-IsNamed j organizations e7) refl r7
