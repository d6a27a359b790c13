-- ===== src/Config/Sections/Served.antt =====
-- The server section of an accepted configuration (ServerConfig::createFromJson).
use machinepal.Prelude.{
  ℕ, ◌≤◌, ◌<◌, ◌≡◌, subst, true, ◌||◌, not, Text, str, [], ltb, arith, inl, inr, Bool-cases, Option,
  none, some, is_empty,
}
use machinepal.Result.{
  Result, ok, >>=-eq-ok, rethrow_nested-eq-ok, require, ok-injective, check_state_json, check_state,
}
use machinepal.Platform.{Platform, ℤ, pos}
use machinepal.Files.{FileManager}
use machinepal.Config.Labels.{is_host_name}
use machinepal.Config.Json.{
  Documents, get_bool_with_default, get_uint16_with_default, get_string_with_default, uint16_of,
  in_range,
}
use machinepal.Config.Sections.{
  Checks, ServerConfig, HttpConfig, HttpsConfig, is_some, make_http_config, make_https_config,
  make_server_config, http_config_from_json, https_config_from_json, server_config_from_json,
  optional_section, optional_file, required_file,
}

abbrev pub IsPort : ℕ → Type 0
IsPort port = (0 < port) × (port ≤ 65535)

-- The host name, the ports, and one protocol at least.
pub record IsServed (s : ServerConfig) : Type 0 where
  pub host_name : is_host_name s.host_name ≡ true
  pub http : (c : HttpConfig) → s.http ≡ some c → IsPort c.port
  pub https : (c : HttpsConfig) → s.https ≡ some c → IsPort c.port
  pub some_protocol : (is_some s.http || is_some s.https) ≡ true

range : (z : ℤ) (key : Text) (n : ℕ) → in_range (uint16_of z) key ≡ ok n → n ≤ 65535
range (pos z) key n h = ground arith
range (ℤ.negsuc z) key n h = cc

module _ (p : Platform) (d : Documents p) (m : FileManager) (checks : Checks) where
  uint16-eq :
      (j : p.Json) (key : Text) (default_value n : ℕ)
      → default_value ≤ 65535
      → get_uint16_with_default p d j key default_value ≡ ok n
      → n ≤ 65535
  unfolding get_uint16_with_default
  uint16-eq j key default_value n small h = elim (Bool-cases (p.contains j key)) [
    | inl there ↦
        let (v, e0, r0) = >>=-eq-ok (p.at j key) _ (rw there at h) in
        let (u, e1, r1) = >>=-eq-ok (check_state_json (p.is_integer v) _) _ r0 in
        let (value, e2, r2) = >>=-eq-ok (p.get_int v) _ r1 in range value key n r2
    | inr absent ↦ ground arith
  ]

  made-IsPort :
      (port : ℕ) (c : HttpConfig) → port ≤ 65535 → make_http_config port ≡ ok c → IsPort c.port
  unfolding make_http_config
  made-IsPort port c small h =
      let (u0, e0, r0) = >>=-eq-ok (check_state (ltb 0 port) _) _ h in
      let positive : 0 < port = ground (arith, e0) in rw (← ok-injective r0) (positive, small)

  made_https-IsPort :
      (port : ℕ) (cert key : Text) (pass ca : Option Text) (c : HttpsConfig)
      → port ≤ 65535
      → make_https_config checks port cert key pass ca ≡ ok c
      → IsPort c.port
  unfolding make_https_config
  made_https-IsPort port cert key pass ca c small h =
      let (u0, e0, r0) = >>=-eq-ok (check_state (ltb 0 port) _) _ h in
      let (u1, e1, r1) = >>=-eq-ok (checks.do_thorough_key_cert_format_check cert key) _ r0 in
      let positive : 0 < port = ground (arith, e0) in rw (← ok-injective r1) (positive, small)

  -- A section of the server, where it is there and enabled.
  abbrev Holds : {A : Type 0} → (A → Type 0) → Option A → Type 0
  Holds P none = Unit
  Holds P (some a) = P a

  http-IsPort :
      (j : p.Json) (o : Option HttpConfig)
      → http_config_from_json p d m checks j ≡ ok o
      → Holds (λ (c : HttpConfig). IsPort c.port) o
  unfolding http_config_from_json
  http-IsPort j o h =
      let e = rethrow_nested-eq-ok [] _ h in
      let (u0, e0, r0) = >>=-eq-ok (check_state (p.is_object j) _) _ e in
      let (enabled, e1, r1) = >>=-eq-ok (get_bool_with_default p d j (str "enabled") true) _ r0 in
      elim (Bool-cases enabled) [
        | inl on ↦
            let (port, e2, r2) =
              >>=-eq-ok (get_uint16_with_default p d j (str "port") 8080) _ (rw on at r1) in
            let (c, e3, r3) = >>=-eq-ok (make_http_config port) _ r2 in
            rw (← ok-injective r3)
              (made-IsPort port c (uint16-eq j _ 8080 port (omega arith) e2) e3)
        | inr off ↦
            let nothing : ◌≡◌ {A = Result (Option HttpConfig)} (ok none) (ok o) = rw off at r1 in
            rw (← ok-injective nothing) tt
      ]

  https-IsPort :
      (j : p.Json) (o : Option HttpsConfig)
      → https_config_from_json p d m checks j ≡ ok o
      → Holds (λ (c : HttpsConfig). IsPort c.port) o
  unfolding https_config_from_json
  https-IsPort j o h =
      let e = rethrow_nested-eq-ok [] _ h in
      let (enabled, e1, r1) = >>=-eq-ok (get_bool_with_default p d j (str "enabled") true) _ e in
      elim (Bool-cases enabled) [
        | inl on ↦
            let (ca, ea, ra) =
              >>=-eq-ok (optional_file p d m checks j (str "ca_file")) _ (rw on at r1) in
            let (pass, eb, rb) =
              >>=-eq-ok (optional_file p d m checks j (str "key_pass_file")) _ ra in
            let (cert, ec, rc) = >>=-eq-ok (required_file p d m checks j (str "cert_file")) _ rb in
            let (key, ed, rd) = >>=-eq-ok (required_file p d m checks j (str "key_file")) _ rc in
            let (port, e2, r2) = >>=-eq-ok (get_uint16_with_default p d j (str "port") 8080) _ rd in
            let (c, e3, r3) = >>=-eq-ok (make_https_config checks port cert key pass ca) _ r2 in
            rw (← ok-injective r3) (
              made_https-IsPort port cert key pass ca c (uint16-eq j _ 8080 port (omega arith) e2)
                e3)
        | inr off ↦
            let nothing : ◌≡◌ {A = Result (Option HttpsConfig)} (ok none) (ok o) = rw off at r1 in
            rw (← ok-injective nothing) tt
      ]

  section-Holds :
      {A : Type 0} (P : A → Type 0) (j : p.Json) (key : Text) (read : p.Json → Result (Option A))
      (o : Option A)
      → ((v : p.Json) (o : Option A) → read v ≡ ok o → Holds P o)
      → optional_section p d m checks j key read ≡ ok o
      → Holds P o
  section-Holds {A} P j key read o h e = elim (Bool-cases (p.contains j key)) [
    | inl there ↦
        let (v, e0, r0) = >>=-eq-ok (p.at j key) _ (rw there at e) in
        let (u1, e1, r1) = >>=-eq-ok (check_state_json (p.is_object v) _) _ r0 in h v o r1
    | inr absent ↦
        let nothing : ◌≡◌ {A = Result (Option A)} (ok none) (ok o) = rw absent at e in
        rw (← ok-injective nothing) tt
  ]

  made_server :
      (host bind : Text) (http : Option HttpConfig) (https : Option HttpsConfig) (s : ServerConfig)
      → Holds (λ (c : HttpConfig). IsPort c.port) http
      → Holds (λ (c : HttpsConfig). IsPort c.port) https
      → make_server_config checks host bind http https ≡ ok s
      → IsServed s
  unfolding make_server_config
  made_server host bind http https s hp hps h =
      let (u0, e0, r0) = >>=-eq-ok (require (not (is_empty host)) _) _ h in
      let (u1, e1, r1) = >>=-eq-ok (require (is_host_name host) _) _ r0 in
      let (u2, e2, r2) = >>=-eq-ok (require (not (is_empty bind)) _) _ r1 in
      let (u3, e3, r3) =
        >>=-eq-ok (require (checks.inet_pton_ipv4 bind || checks.inet_pton_ipv6 bind) _) _ r2 in
      let (u4, e4, r4) = >>=-eq-ok (require (is_some http || is_some https) _) _ r3 in
      let named : is_host_name host ≡ true = ground (arith, e1) in
      let protocol : (is_some http || is_some https) ≡ true = ground (arith, e4) in
      rw (← ok-injective r4) (record {
        host_name = named;
        http = λ c e. subst (Holds (λ (c : HttpConfig). IsPort c.port)) e hp;
        https = λ c e. subst (Holds (λ (c : HttpsConfig). IsPort c.port)) e hps;
        some_protocol = protocol;
      })

  pub server-IsServed :
      (j : p.Json) (s : ServerConfig) → server_config_from_json p d m checks j ≡ ok s → IsServed s
  unfolding server_config_from_json
  server-IsServed j s h =
      let e = rethrow_nested-eq-ok [] _ h in
      let (u0, e0, r0) = >>=-eq-ok (check_state (p.is_object j) _) _ e in
      let (http, e1, r1) = >>=-eq-ok (optional_section p d m checks j (str "http") _) _ r0 in
      let (https, e2, r2) = >>=-eq-ok (optional_section p d m checks j (str "https") _) _ r1 in
      let (u3, e3, r3) = >>=-eq-ok (require (is_some http || is_some https) _) _ r2 in
      let (u4, e4, r4) = >>=-eq-ok (check_state_json (p.contains j (str "hostname")) _) _ r3 in
      let (v, e5, r5) = >>=-eq-ok (p.at j (str "hostname")) _ r4 in
      let (u6, e6, r6) = >>=-eq-ok (check_state_json (p.is_string v) _) _ r5 in
      let (host, e7, r7) = >>=-eq-ok (p.get_string v) _ r6 in
      let (bind, e8, r8) = >>=-eq-ok (get_string_with_default p d j (str "bind_ip") _) _ r7 in
      made_server host bind http https s (section-Holds _ j _ _ http http-IsPort e1)
        (section-Holds _ j _ _ https https-IsPort e2) r8
