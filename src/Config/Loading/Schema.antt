-- ===== src/Config/Loading/Schema.antt =====
-- What the validation against the schema decides (ConfigLoader::validateJson and loadFromYamlFile).
use machinepal.Prelude.{◌≡◌, ◌↔◌, refl, false, not, [], arith}
use machinepal.Result.{
  Result, ok, err, >>=-eq-ok, rethrow_nested, rethrow_nested-eq-ok, check_state,
}
use machinepal.Platform.{Platform}
use machinepal.Config.Json.{Documents}
use machinepal.Config.Yaml.{Loader}
use machinepal.Config.Loading.{logged, validate_json}

logged_ok :
    (p : Platform) (d : Documents p) (loader : Loader p d) (r : Result (Unit {0}))
    → logged p d loader r ≡ ok tt
logged_ok p d loader (ok u) = refl
logged_ok p d loader (err e) = refl

module _ (p : Platform) (d : Documents p) (loader : Loader p d) where
  -- The validation returns exactly where the document is not empty and the schema itself parses,
  -- whatever the validator says of the document.
  pub validate_json_iff :
      (j : p.Json)
      → (validate_json p d loader j ≡ ok tt) ↔ (
          (loader.is_empty_json j ≡ false)
          × (schema : p.Json) × (p.parse loader.schema_text ≡ ok schema))
  unfolding validate_json
  validate_json_iff j = (
    λ h.
        let (u0, e0, r0) = >>=-eq-ok (check_state (not (loader.is_empty_json j)) _) _ h in
        let (schema, e1, r1) = >>=-eq-ok (rethrow_nested [] (p.parse loader.schema_text)) _ r0 in
        (ground (arith, e0), schema, rethrow_nested-eq-ok [] _ e1),
    λ h.
        let (some_members, schema, parsed) = h in
        simp (some_members, parsed) (logged_ok p d loader (loader.validate schema j)),
  )
