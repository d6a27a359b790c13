-- ===== src/Config/Yaml.antt =====
-- src/config/ConfigLoader.cpp: from YAML to JSON, and the record of what ConfigLoader calls.
use machinepal.Prelude.{
  ℕ, Bool, true, ◌||◌, Text, str, List, [], ◌∷◌, ◌++◌, if◌then◌else◌, text_eq, Option, none, some,
}
use machinepal.Result.{Result, ok, err, runtime_error, rethrow_nested, ◌>>=◌}
use machinepal.Platform.{Platform, ℤ, pos}
use machinepal.Vibemarket.Maps.{put, text_key}
use machinepal.Config.Json.{Documents}

-- YAML::Node; a scalar with its tag.
mutual
  pub data YamlNode : Type 0 where
    yaml_null : YamlNode
    yaml_undefined : YamlNode
    yaml_scalar : Text → Text → YamlNode
    yaml_sequence : YamlNodes → YamlNode
    yaml_map : YamlEntries → YamlNode

  pub data YamlNodes : Type 0 where
    no_nodes : YamlNodes
    node_and : YamlNode → YamlNodes → YamlNodes

  pub data YamlEntries : Type 0 where
    no_entries : YamlEntries
    entry_and : YamlNode → YamlNode → YamlEntries → YamlEntries

-- yaml-cpp, nlohmann's pointers and its schema validator, and the text of the schema.
pub record Loader (p : Platform) (d : Documents p) : Type 0 where
  -- node.as< T >(), none where it throws BadConversion
  pub as_boolean : Text → Option Bool
  pub as_int64 : Text → Option ℤ
  pub as_uint64 : Text → Option ℕ
  pub as_double : Text → Option d.Double
  pub is_finite : d.Double → Bool
  pub dump_yaml : YamlNode → Text
  pub load_file : Text → Result YamlNode
  pub null_json : p.Json
  pub from_double : d.Double → p.Json
  -- j[ pointer ] = v
  pub set_at : p.Json → Text → p.Json → Result p.Json
  pub is_empty_json : p.Json → Bool
  pub schema_text : Text
  -- set_root_schema and validate
  pub validate : p.Json → p.Json → Result (Unit {0})
  -- the file's first line, where it opens
  pub first_line : Text → Option Text

unfoldable pub yaml_tag_is : Text → Text → Bool
yaml_tag_is tag name =
    text_eq tag (str "!!" ++ name) || text_eq tag (str "tag:yaml.org,2002:" ++ name)

module _ (p : Platform) (d : Documents p) (loader : Loader p d) where
  abbrev finite_or : Option d.Double → p.Json → p.Json
  finite_or none other = other
  finite_or (some x) other = if loader.is_finite x then loader.from_double x else other

  abbrev uint64_or : Option ℕ → p.Json → p.Json
  uint64_or none other = other
  uint64_or (some n) other = p.from_int (pos n)

  abbrev int64_or : Option ℤ → p.Json → p.Json
  int64_or none other = other
  int64_or (some n) other = p.from_int n

  abbrev bool_or : Option Bool → p.Json → p.Json
  bool_or none other = other
  bool_or (some b) other = p.from_bool b

  abbrev must_be_bool : Option Bool → Result p.Json
  must_be_bool none = err (runtime_error (str "bad conversion"))
  must_be_bool (some b) = ok (p.from_bool b)

  unfoldable pub scalar_to_json : Text → Text → Result p.Json
  scalar_to_json tag s =
      if yaml_tag_is tag (str "bool")
      then must_be_bool (loader.as_boolean s)
      else if yaml_tag_is tag (str "int")
      then ok (int64_or (loader.as_int64 s) (uint64_or (loader.as_uint64 s) (p.from_text s)))
      else if yaml_tag_is tag (str "float")
      then ok (finite_or (loader.as_double s) (p.from_text s))
      else if yaml_tag_is tag (str "str")
      then ok (p.from_text s)
      else ok (
          bool_or (loader.as_boolean s) (
            int64_or (loader.as_int64 s)
              (uint64_or (loader.as_uint64 s) (finite_or (loader.as_double s) (p.from_text s)))))

  abbrev is_key_tag : Text → Bool
  is_key_tag [] = true
  is_key_tag (c ∷ tag) = yaml_tag_is (c ∷ tag) (str "str")

  abbrev key_text_of : YamlNode → Text
  key_text_of (yaml_scalar tag s) =
      if is_key_tag tag then s else loader.dump_yaml (yaml_scalar tag s)
  key_text_of node = loader.dump_yaml node

  unfoldable mutual
    pub yaml_node_to_json : YamlNode → Result p.Json
    yaml_node_to_json yaml_null = ok loader.null_json
    yaml_node_to_json yaml_undefined = ok loader.null_json
    yaml_node_to_json (yaml_scalar tag s) = scalar_to_json tag s
    yaml_node_to_json (yaml_sequence nodes) = do
      items ← yaml_nodes_to_json nodes
      ok (p.from_array items)
    yaml_node_to_json (yaml_map entries) = do
      fields ← yaml_entries_to_json entries []
      ok (p.from_object fields)

    pub yaml_nodes_to_json : YamlNodes → Result (List p.Json)
    yaml_nodes_to_json no_nodes = ok []
    yaml_nodes_to_json (node_and node nodes) = do
      item ← yaml_node_to_json node
      items ← yaml_nodes_to_json nodes
      ok (item ∷ items)

    -- obj[ key ] = value, entry by entry
    pub yaml_entries_to_json : YamlEntries → List (Text × p.Json) → Result (List (Text × p.Json))
    yaml_entries_to_json no_entries fields = ok fields
    yaml_entries_to_json (entry_and key value entries) fields = do
      json ← yaml_node_to_json value
      yaml_entries_to_json entries (put (key_text_of key) json fields)

  unfoldable pub yaml_to_json : Text → Result p.Json
  yaml_to_json yaml_path =
      rethrow_nested (str "Error loading YAML file '" ++ (yaml_path ++ str "': "))
        (do root ← loader.load_file yaml_path; yaml_node_to_json root)
