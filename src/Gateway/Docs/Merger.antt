-- ===== src/Gateway/Docs/Merger.antt =====
-- services/api-gateway/app/services/docs_aggregator/merger.py. Of an OpenAPI document, what is not read
-- is kept as the JSON text that it stands in.
use back_end.Prelude.{
  String, Option, none, some, List, [], ◌∷◌, ◌++◌, ◌==◌, string_eq, if◌then◌else◌, join,
}
use back_end.Prelude.Dict
use back_end.Prelude.Dict.{Dict}
use back_end.Prelude.Text.{starts_with, drop, len}
use back_end.Prelude.Distinct.{contains}

-- An operation: its `tags`, if it has the key, and its other keys.
pub record Operation : Type 0 where
  pub tags : Option (List String)
  pub rest : String

abbrev pub Methods : Type 0
Methods = Dict String Operation

-- `paths` and `components.schemas`; `none` for a missing key, `null` or an empty object.
pub record Spec : Type 0 where
  pub paths : Option (Dict String Methods)
  pub schemas : Option (Dict String String)

abbrev pub or_none {ℓ} : {A : Type ℓ} → Option (List A) → List A
or_none none = []
or_none (some xs) = xs

-- `target_schemas[name] = schema` for each, which `_merge_schemas` does
unfoldable pub merge_schemas : Dict String String → Dict String String → Dict String String
unfolding Dict.put
merge_schemas target [] = target
merge_schemas target ((name, schema) ∷ schemas) =
    merge_schemas (Dict.put name schema target) schemas

abbrev pub or_slash : String → String
or_slash rest = if rest == "" then "/" else rest

-- `path[len(prefix):] or "/"`, if the path starts with the legacy prefix
unfoldable pub strip_legacy : String → String → String
unfolding starts_with drop len
strip_legacy legacy_prefix path =
    let rest = drop (len legacy_prefix) path in
    if starts_with path legacy_prefix then or_slash rest else path

abbrev pub with_slash : String → String
with_slash path = if starts_with path "/" then path else join ("/" ∷ path ∷ [])

abbrev pub normalize_files : String → Option String
normalize_files path =
    if starts_with path "/public/files"
    then some (join ("/api/files" ∷ drop (len "/public/files") path ∷ []))
    else if starts_with path "/internal/files"
    then none
    else some (with_slash path)

-- `_normalize_path`
unfoldable pub normalize_path : String → String → Option String
unfolding strip_legacy starts_with drop len
normalize_path service_name path =
    let stripped = strip_legacy (join ("/" ∷ service_name ∷ [])) path in
    if service_name == "files-service" then normalize_files stripped else some (with_slash stripped)

-- `list(dict.fromkeys(seen + tags))`, the items of `seen` being there already
unfoldable pub dedup_onto : List String → List String → List String
unfolding contains
dedup_onto seen [] = seen
dedup_onto seen (t ∷ tags) = dedup_onto (if contains t seen then seen else seen ++ t ∷ []) tags

-- `op.setdefault("tags", []).append(tag)`
abbrev pub tagged : String → Operation → Operation
tagged tag op = record op { tags = some (or_none op.tags ++ tag ∷ []) }

-- The operation that is written for a method: its tags after those of the one that is there.
abbrev pub over : Option Operation → Operation → Operation
over none op = op
over (some old) op = record op { tags = some (dedup_onto [] (or_none old.tags ++ or_none op.tags)) }

-- The inner loop, over the methods of a path.
unfoldable pub merge_methods : String → Methods → Methods → Methods
unfolding Dict.get Dict.put dedup_onto
merge_methods tag merged [] = merged
merge_methods tag merged ((method, op) ∷ methods) =
    merge_methods tag (Dict.put method (over (Dict.get method merged) (tagged tag op)) merged)
      methods

abbrev pub merge_at : String → Option String → Methods → Dict String Methods → Dict String Methods
merge_at tag none methods paths = paths
merge_at tag (some path) methods paths =
    Dict.put path (merge_methods tag (or_none (Dict.get path paths)) methods) paths

-- The loop over the paths of a service's document.
unfoldable pub merge_paths :
    String → Dict String Methods → Dict String Methods → Dict String Methods
unfolding normalize_path merge_methods Dict.get Dict.put
merge_paths tag merged [] = merged
merge_paths tag merged ((path, methods) ∷ paths) =
    merge_paths tag (merge_at tag (normalize_path tag path) methods merged) paths

-- What the services' documents add to `base`.
pub record Merged : Type 0 where
  pub paths : Dict String Methods
  pub schemas : Dict String String

unfoldable pub merge_onto : Merged → Dict String Spec → Merged
unfolding merge_paths merge_schemas
merge_onto base [] = base
merge_onto base ((service_name, spec) ∷ specs) =
    merge_onto
      (record {
        paths = merge_paths service_name base.paths (or_none spec.paths);
        schemas = merge_schemas base.schemas (or_none spec.schemas);
      })
      specs

-- `merge_openapi`
unfoldable pub merge_openapi : Dict String Spec → Merged
unfolding merge_onto
merge_openapi specs = merge_onto (record { paths = []; schemas = [] }) specs
