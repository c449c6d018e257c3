-- ===== src/Settings.antt =====
-- internal/config: how the fields of the configuration are bound to environment variables, and the
-- level of the logger. A struct type is the list of its fields with their tags, as reflection gives
-- them; a tag that is missing is empty. Reading and validating the values is the work of libraries.
pub mod Structs
pub mod Mappings
pub mod Parsing
mod Tests
use api_poll.Prelude.{
  ℕ, Bool, true, false, ◌||◌, List, [], ◌∷◌, ◌++◌, Option, none, some, Bytes, utf8, bytes_eq,
  if◌then◌else◌,
}

-- A field with its tags `mapstructure` and `env`: one whose type is a struct with these fields, or
-- another one.
pub data Fields : Type 0 where
  no_fields : Fields
  plain : Bytes → Bytes → Fields → Fields
  struct : Bytes → Bytes → Fields → Fields → Fields

-- The map of the bindings, the newest first; the first of two for a key counts.
abbrev pub EnvMappings : Type 0
EnvMappings = List (Bytes × Bytes)

abbrev pub joined : Bytes → Bytes → Bytes
joined prefix name = prefix ++ utf8 "." ++ name

-- The name of a struct's fields.
unfoldable pub prefix_of : Bytes → Bytes → Bytes
prefix_of [] name = name
prefix_of (c ∷ cs) name = joined (c ∷ cs) name

unfoldable pub map_struct_field : Bytes → Bytes → EnvMappings → Bytes → Option EnvMappings
unfolding bytes_eq
map_struct_field tag env mappings prefix =
    if bytes_eq tag []
    then none
    else if bytes_eq env [] || bytes_eq env (utf8 "-")
    then some mappings
    else some ((joined prefix tag, env) ∷ mappings)

unfoldable pub create_env_mappings : Fields → EnvMappings → Bytes → Option EnvMappings
unfolding map_struct_field prefix_of bytes_eq
create_env_mappings no_fields mappings prefix = some mappings
create_env_mappings (plain tag env rest) mappings prefix =
    elim (map_struct_field tag env mappings prefix) [
      | none ↦ none
      | some more ↦ create_env_mappings rest more prefix
    ]
create_env_mappings (struct tag env inner rest) mappings prefix =
    let below : Option EnvMappings =
      elim (create_env_mappings inner mappings (prefix_of prefix tag)) [
        | none ↦ none
        | some more ↦ create_env_mappings rest more prefix
      ] in
    if bytes_eq tag [] then none else below

pub data Level : Type 0 where
  debug info warn error : Level

-- `ParseSlogLogLevel`: the level and whether it is known. `strings.ToLower` is a parameter.
unfoldable pub parse_slog_log_level : (Bytes → Bytes) → Bytes → Level × Bool
unfolding bytes_eq
parse_slog_log_level to_lower level =
    let l = to_lower level in
    if bytes_eq l (utf8 "debug")
    then (debug, true)
    else if bytes_eq l (utf8 "info")
    then (info, true)
    else if bytes_eq l (utf8 "warn") || bytes_eq l (utf8 "warning")
    then (warn, true)
    else if bytes_eq l (utf8 "error")
    then (error, true)
    else (info, false)
