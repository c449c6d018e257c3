-- ===== src/Settings/Parsing.antt =====
-- `MustParseConfig` of internal/config/config.go and what it calls. The state of viper is a parameter
-- with its methods, and so are the functions of path/filepath and the validator.
use api_poll.Prelude.{
  ℕ, ◌≡◌, refl, ap, ◌==◌, Bool, false, List, [], ◌∷◌, Option, none, some, Bytes, utf8, bytes_eq,
  if◌then◌else◌,
}
use api_poll.Settings.{EnvMappings, create_env_mappings}
use api_poll.Settings.Structs.{config_fields}

-- A default is a text, a truth value or a ratio.
pub data Default : Type 0 where
  of_text : Bytes → Default
  of_bool : Bool → Default
  of_ratio : ℕ → ℕ → Default

-- `viper.Viper`, as a state that its methods change. `read_in_config` only logs that it fails, and
-- `bind_env` too.
pub record Viper (V C : Type 0) : Type 0 where
  pub set_config_name : Bytes → V → V
  pub set_config_type : Bytes → V → V
  pub add_config_path : Bytes → V → V
  pub set_default : Bytes × Default → V → V
  pub read_in_config : V → V
  pub set_env_prefix : Bytes → V → V
  pub replace_in_env_keys : Bytes → Bytes → V → V
  pub automatic_env : V → V
  pub bind_env : Bytes × Bytes → V → V
  pub unmarshal : V → Option C

pub record FilePath : Type 0 where
  pub abs : Bytes → Option Bytes
  pub ext : Bytes → Bytes
  pub base : Bytes → Bytes
  pub dir : Bytes → Bytes

-- `strings.TrimSuffix`.
unfoldable pub trim_suffix : Bytes → Bytes → Bytes
unfolding bytes_eq
trim_suffix suffix [] = []
trim_suffix suffix (c ∷ s) =
    let rest = c ∷ trim_suffix suffix s in if bytes_eq (c ∷ s) suffix then [] else rest

abbrev pub defaults : List (Bytes × Default)
defaults =
    (utf8 "logger.level", of_text (utf8 "info"))
    ∷ (utf8 "logger.format", of_text (utf8 "json"))
    ∷ (utf8 "logger.add_source", of_bool false)
    ∷ (utf8 "grpc.address", of_text (utf8 "localhost:49999"))
    ∷ (utf8 "grpc.dial_timeout", of_text (utf8 "5s"))
    ∷ (utf8 "grpc.call_timeout", of_text (utf8 "10s"))
    ∷ (utf8 "app.metrics_check_period", of_text (utf8 "5m"))
    ∷ (utf8 "app.single_proxy_max_rps", of_ratio 2 10)
    ∷ []

-- One call after another.
abbrev pub each : {A V : Type 0} → (A → V → V) → List A → V → V
each f [] v = v
each f (a ∷ as') v = each f as' (f a v)

abbrev pub checked : {C : Type 0} → (C → Bool) → Option C → Option C
checked validate none = none
checked validate (some c) = if validate c then some c else none

module _ {V C : Type 0} (viper : Viper V C) (path : FilePath) where
  -- `setConfigName`: the state and the directory.
  unfoldable pub set_config_name : Bytes → V → V × Bytes
  unfolding bytes_eq trim_suffix
  set_config_name config_path v = elim (path.abs config_path) [
    | none ↦ (viper.set_config_name (utf8 "config") v, config_path)
    | some full ↦
        if bytes_eq (path.ext full) []
        then (viper.set_config_name (utf8 "config") v, config_path)
        else (viper.set_config_name (trim_suffix (path.ext full) (path.base full)) v, path.dir full)
  ]

  unfoldable pub set_defaults : V → V
  set_defaults v = each viper.set_default defaults v

  -- `bindEnvVars`, with the order of the range over the map; `none` ends the program.
  unfoldable pub bind_env_vars : (EnvMappings → EnvMappings) → V → Option V
  unfolding create_env_mappings
  bind_env_vars order v = elim (create_env_mappings config_fields [] []) [
    | none ↦ none
    | some mappings ↦ some (each viper.bind_env (order mappings) v)
  ]

  unfoldable pub configured : Bytes → V → V
  unfolding set_config_name set_defaults
  configured config_path new =
      let (v, config_dir) = set_config_name config_path new in
      let read =
        viper.read_in_config (
          set_defaults
            (viper.add_config_path config_dir (viper.set_config_type (utf8 "yaml") v))) in
      viper.automatic_env (
        viper.replace_in_env_keys (utf8 ".") (utf8 "_")
          (viper.set_env_prefix (utf8 "UPBITAP") read))

  -- `MustParseConfig`; `none` is an end of the program.
  unfoldable pub must_parse_config : (C → Bool) → (EnvMappings → EnvMappings) → Bytes → V → Option C
  unfolding configured bind_env_vars
  must_parse_config validate order config_path new =
      elim (bind_env_vars order (configured config_path new)) [
        | none ↦ none
        | some v ↦ checked validate (viper.unmarshal v)
      ]

  -- The program ends only where the values can not be decoded or are not valid: the bindings of the
  -- environment are made without an error.
  pub must_parse_config-checked :
      (validate : C → Bool) (order : EnvMappings → EnvMappings) (config_path : Bytes) (new : V)
      → (mappings : EnvMappings) × (create_env_mappings config_fields [] [] ≡ some mappings)
        × (must_parse_config validate order config_path new
            ≡ checked validate (
                viper.unmarshal
                  (each viper.bind_env (order mappings) (configured config_path new))))
  unfolding must_parse_config
  must_parse_config-checked validate order config_path new = (_, refl, refl)

-- The values of a configuration that `String` does not print, and the others.
pub record Config (Proxy Others : Type 0) : Type 0 where
  pub authorization_token : Bytes
  pub proxies : List Proxy
  pub others : Others

unfoldable pub redacted : {P R : Type 0} → Config P R → Config P R
redacted c = record c { authorization_token = utf8 "[REDACTED]"; proxies = [] }

unfoldable pub single_quoted : Bytes → Bytes
single_quoted [] = []
single_quoted (c ∷ s) = (if c == b'"' then b'\'' else c) ∷ single_quoted s

-- `String`, over `json.Marshal`.
unfoldable pub config_string : {P R : Type 0} → (Config P R → Bytes) → Config P R → Bytes
unfolding redacted single_quoted
config_string marshal c = single_quoted (marshal (redacted c))

-- The token and the proxies have no part in the text.
pub config_string-redacts :
    {P R : Type 0} (marshal : Config P R → Bytes) (c d : Config P R)
    → c.others ≡ d.others
    → config_string marshal c ≡ config_string marshal d
unfolding config_string
config_string-redacts marshal c d e =
    ap
      (λ others. single_quoted (
        marshal
          (record { authorization_token = utf8 "[REDACTED]"; proxies = []; others = others })))
      e
