-- ===== src/Settings/Tests.antt =====
-- The bindings of the configuration.
use api_poll.Prelude.{
  ◌≡◌, refl, Bool, List, Bytes, bytes_eq, [], ◌∷◌, some, none, true, false, utf8, if◌then◌else◌,
}
use api_poll.Settings.Parsing.{Default, defaults, trim_suffix}
use api_poll.Settings.{create_env_mappings, warn, parse_slog_log_level}
use api_poll.Settings.Structs.{config_fields, proxy_rotating_poller_fields}
use api_poll.Settings.Mappings.{all_named, leaves, bind_all, create_env_mappings-bind_all}

-- Neither the work schedule nor the retries get a variable.
poller_mappings :
    create_env_mappings proxy_rotating_poller_fields [] (utf8 "p")
    ≡ some (
        (utf8 "p.proxies", utf8 "PROXY_ROTATING_POLLER_PROXIES")
        ∷ (utf8 "p.target_rps", utf8 "PROXY_ROTATING_POLLER_TARGET_RPS")
        ∷ [])
unfolding create_env_mappings
poller_mappings = refl

warning : parse_slog_log_level (λ s. s) (utf8 "warning") ≡ (warn, true)
unfolding parse_slog_log_level
warning = refl

create_env_mappings-bind_all_example :
    create_env_mappings config_fields [] []
    ≡ (if all_named config_fields then some (bind_all (leaves [] config_fields) []) else none)
create_env_mappings-bind_all_example = create_env_mappings-bind_all config_fields [] []

-- Two defaults are for fields that the configuration does not have.
abbrev has_path : Bytes → List (Bytes × Bytes) → Bool
has_path p [] = false
has_path p ((q, env) ∷ ls) = if bytes_eq p q then true else has_path p ls

abbrev unread : List (Bytes × Default) → List Bytes
unread [] = []
unread ((p, d) ∷ ds) = if has_path p (leaves [] config_fields) then unread ds else p ∷ unread ds

not_read : unread defaults ≡ utf8 "app.metrics_check_period" ∷ utf8 "app.single_proxy_max_rps" ∷ []
unfolding leaves bytes_eq
not_read = refl

without_extension : trim_suffix (utf8 ".yaml") (utf8 "config.yaml") ≡ utf8 "config"
unfolding trim_suffix
without_extension = refl
