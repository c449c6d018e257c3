-- ===== src/Settings/Structs.antt =====
-- The struct types of internal/config and of the values in them, as reflection sees them.
use api_poll.Prelude.{[], utf8}
use api_poll.Settings.{Fields, no_fields, plain, struct}

abbrev pub telegram_fields : Fields
telegram_fields = plain (utf8 "bot_id") (utf8 "TELEGRAM_BOT_ID") (
    plain (utf8 "authorization_token") (utf8 "TELEGRAM_AUTHORIZATION_TOKEN")
      (plain (utf8 "group_id") (utf8 "TELEGRAM_GROUP_ID") no_fields))

abbrev pub upbit_api_fields : Fields
upbit_api_fields = plain (utf8 "announcements_endpoint") (utf8 "UPBIT_API_ANNOUNCEMENTS_ENDPOINT") (
    plain (utf8 "announcements_single_ip_max_rps")
      (utf8 "UPBIT_API_ANNOUNCEMENTS_SINGLE_IP_MAX_RPS")
      (plain (utf8 "announcement_by_id_endpoint") (utf8 "UPBIT_API_ANNOUNCEMENT_BY_ID_ENDPOINT") (
        plain (utf8 "announcement_by_id_single_ip_max_rps")
          (utf8 "UPBIT_API_ANNOUNCEMENT_BY_ID_SINGLE_IP_MAX_RPS")
          (plain (utf8 "notice_by_id_endpoint") (utf8 "UPBIT_API_NOTICE_BY_ID_ENDPOINT") (
            plain (utf8 "notice_by_id_single_ip_max_rps")
              (utf8 "UPBIT_API_NOTICE_BY_ID_SINGLE_IP_MAX_RPS") no_fields)))))

abbrev pub logger_fields : Fields
logger_fields = plain (utf8 "level") (utf8 "LOGGER_LEVEL") (
    plain (utf8 "format") (utf8 "LOGGER_FORMAT")
      (plain (utf8 "add_source") (utf8 "LOGGER_ADD_SOURCE") no_fields))

abbrev pub websocket_sucker_fields : Fields
websocket_sucker_fields =
    plain (utf8 "url") (utf8 "WEBSOCKET_SUCKER_URL")
      (plain (utf8 "api_key") (utf8 "WEBSOCKET_SUCKER_API_KEY") no_fields)

abbrev pub grpc_fields : Fields
grpc_fields = plain (utf8 "address") (utf8 "GRPC_ADDRESS") (
    plain (utf8 "dial_timeout") (utf8 "GRPC_DIAL_TIMEOUT")
      (plain (utf8 "call_timeout") (utf8 "GRPC_CALL_TIMEOUT") no_fields))

abbrev pub work_schedule_fields : Fields
work_schedule_fields = plain (utf8 "time_zone") [] (plain (utf8 "schedule") [] no_fields)

abbrev pub retries_fields : Fields
retries_fields =
    plain (utf8 "max_retries") []
      (plain (utf8 "retry_delay") [] (plain (utf8 "retry_delay_multiplier") [] no_fields))

abbrev pub proxy_rotating_poller_fields : Fields
proxy_rotating_poller_fields = plain (utf8 "target_rps") (utf8 "PROXY_ROTATING_POLLER_TARGET_RPS") (
    plain (utf8 "proxies") (utf8 "PROXY_ROTATING_POLLER_PROXIES") (
      struct (utf8 "work_schedule") (utf8 "PROXY_ROTATING_POLLER_WORK_SCHEDULE")
        work_schedule_fields
        (struct (utf8 "retries") (utf8 "PROXY_ROTATING_POLLER_RETRIES") retries_fields no_fields)))

abbrev pub config_fields : Fields
config_fields = struct (utf8 "upbit_api") [] upbit_api_fields (
    struct (utf8 "websocket_sucker") [] websocket_sucker_fields (
      struct (utf8 "proxy_rotating_poller") [] proxy_rotating_poller_fields (
        struct (utf8 "telegram") [] telegram_fields (
          struct (utf8 "logger") [] logger_fields
            (struct (utf8 "grpc") [] grpc_fields no_fields)))))
