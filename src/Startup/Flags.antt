-- ===== src/Startup/Flags.antt =====
-- The flags of main (main.go): their defaults from the environment, and the options made of them.
-- `Flags` has the flags that the options are made of, and those that main reads itself.
use redis_exporter.Base.{Bool, true, false, Bytes, codes, ℤ, pos, Assoc, []}
use redis_exporter.Options.{Options, BuildInfo}
use redis_exporter.Startup.Settings.{get_env, get_env_bool, get_env_int64}

pub record Flags : Type 0 where
  pub redis_addr : Bytes
  pub redis_user : Bytes
  pub redis_pwd : Bytes
  pub redis_pwd_file : Bytes
  pub namespace : Bytes
  pub check_keys : Bytes
  pub check_single_keys : Bytes
  pub check_key_groups : Bytes
  pub check_streams : Bytes
  pub check_single_streams : Bytes
  pub streams_exclude_consumer_metrics : Bool
  pub count_keys : Bytes
  pub check_keys_batch_size : ℤ
  pub script_path : Bytes
  pub listen_address : Bytes
  pub metric_path : Bytes
  pub config_command : Bytes
  pub connection_timeout : Bytes
  pub tls_client_key_file : Bytes
  pub tls_client_cert_file : Bytes
  pub tls_ca_cert_file : Bytes
  pub tls_server_key_file : Bytes
  pub tls_server_cert_file : Bytes
  pub tls_server_ca_cert_file : Bytes
  pub tls_server_min_version : Bytes
  pub max_distinct_key_groups : ℤ
  pub is_debug : Bool
  pub log_level : Bytes
  pub log_format : Bytes
  pub set_client_name : Bool
  pub is_tile38 : Bool
  pub is_cluster : Bool
  pub export_client_list : Bool
  pub export_client_port : Bool
  pub show_version : Bool
  pub redis_metrics_only : Bool
  pub incl_go_runtime_metrics : Bool
  pub ping_on_connect : Bool
  pub incl_config_metrics : Bool
  pub incl_modules_metrics : Bool
  pub incl_search_indexes_metrics : Bool
  pub check_search_indexes : Bytes
  pub disable_exporting_key_values : Bool
  pub exclude_latency_histogram_metrics : Bool
  pub redact_config_metrics : Bool
  pub incl_system_metrics : Bool
  pub skip_tls_verification : Bool
  pub skip_check_keys_for_role_master : Bool
  pub basic_auth_username : Bytes
  pub basic_auth_password : Bytes
  pub basic_auth_hash_password : Bytes
  pub incl_metrics_for_empty_databases : Bool

-- The value that a flag has where the command line does not set it.
unfoldable pub default_flags : Assoc Bytes → Flags
unfolding get_env get_env_bool get_env_int64
default_flags env = record {
  redis_addr = get_env env (codes "REDIS_ADDR") (codes "redis://localhost:6379");
  redis_user = get_env env (codes "REDIS_USER") [];
  redis_pwd = get_env env (codes "REDIS_PASSWORD") [];
  redis_pwd_file = get_env env (codes "REDIS_PASSWORD_FILE") [];
  namespace = get_env env (codes "REDIS_EXPORTER_NAMESPACE") (codes "redis");
  check_keys = get_env env (codes "REDIS_EXPORTER_CHECK_KEYS") [];
  check_single_keys = get_env env (codes "REDIS_EXPORTER_CHECK_SINGLE_KEYS") [];
  check_key_groups = get_env env (codes "REDIS_EXPORTER_CHECK_KEY_GROUPS") [];
  check_streams = get_env env (codes "REDIS_EXPORTER_CHECK_STREAMS") [];
  check_single_streams = get_env env (codes "REDIS_EXPORTER_CHECK_SINGLE_STREAMS") [];
  streams_exclude_consumer_metrics =
      get_env_bool env (codes "REDIS_EXPORTER_STREAMS_EXCLUDE_CONSUMER_METRICS") false;
  count_keys = get_env env (codes "REDIS_EXPORTER_COUNT_KEYS") [];
  check_keys_batch_size =
      get_env_int64 env (codes "REDIS_EXPORTER_CHECK_KEYS_BATCH_SIZE") (pos 1000);
  script_path = get_env env (codes "REDIS_EXPORTER_SCRIPT") [];
  listen_address = get_env env (codes "REDIS_EXPORTER_WEB_LISTEN_ADDRESS") (codes ":9121");
  metric_path = get_env env (codes "REDIS_EXPORTER_WEB_TELEMETRY_PATH") (codes "/metrics");
  config_command = get_env env (codes "REDIS_EXPORTER_CONFIG_COMMAND") (codes "CONFIG");
  connection_timeout = get_env env (codes "REDIS_EXPORTER_CONNECTION_TIMEOUT") (codes "15s");
  tls_client_key_file = get_env env (codes "REDIS_EXPORTER_TLS_CLIENT_KEY_FILE") [];
  tls_client_cert_file = get_env env (codes "REDIS_EXPORTER_TLS_CLIENT_CERT_FILE") [];
  tls_ca_cert_file = get_env env (codes "REDIS_EXPORTER_TLS_CA_CERT_FILE") [];
  tls_server_key_file = get_env env (codes "REDIS_EXPORTER_TLS_SERVER_KEY_FILE") [];
  tls_server_cert_file = get_env env (codes "REDIS_EXPORTER_TLS_SERVER_CERT_FILE") [];
  tls_server_ca_cert_file = get_env env (codes "REDIS_EXPORTER_TLS_SERVER_CA_CERT_FILE") [];
  tls_server_min_version =
      get_env env (codes "REDIS_EXPORTER_TLS_SERVER_MIN_VERSION") (codes "TLS1.2");
  max_distinct_key_groups =
      get_env_int64 env (codes "REDIS_EXPORTER_MAX_DISTINCT_KEY_GROUPS") (pos 100);
  is_debug = get_env_bool env (codes "REDIS_EXPORTER_DEBUG") false;
  log_level = get_env env (codes "REDIS_EXPORTER_LOG_LEVEL") (codes "INFO");
  log_format = get_env env (codes "REDIS_EXPORTER_LOG_FORMAT") (codes "txt");
  set_client_name = get_env_bool env (codes "REDIS_EXPORTER_SET_CLIENT_NAME") true;
  is_tile38 = get_env_bool env (codes "REDIS_EXPORTER_IS_TILE38") false;
  is_cluster = get_env_bool env (codes "REDIS_EXPORTER_IS_CLUSTER") false;
  export_client_list = get_env_bool env (codes "REDIS_EXPORTER_EXPORT_CLIENT_LIST") false;
  export_client_port = get_env_bool env (codes "REDIS_EXPORTER_EXPORT_CLIENT_PORT") false;
  show_version = false;
  redis_metrics_only = get_env_bool env (codes "REDIS_EXPORTER_REDIS_ONLY_METRICS") false;
  incl_go_runtime_metrics =
      get_env_bool env (codes "REDIS_EXPORTER_INCLUDE_GO_RUNTIME_METRICS") false;
  ping_on_connect = get_env_bool env (codes "REDIS_EXPORTER_PING_ON_CONNECT") false;
  incl_config_metrics = get_env_bool env (codes "REDIS_EXPORTER_INCL_CONFIG_METRICS") false;
  incl_modules_metrics = get_env_bool env (codes "REDIS_EXPORTER_INCL_MODULES_METRICS") false;
  incl_search_indexes_metrics =
      get_env_bool env (codes "REDIS_EXPORTER_INCL_SEARCH_INDEXES_METRICS") false;
  check_search_indexes = get_env env (codes "REDIS_EXPORTER_CHECK_SEARCH_INDEXES") (codes ".*");
  disable_exporting_key_values =
      get_env_bool env (codes "REDIS_EXPORTER_DISABLE_EXPORTING_KEY_VALUES") false;
  exclude_latency_histogram_metrics =
      get_env_bool env (codes "REDIS_EXPORTER_EXCLUDE_LATENCY_HISTOGRAM_METRICS") false;
  redact_config_metrics = get_env_bool env (codes "REDIS_EXPORTER_REDACT_CONFIG_METRICS") true;
  incl_system_metrics = get_env_bool env (codes "REDIS_EXPORTER_INCL_SYSTEM_METRICS") false;
  skip_tls_verification = get_env_bool env (codes "REDIS_EXPORTER_SKIP_TLS_VERIFICATION") false;
  skip_check_keys_for_role_master =
      get_env_bool env (codes "REDIS_EXPORTER_SKIP_CHECKKEYS_FOR_ROLE_MASTER") false;
  basic_auth_username = get_env env (codes "REDIS_EXPORTER_BASIC_AUTH_USERNAME") [];
  basic_auth_password = get_env env (codes "REDIS_EXPORTER_BASIC_AUTH_PASSWORD") [];
  basic_auth_hash_password = get_env env (codes "REDIS_EXPORTER_BASIC_AUTH_HASH_PASSWORD") [];
  incl_metrics_for_empty_databases =
      get_env_bool env (codes "REDIS_EXPORTER_INCL_METRICS_FOR_EMPTY_DATABASES") true;
}

-- The options, with the password map, the scripts, the timeout and the build that main puts in.
unfoldable pub options_of_flags : Flags → Assoc Bytes → Assoc Bytes → ℤ → BuildInfo → Options
options_of_flags flags password_map scripts timeout build = record {
  user = flags.redis_user;
  password = flags.redis_pwd;
  namespace = flags.namespace;
  password_map = password_map;
  config_command_name = flags.config_command;
  check_keys = flags.check_keys;
  check_single_keys = flags.check_single_keys;
  check_streams = flags.check_streams;
  check_single_streams = flags.check_single_streams;
  streams_exclude_consumer_metrics = flags.streams_exclude_consumer_metrics;
  check_keys_batch_size = flags.check_keys_batch_size;
  check_key_groups = flags.check_key_groups;
  max_distinct_key_groups = flags.max_distinct_key_groups;
  count_keys = flags.count_keys;
  lua_script = scripts;
  client_cert_file = flags.tls_client_cert_file;
  client_key_file = flags.tls_client_key_file;
  ca_cert_file = flags.tls_ca_cert_file;
  incl_config_metrics = flags.incl_config_metrics;
  incl_modules_metrics = flags.incl_modules_metrics;
  incl_search_indexes_metrics = flags.incl_search_indexes_metrics;
  check_search_indexes = flags.check_search_indexes;
  disable_exporting_key_values = flags.disable_exporting_key_values;
  exclude_latency_histogram_metrics = flags.exclude_latency_histogram_metrics;
  redact_config_metrics = flags.redact_config_metrics;
  incl_system_metrics = flags.incl_system_metrics;
  skip_tls_verification = flags.skip_tls_verification;
  set_client_name = flags.set_client_name;
  is_tile38 = flags.is_tile38;
  is_cluster = flags.is_cluster;
  export_client_list = flags.export_client_list;
  export_clients_incl_port = flags.export_client_port;
  connection_timeouts = timeout;
  metrics_path = flags.metric_path;
  redis_metrics_only = flags.redis_metrics_only;
  ping_on_connect = flags.ping_on_connect;
  redis_pwd_file = flags.redis_pwd_file;
  registry = true;
  build_info = build;
  basic_auth_username = flags.basic_auth_username;
  basic_auth_password = flags.basic_auth_password;
  basic_auth_hash_password = flags.basic_auth_hash_password;
  skip_check_keys_for_role_master = flags.skip_check_keys_for_role_master;
  incl_metrics_for_empty_databases = flags.incl_metrics_for_empty_databases;
}
