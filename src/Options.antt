-- ===== src/Options.antt =====
-- The configuration of exporter/exporter.go: BuildInfo, Options, and the part of Exporter that a
-- scrape reads. The Prometheus collectors, the mutex and the mux are not part of it.
use redis_exporter.Base.{ℤ, Bool, Bytes, Assoc}
use redis_exporter.Metrics.{MetricMaps}

pub record BuildInfo : Type 0 where
  pub version : Bytes
  pub commit_sha : Bytes
  pub date : Bytes

-- `registry` is whether the pointer is not nil; `connection_timeouts` is in nanoseconds.
pub record Options : Type 0 where
  pub user : Bytes
  pub password : Bytes
  pub namespace : Bytes
  pub password_map : Assoc Bytes
  pub config_command_name : Bytes
  pub check_keys : Bytes
  pub check_single_keys : Bytes
  pub check_streams : Bytes
  pub check_single_streams : Bytes
  pub streams_exclude_consumer_metrics : Bool
  pub check_keys_batch_size : ℤ
  pub check_key_groups : Bytes
  pub max_distinct_key_groups : ℤ
  pub count_keys : Bytes
  pub lua_script : Assoc Bytes
  pub client_cert_file : Bytes
  pub client_key_file : Bytes
  pub ca_cert_file : Bytes
  pub incl_config_metrics : Bool
  pub incl_modules_metrics : Bool
  pub incl_search_indexes_metrics : Bool
  pub check_search_indexes : Bytes
  pub disable_exporting_key_values : Bool
  pub exclude_latency_histogram_metrics : Bool
  pub redact_config_metrics : Bool
  pub incl_system_metrics : Bool
  pub skip_tls_verification : Bool
  pub set_client_name : Bool
  pub is_tile38 : Bool
  pub is_cluster : Bool
  pub export_client_list : Bool
  pub export_clients_incl_port : Bool
  pub connection_timeouts : ℤ
  pub metrics_path : Bytes
  pub redis_metrics_only : Bool
  pub ping_on_connect : Bool
  pub redis_pwd_file : Bytes
  pub registry : Bool
  pub build_info : BuildInfo
  pub basic_auth_username : Bytes
  pub basic_auth_password : Bytes
  pub basic_auth_hash_password : Bytes
  pub skip_check_keys_for_role_master : Bool
  pub incl_metrics_for_empty_databases : Bool

pub record Exporter : Type 0 where
  pub redis_addr : Bytes
  pub options : Options
  pub maps : MetricMaps
