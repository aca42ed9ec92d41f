-- ===== src/Scrape/Host.antt =====
-- scrapeRedisHost and getKeyOperationConnection.
use redis_exporter.Base.{
  ℕ, Bool, not, ◌||◌, Option, none, some, List, [], ◌∷◌, Bytes, codes, bytes_eq, contains,
  if◌then◌else◌, ℤ, pos, eq_ℤ, Assoc,
}
use redis_exporter.Deps.{Deps}
use redis_exporter.Run.{◌>>=◌, ◌>>◌, pure, panic, case_option}
use redis_exporter.Metrics.{Collect, register_const_metric_gauge}
use redis_exporter.Redis.{Redis, Act, collect, talk}
use redis_exporter.Options.{Exporter}
use redis_exporter.Keys.Single.{Step, gauge, if_some, string_cmd}
use redis_exporter.Keys.Check.{extract_check_key_metrics, extract_count_keys_metrics}
use redis_exporter.KeyGroups.Collect.{extract_key_group_metrics}
use redis_exporter.Config.{extract_config_metrics}
use redis_exporter.Info.Extract.{extract_info_metrics, extract_cluster_info_metrics}
use redis_exporter.Clients.Register.{extract_connected_client_metrics}
use redis_exporter.SentinelClient.{extract_sentinel_metrics, extract_sentinel_config}
use redis_exporter.Streams.Collect.{extract_stream_metrics}
use redis_exporter.Latency.Collect.{extract_latency_metrics}
use redis_exporter.SearchIndexes.Collect.{extract_search_indexes_metrics}
use redis_exporter.Collectors.Slowlog.{extract_slow_log_metrics}
use redis_exporter.Collectors.Tile38.{extract_tile38_metrics}
use redis_exporter.Collectors.Modules.{extract_modules_metrics}
use redis_exporter.Collectors.Lua.{extract_lua_script_metrics}
use redis_exporter.Tls.{create_client_tls_config}
use redis_exporter.Connect.Dial.{connect_to_redis, connect_to_redis_cluster}
use redis_exporter.Scrape.Outside.{
  Outside, ScrapeError, connect_failed, config_failed, info_failed, script_failed,
}

-- A method run with another connection; the one before it is taken up again behind it.
unfoldable pub on_connection : {F C A : Type 0} → C → Act F C A → Act F C A
on_connection conn m s = elim (m (record s { conn = conn })) [
  | none ↦ none
  | some (a, s') ↦ some (a, record s' { conn = s.conn })
]

-- A method run with a connection of its own.
unfoldable pub connected : {F C A : Type 0} → C → Act F C A → Collect F A
connected conn m c = elim (m (record { channel = c; conn = conn })) [
  | none ↦ none
  | some (a, s) ↦ some (a, s.channel)
]

-- The number of databases, from that of the configuration and the text of INFO: one in a cluster
-- that answers CLUSTER INFO, and the default of Redis where the configuration gives none.
unfoldable pub default_count : ℤ → ℤ
default_count n = if eq_ℤ n (pos 0) then pos 16 else n

module _ (deps : Deps) (o : Outside deps) (e : Exporter) (fuel : ℕ) where
  open deps use {Float, of_ℤ}

  abbrev pub r : Redis
  r = o.redis

  abbrev pub Host : Type 0 → Type 0
  Host A = Step deps r e A

  abbrev pub when : Bool → Host (Unit {0}) → Host (Unit {0})
  when b m = if b then m else pure tt

  unfoldable pub ping : Host (Unit {0})
  ping = do
    reply ← talk (r.do_cmd (codes "PING" ∷ []))
    case_option reply (pure tt)
        (λ _. gauge deps r e (codes "exporter_last_scrape_ping_time_seconds") o.ping_took [])

  unfoldable pub set_client_name : Host (Unit {0})
  set_client_name =
      talk (r.do_cmd (codes "CLIENT" ∷ codes "SETNAME" ∷ codes "redis_exporter" ∷ [])) >> pure tt

  abbrev config_get : List Bytes
  config_get = e.options.config_command_name ∷ codes "GET" ∷ codes "*" ∷ []

  abbrev pub config_reply : r.Conn → Option (List r.Reply)
  config_reply c = if_some (r.do_cmd config_get c).0 r.values

  -- The number of databases that the configuration gives, 0 for none; `none` is an error.
  unfoldable pub read_config : Host (Option ℤ)
  unfolding extract_config_metrics
  read_config =
      if bytes_eq e.options.config_command_name (codes "-") then pure (some (pos 0)) else (do
        reply ← talk (λ c. (config_reply c, (r.do_cmd config_get c).1))
        case_option reply (pure (some (pos 0)))
            (λ config. collect (extract_config_metrics deps r e config)))

  abbrev pub info_of : List Bytes → r.Conn → Option Bytes
  info_of args c = if_some (r.do_cmd args c).0 r.string

  abbrev pub info_cmd : List Bytes → Host (Option Bytes)
  info_cmd args = talk (λ c. (info_of args c, (r.do_cmd args c).1))

  abbrev pub info_all_args : List Bytes
  info_all_args = codes "INFO" ∷ codes "ALL" ∷ []

  abbrev pub info_args : List Bytes
  info_args = codes "INFO" ∷ []

  -- INFO, where INFO ALL fails or is empty.
  abbrev pub or_info : Option Bytes → Host (Option Bytes)
  or_info none = info_cmd info_args
  or_info (some []) = info_cmd info_args
  or_info (some (c ∷ text)) = pure (some (c ∷ text))

  unfoldable pub read_info : Host (Option Bytes)
  read_info = info_cmd info_all_args >>= or_info

  unfoldable pub count_databases : Bytes → ℤ → Host ℤ
  unfolding extract_cluster_info_metrics string_cmd default_count
  count_databases info_all db_count =
      if contains (codes "cluster_enabled:1") info_all
      then (do
        reply ← string_cmd deps r e (codes "CLUSTER" ∷ codes "INFO" ∷ [])
        case_option reply (pure db_count) (λ cluster_info. do
          collect (extract_cluster_info_metrics deps o.now e cluster_info)
          pure (pos 1)))
      else pure (default_count db_count)

  -- The outer `none` is a panic. `attempt` is 0 for the keys and 1 for the key groups.
  unfoldable pub get_key_operation_connection : ℕ → r.Conn → Option (Option r.Conn)
  unfolding create_client_tls_config connect_to_redis_cluster
  get_key_operation_connection attempt default_conn =
      if e.options.is_cluster
      then connect_to_redis_cluster o.urls o.dialer (create_client_tls_config e.options o.files) e
          attempt
      else some (some default_conn)

  -- The method with that connection; it is skipped where there is none.
  unfoldable pub with_key_connection : ℕ → Host (Unit {0}) → Host (Unit {0})
  unfolding get_key_operation_connection on_connection
  with_key_connection attempt m = do
    c ← talk (λ conn. (conn, conn))
    case_option (get_key_operation_connection attempt c) panic (λ dialed.
        case_option dialed (pure tt)
          (λ key_conn. if e.options.is_cluster then on_connection key_conn m else m))

  unfoldable pub extract_keys : Host (Unit {0})
  unfolding extract_check_key_metrics extract_count_keys_metrics extract_stream_metrics
  extract_keys = do
    extract_check_key_metrics deps r e fuel
    extract_count_keys_metrics deps r e fuel
    extract_stream_metrics deps r o.views o.stream_scans e fuel

  abbrev pub checks_keys : Bytes → Bool
  checks_keys role = bytes_eq role (codes "slave") || not e.options.skip_check_keys_for_role_master

  unfoldable pub run_scripts : Assoc Bytes → Host (Option ScrapeError)
  unfolding extract_lua_script_metrics
  run_scripts [] = pure none
  run_scripts ((filename, script) ∷ scripts) = do
    error ← extract_lua_script_metrics deps r e filename script
    case_option error (run_scripts scripts) (λ err. pure (some (script_failed err)))

  -- The collectors behind INFO that stand by themselves.
  unfoldable pub extract_others : Bytes → Host (Unit {0})
  unfolding extract_sentinel_metrics extract_sentinel_config extract_connected_client_metrics
      extract_tile38_metrics extract_modules_metrics extract_search_indexes_metrics
  extract_others info_all = do
    when (contains (codes "# Sentinel") info_all) (
        extract_sentinel_metrics deps r o.error_text e
        >> extract_sentinel_config deps r o.error_text e)
    when e.options.export_client_list (extract_connected_client_metrics deps r o.now e)
    when e.options.is_tile38 (extract_tile38_metrics deps r e)
    when e.options.incl_modules_metrics (extract_modules_metrics deps r e)
    when e.options.incl_search_indexes_metrics
        (extract_search_indexes_metrics deps r o.compile o.scan_index e)

  -- What follows the text of INFO and the number of databases.
  unfoldable pub scrape_info : Bytes → ℤ → Host (Option ScrapeError)
  unfolding extract_info_metrics extract_latency_metrics with_key_connection extract_keys
      extract_slow_log_metrics extract_key_group_metrics extract_others run_scripts
  scrape_info info_all db_count = do
    role ← collect (extract_info_metrics deps o.now e info_all db_count)
    when (not e.options.exclude_latency_histogram_metrics)
        (extract_latency_metrics deps r o.latency_scans e info_all)
    when (checks_keys role) (with_key_connection 0 extract_keys)
    extract_slow_log_metrics deps r o.views e
    with_key_connection 1
        (extract_key_group_metrics deps r o.read_csv e fuel o.groups_took db_count)
    extract_others info_all
    run_scripts e.options.lua_script

  -- The error of INFO ends the scrape.
  unfoldable pub scrape_text : ℤ → Option Bytes → Host (Option ScrapeError)
  unfolding count_databases scrape_info
  scrape_text db_count none = pure (some info_failed)
  scrape_text db_count (some info_all) = count_databases info_all db_count >>= scrape_info info_all

  -- So does an error in the configuration.
  unfoldable pub scrape_counted : Option ℤ → Host (Option ScrapeError)
  unfolding read_info scrape_text
  scrape_counted none = pure (some config_failed)
  scrape_counted (some db_count) = read_info >>= scrape_text db_count

  unfoldable pub scrape_connected : Host (Option ScrapeError)
  unfolding ping set_client_name read_config scrape_counted
  scrape_connected = do
    when e.options.ping_on_connect ping
    when e.options.set_client_name set_client_name
    read_config >>= scrape_counted

  -- The connection that a scrape begins with.
  unfoldable pub dial_host : Option r.Conn
  unfolding connect_to_redis create_client_tls_config
  dial_host = connect_to_redis o.urls o.dialer (create_client_tls_config e.options o.files) e

  unfoldable pub scrape_dialed : Option r.Conn → Collect Float (Option ScrapeError)
  unfolding connected scrape_connected
  scrape_dialed none = pure (some connect_failed)
  scrape_dialed (some c) = connected c scrape_connected

  unfoldable pub scrape_redis_host : Collect Float (Option ScrapeError)
  unfolding dial_host scrape_dialed
  scrape_redis_host =
      register_const_metric_gauge deps (codes "exporter_last_scrape_connect_time_seconds")
        o.connect_took []
      >> scrape_dialed dial_host
