-- ===== src/Clients/Register.antt =====
-- parseConnectedClientMetrics and extractConnectedClientMetrics.
use redis_exporter.Base.{
  Bool, List, [], ◌∷◌, ◌++◌, Bytes, codes, if◌then◌else◌, bytes_eq, ℤ, pos, negsuc, eq_ℤ,
}
use redis_exporter.Deps.{Deps}
use redis_exporter.Text.Split.{split}
use redis_exporter.Run.{◌>>=◌, ◌>>◌, pure, case_option, for_each}
use redis_exporter.Metrics.{Collect, create_metric_description, register_const_metric_gauge}
use redis_exporter.Redis.{Redis, Act, collect, talk}
use redis_exporter.Options.{Exporter}
use redis_exporter.Keys.Single.{if_some}
use redis_exporter.Clients.Parse.{ClientInfo, parse_client_list_string}

-- The labels of connected_client_info with their values.
abbrev pub if_set : Bytes → Bytes → List (Bytes × Bytes)
if_set label value = if bytes_eq value [] then [] else (label, value) ∷ []

abbrev pub client_labels : Bool → ClientInfo → List (Bytes × Bytes)
client_labels incl_port info =
    (if incl_port then (codes "port", info.port) ∷ [] else [])
    ++ if_set (codes "user") info.user
    ++ if_set (codes "resp") info.resp

abbrev pub firsts : List (Bytes × Bytes) → List Bytes
firsts [] = []
firsts ((a, b) ∷ ps) = a ∷ firsts ps

abbrev pub seconds : List (Bytes × Bytes) → List Bytes
seconds [] = []
seconds ((a, b) ∷ ps) = b ∷ seconds ps

abbrev pub base_labels : List Bytes
base_labels = codes "id" ∷ codes "name" ∷ []

abbrev pub base_metrics : List Bytes
base_metrics =
    codes "connected_client_output_buffer_memory_usage_bytes"
    ∷ codes "connected_client_total_memory_consumed_bytes"
    ∷ codes "connected_client_created_at_timestamp"
    ∷ codes "connected_client_idle_since_timestamp"
    ∷ codes "connected_client_channel_subscriptions_count"
    ∷ codes "connected_client_pattern_matching_subscriptions_count"
    ∷ codes "connected_client_query_buffer_length_bytes"
    ∷ codes "connected_client_query_buffer_free_space_bytes"
    ∷ codes "connected_client_output_buffer_length_bytes"
    ∷ codes "connected_client_output_list_length"
    ∷ []

module _ (deps : Deps) (now : ℤ) (e : Exporter) where
  open deps use {Float, of_ℤ}

  abbrev create : Bytes → List Bytes → Collect Float (Unit {0})
  create name labels = create_metric_description deps name labels >> pure tt

  -- A description with the labels id and name.
  abbrev pub create_base : Bytes → Collect Float (Unit {0})
  create_base metric = create metric base_labels

  abbrev pub base_gauge : ClientInfo → Bytes → ℤ → Collect Float (Unit {0})
  base_gauge info metric n =
      register_const_metric_gauge deps metric (of_ℤ n) (info.id ∷ info.name ∷ [])

  -- A metric that older versions of Redis do not have; -1 stands for a missing value.
  unfoldable pub send_newer : ClientInfo → Bytes → ℤ → Collect Float (Unit {0})
  send_newer info metric n =
      if eq_ℤ n (negsuc 0)
      then pure tt
      else create_metric_description deps metric base_labels >> base_gauge info metric n

  abbrev pub info_labels : ClientInfo → List Bytes
  info_labels info =
      codes "id"
      ∷ codes "name"
      ∷ codes "flags"
      ∷ codes "db"
      ∷ codes "host"
      ∷ firsts (client_labels e.options.export_clients_incl_port info)

  unfoldable pub send_info : ClientInfo → Collect Float (Unit {0})
  send_info info =
      create_metric_description deps (codes "connected_client_info") (info_labels info)
      >> register_const_metric_gauge deps (codes "connected_client_info") (of_ℤ (pos 1)) (
          info.id
          ∷ info.name
          ∷ info.flags
          ∷ info.db
          ∷ info.host
          ∷ seconds (client_labels e.options.export_clients_incl_port info))

  unfoldable pub send_base : ClientInfo → Collect Float (Unit {0})
  send_base info = do
    base_gauge info (codes "connected_client_output_buffer_memory_usage_bytes") info.o_mem
    base_gauge info (codes "connected_client_total_memory_consumed_bytes") info.tot_mem
    base_gauge info (codes "connected_client_created_at_timestamp") info.created_at
    base_gauge info (codes "connected_client_idle_since_timestamp") info.idle_since
    base_gauge info (codes "connected_client_channel_subscriptions_count") info.sub
    base_gauge info (codes "connected_client_pattern_matching_subscriptions_count") info.psub
    base_gauge info (codes "connected_client_query_buffer_length_bytes") info.qbuf
    base_gauge info (codes "connected_client_query_buffer_free_space_bytes") info.qbuf_free
    base_gauge info (codes "connected_client_output_buffer_length_bytes") info.obl
    base_gauge info (codes "connected_client_output_list_length") info.oll

  unfoldable pub send_client : ClientInfo → Collect Float (Unit {0})
  unfolding send_info send_base send_newer
  send_client info = do
    send_info info
    for_each base_metrics create_base
    send_base info
    send_newer info (codes "connected_client_shard_channel_subscriptions_count") info.ssub
    send_newer info (codes "connected_client_shard_channel_watched_keys") info.watch

  -- Lines that cannot be parsed are left out.
  unfoldable pub send_line : Bytes → Collect Float (Unit {0})
  unfolding send_client parse_client_list_string
  send_line line = case_option (parse_client_list_string now line) (pure tt) send_client

  unfoldable pub parse_connected_client_metrics : Bytes → Collect Float (Unit {0})
  unfolding send_line
  parse_connected_client_metrics input = for_each (split b'\n' input) send_line

module _ (deps : Deps) (r : Redis) (now : ℤ) (e : Exporter) where
  open deps use {Float}
  open r use {Conn, string}

  unfoldable pub extract_connected_client_metrics : Act Float Conn (Unit {0})
  unfolding parse_connected_client_metrics
  extract_connected_client_metrics = do
    reply ←
        talk (λ c.
          let x = r.do_cmd (codes "CLIENT" ∷ codes "LIST" ∷ []) c in (if_some x.0 string, x.1))
    case_option reply (pure tt) (λ text. collect (parse_connected_client_metrics deps now e text))
