-- ===== src/Info/Extract.antt =====
-- extractInfoMetrics, generateCommandLatencySummaries and extractClusterInfoMetrics.
use redis_exporter.Base.{
  ℕ, zero, suc, Bool, true, not, ◌||◌, none, some, List, [], ◌∷◌, ◌++◌, Bytes, codes, bytes_eq,
  has_prefix, contains, drop, length, ltb, if◌then◌else◌, ℤ, pos, pos_part, Assoc, lookup, insert,
  has_key, string_at,
}
use redis_exporter.Deps.{Deps}
use redis_exporter.Text.Split.{split, split_crlf, cut}
use redis_exporter.Text.Number.{itoa}
use redis_exporter.Text.Trim.{trim_space}
use redis_exporter.Metrics.{
  Collect, include_metric, parse_and_register_const_metric, register_const_metric_gauge,
  register_const_summary, create_metric_description,
}
use redis_exporter.Run.{◌>>=◌, ◌>>◌, pure, case_option, for_each}
use redis_exporter.Options.{Exporter}
use redis_exporter.Sentinels.{handle_metrics_sentinel}
use redis_exporter.Info.Fields.{is_master_host, is_master_port}
use redis_exporter.Info.Parse.{
  Keyspace, minus_one, parse_db_keyspace_string, parse_metrics_latency_stats,
}
use redis_exporter.Info.Handlers.{
  handle_metrics_replication, handle_metrics_server, handle_metrics_command_stats,
  handle_metrics_error_stats,
}

-- The local variables of extractInfoMetrics.
pub record InfoScan (F : Type 0) : Type 0 where
  pub key_values : Assoc Bytes
  pub handled_dbs : Assoc Bool
  pub cmd_count : Assoc ℕ
  pub cmd_sum : Assoc F
  pub cmd_latency_map : Assoc (List (F × F))
  pub field_class : Bytes
  pub master_host : Bytes
  pub master_port : Bytes

abbrev pub info_start : {F : Type 0} → InfoScan F
info_start = record {
  key_values = [];
  handled_dbs = [];
  cmd_count = [];
  cmd_sum = [];
  cmd_latency_map = [];
  field_class = [];
  master_host = [];
  master_port = [];
}

-- keyValues[fieldKey] = fieldValue, and the address of the master that the line names.
unfoldable pub remember : {F : Type 0} → Bytes → Bytes → InfoScan F → InfoScan F
remember key value s = record s {
  key_values = insert key value s.key_values;
  master_host = if is_master_host key then value else s.master_host;
  master_port = if is_master_port key then value else s.master_port;
}

module _ (deps : Deps) (now : ℤ) (e : Exporter) where
  open deps use {Float, of_ℤ, gt, to_uint}

  abbrev gauge : Bytes → Float → List Bytes → Collect Float (Unit {0})
  gauge = register_const_metric_gauge deps

  -- The lines behind the `switch`: the generic fields.
  unfoldable pub generic_field : Bytes → Bytes → Collect Float (Unit {0})
  generic_field key value =
      if include_metric e.maps key
      then parse_and_register_const_metric deps e.maps key value
      else pure tt

  unfoldable pub send_keyspace : Bytes → Keyspace Float → Collect Float (Unit {0})
  send_keyspace db k = do
    gauge (codes "db_keys") k.keys_total (db ∷ [])
    gauge (codes "db_keys_expiring") k.keys_expiring_total (db ∷ [])
    if gt k.keys_cached_total (minus_one deps)
        then gauge (codes "db_keys_cached") k.keys_cached_total (db ∷ [])
        else pure tt
    if gt k.avg_ttl (minus_one deps)
        then gauge (codes "db_avg_ttl_seconds") k.avg_ttl (db ∷ [])
        else pure tt

  abbrev pub add_latency : Bytes → Bytes → InfoScan Float → Collect Float (InfoScan Float)
  add_latency key value s c = elim (parse_metrics_latency_stats deps key value) [
    | none ↦ none
    | some none ↦ some (s, c)
    | some (some (cmd, m)) ↦ some (record s { cmd_latency_map = insert cmd m s.cmd_latency_map }, c)
  ]

  -- One field, by the section that it stands in. `continue` is the end of a branch.
  unfoldable pub handle_field : Bytes → Bytes → InfoScan Float → Collect Float (InfoScan Float)
  unfolding generic_field send_keyspace case_option
  handle_field key value s =
      if bytes_eq s.field_class (codes "Replication")
      then (do
        done ← handle_metrics_replication deps s.master_host s.master_port key value
        if done then pure tt else generic_field key value
        pure s)
      else if bytes_eq s.field_class (codes "Server")
      then (do handle_metrics_server deps now key value; generic_field key value; pure s)
      else if bytes_eq s.field_class (codes "Commandstats")
      then (do
        stats ← handle_metrics_command_stats deps key value
        pure (record s {
          cmd_count = insert stats.cmd (to_uint stats.calls) s.cmd_count;
          cmd_sum = insert stats.cmd stats.usec_total s.cmd_sum;
        }))
      else if bytes_eq s.field_class (codes "Latencystats")
      then add_latency key value s
      else if bytes_eq s.field_class (codes "Errorstats")
      then (do handle_metrics_error_stats deps key value; pure s)
      else if bytes_eq s.field_class (codes "Keyspace")
      then case_option (parse_db_keyspace_string deps key value)
          (do generic_field key value; pure s)
          (λ k. do
            send_keyspace key k
            pure (record s { handled_dbs = insert key true s.handled_dbs }))
      else if bytes_eq s.field_class (codes "Sentinel")
      then (do handle_metrics_sentinel deps key value; generic_field key value; pure s)
      else (do generic_field key value; pure s)

  unfoldable pub handle_line : Bytes → InfoScan Float → Collect Float (InfoScan Float)
  unfolding handle_field remember case_option
  handle_line raw s =
      let line = trim_space raw in
      if has_prefix (codes "# ") line
      then pure (record s { field_class = drop 2 line })
      else if ltb (length line) 2 || not (contains (codes ":") line)
      then pure s
      else case_option (cut b':' line) (pure s)
          (λ (key, value). handle_field key value (remember key value s))

  unfoldable pub handle_lines : List Bytes → InfoScan Float → Collect Float (InfoScan Float)
  unfolding handle_line
  handle_lines [] s = pure s
  handle_lines (line ∷ lines) s = do s' ← handle_line line s; handle_lines lines s'

  abbrev pub cmd_label : List Bytes
  cmd_label = codes "cmd" ∷ []

  -- The body of the loop over cmdLatencyMap.
  unfoldable pub command_latency_summary :
      InfoScan Float → Bytes × List (Float × Float) → Collect Float (Unit {0})
  unfolding case_option
  command_latency_summary s (cmd, latency_map) =
      case_option (lookup cmd s.cmd_count) (pure tt) (λ count.
        case_option (lookup cmd s.cmd_sum) (pure tt) (λ sum. do
          create_metric_description deps (codes "latency_percentiles_usec") cmd_label
          register_const_summary deps (codes "latency_percentiles_usec") count sum latency_map
              (cmd ∷ [])))

  unfoldable pub generate_command_latency_summaries : InfoScan Float → Collect Float (Unit {0})
  unfolding command_latency_summary for_each
  generate_command_latency_summaries s = for_each s.cmd_latency_map (command_latency_summary s)

  -- One round of the loop over dbIndex.
  unfoldable pub empty_database : Assoc Bool → ℕ → Collect Float (Unit {0})
  empty_database handled index =
      let db_name = codes "db" ++ itoa index in
      if has_key db_name handled then pure tt else (do
        gauge (codes "db_keys") (of_ℤ (pos 0)) (db_name ∷ [])
        gauge (codes "db_keys_expiring") (of_ℤ (pos 0)) (db_name ∷ []))

  -- dbIndex, and how many databases are still to go.
  unfoldable pub empty_databases : Assoc Bool → ℕ → ℕ → Collect Float (Unit {0})
  unfolding empty_database
  empty_databases handled index zero = pure tt
  empty_databases handled index (suc left) =
      empty_database handled index >> empty_databases handled (suc index) left

  abbrev pub instance_labels : List Bytes
  instance_labels =
      codes "role"
      ∷ codes "redis_version"
      ∷ codes "redis_build_id"
      ∷ codes "redis_mode"
      ∷ codes "os"
      ∷ codes "maxmemory_policy"
      ∷ codes "tcp_port"
      ∷ codes "run_id"
      ∷ codes "process_id"
      ∷ codes "master_replid"
      ∷ []

  -- A label that is there only where the field is: its name, and its value.
  abbrev pub optional_label : Bytes → Assoc Bytes → List Bytes × List Bytes
  optional_label field key_values = elim (lookup field key_values) [
    | none ↦ ([], [])
    | some v ↦ (field ∷ [], v ∷ [])
  ]

  abbrev pub values_of : Assoc Bytes → List Bytes → List Bytes
  values_of key_values [] = []
  values_of key_values (k ∷ ks) = string_at key_values k ∷ values_of key_values ks

  unfoldable pub instance_info : Assoc Bytes → List Bytes × List Bytes
  instance_info key_values =
      let version = optional_label (codes "valkey_version") key_values in
      let stage = optional_label (codes "valkey_release_stage") key_values in
      (
        instance_labels ++ (version.0 ++ stage.0),
        values_of key_values instance_labels ++ (version.1 ++ stage.1),
      )

  unfoldable pub send_instance_info : Assoc Bytes → Collect Float (Unit {0})
  unfolding instance_info
  send_instance_info key_values = do
    create_metric_description deps (codes "instance_info") (instance_info key_values).0
    gauge (codes "instance_info") (of_ℤ (pos 1)) (instance_info key_values).1

  unfoldable pub extract_info_metrics : Bytes → ℤ → Collect Float Bytes
  unfolding handle_lines generate_command_latency_summaries empty_databases send_instance_info
  extract_info_metrics info db_count = do
    s ← handle_lines (split 10 info) info_start
    generate_command_latency_summaries s
    if e.options.incl_metrics_for_empty_databases
        then empty_databases s.handled_dbs 0 (pos_part db_count)
        else pure tt
    let role = string_at s.key_values (codes "role")
    send_instance_info s.key_values
    if bytes_eq role (codes "slave")
        then gauge (codes "slave_info") (of_ℤ (pos 1)) (
            values_of s.key_values
              (codes "master_host" ∷ codes "master_port" ∷ codes "slave_read_only" ∷ []))
        else pure tt
    pure role

  unfoldable pub cluster_line : Bytes → Collect Float (Unit {0})
  unfolding generic_field
  cluster_line line = elim (split b':' line) [ k ∷ v ∷ [] ↦ generic_field k v | _ ↦ pure tt ]

  unfoldable pub extract_cluster_info_metrics : Bytes → Collect Float (Unit {0})
  unfolding cluster_line for_each
  extract_cluster_info_metrics info = for_each (split_crlf info) cluster_line
