-- ===== src/Info/Handlers.antt =====
-- The handlers of exporter/info.go, which send metrics for one field of a section of INFO. `now` is
-- time.Now().Unix().
use redis_exporter.Base.{
  Bool, true, false, List, [], ◌∷◌, Bytes, codes, bytes_eq, if◌then◌else◌, ℤ, pos,
}
use redis_exporter.Deps.{Deps}
use redis_exporter.Text.Number.{Parsed, parse_int}
use redis_exporter.Metrics.{
  Collect, counter_value, register_const_metric, register_const_metric_gauge,
  create_metric_description,
}
use redis_exporter.Run.{◌>>◌, pure, case_option}
use redis_exporter.Info.Fields.{is_master_link_status, is_master_direct, has_suffix}
use redis_exporter.Info.Parse.{
  Slave, CommandStats, minus_one, parse_connected_slave_string, parse_metrics_command_stats,
  parse_metrics_error_stats,
}

module _ (deps : Deps) where
  open deps use {Float, of_ℤ, parse_float, div, sub, gt}

  abbrev gauge : Bytes → Float → List Bytes → Collect Float (Unit {0})
  gauge = register_const_metric_gauge deps

  abbrev counter : Bytes → Float → List Bytes → Collect Float (Unit {0})
  counter metric val values = register_const_metric deps metric val counter_value values

  -- The metric of a field that reMasterDirect matches.
  unfoldable pub direct_metric : Bytes → Bytes
  direct_metric field_key =
      if has_suffix (codes "last_io_seconds_ago") field_key
      then codes "master_last_io_seconds_ago"
      else if has_suffix (codes "sync_in_progress") field_key
      then codes "master_sync_in_progress"
      else field_key

  unfoldable pub send_slave : Slave Float → Collect Float (Unit {0})
  send_slave s = do
    let labels = s.ip ∷ s.port ∷ s.state ∷ []
    gauge (codes "connected_slave_offset_bytes") s.offset labels
    if gt s.lag (minus_one deps)
        then gauge (codes "connected_slave_lag_seconds") s.lag labels
        else pure tt

  -- Whether the field is done with.
  unfoldable pub handle_metrics_replication : Bytes → Bytes → Bytes → Bytes → Collect Float Bool
  unfolding direct_metric send_slave case_option
  handle_metrics_replication master_host master_port field_key field_value =
      let labels = master_host ∷ master_port ∷ [] in
      if is_master_link_status field_key
      then (do
        gauge (codes "master_link_up")
            (of_ℤ (if bytes_eq field_value (codes "up") then pos 1 else pos 0)) labels
        pure true)
      else if is_master_direct field_key
      then (do
        gauge (direct_metric field_key) (of_ℤ (parse_int field_value).value) labels
        pure true)
      else case_option (parse_connected_slave_string deps field_key field_value) (pure false)
          (λ s. do send_slave s; pure true)

  abbrev gauge_int : Bytes → Parsed ℤ → Collect Float (Unit {0})
  gauge_int metric p = if p.failed then pure tt else gauge metric (of_ℤ p.value) []

  unfoldable pub handle_metrics_server : ℤ → Bytes → Bytes → Collect Float (Unit {0})
  handle_metrics_server now field_key field_value = do
    let uptime = parse_float field_value
    if bytes_eq field_key (codes "uptime_in_seconds")
        then (if uptime.failed
            then pure tt
            else gauge (codes "start_time_seconds") (sub (of_ℤ now) uptime.value) [])
        else pure tt
    if bytes_eq field_key (codes "configured_hz")
        then gauge_int (codes "configured_hz") (parse_int field_value)
        else pure tt
    if bytes_eq field_key (codes "hz")
        then gauge_int (codes "hz") (parse_int field_value)
        else pure tt

  abbrev cmd_label : List Bytes
  cmd_label = codes "cmd" ∷ []

  abbrev send_extended : CommandStats Float → Collect Float (Unit {0})
  send_extended stats = do
    create_metric_description deps (codes "commands_rejected_calls_total") cmd_label
    create_metric_description deps (codes "commands_failed_calls_total") cmd_label
    counter (codes "commands_rejected_calls_total") stats.rejected_calls (stats.cmd ∷ [])
    counter (codes "commands_failed_calls_total") stats.failed_calls (stats.cmd ∷ [])

  -- cmd, calls and usecTotal, also where the field was refused.
  unfoldable pub handle_metrics_command_stats : Bytes → Bytes → Collect Float (CommandStats Float)
  handle_metrics_command_stats field_key field_value = do
    let stats = parse_metrics_command_stats deps field_key field_value
    if stats.failed then pure stats else do
      create_metric_description deps (codes "commands_total") cmd_label
      create_metric_description deps (codes "commands_duration_seconds_total") cmd_label
      counter (codes "commands_total") stats.calls (stats.cmd ∷ [])
      counter (codes "commands_duration_seconds_total") (div stats.usec_total (of_ℤ (pos 1000000)))
          (stats.cmd ∷ [])
      if stats.extended_stats then send_extended stats else pure tt
      pure stats

  unfoldable pub handle_metrics_error_stats : Bytes → Bytes → Collect Float (Unit {0})
  unfolding case_option
  handle_metrics_error_stats field_key field_value =
      case_option (parse_metrics_error_stats deps field_key field_value) (pure tt)
        (λ (error_prefix, count). counter (codes "errors_total") count (error_prefix ∷ []))
