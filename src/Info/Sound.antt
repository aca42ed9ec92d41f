-- ===== src/Info/Sound.antt =====
-- The handlers of INFO do not panic on fields whose names they know, and send metrics that fit.
use redis_exporter.Base.{◌≡◌, true, Bytes, ℤ}
use redis_exporter.Deps.{Deps}
use redis_exporter.Metrics.{Channel, MetricMaps, parse_and_register_const_metric}
use redis_exporter.Metrics.Safe.{IsSound, IsDescribed, sound_rules}
use redis_exporter.Run.Safe.{Safe}
use redis_exporter.Tables.Init.{initial_descriptions}
use redis_exporter.Tables.Described.{described_rules}
use redis_exporter.Sentinels.{SentinelMaster, handle_metrics_sentinel, send_sentinel_master}
use redis_exporter.Info.Fields.{is_master_direct}
use redis_exporter.Info.Parse.{Slave}
use redis_exporter.Info.Handlers.{
  direct_metric, send_slave, handle_metrics_replication, handle_metrics_server,
  handle_metrics_command_stats, handle_metrics_error_stats,
}

-- A field that reMasterDirect matches is one of the three that it is meant for.
abbrev pub IsKnown : Deps → Bytes → Type 0
IsKnown deps key =
    is_master_direct key ≡ true → IsDescribed initial_descriptions (direct_metric deps key)

module _ (deps : Deps) where
  open deps use {Float}

  abbrev pub InfoSound : Channel Float → Type 0
  InfoSound = IsSound initial_descriptions

  pub parse_and_register-Sound :
      (maps : MetricMaps) (key value : Bytes)
      → Safe InfoSound (parse_and_register_const_metric deps maps key value)
  unfolding parse_and_register_const_metric
  parse_and_register-Sound maps key value = search sound_rules

  send_slave-Sound : (s : Slave Float) → Safe InfoSound (send_slave deps s)
  unfolding send_slave
  send_slave-Sound s = search (sound_rules, described_rules)

  pub handle_metrics_replication-Sound :
      (master_host master_port key value : Bytes)
      → IsKnown deps key
      → Safe InfoSound (handle_metrics_replication deps master_host master_port key value)
  unfolding handle_metrics_replication
  handle_metrics_replication-Sound master_host master_port key value known =
      search (sound_rules, described_rules, send_slave-Sound, known)

  pub handle_metrics_server-Sound :
      (now : ℤ) (key value : Bytes) → Safe InfoSound (handle_metrics_server deps now key value)
  unfolding handle_metrics_server
  handle_metrics_server-Sound now key value = search sound_rules depth 9

  pub handle_metrics_command_stats-Sound :
      (key value : Bytes) → Safe InfoSound (handle_metrics_command_stats deps key value)
  unfolding handle_metrics_command_stats
  handle_metrics_command_stats-Sound key value = search (sound_rules, described_rules) depth 12

  pub handle_metrics_error_stats-Sound :
      (key value : Bytes) → Safe InfoSound (handle_metrics_error_stats deps key value)
  unfolding handle_metrics_error_stats
  handle_metrics_error_stats-Sound key value = search (sound_rules, described_rules)

  send_sentinel_master-Sound :
      (m : SentinelMaster Float) → Safe InfoSound (send_sentinel_master deps m)
  unfolding send_sentinel_master
  send_sentinel_master-Sound m = search (sound_rules, described_rules)

  pub handle_metrics_sentinel-Sound :
      (key value : Bytes) → Safe InfoSound (handle_metrics_sentinel deps key value)
  unfolding handle_metrics_sentinel
  handle_metrics_sentinel-Sound key value = search (sound_rules, send_sentinel_master-Sound)
