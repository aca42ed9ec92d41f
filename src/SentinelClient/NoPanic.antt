-- ===== src/SentinelClient/NoPanic.antt =====
-- Collecting the metrics of a sentinel does not panic, whatever it answers.
use redis_exporter.Base.{refl, List, [], ◌∷◌, Bytes, codes, lookup, bytes_eq}
use redis_exporter.Deps.{Deps}
use redis_exporter.Run.{◌>>◌}
use redis_exporter.Run.Safe.{Safe, Ends, Safe-pure, Safe-bind, safe_rules}
use redis_exporter.Metrics.Safe.{IsDescribed, gauge_labelled-Sound}
use redis_exporter.Tables.Init.{initial_descriptions}
use redis_exporter.Redis.{Redis, Session}
use redis_exporter.Redis.Safe.{Safe-collect, Safe-talk}
use redis_exporter.Options.{Exporter}
use redis_exporter.Keys.NoPanic.{KeysSound}
use redis_exporter.Sentinels.{process_sentinel_sentinels, process_sentinel_slaves}
use redis_exporter.SentinelClient.{
  MasterDetail, send_settings, send_master, send_detail, quorum_status, extract_sentinel_metrics,
  send_config_pair, send_config_pairs, extract_sentinel_config,
}

sentinel_config_key_value : IsDescribed initial_descriptions (codes "sentinel_config_key_value")
unfolding initial_descriptions lookup bytes_eq
sentinel_config_key_value = record { there = (_, refl) }

sentinel_config_value : IsDescribed initial_descriptions (codes "sentinel_config_value")
unfolding initial_descriptions lookup bytes_eq
sentinel_config_value = record { there = (_, refl) }

sentinel_master_ckquorum_status :
    IsDescribed initial_descriptions (codes "sentinel_master_ckquorum_status")
unfolding initial_descriptions lookup bytes_eq
sentinel_master_ckquorum_status = record { there = (_, refl) }

sentinel_master_ok_sentinels :
    IsDescribed initial_descriptions (codes "sentinel_master_ok_sentinels")
unfolding initial_descriptions lookup bytes_eq
sentinel_master_ok_sentinels = record { there = (_, refl) }

sentinel_master_ok_slaves : IsDescribed initial_descriptions (codes "sentinel_master_ok_slaves")
unfolding initial_descriptions lookup bytes_eq
sentinel_master_ok_slaves = record { there = (_, refl) }

sentinel_master_setting_ckquorum :
    IsDescribed initial_descriptions (codes "sentinel_master_setting_ckquorum")
unfolding initial_descriptions lookup bytes_eq
sentinel_master_setting_ckquorum = record { there = (_, refl) }

sentinel_master_setting_down_after_milliseconds :
    IsDescribed initial_descriptions (codes "sentinel_master_setting_down_after_milliseconds")
unfolding initial_descriptions lookup bytes_eq
sentinel_master_setting_down_after_milliseconds = record { there = (_, refl) }

sentinel_master_setting_failover_timeout :
    IsDescribed initial_descriptions (codes "sentinel_master_setting_failover_timeout")
unfolding initial_descriptions lookup bytes_eq
sentinel_master_setting_failover_timeout = record { there = (_, refl) }

sentinel_master_setting_parallel_syncs :
    IsDescribed initial_descriptions (codes "sentinel_master_setting_parallel_syncs")
unfolding initial_descriptions lookup bytes_eq
sentinel_master_setting_parallel_syncs = record { there = (_, refl) }

ruleset sentinel_rules = (
  safe_rules, Safe-collect, Safe-talk, gauge_labelled-Sound, sentinel_config_key_value,
  sentinel_config_value, sentinel_master_ckquorum_status, sentinel_master_ok_sentinels,
  sentinel_master_ok_slaves, sentinel_master_setting_ckquorum,
  sentinel_master_setting_down_after_milliseconds, sentinel_master_setting_failover_timeout,
  sentinel_master_setting_parallel_syncs,
)

module _ (deps : Deps) (r : Redis) (error_text : List Bytes → r.Conn → Bytes) (e : Exporter) where
  open deps use {Float}
  open r use {Reply, Conn}

  quorum_status-Sound :
      (name : Bytes) → Safe (KeysSound deps r e) (quorum_status deps r error_text e name)
  unfolding quorum_status
  quorum_status-Sound name = search sentinel_rules

  send_settings-Sound :
      (m : MasterDetail) → Safe (KeysSound deps r e) (send_settings deps r error_text e m)
  unfolding send_settings
  send_settings-Sound m = search sentinel_rules depth 9

  send_master-Sound :
      (m : MasterDetail) → Safe (KeysSound deps r e) (send_master deps r error_text e m)
  unfolding send_master process_sentinel_sentinels process_sentinel_slaves
  send_master-Sound m = search (sentinel_rules, quorum_status-Sound, send_settings-Sound) depth 14

  send_detail-Sound :
      (reply : Reply) → Safe (KeysSound deps r e) (send_detail deps r error_text e reply)
  unfolding send_detail
  send_detail-Sound reply = search (sentinel_rules, send_master-Sound)

  pub metrics-Sound : Safe (KeysSound deps r e) (extract_sentinel_metrics deps r error_text e)
  unfolding extract_sentinel_metrics
  metrics-Sound = search (sentinel_rules, send_detail-Sound)

  send_config_pair-Sound :
      (key value : Bytes)
      → Safe (KeysSound deps r e) (send_config_pair deps r error_text e key value)
  unfolding send_config_pair
  send_config_pair-Sound key value = search sentinel_rules

  send_config_pairs-Sound :
      (config : List Reply)
      → Safe (KeysSound deps r e) (send_config_pairs deps r error_text e config)
  unfolding send_config_pairs
  send_config_pairs-Sound [] = Safe-pure tt
  send_config_pairs-Sound (k ∷ []) = Safe-pure tt
  send_config_pairs-Sound (k ∷ v ∷ config) =
      Safe-bind _ _ (search (sentinel_rules, send_config_pair-Sound))
        (λ _. send_config_pairs-Sound config)

  pub config-Sound : Safe (KeysSound deps r e) (extract_sentinel_config deps r error_text e)
  unfolding extract_sentinel_config
  config-Sound = search (sentinel_rules, send_config_pairs-Sound)

  -- Whatever a sentinel answers, collecting its metrics and then its configuration does not panic from
  -- a channel with the exporter's descriptions, keeps them, and each metric that is sent fits its
  -- description.
  pub extract_sentinel_metrics-Ends :
      (s : Session Float Conn)
      → KeysSound deps r e s
      → Ends (KeysSound deps r e) (
          (extract_sentinel_metrics deps r error_text e
              >> extract_sentinel_config deps r error_text e)
            s)
  extract_sentinel_metrics-Ends s h = (Safe-bind _ _ metrics-Sound (λ _. config-Sound)).at s h
