-- ===== src/Tables/Described.antt =====
-- The metrics with labels that the handlers of INFO send are in the table of descriptions.
use redis_exporter.Base.{refl, codes, lookup, bytes_eq}
use redis_exporter.Metrics.Safe.{IsDescribed}
use redis_exporter.Tables.Init.{initial_descriptions}

pub master_link_up : IsDescribed initial_descriptions (codes "master_link_up")
unfolding initial_descriptions lookup bytes_eq
master_link_up = record { there = (_, refl) }

pub master_last_io_seconds_ago :
    IsDescribed initial_descriptions (codes "master_last_io_seconds_ago")
unfolding initial_descriptions lookup bytes_eq
master_last_io_seconds_ago = record { there = (_, refl) }

pub master_sync_in_progress : IsDescribed initial_descriptions (codes "master_sync_in_progress")
unfolding initial_descriptions lookup bytes_eq
master_sync_in_progress = record { there = (_, refl) }

pub slave_repl_offset : IsDescribed initial_descriptions (codes "slave_repl_offset")
unfolding initial_descriptions lookup bytes_eq
slave_repl_offset = record { there = (_, refl) }

pub connected_slave_offset_bytes :
    IsDescribed initial_descriptions (codes "connected_slave_offset_bytes")
unfolding initial_descriptions lookup bytes_eq
connected_slave_offset_bytes = record { there = (_, refl) }

pub connected_slave_lag_seconds :
    IsDescribed initial_descriptions (codes "connected_slave_lag_seconds")
unfolding initial_descriptions lookup bytes_eq
connected_slave_lag_seconds = record { there = (_, refl) }

pub commands_total : IsDescribed initial_descriptions (codes "commands_total")
unfolding initial_descriptions lookup bytes_eq
commands_total = record { there = (_, refl) }

pub commands_duration_seconds_total :
    IsDescribed initial_descriptions (codes "commands_duration_seconds_total")
unfolding initial_descriptions lookup bytes_eq
commands_duration_seconds_total = record { there = (_, refl) }

pub commands_rejected_calls_total :
    IsDescribed initial_descriptions (codes "commands_rejected_calls_total")
unfolding initial_descriptions lookup bytes_eq
commands_rejected_calls_total = record { there = (_, refl) }

pub commands_failed_calls_total :
    IsDescribed initial_descriptions (codes "commands_failed_calls_total")
unfolding initial_descriptions lookup bytes_eq
commands_failed_calls_total = record { there = (_, refl) }

pub errors_total : IsDescribed initial_descriptions (codes "errors_total")
unfolding initial_descriptions lookup bytes_eq
errors_total = record { there = (_, refl) }

pub db_keys : IsDescribed initial_descriptions (codes "db_keys")
unfolding initial_descriptions lookup bytes_eq
db_keys = record { there = (_, refl) }

pub db_keys_expiring : IsDescribed initial_descriptions (codes "db_keys_expiring")
unfolding initial_descriptions lookup bytes_eq
db_keys_expiring = record { there = (_, refl) }

pub db_keys_cached : IsDescribed initial_descriptions (codes "db_keys_cached")
unfolding initial_descriptions lookup bytes_eq
db_keys_cached = record { there = (_, refl) }

pub db_avg_ttl_seconds : IsDescribed initial_descriptions (codes "db_avg_ttl_seconds")
unfolding initial_descriptions lookup bytes_eq
db_avg_ttl_seconds = record { there = (_, refl) }

pub slave_info : IsDescribed initial_descriptions (codes "slave_info")
unfolding initial_descriptions lookup bytes_eq
slave_info = record { there = (_, refl) }

pub sentinel_master_status : IsDescribed initial_descriptions (codes "sentinel_master_status")
unfolding initial_descriptions lookup bytes_eq
sentinel_master_status = record { there = (_, refl) }

pub sentinel_master_slaves : IsDescribed initial_descriptions (codes "sentinel_master_slaves")
unfolding initial_descriptions lookup bytes_eq
sentinel_master_slaves = record { there = (_, refl) }

pub sentinel_master_sentinels : IsDescribed initial_descriptions (codes "sentinel_master_sentinels")
unfolding initial_descriptions lookup bytes_eq
sentinel_master_sentinels = record { there = (_, refl) }

pub ruleset described_rules = (
  master_link_up, master_last_io_seconds_ago, master_sync_in_progress, slave_repl_offset,
  connected_slave_offset_bytes, connected_slave_lag_seconds, commands_total,
  commands_duration_seconds_total, commands_rejected_calls_total, commands_failed_calls_total,
  errors_total, db_keys, db_keys_expiring, db_keys_cached, db_avg_ttl_seconds, slave_info,
  sentinel_master_status, sentinel_master_slaves, sentinel_master_sentinels,
)
