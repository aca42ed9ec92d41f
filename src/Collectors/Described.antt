-- ===== src/Collectors/Described.antt =====
-- The metrics with labels of the small collectors are in the table of descriptions.
use redis_exporter.Base.{refl, codes, lookup, bytes_eq}
use redis_exporter.Metrics.Safe.{IsDescribed}
use redis_exporter.Tables.Init.{initial_descriptions}

pub module_info : IsDescribed initial_descriptions (codes "module_info")
unfolding initial_descriptions lookup bytes_eq
module_info = record { there = (_, refl) }

pub script_result : IsDescribed initial_descriptions (codes "script_result")
unfolding initial_descriptions lookup bytes_eq
script_result = record { there = (_, refl) }

pub script_values : IsDescribed initial_descriptions (codes "script_values")
unfolding initial_descriptions lookup bytes_eq
script_values = record { there = (_, refl) }

pub latency_spike_last : IsDescribed initial_descriptions (codes "latency_spike_last")
unfolding initial_descriptions lookup bytes_eq
latency_spike_last = record { there = (_, refl) }

pub latency_spike_duration_seconds :
    IsDescribed initial_descriptions (codes "latency_spike_duration_seconds")
unfolding initial_descriptions lookup bytes_eq
latency_spike_duration_seconds = record { there = (_, refl) }

pub ruleset collectors_described =
    (module_info, script_result, script_values, latency_spike_last, latency_spike_duration_seconds)
