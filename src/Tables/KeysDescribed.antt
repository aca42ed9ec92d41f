-- ===== src/Tables/KeysDescribed.antt =====
-- The metrics with labels of keys, key groups and streams are in the table of descriptions.
use redis_exporter.Base.{refl, codes, lookup, bytes_eq}
use redis_exporter.Metrics.Safe.{IsDescribed}
use redis_exporter.Tables.Init.{initial_descriptions}

pub key_size : IsDescribed initial_descriptions (codes "key_size")
unfolding initial_descriptions lookup bytes_eq
key_size = record { there = (_, refl) }

pub key_value : IsDescribed initial_descriptions (codes "key_value")
unfolding initial_descriptions lookup bytes_eq
key_value = record { there = (_, refl) }

pub key_value_as_string : IsDescribed initial_descriptions (codes "key_value_as_string")
unfolding initial_descriptions lookup bytes_eq
key_value_as_string = record { there = (_, refl) }

pub key_memory_usage_bytes : IsDescribed initial_descriptions (codes "key_memory_usage_bytes")
unfolding initial_descriptions lookup bytes_eq
key_memory_usage_bytes = record { there = (_, refl) }

pub keys_count : IsDescribed initial_descriptions (codes "keys_count")
unfolding initial_descriptions lookup bytes_eq
keys_count = record { there = (_, refl) }

pub key_group_count : IsDescribed initial_descriptions (codes "key_group_count")
unfolding initial_descriptions lookup bytes_eq
key_group_count = record { there = (_, refl) }

pub key_group_memory_usage_bytes :
    IsDescribed initial_descriptions (codes "key_group_memory_usage_bytes")
unfolding initial_descriptions lookup bytes_eq
key_group_memory_usage_bytes = record { there = (_, refl) }

pub number_of_distinct_key_groups :
    IsDescribed initial_descriptions (codes "number_of_distinct_key_groups")
unfolding initial_descriptions lookup bytes_eq
number_of_distinct_key_groups = record { there = (_, refl) }

pub ruleset keys_described = (
  key_size, key_value, key_value_as_string, key_memory_usage_bytes, keys_count, key_group_count,
  key_group_memory_usage_bytes, number_of_distinct_key_groups,
)
