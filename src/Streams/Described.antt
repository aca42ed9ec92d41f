-- ===== src/Streams/Described.antt =====
-- The metrics of streams are in the table of descriptions.
use redis_exporter.Base.{refl, codes, lookup, bytes_eq}
use redis_exporter.Metrics.Safe.{IsDescribed}
use redis_exporter.Tables.Init.{initial_descriptions}

pub stream_first_entry_id : IsDescribed initial_descriptions (codes "stream_first_entry_id")
unfolding initial_descriptions lookup bytes_eq
stream_first_entry_id = record { there = (_, refl) }

pub stream_group_consumer_idle_seconds :
    IsDescribed initial_descriptions (codes "stream_group_consumer_idle_seconds")
unfolding initial_descriptions lookup bytes_eq
stream_group_consumer_idle_seconds = record { there = (_, refl) }

pub stream_group_consumer_messages_pending :
    IsDescribed initial_descriptions (codes "stream_group_consumer_messages_pending")
unfolding initial_descriptions lookup bytes_eq
stream_group_consumer_messages_pending = record { there = (_, refl) }

pub stream_group_consumers : IsDescribed initial_descriptions (codes "stream_group_consumers")
unfolding initial_descriptions lookup bytes_eq
stream_group_consumers = record { there = (_, refl) }

pub stream_group_entries_read : IsDescribed initial_descriptions (codes "stream_group_entries_read")
unfolding initial_descriptions lookup bytes_eq
stream_group_entries_read = record { there = (_, refl) }

pub stream_group_lag : IsDescribed initial_descriptions (codes "stream_group_lag")
unfolding initial_descriptions lookup bytes_eq
stream_group_lag = record { there = (_, refl) }

pub stream_group_last_delivered_id :
    IsDescribed initial_descriptions (codes "stream_group_last_delivered_id")
unfolding initial_descriptions lookup bytes_eq
stream_group_last_delivered_id = record { there = (_, refl) }

pub stream_group_messages_pending :
    IsDescribed initial_descriptions (codes "stream_group_messages_pending")
unfolding initial_descriptions lookup bytes_eq
stream_group_messages_pending = record { there = (_, refl) }

pub stream_groups : IsDescribed initial_descriptions (codes "stream_groups")
unfolding initial_descriptions lookup bytes_eq
stream_groups = record { there = (_, refl) }

pub stream_last_entry_id : IsDescribed initial_descriptions (codes "stream_last_entry_id")
unfolding initial_descriptions lookup bytes_eq
stream_last_entry_id = record { there = (_, refl) }

pub stream_last_generated_id : IsDescribed initial_descriptions (codes "stream_last_generated_id")
unfolding initial_descriptions lookup bytes_eq
stream_last_generated_id = record { there = (_, refl) }

pub stream_length : IsDescribed initial_descriptions (codes "stream_length")
unfolding initial_descriptions lookup bytes_eq
stream_length = record { there = (_, refl) }

pub stream_max_deleted_entry_id :
    IsDescribed initial_descriptions (codes "stream_max_deleted_entry_id")
unfolding initial_descriptions lookup bytes_eq
stream_max_deleted_entry_id = record { there = (_, refl) }

pub stream_radix_tree_keys : IsDescribed initial_descriptions (codes "stream_radix_tree_keys")
unfolding initial_descriptions lookup bytes_eq
stream_radix_tree_keys = record { there = (_, refl) }

pub stream_radix_tree_nodes : IsDescribed initial_descriptions (codes "stream_radix_tree_nodes")
unfolding initial_descriptions lookup bytes_eq
stream_radix_tree_nodes = record { there = (_, refl) }

pub ruleset streams_described = (
  stream_first_entry_id, stream_group_consumer_idle_seconds, stream_group_consumer_messages_pending,
  stream_group_consumers, stream_group_entries_read, stream_group_lag,
  stream_group_last_delivered_id, stream_group_messages_pending, stream_groups,
  stream_last_entry_id, stream_last_generated_id, stream_length, stream_max_deleted_entry_id,
  stream_radix_tree_keys, stream_radix_tree_nodes,
)
