-- ===== src/Tables/Descriptions.antt =====
-- The metrics that NewRedisExporter (exporter/exporter.go) describes, each with its label names, in
-- the order of their names; the help texts are left out.
use Prim.Native.String.{String}
use redis_exporter.Base.{List, [], ◌∷◌}

unfoldable pub described : List (String × List String)
described =
    ("commands_duration_seconds_total", "cmd" ∷ [])
    ∷ ("commands_failed_calls_total", "cmd" ∷ [])
    ∷ ("commands_latencies_usec", "cmd" ∷ [])
    ∷ ("commands_rejected_calls_total", "cmd" ∷ [])
    ∷ ("commands_total", "cmd" ∷ [])
    ∷ ("config_client_output_buffer_limit_bytes", "class" ∷ "limit" ∷ [])
    ∷ ("config_client_output_buffer_limit_overcome_seconds", "class" ∷ "limit" ∷ [])
    ∷ ("config_key_value", "key" ∷ "value" ∷ [])
    ∷ ("config_value", "key" ∷ [])
    ∷ ("connected_slave_lag_seconds", "slave_ip" ∷ "slave_port" ∷ "slave_state" ∷ [])
    ∷ ("connected_slave_offset_bytes", "slave_ip" ∷ "slave_port" ∷ "slave_state" ∷ [])
    ∷ ("db_avg_ttl_seconds", "db" ∷ [])
    ∷ ("db_keys", "db" ∷ [])
    ∷ ("db_keys_cached", "db" ∷ [])
    ∷ ("db_keys_expiring", "db" ∷ [])
    ∷ ("errors_total", "err" ∷ [])
    ∷ ("exporter_last_scrape_error", "err" ∷ [])
    ∷ ("key_group_count", "db" ∷ "key_group" ∷ [])
    ∷ ("key_group_memory_usage_bytes", "db" ∷ "key_group" ∷ [])
    ∷ ("key_memory_usage_bytes", "db" ∷ "key" ∷ [])
    ∷ ("key_size", "db" ∷ "key" ∷ [])
    ∷ ("key_value", "db" ∷ "key" ∷ [])
    ∷ ("key_value_as_string", "db" ∷ "key" ∷ "val" ∷ [])
    ∷ ("keys_count", "db" ∷ "key" ∷ [])
    ∷ ("last_key_groups_scrape_duration_milliseconds", [])
    ∷ ("last_slow_execution_duration_seconds", [])
    ∷ ("latency_percentiles_usec", "cmd" ∷ [])
    ∷ ("latency_spike_duration_seconds", "event_name" ∷ [])
    ∷ ("latency_spike_last", "event_name" ∷ [])
    ∷ ("master_last_io_seconds_ago", "master_host" ∷ "master_port" ∷ [])
    ∷ ("master_link_up", "master_host" ∷ "master_port" ∷ [])
    ∷ ("master_sync_in_progress", "master_host" ∷ "master_port" ∷ [])
    ∷ ("module_info", "name" ∷ "ver" ∷ "api" ∷ "filters" ∷ "usedby" ∷ "using" ∷ [])
    ∷ ("number_of_distinct_key_groups", "db" ∷ [])
    ∷ ("script_result", "filename" ∷ [])
    ∷ ("script_values", "key" ∷ "filename" ∷ [])
    ∷ ("search_index_avg_per_doc_records", "index_name" ∷ [])
    ∷ ("search_index_avg_per_record_bytes", "index_name" ∷ [])
    ∷ ("search_index_avg_per_record_offset_bits", "index_name" ∷ [])
    ∷ ("search_index_avg_per_term_offsets", "index_name" ∷ [])
    ∷ ("search_index_cleaning", "index_name" ∷ [])
    ∷ ("search_index_doc_table_size_bytes", "index_name" ∷ [])
    ∷ ("search_index_geoshapes_size_bytes", "index_name" ∷ [])
    ∷ ("search_index_hash_indexing_failures", "index_name" ∷ [])
    ∷ ("search_index_indexing", "index_name" ∷ [])
    ∷ ("search_index_inverted_size_bytes", "index_name" ∷ [])
    ∷ ("search_index_key_table_size_bytes", "index_name" ∷ [])
    ∷ ("search_index_max_doc_id", "index_name" ∷ [])
    ∷ ("search_index_num_docs", "index_name" ∷ [])
    ∷ ("search_index_num_records", "index_name" ∷ [])
    ∷ ("search_index_num_terms", "index_name" ∷ [])
    ∷ ("search_index_number_of_uses_total", "index_name" ∷ [])
    ∷ ("search_index_offset_vectors_size_bytes", "index_name" ∷ [])
    ∷ ("search_index_percent_indexed", "index_name" ∷ [])
    ∷ ("search_index_sortable_values_size_bytes", "index_name" ∷ [])
    ∷ ("search_index_tag_overhead_size_bytes", "index_name" ∷ [])
    ∷ ("search_index_text_overhead_size_bytes", "index_name" ∷ [])
    ∷ ("search_index_total_index_memory_size_bytes", "index_name" ∷ [])
    ∷ ("search_index_total_inverted_index_blocks", "index_name" ∷ [])
    ∷ ("search_index_vector_index_size_bytes", "index_name" ∷ [])
    ∷ ("sentinel_config_key_value", "key" ∷ "value" ∷ [])
    ∷ ("sentinel_config_value", "key" ∷ [])
    ∷ ("sentinel_master_ckquorum_status", "master_name" ∷ "message" ∷ [])
    ∷ ("sentinel_master_ok_sentinels", "master_name" ∷ "master_address" ∷ [])
    ∷ ("sentinel_master_ok_slaves", "master_name" ∷ "master_address" ∷ [])
    ∷ ("sentinel_master_sentinels", "master_name" ∷ "master_address" ∷ [])
    ∷ ("sentinel_master_setting_ckquorum", "master_name" ∷ "master_address" ∷ [])
    ∷ ("sentinel_master_setting_down_after_milliseconds", "master_name" ∷ "master_address" ∷ [])
    ∷ ("sentinel_master_setting_failover_timeout", "master_name" ∷ "master_address" ∷ [])
    ∷ ("sentinel_master_setting_parallel_syncs", "master_name" ∷ "master_address" ∷ [])
    ∷ ("sentinel_master_slaves", "master_name" ∷ "master_address" ∷ [])
    ∷ ("sentinel_master_status", "master_name" ∷ "master_address" ∷ "master_status" ∷ [])
    ∷ ("sentinel_masters", [])
    ∷ ("sentinel_running_scripts", [])
    ∷ ("sentinel_scripts_queue_length", [])
    ∷ ("sentinel_simulate_failure_flags", [])
    ∷ ("sentinel_tilt", [])
    ∷ ("slave_info", "master_host" ∷ "master_port" ∷ "read_only" ∷ [])
    ∷ ("slave_repl_offset", "master_host" ∷ "master_port" ∷ [])
    ∷ ("slowlog_last_id", [])
    ∷ ("slowlog_length", [])
    ∷ ("start_time_seconds", [])
    ∷ ("stream_first_entry_id", "db" ∷ "stream" ∷ [])
    ∷ ("stream_group_consumer_idle_seconds", "db" ∷ "stream" ∷ "group" ∷ "consumer" ∷ [])
    ∷ ("stream_group_consumer_messages_pending", "db" ∷ "stream" ∷ "group" ∷ "consumer" ∷ [])
    ∷ ("stream_group_consumers", "db" ∷ "stream" ∷ "group" ∷ [])
    ∷ ("stream_group_entries_read", "db" ∷ "stream" ∷ "group" ∷ [])
    ∷ ("stream_group_lag", "db" ∷ "stream" ∷ "group" ∷ [])
    ∷ ("stream_group_last_delivered_id", "db" ∷ "stream" ∷ "group" ∷ [])
    ∷ ("stream_group_messages_pending", "db" ∷ "stream" ∷ "group" ∷ [])
    ∷ ("stream_groups", "db" ∷ "stream" ∷ [])
    ∷ ("stream_last_entry_id", "db" ∷ "stream" ∷ [])
    ∷ ("stream_last_generated_id", "db" ∷ "stream" ∷ [])
    ∷ ("stream_length", "db" ∷ "stream" ∷ [])
    ∷ ("stream_max_deleted_entry_id", "db" ∷ "stream" ∷ [])
    ∷ ("stream_radix_tree_keys", "db" ∷ "stream" ∷ [])
    ∷ ("stream_radix_tree_nodes", "db" ∷ "stream" ∷ [])
    ∷ ("up", [])
    ∷ []
