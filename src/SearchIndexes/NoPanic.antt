-- ===== src/SearchIndexes/NoPanic.antt =====
-- When collecting the metrics of search indexes does not panic.
use redis_exporter.Base.{◌≢◌, none, Option, List, Bytes, Bool}
use redis_exporter.Deps.{Deps}
use redis_exporter.Run.Safe.{Safe, safe_rules}
use redis_exporter.Metrics.Safe.{gauge_labelled-Sound, register_labelled-Sound}
use redis_exporter.Redis.{Redis}
use redis_exporter.Redis.Safe.{Safe-collect, Safe-talk}
use redis_exporter.Options.{Exporter}
use redis_exporter.Keys.NoPanic.{KeysSound}
use redis_exporter.SearchIndexes.Described.{search_described}
use redis_exporter.SearchIndexes.Collect.{
  SearchIndexInfo, send_sizes, send_averages, send_index, search_index,
  extract_search_indexes_metrics,
}

ruleset search_rules = (
  safe_rules, Safe-collect, Safe-talk, gauge_labelled-Sound, register_labelled-Sound,
  search_described,
)

module _ (deps : Deps) (r : Redis) (compile : Bytes → Option (Bytes → Bool))
    (scan_index : List r.Reply → Option (SearchIndexInfo deps.Float)) (e : Exporter) where
  send_sizes-Safe :
      (info : SearchIndexInfo deps.Float)
      → Safe (KeysSound deps r e) (send_sizes deps r compile scan_index e info)
  unfolding send_sizes
  send_sizes-Safe info = search search_rules depth 16

  send_averages-Safe :
      (info : SearchIndexInfo deps.Float)
      → Safe (KeysSound deps r e) (send_averages deps r compile scan_index e info)
  unfolding send_averages
  send_averages-Safe info = search search_rules depth 16

  search_index-Safe :
      (index : Bytes) → Safe (KeysSound deps r e) (search_index deps r compile scan_index e index)
  unfolding search_index send_index
  search_index-Safe index = search (search_rules, send_sizes-Safe, send_averages-Safe) depth 9

  -- Where the expression of the option compiles, nothing that Redis answers is a panic.
  pub extract_search_indexes_metrics-Sound :
      compile e.options.check_search_indexes ≢ none
      → Safe (KeysSound deps r e) (extract_search_indexes_metrics deps r compile scan_index e)
  unfolding extract_search_indexes_metrics
  extract_search_indexes_metrics-Sound compiles =
      search (search_rules, search_index-Safe, compiles) depth 9
