-- ===== src/Streams/Collect.antt =====
-- parseStreamItemId and extractStreamMetrics.
use redis_exporter.Base.{ℕ, List, [], ◌∷◌, ◌++◌, Bytes, codes, bytes_eq, ℤ, pos, if◌then◌else◌}
use redis_exporter.Deps.{Deps}
use redis_exporter.Text.Split.{split}
use redis_exporter.Text.Trim.{trim_space}
use redis_exporter.Run.{◌>>=◌, ◌>>◌, pure, case_option, for_each}
use redis_exporter.Redis.{Redis, talk, talk_partial}
use redis_exporter.Redis.Views.{Views}
use redis_exporter.Options.{Exporter}
use redis_exporter.Keys.Parse.{DbKeyPair, parse_key_arg}
use redis_exporter.Keys.Scan.{get_keys_from_patterns}
use redis_exporter.Keys.Single.{Step, gauge}
use redis_exporter.Keys.Check.{scanned}
use redis_exporter.Streams.Info.{
  StreamInfo, StreamGroupsInfo, StreamGroupConsumersInfo, StreamScans, get_stream_info,
}

module _ (deps : Deps) where
  open deps use {Float, of_ℤ, parse_float}

  -- strings.Split gives at least one part, so the test for none of them never holds.
  abbrev first_part : List Bytes → Float
  first_part [] = of_ℤ (pos 0)
  first_part (part ∷ parts) = (parse_float part).value

  -- The number in front of the first dash; 0 for a blank id.
  unfoldable pub parse_stream_item_id : Bytes → Float
  unfolding split trim_space
  parse_stream_item_id id =
      if bytes_eq (trim_space id) [] then of_ℤ (pos 0) else first_part (split b'-' id)

module _ (deps : Deps) (r : Redis) (v : Views r) (scans : StreamScans r.Reply) (e : Exporter)
    (fuel : ℕ) where
  open deps use {Float, of_ℤ, div}
  open r use {Conn}

  abbrev batch_size : ℤ
  batch_size = e.options.check_keys_batch_size

  unfoldable pub send_consumer :
      Bytes → Bytes → Bytes → StreamGroupConsumersInfo → Step deps r e (Unit {0})
  send_consumer db_label key group c = do
    gauge deps r e (codes "stream_group_consumer_messages_pending") (of_ℤ c.pending)
        (db_label ∷ key ∷ group ∷ c.name ∷ [])
    gauge deps r e (codes "stream_group_consumer_idle_seconds")
        (div (of_ℤ c.idle) (of_ℤ (pos 1000))) (db_label ∷ key ∷ group ∷ c.name ∷ [])

  unfoldable pub send_group : Bytes → Bytes → StreamGroupsInfo → Step deps r e (Unit {0})
  unfolding send_consumer parse_stream_item_id
  send_group db_label key g = do
    let labels = db_label ∷ key ∷ g.name ∷ []
    gauge deps r e (codes "stream_group_consumers") (of_ℤ g.consumers) labels
    gauge deps r e (codes "stream_group_messages_pending") (of_ℤ g.pending) labels
    gauge deps r e (codes "stream_group_last_delivered_id")
        (parse_stream_item_id deps g.last_delivered_id) labels
    gauge deps r e (codes "stream_group_entries_read") (of_ℤ g.entries_read) labels
    gauge deps r e (codes "stream_group_lag") (of_ℤ g.lag) labels
    if e.options.streams_exclude_consumer_metrics
        then pure tt
        else for_each g.stream_group_consumers_info (send_consumer db_label key g.name)

  unfoldable pub send_stream : Bytes → Bytes → StreamInfo → Step deps r e (Unit {0})
  unfolding send_group parse_stream_item_id
  send_stream db_label key info = do
    let labels = db_label ∷ key ∷ []
    gauge deps r e (codes "stream_length") (of_ℤ info.length) labels
    gauge deps r e (codes "stream_radix_tree_keys") (of_ℤ info.radix_tree_keys) labels
    gauge deps r e (codes "stream_radix_tree_nodes") (of_ℤ info.radix_tree_nodes) labels
    gauge deps r e (codes "stream_last_generated_id")
        (parse_stream_item_id deps info.last_generated_id) labels
    gauge deps r e (codes "stream_groups") (of_ℤ info.groups) labels
    gauge deps r e (codes "stream_max_deleted_entry_id")
        (parse_stream_item_id deps info.max_deleted_entry_id) labels
    gauge deps r e (codes "stream_first_entry_id") (parse_stream_item_id deps info.first_entry_id)
        labels
    gauge deps r e (codes "stream_last_entry_id") (parse_stream_item_id deps info.last_entry_id)
        labels
    for_each info.stream_groups_info (send_group db_label key)

  -- The body of the loop; a stream whose database or whose description fails is passed over.
  unfoldable pub check_stream : DbKeyPair → Step deps r e (Unit {0})
  unfolding send_stream get_stream_info
  check_stream k = do
    selected ← talk (r.do_cmd (codes "SELECT" ∷ k.db ∷ []))
    case_option selected (pure tt) (λ _. do
      info ← get_stream_info deps r v scans e k.key
      case_option info (pure tt) (send_stream (codes "db" ++ k.db) k.key))

  unfoldable pub extract_stream_metrics : Step deps r e (Unit {0})
  unfolding check_stream get_keys_from_patterns
  extract_stream_metrics =
      let streams = parse_key_arg e.options.check_streams in
      let single_streams = parse_key_arg e.options.check_single_streams in
      case_option streams.1
        (case_option single_streams.1
          (do
            expanded ← talk_partial (get_keys_from_patterns r fuel streams.0 batch_size)
            for_each (single_streams.0 ++ scanned expanded) check_stream)
          (λ _. pure tt))
        (λ _. pure tt)
