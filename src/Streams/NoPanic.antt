-- ===== src/Streams/NoPanic.antt =====
-- When collecting the metrics of streams panics, and when it does not.
use redis_exporter.Base.{
  ℕ, ◌≡◌, ◌≢◌, ◌↔◌, inl, inr, Bool, true, false, ◌||◌, none, some, List, [], ◌∷◌, Bytes, codes,
  arith, Option-cases,
}
use redis_exporter.Deps.{Deps}
use redis_exporter.Run.Safe.{Safe, Safe-pure, Safe-bind, Safe-case_option, safe_rules}
use redis_exporter.Metrics.Safe.{gauge_labelled-Sound}
use redis_exporter.Tables.Init.{initial_descriptions}
use redis_exporter.Redis.{Redis}
use redis_exporter.Redis.Views.{Views}
use redis_exporter.Redis.Safe.{Safe-collect, Safe-talk, Safe-talk_partial, Safe-talk_with}
use redis_exporter.Options.{Exporter}
use redis_exporter.Keys.Parse.{DbKeyPair}
use redis_exporter.Keys.NoPanic.{KeysSound, Expands}
use redis_exporter.Keys.Single.{if_some}
use redis_exporter.Streams.Described.{streams_described}
use redis_exporter.Streams.Info.{
  StreamInfo, StreamGroupsInfo, StreamGroupConsumersInfo, StreamScans, get_stream_entry_id, is_text,
  read_entry_id, entry_ids, scan_stream_group_consumers, scan_groups, scan_stream_groups,
  complete_stream, stream_reply, get_stream_info,
}
use redis_exporter.Streams.Collect.{
  send_consumer, send_group, send_stream, check_stream, extract_stream_metrics,
}

module _ (r : Redis) (v : Views r) where
  open r use {Reply}

  abbrev pub is_entry_name : Reply → Bool
  is_entry_name value =
      is_text r v (codes "first-entry") value || is_text r v (codes "last-entry") value

  -- Whether the last value is the name of an entry.
  abbrev pub ends_with_name : List Reply → Bool
  ends_with_name [] = false
  ends_with_name (value ∷ []) = is_entry_name value
  ends_with_name (value ∷ w ∷ values) = ends_with_name (w ∷ values)

  entry_id-some :
      (entry : Reply) (values : List Reply) → get_stream_entry_id r v (entry ∷ values) ≢ none
  unfolding get_stream_entry_id
  entry_id-some entry values = ground arith

  read_entry_id-some :
      (name : Bytes) (value entry : Reply) (values : List Reply) (old : Bytes)
      → (id : Bytes) × (read_entry_id r v name value (entry ∷ values) old ≡ some id)
  read_entry_id-some name value entry values old =
      elim (Option-cases (read_entry_id r v name value (entry ∷ values) old)) [
        | inl e ↦ absurd (never e)
        | inr (id, e) ↦ (id, e)
      ]
    where
      never : read_entry_id r v name value (entry ∷ values) old ≢ none
      never = unfold read_entry_id in ground (arith, entry_id-some entry values)

  -- The loop over the values of XINFO STREAM panics exactly where the last one is `first-entry` or
  -- `last-entry`, with nothing behind it.
  pub entry_ids_panics :
      (values : List Reply) (stream : StreamInfo)
      → (entry_ids r v values stream ≡ none) ↔ (ends_with_name values ≡ true)
  unfolding entry_ids read_entry_id get_stream_entry_id
  entry_ids_panics [] stream = ground arith
  entry_ids_panics (value ∷ []) stream = ground arith
  entry_ids_panics (value ∷ w ∷ values) stream =
      let (first, e) =
        read_entry_id-some (codes "first-entry") value w values stream.first_entry_id in
      let (last, f) = read_entry_id-some (codes "last-entry") value w values stream.last_entry_id in
      rw (e, if_some)
        (rw (f, if_some)
          (entry_ids_panics (w ∷ values)
            (record stream { first_entry_id = first; last_entry_id = last })))

ruleset stream_rules = (
  safe_rules, Safe-collect, Safe-talk, Safe-talk_partial, gauge_labelled-Sound, streams_described,
)

module _ (deps : Deps) (r : Redis) (v : Views r) (scans : StreamScans r.Reply) (e : Exporter) where
  open r use {Reply, Conn}

  consumers-Safe :
      (stream group : Bytes)
      → Safe (KeysSound deps r e) (scan_stream_group_consumers deps r v scans e stream group)
  unfolding scan_stream_group_consumers
  consumers-Safe stream group = search stream_rules

  scan_groups-Safe :
      (stream : Bytes) (replies : List Reply) (result : List StreamGroupsInfo)
      → Safe (KeysSound deps r e) (scan_groups deps r v scans e stream replies result)
  unfolding scan_groups
  scan_groups-Safe stream [] result = Safe-pure _
  scan_groups-Safe stream (reply ∷ replies) result =
      Safe-case_option (if_some (r.values reply) scans.scan_group) _ _
        (λ _. scan_groups-Safe stream replies result)
        (λ group _. Safe-bind _ _ (consumers-Safe stream group.name) (λ consumers.
          Safe-case_option consumers _ _ (λ _. Safe-pure none)
            (λ infos _. scan_groups-Safe stream replies _)))

  scan_stream_groups-Safe :
      (stream : Bytes) → Safe (KeysSound deps r e) (scan_stream_groups deps r v scans e stream)
  unfolding scan_stream_groups
  scan_stream_groups-Safe stream = search (stream_rules, scan_groups-Safe)

  complete_stream-Safe :
      (key : Bytes) (fields : List Reply) (stream : StreamInfo)
      → ends_with_name r v fields ≡ false
      → Safe (KeysSound deps r e) (complete_stream deps r v scans e key fields stream)
  unfolding complete_stream
  complete_stream-Safe key fields stream h =
      Safe-case_option (entry_ids r v fields stream) _ _
        (λ none_yet. absurd (cc (h, (entry_ids_panics r v fields stream).0 none_yet)))
        (λ s _. search (stream_rules, scan_stream_groups-Safe))

  -- XINFO STREAM answers with pairs: `first-entry` and `last-entry` are never its last value.
  abbrev pub AnswersStreams : Type 0
  AnswersStreams =
      (key : Bytes) (c : Conn) (fields : List Reply)
      → stream_reply deps r v scans e key c ≡ some fields
      → ends_with_name r v fields ≡ false

  module _ (answers : AnswersStreams) where
    get_stream_info-Safe :
        (key : Bytes) → Safe (KeysSound deps r e) (get_stream_info deps r v scans e key)
    unfolding get_stream_info
    get_stream_info-Safe key = Safe-talk_with initial_descriptions _ _ (λ c.
        Safe-case_option (stream_reply deps r v scans e key c) _ _ (λ _. Safe-pure none)
          (λ fields found.
            Safe-case_option (scans.scan_stream fields) _ _ (λ _. Safe-pure none)
              (λ stream _. complete_stream-Safe key fields stream (answers key c fields found))))

    module _ (fuel : ℕ) where
      send_consumer-Safe :
          (label key group : Bytes) (c : StreamGroupConsumersInfo)
          → Safe (KeysSound deps r e) (send_consumer deps r v scans e fuel label key group c)
      unfolding send_consumer
      send_consumer-Safe label key group c = search stream_rules

      send_group-Safe :
          (label key : Bytes) (g : StreamGroupsInfo)
          → Safe (KeysSound deps r e) (send_group deps r v scans e fuel label key g)
      unfolding send_group
      send_group-Safe label key g = search (stream_rules, send_consumer-Safe) depth 12

      send_stream-Safe :
          (label key : Bytes) (info : StreamInfo)
          → Safe (KeysSound deps r e) (send_stream deps r v scans e fuel label key info)
      unfolding send_stream
      send_stream-Safe label key info = search (stream_rules, send_group-Safe) depth 14

      check_stream-Safe :
          (k : DbKeyPair) → Safe (KeysSound deps r e) (check_stream deps r v scans e fuel k)
      unfolding check_stream
      check_stream-Safe k = search (stream_rules, get_stream_info-Safe, send_stream-Safe) depth 9

      pub extract_stream_metrics-Sound :
          Expands deps r e fuel
          → Safe (KeysSound deps r e) (extract_stream_metrics deps r v scans e fuel)
      unfolding extract_stream_metrics
      extract_stream_metrics-Sound ends = search (stream_rules, check_stream-Safe, ends) depth 9
