-- ===== src/Keys/NoPanic.antt =====
-- Collecting the metrics of keys does not panic, whatever Redis answers, and what is sent fits.
use redis_exporter.Base.{ℕ, ◌≢◌, none, List, [], ◌∷◌, Bytes}
use redis_exporter.Deps.{Deps}
use redis_exporter.Run.Safe.{Safe, Ends, Safe-pure, Safe-bind, safe_rules}
use redis_exporter.Metrics.Safe.{gauge_labelled-Sound}
use redis_exporter.Tables.Init.{initial_descriptions}
use redis_exporter.Tables.KeysDescribed.{keys_described}
use redis_exporter.Redis.{Redis, Session}
use redis_exporter.Redis.Safe.{SessionSound, Safe-collect, Safe-talk, Safe-talk_partial}
use redis_exporter.Options.{Exporter}
use redis_exporter.Keys.Parse.{DbKeyPair}
use redis_exporter.Keys.Scan.{get_keys_count, get_keys_from_patterns}
use redis_exporter.Keys.Single.{
  StringInfo, string_cmd, int64_cmd, get_string_info_not_pipelined, send_value, send_size_and_value,
  get_key_info, check_key, extract_check_key_metrics_not_pipelined,
}
use redis_exporter.Keys.Pipelined.{
  receive_string, receive_int64, send_all, send_value_and_size, receive_key, get_key_info_pipelined,
  receive_type, receive_types, check_db, extract_check_key_metrics_pipelined,
}
use redis_exporter.Keys.Check.{
  check_all_keys, extract_check_key_metrics, count_keys, extract_count_keys_metrics,
}

ruleset key_rules =
    (safe_rules, Safe-collect, Safe-talk, Safe-talk_partial, gauge_labelled-Sound, keys_described)

module _ (deps : Deps) (r : Redis) (e : Exporter) where
  open deps use {Float}
  open r use {Conn}

  abbrev pub KeysSound : Session Float Conn → Type 0
  KeysSound = SessionSound initial_descriptions

  pub string_cmd-Sound : (args : List Bytes) → Safe KeysSound (string_cmd deps r e args)
  unfolding string_cmd
  string_cmd-Sound args = search key_rules

  pub int64_cmd-Sound : (args : List Bytes) → Safe KeysSound (int64_cmd deps r e args)
  unfolding int64_cmd
  int64_cmd-Sound args = search key_rules

  send_value-Sound : (db key value : Bytes) → Safe KeysSound (send_value deps r e db key value)
  unfolding send_value
  send_value-Sound db key value = search key_rules

  send_size_and_value-Sound :
      (db key : Bytes) (i : StringInfo) → Safe KeysSound (send_size_and_value deps r e db key i)
  unfolding send_size_and_value
  send_size_and_value-Sound db key i = search (key_rules, send_value-Sound) depth 8

  get_string_info-Sound :
      (key : Bytes) → Safe KeysSound (get_string_info_not_pipelined deps r e key)
  unfolding get_string_info_not_pipelined
  get_string_info-Sound key = search key_rules depth 9

  get_key_info-Sound : (db type key : Bytes) → Safe KeysSound (get_key_info deps r e db type key)
  unfolding get_key_info
  get_key_info-Sound db type key =
      search (key_rules, int64_cmd-Sound, send_size_and_value-Sound, get_string_info-Sound) depth 9

  check_key-Sound : (k : DbKeyPair) → Safe KeysSound (check_key deps r e k)
  unfolding check_key
  check_key-Sound k =
      search (key_rules, string_cmd-Sound, int64_cmd-Sound, get_key_info-Sound) depth 9

  not_pipelined-Sound :
      (ks : List DbKeyPair) → Safe KeysSound (extract_check_key_metrics_not_pipelined deps r e ks)
  unfolding extract_check_key_metrics_not_pipelined
  not_pipelined-Sound ks = search (key_rules, check_key-Sound)

  receive_string-Sound : Safe KeysSound (receive_string deps r e)
  unfolding receive_string
  receive_string-Sound = search key_rules

  receive_int64-Sound : Safe KeysSound (receive_int64 deps r e)
  unfolding receive_int64
  receive_int64-Sound = search key_rules

  send_all-Sound : (commands : List (List Bytes)) → Safe KeysSound (send_all deps r e commands)
  unfolding send_all
  send_all-Sound commands = search key_rules

  send_value_and_size-Sound :
      (db key : Bytes) (i : StringInfo) → Safe KeysSound (send_value_and_size deps r e db key i)
  send_value_and_size-Sound db key i = search (key_rules, send_value-Sound) depth 8

  receive_key-Sound : (db : Bytes) (k : Bytes × Bytes) → Safe KeysSound (receive_key deps r e db k)
  unfolding receive_key
  receive_key-Sound db k =
      search (key_rules, receive_string-Sound, receive_int64-Sound, send_value_and_size-Sound) depth
        9

  get_key_info_pipelined-Sound :
      (db : Bytes) (ks : List (Bytes × Bytes))
      → Safe KeysSound (get_key_info_pipelined deps r e db ks)
  unfolding get_key_info_pipelined
  get_key_info_pipelined-Sound db ks = search (key_rules, send_all-Sound, receive_key-Sound) depth 9

  receive_type-Sound : (db key : Bytes) → Safe KeysSound (receive_type deps r e db key)
  unfolding receive_type
  receive_type-Sound db key = search (key_rules, receive_string-Sound, receive_int64-Sound) depth 9

  receive_types-Sound :
      (db : Bytes) (ks : List Bytes) → Safe KeysSound (receive_types deps r e db ks)
  unfolding receive_types
  receive_types-Sound db [] = Safe-pure []
  receive_types-Sound db (k ∷ ks) =
      Safe-bind (receive_type deps r e db k) _ (receive_type-Sound db k) (λ t.
        Safe-bind (receive_types deps r e db ks) _ (receive_types-Sound db ks)
          (λ rest. Safe-pure _))

  check_db-Sound : (x : Bytes × List Bytes) → Safe KeysSound (check_db deps r e x)
  unfolding check_db
  check_db-Sound x =
      search
        (
          key_rules, receive_string-Sound, send_all-Sound, receive_types-Sound,
          get_key_info_pipelined-Sound,
        )
        depth 14

  pipelined-Sound :
      (ks : List DbKeyPair) → Safe KeysSound (extract_check_key_metrics_pipelined deps r e ks)
  unfolding extract_check_key_metrics_pipelined
  pipelined-Sound ks = search (key_rules, check_db-Sound)

module _ (deps : Deps) (r : Redis) (e : Exporter) (fuel : ℕ) where
  open deps use {Float}
  open r use {Conn}

  -- The expansion of the patterns of an option returns: the fuel is enough for the scans of them.
  abbrev pub Expands : Type 0
  Expands =
      (keys : List DbKeyPair) (c : Conn)
      → get_keys_from_patterns r fuel keys e.options.check_keys_batch_size c ≢ none

  check_all_keys-Sound :
      (ks : List DbKeyPair) → Safe (KeysSound deps r e) (check_all_keys deps r e fuel ks)
  unfolding check_all_keys
  check_all_keys-Sound ks = search (key_rules, not_pipelined-Sound, pipelined-Sound)

  pub extract_check_key_metrics-Sound :
      Expands → Safe (KeysSound deps r e) (extract_check_key_metrics deps r e fuel)
  unfolding extract_check_key_metrics
  extract_check_key_metrics-Sound ends = search (key_rules, check_all_keys-Sound, ends) depth 9

  -- Whatever Redis answers, extractCheckKeyMetrics does not panic from a channel with the exporter's
  -- descriptions, keeps them, and each metric that it sends fits its description, provided that the
  -- scans of the patterns end.
  pub extract_check_key_metrics-Ends :
      (s : Session Float Conn)
      → Expands
      → KeysSound deps r e s
      → Ends (KeysSound deps r e) (extract_check_key_metrics deps r e fuel s)
  extract_check_key_metrics-Ends s ends h = (extract_check_key_metrics-Sound ends).at s h

  abbrev pub Counts : Type 0
  Counts =
      (pattern : Bytes) (c : Conn)
      → get_keys_count r fuel pattern e.options.check_keys_batch_size c ≢ none

  count_keys-Sound :
      Counts → (k : DbKeyPair) → Safe (KeysSound deps r e) (count_keys deps r e fuel k)
  unfolding count_keys
  count_keys-Sound ends k = search (key_rules, ends) depth 9

  pub extract_count_keys_metrics-Sound :
      Counts → Safe (KeysSound deps r e) (extract_count_keys_metrics deps r e fuel)
  unfolding extract_count_keys_metrics
  extract_count_keys_metrics-Sound ends = search (key_rules, count_keys-Sound ends)

  -- The same for extractCountKeysMetrics: whatever Redis answers, it does not panic from a channel
  -- with the exporter's descriptions, keeps them, and each metric that it sends fits its
  -- description, provided that the scans of the patterns end.
  pub extract_count_keys_metrics-Ends :
      (s : Session Float Conn)
      → Counts
      → KeysSound deps r e s
      → Ends (KeysSound deps r e) (extract_count_keys_metrics deps r e fuel s)
  extract_count_keys_metrics-Ends s ends h = (extract_count_keys_metrics-Sound ends).at s h
