-- ===== src/KeyGroups/NoPanic.antt =====
-- When collecting the metrics of key groups does not panic.
use redis_exporter.Base.{
  ℕ, zero, suc, ◌≢◌, ◌≡◌, Option, none, List, [], ◌∷◌, Bytes, pos, Assoc, arith,
}
use redis_exporter.Deps.{Deps}
use redis_exporter.Run.{panic, case_option}
use redis_exporter.Run.Safe.{Safe, Ends, Safe-pure, Safe-bind, Safe-case_option, safe_rules}
use redis_exporter.Metrics.Safe.{gauge_labelled-Sound, gauge_plain-Sound}
use redis_exporter.Tables.KeysDescribed.{keys_described}
use redis_exporter.Redis.{Redis, Session}
use redis_exporter.Redis.Safe.{Safe-collect, Safe-talk, Safe-talk_partial}
use redis_exporter.Options.{Exporter}
use redis_exporter.Keys.Single.{Step}
use redis_exporter.Keys.NoPanic.{KeysSound}
use redis_exporter.KeyGroups.Gather.{KeyGroupMetrics, gather_key_group_metrics}
use redis_exporter.KeyGroups.Overflow.{OverflowedKeyGroupMetrics, overflow_of}
use redis_exporter.KeyGroups.Collect.{
  DbGroups, gather_db, gather_dbs, gather_key_groups_metrics_for_all_databases,
  register_key_group_metrics, register_db, register_dbs, gather_names, extract_key_group_metrics,
  db_label,
}

ruleset group_rules = (
  safe_rules, Safe-collect, Safe-talk, Safe-talk_partial, gauge_labelled-Sound, gauge_plain-Sound,
  keys_described,
)

overflow_of-some :
    (limit : ℕ) (groups : Assoc KeyGroupMetrics) → overflow_of (pos limit) groups ≢ none
unfolding overflow_of
overflow_of-some limit groups = ground arith

module _ (deps : Deps) (r : Redis) (read_csv : Bytes → Option (List Bytes)) (e : Exporter)
    (fuel : ℕ) where
  open deps use {Float}
  open r use {Conn}

  -- The script of a database ends, and answers with groups of three parts.
  abbrev pub Gathers : Type 0
  Gathers =
      (key_groups : List Bytes) (c : Conn)
      → gather_key_group_metrics r fuel e.options.check_keys_batch_size key_groups c ≢ none

  module _ (limit : ℕ) (at_limit : e.options.max_distinct_key_groups ≡ pos limit)
      (ends : Gathers) where
    overflow_of-Safe :
        {A : Type 0} (groups : Assoc KeyGroupMetrics)
        (f : Option OverflowedKeyGroupMetrics → Step deps r e A)
        → ((o : Option OverflowedKeyGroupMetrics) → Safe (KeysSound deps r e) (f o))
        → Safe
            (KeysSound deps r e)
            (case_option (overflow_of e.options.max_distinct_key_groups groups) panic f)
    overflow_of-Safe groups f h = rw at_limit (
        Safe-case_option (overflow_of (pos limit) groups) panic f
          (λ none_yet. absurd (overflow_of-some limit groups none_yet)) (λ o _. h o))

    gather_db-Safe :
        (names : List Bytes) (db : ℕ)
        → Safe (KeysSound deps r e) (gather_db deps r read_csv e fuel names db)
    unfolding gather_db
    gather_db-Safe names db = search (group_rules, overflow_of-Safe, ends) depth 9

    gather_dbs-Safe :
        (names : List Bytes) (count db : ℕ)
        → Safe (KeysSound deps r e) (gather_dbs deps r read_csv e fuel names count db)
    unfolding gather_dbs
    gather_dbs-Safe names zero db = Safe-pure []
    gather_dbs-Safe names (suc count) db =
        Safe-bind (gather_db deps r read_csv e fuel names db) _ (gather_db-Safe names db) (λ g.
          Safe-bind (gather_dbs deps r read_csv e fuel names count (suc db)) _
            (gather_dbs-Safe names count (suc db)) (λ gs. Safe-pure _))

    gather_names-Safe :
        (count : ℕ) (names : List Bytes)
        → Safe (KeysSound deps r e) (gather_names deps r read_csv e fuel count names)
    unfolding gather_names
    gather_names-Safe count [] = Safe-pure _
    gather_names-Safe count (name ∷ names) = gather_dbs-Safe (name ∷ names) count 0

    gather_key_groups-Safe :
        (db_count : ℕ)
        → Safe
            (KeysSound deps r e)
            (gather_key_groups_metrics_for_all_databases deps r read_csv e fuel (pos db_count))
    unfolding gather_key_groups_metrics_for_all_databases
    gather_key_groups-Safe db_count = search (group_rules, gather_names-Safe) depth 9

    register_key_group_metrics-Safe :
        (label : Bytes) (g : KeyGroupMetrics)
        → Safe (KeysSound deps r e) (register_key_group_metrics deps r read_csv e fuel label g)
    unfolding register_key_group_metrics
    register_key_group_metrics-Safe label g = search group_rules depth 9

    register_db-Safe :
        (label : Bytes) (g : DbGroups)
        → Safe (KeysSound deps r e) (register_db deps r read_csv e fuel label g)
    unfolding register_db
    register_db-Safe label g = search (group_rules, register_key_group_metrics-Safe) depth 12

    register_dbs-Safe :
        (db : ℕ) (gs : List DbGroups)
        → Safe (KeysSound deps r e) (register_dbs deps r read_csv e fuel db gs)
    unfolding register_dbs
    register_dbs-Safe db [] = Safe-pure tt
    register_dbs-Safe db (g ∷ gs) =
        Safe-bind (register_db deps r read_csv e fuel (db_label db) g) _
          (register_db-Safe (db_label db) g) (λ _. register_dbs-Safe (suc db) gs)

    pub extract_key_group_metrics-Sound :
        (duration : Float) (db_count : ℕ)
        → Safe
            (KeysSound deps r e)
            (extract_key_group_metrics deps r read_csv e fuel duration (pos db_count))
    unfolding extract_key_group_metrics
    extract_key_group_metrics-Sound duration db_count =
        search (group_rules, gather_key_groups-Safe, register_dbs-Safe) depth 9

    -- With a limit of distinct groups that is not negative, and where the Lua script ends and
    -- answers with groups of three parts, extractKeyGroupMetrics does not panic for a number of
    -- databases that is not negative, keeps the exporter's descriptions, and each metric it sends
    -- fits its description, whatever else Redis answers.
    pub extract_key_group_metrics-Ends :
        (duration : Float) (db_count : ℕ) (s : Session Float Conn)
        → KeysSound deps r e s
        → Ends
            (KeysSound deps r e)
            (extract_key_group_metrics deps r read_csv e fuel duration (pos db_count) s)
    extract_key_group_metrics-Ends duration db_count s h =
        (extract_key_group_metrics-Sound duration db_count).at s h
