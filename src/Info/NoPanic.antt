-- ===== src/Info/NoPanic.antt =====
-- A scrape of INFO does not panic, and what it sends fits the descriptions.
use redis_exporter.Base.{
  ℕ, zero, suc, ◌≡◌, ◌≢◌, refl, Bool, true, none, some, List, [], ◌∷◌, Bytes, codes, ℤ, All, Assoc,
  Option-cases, inl, inr, lookup, bytes_eq,
}
use redis_exporter.Deps.{Deps}
use redis_exporter.Text.Split.{split, cut}
use redis_exporter.Text.Trim.{trim_space}
use redis_exporter.Metrics.{Channel}
use redis_exporter.Metrics.Safe.{sound_rules, create_gauge-Sound, register_summary-Sound}
use redis_exporter.Run.Safe.{Safe, Ends, Safe-bind, Safe-pure}
use redis_exporter.Tables.Init.{initial_descriptions}
use redis_exporter.Tables.Described.{described_rules}
use redis_exporter.Options.{Exporter}
use redis_exporter.Info.Parse.{Keyspace, parse_metrics_latency_stats}
use redis_exporter.Info.Sound.{
  IsKnown, InfoSound, parse_and_register-Sound, handle_metrics_replication-Sound,
  handle_metrics_server-Sound, handle_metrics_command_stats-Sound, handle_metrics_error_stats-Sound,
  handle_metrics_sentinel-Sound,
}
use redis_exporter.Info.Extract.{
  InfoScan, remember, generic_field, send_keyspace, add_latency, handle_field, handle_line,
  handle_lines, command_latency_summary, generate_command_latency_summaries, empty_database,
  empty_databases, instance_info, send_instance_info, extract_info_metrics,
}

-- A line whose field, if it is one of those that reMasterDirect matches, is known by name, and whose
-- percentiles, if it is in the form of a latency field, all have a name.
abbrev pub IsTame : Deps → Bytes → Type 0
IsTame deps raw =
    (key value : Bytes)
    → cut b':' (trim_space raw) ≡ some (key, value)
    → IsKnown deps key × (parse_metrics_latency_stats deps key value ≢ none)

module _ (deps : Deps) (now : ℤ) (e : Exporter) where
  open deps use {Float, accepts}

  pub generic_field-Sound :
      (key value : Bytes) → Safe (InfoSound deps) (generic_field deps now e key value)
  unfolding generic_field
  generic_field-Sound key value = search (sound_rules, parse_and_register-Sound)

  send_keyspace-Sound :
      (db : Bytes) (k : Keyspace Float) → Safe (InfoSound deps) (send_keyspace deps now e db k)
  unfolding send_keyspace
  send_keyspace-Sound db k = search (sound_rules, described_rules) depth 9

  add_latency-Sound :
      (key value : Bytes) (s : InfoScan Float)
      → parse_metrics_latency_stats deps key value ≢ none
      → Safe (InfoSound deps) (add_latency deps now e key value s)
  add_latency-Sound key value s h = record {
    at = λ c p. elim (Option-cases (parse_metrics_latency_stats deps key value)) [
      | inl e ↦ absurd (h e)
      | inr (none, e) ↦ rw (e, Ends) p
      | inr (some m, e) ↦ rw (e, Ends) p
    ];
  }

  handle_field-Sound :
      (key value : Bytes) (s : InfoScan Float)
      → IsKnown deps key
      → parse_metrics_latency_stats deps key value ≢ none
      → Safe (InfoSound deps) (handle_field deps now e key value s)
  unfolding handle_field
  handle_field-Sound key value s known fine =
      search
        (
          sound_rules, generic_field-Sound, send_keyspace-Sound, add_latency-Sound,
          handle_metrics_replication-Sound, handle_metrics_server-Sound,
          handle_metrics_command_stats-Sound, handle_metrics_error_stats-Sound,
          handle_metrics_sentinel-Sound,
        )
        depth 14

  tame_field :
      (raw : Bytes) (s : InfoScan Float)
      → IsTame deps raw
      → (x : Bytes × Bytes) → cut b':' (trim_space raw) ≡ some x
      → Safe (InfoSound deps) (handle_field deps now e x.0 x.1 (remember x.0 x.1 s))
  tame_field raw s tame (key, value) found =
      handle_field-Sound key value _ (tame key value found).0 (tame key value found).1

  handle_line-Sound :
      (raw : Bytes) (s : InfoScan Float)
      → IsTame deps raw
      → Safe (InfoSound deps) (handle_line deps now e raw s)
  unfolding handle_line
  handle_line-Sound raw s tame = search (sound_rules, tame_field raw s tame)

  handle_lines-Sound :
      (lines : List Bytes) (s : InfoScan Float)
      → All (IsTame deps) lines
      → Safe (InfoSound deps) (handle_lines deps now e lines s)
  unfolding handle_lines
  handle_lines-Sound [] s h = Safe-pure s
  handle_lines-Sound (line ∷ lines) s (h, hs) =
      Safe-bind (handle_line deps now e line s) _ (handle_line-Sound line s h)
        (λ s'. handle_lines-Sound lines s' hs)

module _ (deps : Deps) (now : ℤ) (e : Exporter) where
  open deps use {Float, accepts}

  -- The client takes every value for the label of the latency summary.
  abbrev pub TakesCommands : Type 0
  TakesCommands =
      (cmd : Bytes)
      → accepts (codes "latency_percentiles_usec") (codes "cmd" ∷ []) (cmd ∷ []) ≡ true

  latency_described :
      lookup (codes "latency_percentiles_usec") initial_descriptions
      ≡ some (record { name = codes "latency_percentiles_usec"; labels = codes "cmd" ∷ [] })
  unfolding initial_descriptions lookup bytes_eq
  latency_described = refl

  command_latency_summary-Sound :
      TakesCommands
      → (s : InfoScan Float) (x : Bytes × List (Float × Float))
      → Safe (InfoSound deps) (command_latency_summary deps now e s x)
  unfolding command_latency_summary
  command_latency_summary-Sound takes s (cmd, m) =
      search (sound_rules, register_summary-Sound, latency_described, takes) depth 8

  generate-Sound :
      TakesCommands
      → (s : InfoScan Float)
      → Safe (InfoSound deps) (generate_command_latency_summaries deps now e s)
  unfolding generate_command_latency_summaries
  generate-Sound takes s = search (sound_rules, command_latency_summary-Sound takes)

  empty_database-Sound :
      (handled : Assoc Bool) (index : ℕ)
      → Safe (InfoSound deps) (empty_database deps now e handled index)
  unfolding empty_database
  empty_database-Sound handled index = search (sound_rules, described_rules)

  empty_databases-Sound :
      (handled : Assoc Bool) (index left : ℕ)
      → Safe (InfoSound deps) (empty_databases deps now e handled index left)
  unfolding empty_databases
  empty_databases-Sound handled index zero = Safe-pure tt
  empty_databases-Sound handled index (suc left) =
      Safe-bind (empty_database deps now e handled index) _ (empty_database-Sound handled index)
        (λ _. empty_databases-Sound handled (suc index) left)

  send_instance_info-Sound :
      (key_values : Assoc Bytes) → Safe (InfoSound deps) (send_instance_info deps now e key_values)
  unfolding send_instance_info instance_info
  send_instance_info-Sound key_values = create_gauge-Sound deps initial_descriptions _ _ _ _ _

  pub extract_info_metrics-Sound :
      (info : Bytes) (db_count : ℤ)
      → All (IsTame deps) (split 10 info)
      → TakesCommands
      → Safe (InfoSound deps) (extract_info_metrics deps now e info db_count)
  unfolding extract_info_metrics
  extract_info_metrics-Sound info db_count tame takes =
      search
        (
          sound_rules,
          described_rules,
          handle_lines-Sound deps now e (split 10 info) _ tame,
          generate-Sound takes,
          empty_databases-Sound,
          send_instance_info-Sound,
        )
        depth 12

  -- From a channel with the exporter's descriptions, in which every metric fits its description,
  -- extractInfoMetrics returns (it does not panic), keeps those descriptions, and each metric that
  -- it sends has as many label values as its description has labels. This holds for any text whose
  -- lines are tame: no line of Latencystats has a percentile without a name, and a field of
  -- Replication that reMasterDirect matches has a description. The client takes any command name
  -- as a label value.
  pub extract_info_metrics-Ends :
      (info : Bytes) (db_count : ℤ) (c : Channel Float)
      → All (IsTame deps) (split 10 info)
      → TakesCommands
      → InfoSound deps c
      → Ends (InfoSound deps) (extract_info_metrics deps now e info db_count c)
  extract_info_metrics-Ends info db_count c tame takes h =
      (extract_info_metrics-Sound info db_count tame takes).at c h
