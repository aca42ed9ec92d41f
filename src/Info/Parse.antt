-- ===== src/Info/Parse.antt =====
-- The parsers of exporter/info.go. A Go result `(values, ok)` whose values are not read unless `ok`
-- is an Option; where they are read beside an error, the result is a record with all of them.
use redis_exporter.Base.{
  Bool, true, false, Option, none, some, List, [], ◌∷◌, Bytes, codes, strip_prefix, has_prefix,
  if◌then◌else◌, pos, negsuc, Assoc, lookup, insert, string_at,
}
use redis_exporter.Base.Chain.{◌>>=◌, ◌>>◌, guard}
use redis_exporter.Deps.{Deps}
use redis_exporter.Text.Split.{split}
use redis_exporter.Text.Number.{Parsed}
use redis_exporter.Info.Fields.{is_slave}

-- The parts of `key=value`.
abbrev pub pair_of : List Bytes → Option (Bytes × Bytes)
pair_of (k ∷ v ∷ []) = some (k, v)
pair_of _ = none

-- A result `(value, err)` as a value that is there only where `err` is nil.
abbrev pub if_parsed {ℓ} : {A : Type ℓ} → Parsed A → Option A
if_parsed p = if p.failed then none else some p.value

-- `m[x[0]] = x[1]` for each part that splits in two; `none` where one does not.
unfoldable pub parse_pairs : List Bytes → Assoc Bytes → Option (Assoc Bytes)
parse_pairs [] m = some m
parse_pairs (part ∷ parts) m = elim (pair_of (split b'=' part)) [
  | none ↦ none
  | some (k, v) ↦ parse_pairs parts (insert k v m)
]

-- What parseDBKeyspaceString returns: keysTotal, keysExpiringTotal, avgTTL, keysCachedTotal.
pub record Keyspace (F : Type 0) : Type 0 where
  pub keys_total : F
  pub keys_expiring_total : F
  pub avg_ttl : F
  pub keys_cached_total : F

-- What parseConnectedSlaveString returns.
pub record Slave (F : Type 0) : Type 0 where
  pub offset : F
  pub ip : Bytes
  pub port : Bytes
  pub state : Bytes
  pub lag : F

-- What parseMetricsCommandStats returns; `failed` is `errorOut != nil`.
pub record CommandStats (F : Type 0) : Type 0 where
  pub cmd : Bytes
  pub calls : F
  pub rejected_calls : F
  pub failed_calls : F
  pub usec_total : F
  pub extended_stats : Bool
  pub failed : Bool

module _ (deps : Deps) where
  open deps use {Float, of_ℤ, parse_float, div, float_eq}

  unfoldable pub extract_val : Bytes → Parsed Float
  extract_val s = elim (pair_of (split b'=' s)) [
    | none ↦ record { value = of_ℤ (pos 0); failed = true }
    | some (k, v) ↦
        let p = parse_float v in
        if p.failed then record { value = of_ℤ (pos 0); failed = true } else p
  ]

  -- The cases of `len(split)`. `none` is Go's panic: `split[0][1:]` where `split[0]` is empty.
  unfoldable pub percentile_parts : List Bytes → Option (Float × Parsed Float)
  percentile_parts ([] ∷ v ∷ []) = none
  percentile_parts ((c ∷ rest) ∷ v ∷ []) =
      let p = parse_float rest in
      if p.failed
      then some (p.value, record { value = of_ℤ (pos 0); failed = true })
      else some (p.value, parse_float v)
  percentile_parts _ = some (of_ℤ (pos 0), record { value = of_ℤ (pos 0); failed = false })

  unfoldable pub extract_percentile_val : Bytes → Option (Float × Parsed Float)
  unfolding percentile_parts
  extract_percentile_val s = percentile_parts (split b'=' s)

  abbrev pub minus_one : Float
  minus_one = of_ℤ (negsuc 0)

  abbrev keyspace_of : Float → Float → Float → Float → Keyspace Float
  keyspace_of total expiring ttl cached = record {
    keys_total = total;
    keys_expiring_total = expiring;
    avg_ttl = ttl;
    keys_cached_total = cached;
  }

  -- The cases of `len(split)`: below 2 or above 4 it is refused.
  unfoldable pub keyspace_parts : List Bytes → Option (Keyspace Float)
  keyspace_parts (k ∷ e ∷ []) = do
    total ← if_parsed (extract_val k)
    expiring ← if_parsed (extract_val e)
    some (keyspace_of total expiring minus_one minus_one)
  keyspace_parts (k ∷ e ∷ t ∷ []) = do
    total ← if_parsed (extract_val k)
    expiring ← if_parsed (extract_val e)
    ttl ← if_parsed (extract_val t)
    some (keyspace_of total expiring (div ttl (of_ℤ (pos 1000))) minus_one)
  keyspace_parts (k ∷ e ∷ t ∷ c ∷ []) = do
    total ← if_parsed (extract_val k)
    expiring ← if_parsed (extract_val e)
    ttl ← if_parsed (extract_val t)
    cached ← if_parsed (extract_val c)
    some (keyspace_of total expiring (div ttl (of_ℤ (pos 1000))) cached)
  keyspace_parts _ = none

  unfoldable pub parse_db_keyspace_string : Bytes → Bytes → Option (Keyspace Float)
  unfolding keyspace_parts
  parse_db_keyspace_string input_key input_val =
      if has_prefix (codes "db") input_key then keyspace_parts (split b',' input_val) else none

  unfoldable pub slave_of : Assoc Bytes → Option (Slave Float)
  slave_of pairs = do
    offset ← if_parsed (parse_float (string_at pairs (codes "offset")))
    lag ← elim (lookup (codes "lag") pairs) [
      | none ↦ some minus_one
      | some lag ↦ if_parsed (parse_float lag)
    ]
    some (record {
      offset = offset;
      ip = string_at pairs (codes "ip");
      port = string_at pairs (codes "port");
      state = string_at pairs (codes "state");
      lag = lag;
    })

  unfoldable pub parse_connected_slave_string : Bytes → Bytes → Option (Slave Float)
  unfolding slave_of parse_pairs
  parse_connected_slave_string slave_name key_values = do
    guard (is_slave slave_name)
    pairs ← parse_pairs (split b',' key_values) []
    slave_of pairs

  abbrev no_stats : CommandStats Float
  no_stats = record {
    cmd = [];
    calls = of_ℤ (pos 0);
    rejected_calls = of_ℤ (pos 0);
    failed_calls = of_ℤ (pos 0);
    usec_total = of_ℤ (pos 0);
    extended_stats = false;
    failed = true;
  }

  -- The values behind the first three, from Redis 6.2 on: rejected_calls and failed_calls.
  abbrev extended_parts : CommandStats Float → List Bytes → CommandStats Float
  extended_parts stats (r ∷ f ∷ rest) =
      let rejected = extract_val r in
      let failed = extract_val f in
      if rejected.failed
      then record stats { rejected_calls = rejected.value }
      else if failed.failed
      then record stats { rejected_calls = rejected.value; failed_calls = failed.value }
      else record stats {
        rejected_calls = rejected.value;
        failed_calls = failed.value;
        extended_stats = true;
        failed = false;
      }
  extended_parts stats _ = record stats { failed = false }

  unfoldable pub command_stats_parts : Bytes → List Bytes → CommandStats Float
  command_stats_parts cmd (c ∷ u ∷ p ∷ rest) =
      let calls = extract_val c in
      let usec = extract_val u in
      if calls.failed
      then record no_stats { cmd = cmd; calls = calls.value }
      else if usec.failed
      then record no_stats { cmd = cmd; calls = calls.value; usec_total = usec.value }
      else extended_parts
          (record no_stats { cmd = cmd; calls = calls.value; usec_total = usec.value }) rest
  command_stats_parts cmd _ = record no_stats { cmd = cmd }

  unfoldable pub parse_metrics_command_stats : Bytes → Bytes → CommandStats Float
  unfolding command_stats_parts
  parse_metrics_command_stats field_key field_value =
      elim (strip_prefix (codes "cmdstat_") field_key) [
        | none ↦ no_stats
        | some cmd ↦ command_stats_parts cmd (split b',' field_value)
      ]

  -- A `map[float64]float64`: a key that is equal to one already there replaces its value.
  unfoldable pub insert_float : Float → Float → List (Float × Float) → List (Float × Float)
  insert_float p v [] = (p, v) ∷ []
  insert_float p v ((q, w) ∷ m) = if float_eq q p then (q, v) ∷ m else (q, w) ∷ insert_float p v m

  -- The outer `none` is a panic, and the inner one an error.
  unfoldable pub percentiles :
      List Bytes → List (Float × Float) → Option (Option (List (Float × Float)))
  unfolding extract_percentile_val insert_float
  percentiles [] m = some (some m)
  percentiles (kv ∷ kvs) m = elim (extract_percentile_val kv) [
    | none ↦ none
    | some (p, v) ↦ elim v.failed [
      | true ↦ some none
      | false ↦ percentiles kvs (insert_float p v.value m)
    ]
  ]

  unfoldable pub parse_metrics_latency_stats :
      Bytes → Bytes → Option (Option (Bytes × List (Float × Float)))
  unfolding percentiles
  parse_metrics_latency_stats field_key field_value =
      elim (strip_prefix (codes "latency_percentiles_usec_") field_key) [
        | none ↦ some none
        | some cmd ↦ elim (percentiles (split b',' field_value) []) [
          | none ↦ none
          | some none ↦ some none
          | some (some m) ↦ some (some (cmd, m))
        ]
      ]

  unfoldable pub parse_metrics_error_stats : Bytes → Bytes → Option (Bytes × Float)
  parse_metrics_error_stats field_key field_value = do
    error_type ← strip_prefix (codes "errorstat_") field_key
    count ← if_parsed (extract_val field_value)
    some (error_type, count)
