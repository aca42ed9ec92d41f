-- ===== src/Sentinels.antt =====
-- exporter/sentinels.go: the Sentinel section of INFO, and the count of the sentinels and the
-- replicas that are up.
use redis_exporter.Base.{
  ℕ, ◌+◌, Bool, true, false, ◌||◌, Option, none, some, List, [], ◌∷◌, Bytes, codes, bytes_eq,
  strip_prefix, contains, if◌then◌else◌, pos, Assoc, lookup, insert, string_at,
}
use redis_exporter.Deps.{Deps}
use redis_exporter.Text.Split.{split}
use redis_exporter.Text.Number.{parse_int}
use redis_exporter.Metrics.{Collect, register_const_metric_gauge}
use redis_exporter.Run.{◌>>◌, pure, case_option}
use redis_exporter.Info.Fields.{skip_digits}
use redis_exporter.Info.Parse.{pair_of, if_parsed}

-- What parseSentinelMasterString returns.
pub record SentinelMaster (F : Type 0) : Type 0 where
  pub master_name : Bytes
  pub master_status : Bytes
  pub master_addr : Bytes
  pub master_slaves : F
  pub master_sentinels : F

-- `m[x[0]] = x[1]` for each part that splits in two; the other parts are passed over.
unfoldable pub collect_pairs : List Bytes → Assoc Bytes → Assoc Bytes
collect_pairs [] m = m
collect_pairs (part ∷ parts) m =
    collect_pairs parts (elim (pair_of (split b'=' part)) [ none ↦ m | some (k, v) ↦ insert k v m ])

-- `^master\d+`
unfoldable pub is_sentinel_master : Bytes → Bool
unfolding strip_prefix skip_digits
is_sentinel_master key = elim (strip_prefix (codes "master") key) [
  | none ↦ false
  | some rest ↦ elim (skip_digits rest) [ none ↦ false | some t ↦ true ]
]

unfoldable pub is_down : Bytes → Bool
is_down flags = contains (codes "o_down") flags || contains (codes "s_down") flags

-- The entries whose flags are there and say neither o_down nor s_down. An entry is what
-- redis.StringMap returns, with `none` for an error.
unfoldable pub count_up : List (Option (Assoc Bytes)) → ℕ → ℕ
unfolding is_down
count_up [] n = n
count_up (none ∷ details) n = count_up details n
count_up (some detail ∷ details) n = count_up details (elim (lookup (codes "flags") detail) [
  | none ↦ n
  | some flags ↦ if is_down flags then n else n + 1
])

abbrev is_sentinel_counter : Bytes → Bool
is_sentinel_counter key =
    bytes_eq key (codes "sentinel_masters")
    || bytes_eq key (codes "sentinel_tilt")
    || bytes_eq key (codes "sentinel_running_scripts")
    || bytes_eq key (codes "sentinel_scripts_queue_length")
    || bytes_eq key (codes "sentinel_simulate_failure_flags")

module _ (deps : Deps) where
  open deps use {Float, of_ℤ, parse_float}

  abbrev gauge : Bytes → Float → List Bytes → Collect Float (Unit {0})
  gauge = register_const_metric_gauge deps

  unfoldable pub sentinel_master_of : Assoc Bytes → Option (SentinelMaster Float)
  sentinel_master_of info = elim (if_parsed (parse_float (string_at info (codes "slaves")))) [
    | none ↦ none
    | some slaves ↦ elim (if_parsed (parse_float (string_at info (codes "sentinels")))) [
      | none ↦ none
      | some sentinels ↦ some (record {
        master_name = string_at info (codes "name");
        master_status = string_at info (codes "status");
        master_addr = string_at info (codes "address");
        master_slaves = slaves;
        master_sentinels = sentinels;
      })
    ]
  ]

  unfoldable pub parse_sentinel_master_string : Bytes → Bytes → Option (SentinelMaster Float)
  unfolding is_sentinel_master collect_pairs sentinel_master_of
  parse_sentinel_master_string master master_info =
      if is_sentinel_master master
      then sentinel_master_of (collect_pairs (split b',' master_info) [])
      else none

  unfoldable pub send_sentinel_master : SentinelMaster Float → Collect Float (Unit {0})
  send_sentinel_master m = do
    let status = of_ℤ (if bytes_eq m.master_status (codes "ok") then pos 1 else pos 0)
    gauge (codes "sentinel_master_status") status
        (m.master_name ∷ m.master_addr ∷ m.master_status ∷ [])
    gauge (codes "sentinel_master_slaves") m.master_slaves (m.master_name ∷ m.master_addr ∷ [])
    gauge (codes "sentinel_master_sentinels") m.master_sentinels
        (m.master_name ∷ m.master_addr ∷ [])

  unfoldable pub handle_metrics_sentinel : Bytes → Bytes → Collect Float (Unit {0})
  unfolding send_sentinel_master case_option
  handle_metrics_sentinel field_key field_value =
      if is_sentinel_counter field_key
      then gauge field_key (of_ℤ (parse_int field_value).value) []
      else case_option (parse_sentinel_master_string field_key field_value) (pure tt)
          send_sentinel_master

  -- The count starts at one: the sentinel that answers is up.
  unfoldable pub process_sentinel_sentinels :
      List (Option (Assoc Bytes)) → List Bytes → Collect Float (Unit {0})
  unfolding count_up
  process_sentinel_sentinels sentinel_details labels =
      gauge (codes "sentinel_master_ok_sentinels") (of_ℤ (pos (count_up sentinel_details 1))) labels

  unfoldable pub process_sentinel_slaves :
      List (Option (Assoc Bytes)) → List Bytes → Collect Float (Unit {0})
  unfolding count_up
  process_sentinel_slaves slave_details labels =
      gauge (codes "sentinel_master_ok_slaves") (of_ℤ (pos (count_up slave_details 0))) labels
