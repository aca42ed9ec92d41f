-- ===== src/Keys/Single.antt =====
-- getStringInfoNotPipelined, getKeyInfo and extractCheckKeyMetricsNotPipelined: one command after the
-- other.
use redis_exporter.Base.{
  Bool, not, ◌&&◌, Option, none, some, List, [], ◌∷◌, Bytes, codes, if◌then◌else◌, bytes_eq, ℤ, pos,
}
use redis_exporter.Deps.{Deps}
use redis_exporter.Run.{◌>>=◌, ◌>>◌, pure, case_option, for_each}
use redis_exporter.Metrics.{register_const_metric_gauge}
use redis_exporter.Redis.{Redis, Act, collect, talk}
use redis_exporter.Options.{Exporter}
use redis_exporter.Keys.Parse.{DbKeyPair}

-- The command that gives the size of a key of this type; `none` for a type that is not known.
unfoldable pub size_command : Bytes → Option Bytes
size_command key_type =
    if bytes_eq key_type (codes "list")
    then some (codes "LLEN")
    else if bytes_eq key_type (codes "set")
    then some (codes "SCARD")
    else if bytes_eq key_type (codes "zset")
    then some (codes "ZCARD")
    else if bytes_eq key_type (codes "hash")
    then some (codes "HLEN")
    else if bytes_eq key_type (codes "stream")
    then some (codes "XLEN")
    else none

-- What getStringInfoNotPipelined returns; the size is `none` where `err` is not nil.
pub record StringInfo : Type 0 where
  pub str_val : Bytes
  pub key_type : Bytes
  pub size : Option ℤ

abbrev pub if_some {ℓ κ} : {A : Type ℓ} {B : Type κ} → Option A → (A → Option B) → Option B
if_some none f = none
if_some (some a) f = f a

abbrev pub text_of : Option Bytes → Bytes
text_of none = []
text_of (some s) = s

module _ (deps : Deps) (r : Redis) (e : Exporter) where
  open deps use {Float, of_ℤ, parse_float}
  open r use {Reply, Conn, string, int64}

  abbrev pub Step : Type 0 → Type 0
  Step A = Act Float Conn A

  -- redis.String(doRedisCmd(c, …)) and redis.Int64(doRedisCmd(c, …))
  unfoldable pub string_cmd : List Bytes → Step (Option Bytes)
  string_cmd args = talk (λ c. let x = r.do_cmd args c in (if_some x.0 string, x.1))

  unfoldable pub int64_cmd : List Bytes → Step (Option ℤ)
  int64_cmd args = talk (λ c. let x = r.do_cmd args c in (if_some x.0 int64, x.1))

  abbrev pub gauge : Bytes → Float → List Bytes → Step (Unit {0})
  gauge metric val values = collect (register_const_metric_gauge deps metric val values)

  unfoldable pub get_string_info_not_pipelined : Bytes → Step StringInfo
  unfolding string_cmd int64_cmd
  get_string_info_not_pipelined key = do
    value ← string_cmd (codes "GET" ∷ key ∷ [])
    let str_val = text_of value
    hll ← int64_cmd (codes "PFCOUNT" ∷ key ∷ [])
    case_option hll
        (do
          size ← int64_cmd (codes "STRLEN" ∷ key ∷ [])
          case_option size (pure (record { str_val = str_val; key_type = []; size = none }))
              (λ n. pure (record { str_val = str_val; key_type = codes "string"; size = some n })))
        (λ n. pure (record { str_val = str_val; key_type = codes "HLL"; size = some n }))

  -- A value that is a float as `key_value`, another as `key_value_as_string`.
  unfoldable pub send_value : Bytes → Bytes → Bytes → Step (Unit {0})
  send_value db_label key_name str_val =
      let val = parse_float str_val in
      if val.failed
      then gauge (codes "key_value_as_string") (of_ℤ (pos 1)) (db_label ∷ key_name ∷ str_val ∷ [])
      else gauge (codes "key_value") val.value (db_label ∷ key_name ∷ [])

  -- Only single value strings have their value exported.
  abbrev pub exports_value : Bytes → Bytes → Bool
  exports_value key_type str_val =
      bytes_eq key_type (codes "string")
      && not e.options.disable_exporting_key_values
      && not (bytes_eq str_val [])

  unfoldable pub send_size_and_value : Bytes → Bytes → StringInfo → Step (Unit {0})
  unfolding send_value
  send_size_and_value db_label key_name info = case_option info.size (pure tt) (λ size. do
    gauge (codes "key_size") (of_ℤ size) (db_label ∷ key_name ∷ [])
    if exports_value info.key_type info.str_val
        then send_value db_label key_name info.str_val
        else pure tt)

  unfoldable pub get_key_info : Bytes → Bytes → Bytes → Step (Unit {0})
  unfolding send_size_and_value get_string_info_not_pipelined size_command int64_cmd
  get_key_info db_label key_type key_name =
      if bytes_eq key_type (codes "none")
      then gauge (codes "key_size") (of_ℤ (pos 0)) (db_label ∷ key_name ∷ [])
      else if bytes_eq key_type (codes "string")
      then (do
        info ← get_string_info_not_pipelined key_name
        send_size_and_value db_label key_name info)
      else case_option (size_command key_type) (pure tt) (λ command. do
        size ← int64_cmd (command ∷ key_name ∷ [])
        send_size_and_value db_label key_name
            (record { str_val = []; key_type = key_type; size = size }))

  -- The body of the loop; the database of a cluster is 0.
  unfoldable pub check_key : DbKeyPair → Step (Unit {0})
  unfolding get_key_info string_cmd int64_cmd
  check_key k = do
    let db_label = codes "db0"
    key_type ← string_cmd (codes "TYPE" ∷ k.key ∷ [])
    case_option key_type (pure tt) (λ type. do
      usage ← int64_cmd (codes "MEMORY" ∷ codes "USAGE" ∷ k.key ∷ [])
      case_option usage (pure tt)
          (λ n. gauge (codes "key_memory_usage_bytes") (of_ℤ n) (db_label ∷ k.key ∷ []))
      get_key_info db_label type k.key)

  unfoldable pub extract_check_key_metrics_not_pipelined : List DbKeyPair → Step (Unit {0})
  unfolding check_key
  extract_check_key_metrics_not_pipelined all_keys = for_each all_keys check_key
