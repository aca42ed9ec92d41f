-- ===== src/Keys/Pipelined.antt =====
-- extractCheckKeyMetricsPipelined and getKeyInfoPipelined: commands in batches.
use redis_exporter.Base.{
  Bool, true, false, not, Option, none, some, List, [], ◌∷◌, ◌++◌, Bytes, codes, if◌then◌else◌,
  bytes_eq, ℤ, pos, Assoc, lookup, insert,
}
use redis_exporter.Deps.{Deps}
use redis_exporter.Run.{◌>>=◌, ◌>>◌, pure, case_option, for_each, for_while}
use redis_exporter.Redis.{Redis, talk}
use redis_exporter.Options.{Exporter}
use redis_exporter.Keys.Parse.{DbKeyPair}
use redis_exporter.Keys.Single.{
  Step, StringInfo, gauge, size_command, exports_value, send_value, if_some, text_of,
}

-- The keys of each database, in their order.
unfoldable pub add_key : Assoc (List Bytes) → DbKeyPair → Assoc (List Bytes)
add_key groups k = elim (lookup k.db groups) [
  | none ↦ insert k.db (k.key ∷ []) groups
  | some a ↦ insert k.db (a ++ k.key ∷ []) groups
]

unfoldable pub keys_by_db : List DbKeyPair → Assoc (List Bytes) → Assoc (List Bytes)
unfolding add_key
keys_by_db [] groups = groups
keys_by_db (k ∷ ks) groups = keys_by_db ks (add_key groups k)

-- The commands that are sent for a key of this type.
unfoldable pub commands_for : Bytes × Bytes → List (List Bytes)
unfolding size_command
commands_for (key_name, key_type) =
    if bytes_eq key_type (codes "none")
    then []
    else if bytes_eq key_type (codes "string")
    then (codes "PFCOUNT" ∷ key_name ∷ [])
      ∷ (codes "STRLEN" ∷ key_name ∷ [])
      ∷ (codes "GET" ∷ key_name ∷ [])
      ∷ []
    else elim (size_command key_type) [ none ↦ [] | some command ↦ (command ∷ key_name ∷ []) ∷ [] ]

module _ (deps : Deps) (r : Redis) (e : Exporter) where
  open deps use {Float, of_ℤ}
  open r use {Reply, Conn, string, int64}

  -- redis.String(c.Receive()) and redis.Int64(c.Receive())
  unfoldable pub receive_string : Step deps r e (Option Bytes)
  receive_string = talk (λ c. let x = r.receive c in (if_some x.0 string, x.1))

  unfoldable pub receive_int64 : Step deps r e (Option ℤ)
  receive_int64 = talk (λ c. let x = r.receive c in (if_some x.0 int64, x.1))

  -- Sends commands until one fails: whether all were sent.
  unfoldable pub send_all : List (List Bytes) → Step deps r e Bool
  send_all commands = for_while commands (λ args. talk (r.send args))

  -- The replies for a key that is a string: a HyperLogLog, a string, or neither.
  abbrev pub string_info : Option ℤ → Option ℤ → Option Bytes → StringInfo
  string_info (some n) str value = record {
    str_val = text_of value;
    key_type = codes "HLL";
    size = some n;
  }
  string_info none (some n) value = record {
    str_val = text_of value;
    key_type = codes "string";
    size = some n;
  }
  string_info none none value = record {
    str_val = text_of value;
    key_type = codes "string";
    size = none;
  }

  abbrev pub send_value_and_size : Bytes → Bytes → StringInfo → Step deps r e (Unit {0})
  send_value_and_size db_label key_name info = case_option info.size (pure tt) (λ size. do
    if exports_value deps r e info.key_type info.str_val
        then send_value deps r e db_label key_name info.str_val
        else pure tt
    gauge deps r e (codes "key_size") (of_ℤ size) (db_label ∷ key_name ∷ []))

  -- Reads the replies for one key, and sends its metrics.
  unfoldable pub receive_key : Bytes → Bytes × Bytes → Step deps r e (Unit {0})
  unfolding receive_string receive_int64 size_command send_value
  receive_key db_label (key_name, key_type) =
      if bytes_eq key_type (codes "none")
      then gauge deps r e (codes "key_size") (of_ℤ (pos 0)) (db_label ∷ key_name ∷ [])
      else if bytes_eq key_type (codes "string")
      then (do
        hll ← receive_int64
        str ← receive_int64
        value ← receive_string
        send_value_and_size db_label key_name (string_info hll str value))
      else case_option (size_command key_type) (pure tt) (λ command. do
        size ← receive_int64
        send_value_and_size db_label key_name
            (record { str_val = []; key_type = key_type; size = size }))

  abbrev pub concat_commands : List (Bytes × Bytes) → List (List Bytes)
  concat_commands [] = []
  concat_commands (k ∷ ks) = commands_for k ++ concat_commands ks

  -- `keys` pairs each name with its type.
  unfoldable pub get_key_info_pipelined : Bytes → List (Bytes × Bytes) → Step deps r e (Unit {0})
  unfolding commands_for send_all receive_key
  get_key_info_pipelined db_label keys = do
    sent ← send_all (concat_commands keys)
    if not sent then pure tt else do
      flushed ← talk r.flush
      if flushed then for_each keys (receive_key db_label) else pure tt

  -- The type of a key, and its memory usage. Where the type cannot be read it is "", and the reply of
  -- MEMORY USAGE stays unread.
  unfoldable pub receive_type : Bytes → Bytes → Step deps r e Bytes
  unfolding receive_string receive_int64
  receive_type db_label key_name = do
    key_type ← receive_string
    case_option key_type (pure tt) (λ _. do
      usage ← receive_int64
      case_option usage (pure tt) (λ n.
          gauge deps r e (codes "key_memory_usage_bytes") (of_ℤ n) (db_label ∷ key_name ∷ [])))
    pure (text_of key_type)

  unfoldable pub receive_types : Bytes → List Bytes → Step deps r e (List (Bytes × Bytes))
  unfolding receive_type
  receive_types db_label [] = pure []
  receive_types db_label (key_name ∷ keys) = receive_type db_label key_name >>= λ key_type.
      receive_types db_label keys >>= λ rest. pure ((key_name, key_type) ∷ rest)

  abbrev pub type_commands : List Bytes → List (List Bytes)
  type_commands [] = []
  type_commands (k ∷ ks) =
      (codes "TYPE" ∷ k ∷ []) ∷ (codes "MEMORY" ∷ codes "USAGE" ∷ k ∷ []) ∷ type_commands ks

  -- One database: `false` is a return from the method.
  unfoldable pub check_db : Bytes × List Bytes → Step deps r e Bool
  unfolding send_all receive_types get_key_info_pipelined receive_string
  check_db (db_num, keys) = do
    let db_label = codes "db" ++ db_num
    selected ← talk (r.send (codes "SELECT" ∷ db_num ∷ []))
    if not selected then pure true else do
      sent ← send_all (type_commands keys)
      if not sent then pure false else do
        flushed ← talk r.flush
        if not flushed then pure false else do
          reply ← receive_string
          case_option reply (pure true) (λ _. do
            types ← receive_types db_label keys
            get_key_info_pipelined db_label types
            pure true)

  unfoldable pub extract_check_key_metrics_pipelined : List DbKeyPair → Step deps r e (Unit {0})
  unfolding check_db keys_by_db
  extract_check_key_metrics_pipelined all_keys = do
    for_while (keys_by_db all_keys []) check_db
    pure tt
