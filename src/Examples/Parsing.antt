-- ===== src/Examples/Parsing.antt =====
-- Concrete lines, options and addresses for the parsers.
use redis_exporter.Base.{
  ℕ, ap, ◌∙◌, inl, inr, insert, ℤ, ◌≡◌, ◌↔◌, refl, true, false, none, some, List, [], ◌∷◌, ◌++◌,
  map, Bytes, codes, pos, All, lookup, bytes_eq, has_prefix, arith,
}
use redis_exporter.Deps.{whole_numbers}
use redis_exporter.Text.Split.{join, Lacks}
use redis_exporter.Text.Number.{parse_int}
use redis_exporter.Info.Fields.{is_slave}
use redis_exporter.Info.Handlers.{handle_metrics_replication}
use redis_exporter.Info.Parse.{
  minus_one, extract_percentile_val, parse_db_keyspace_string, parse_connected_slave_string,
}
use redis_exporter.Info.Extract.{InfoScan, info_start, handle_field}
use redis_exporter.Info.Sends.{sending, db_gauge, handle_field-keyspace}
use redis_exporter.Metrics.{
  Channel, MetricMaps, const, gauge_value, send, parse_and_register_const_metric,
}
use redis_exporter.Metrics.Names.{Character, name_byte, other, IsCharacter, text_of, name_of}
use redis_exporter.Metrics.Sends.{
  plain_desc, with_description, IsNamed, IsTyped, HasValue,
  parse_and_register_const_metric-exported,
}
use redis_exporter.Info.Panic.{
  EndsWith, handle_metrics_replication_panics, extract_percentile_val_panics,
}
use redis_exporter.Info.RoundTrip.{
  print_pairs, IsClean, slave_fields, float_of, parse_db_keyspace_string-print,
  parse_connected_slave_string-print,
}
use redis_exporter.Keys.Parse.{parse_key_arg}
use redis_exporter.Keys.ParseLaws.{
  IsUsable, IsPrintable, print_item, pair_for, parse_key_arg-IsUsable, parse_key_arg-print,
}
use redis_exporter.Clients.Parse.{empty_client, set_address}
use redis_exporter.Clients.Address.{set_address-print}
use redis_exporter.KeyGroups.Gather.{KeyGroupMetrics}
use redis_exporter.KeyGroups.Overflow.{OverflowedKeyGroupMetrics, overflow_of}
use redis_exporter.KeyGroups.Totals.{IsOverflowOf, overflow_of-IsOverflowOf}
use redis_exporter.Tables.Init.{initial_descriptions}
use redis_exporter.Examples.Server.{sample_exporter, fresh_channel, fresh_channel-IsSound}

lag-described : lookup (codes "slave_repl_offset_lag") initial_descriptions ≡ none
unfolding initial_descriptions lookup bytes_eq
lag-described = refl

-- A text ends with one byte.
abbrev last_byte : Bytes → ℕ
last_byte [] = 0
last_byte (c ∷ []) = c
last_byte (c ∷ d ∷ s) = last_byte (d ∷ s)

last_byte-append : (s : Bytes) (c : ℕ) (t : Bytes) → last_byte (s ++ c ∷ t) ≡ last_byte (c ∷ t)
last_byte-append [] c t = refl
last_byte-append (b ∷ []) c t = refl
last_byte-append (b ∷ d ∷ s) c t = last_byte-append (d ∷ s) c t

lag-io : ¬ EndsWith whole_numbers (codes "last_io_seconds_ago") (codes "slave_repl_offset_lag")
lag-io (front, e) =
    let same : b'g' ≡ b'o' =
      ap last_byte e ∙ last_byte-append front b'l' (codes "ast_io_seconds_ago") in
    absurd (omega (arith, same))

lag-sync : ¬ EndsWith whole_numbers (codes "sync_in_progress") (codes "slave_repl_offset_lag")
lag-sync (front, e) =
    let same : b'g' ≡ b's' =
      ap last_byte e ∙ last_byte-append front b's' (codes "ync_in_progress") in
    absurd (omega (arith, same))

handle_metrics_replication_panics_example :
    (lookup (codes "slave_repl_offset_lag") initial_descriptions ≡ none)
    × (handle_metrics_replication whole_numbers
          (codes "10.0.0.1")
          (codes "6379")
          (codes "slave_repl_offset_lag")
          (codes "5")
          fresh_channel
        ≡ none)
handle_metrics_replication_panics_example =
    handle_metrics_replication_panics whole_numbers (codes "10.0.0.1") (codes "6379") (codes "lag")
      (codes "5") b'_' fresh_channel lag-io lag-sync lag-described

extract_percentile_val_panics_example :
    (extract_percentile_val whole_numbers (codes "=0.5") ≡ none)
    ↔ ((v : Bytes) × Lacks b'=' v × (codes "=0.5" ≡ b'=' ∷ v))
extract_percentile_val_panics_example = extract_percentile_val_panics whole_numbers (codes "=0.5")

parse_key_arg-IsUsable_example : All IsUsable (parse_key_arg (codes "db1=a,,=b,c")).0
parse_key_arg-IsUsable_example = parse_key_arg-IsUsable (codes "db1=a,,=b,c")

two_items : All IsPrintable ((1, codes "total") ∷ (0, codes "user:7") ∷ [])
two_items = ground arith

parse_key_arg-print_example :
    parse_key_arg (join b',' (map print_item ((1, codes "total") ∷ (0, codes "user:7") ∷ [])))
    ≡ (map pair_for ((1, codes "total") ∷ (0, codes "user:7") ∷ []), none)
parse_key_arg-print_example =
    parse_key_arg-print ((1, codes "total") ∷ (0, codes "user:7") ∷ []) two_items

set_address-print_example :
    set_address (codes "fd40:1481:21" ++ b':' ∷ codes "6379") empty_client
    ≡ some (record empty_client { host = codes "fd40:1481:21"; port = codes "6379" })
set_address-print_example =
    set_address-print (codes "fd40:1481:21") (codes "6379") empty_client (ground arith)

abbrev three_groups : List (Bytes × KeyGroupMetrics)
three_groups =
    (codes "a", record { key_group = codes "a"; count = 2; memory_usage = 10 })
    ∷ (codes "b", record { key_group = codes "b"; count = 1; memory_usage = 90 })
    ∷ (codes "c", record { key_group = codes "c"; count = 4; memory_usage = 50 })
    ∷ []

overflow_of-IsOverflowOf_example :
    (overflow : OverflowedKeyGroupMetrics) × (overflow_of (pos 1) three_groups
      ≡ some (some overflow))
    × IsOverflowOf 1 three_groups overflow
overflow_of-IsOverflowOf_example = overflow_of-IsOverflowOf 1 three_groups (omega arith)

abbrev keys_field : Bytes × Bytes
keys_field = (codes "keys", codes "5")

abbrev expires_field : Bytes × Bytes
expires_field = (codes "expires", codes "1")

abbrev ttl_field : Bytes × Bytes
ttl_field = (codes "avg_ttl", codes "2000")

ttl_above :
    whole_numbers.gt
      (whole_numbers.div (float_of whole_numbers (codes "2000")) (pos 1000))
      (minus_one whole_numbers)
    ≡ true
unfolding parse_int
ttl_above = refl

is_db : has_prefix (codes "db") (codes "db0") ≡ true
unfolding has_prefix
is_db = refl

keys_float : (parse_int (codes "5")).failed ≡ false
unfolding parse_int
keys_float = refl

expires_float : (parse_int (codes "1")).failed ≡ false
unfolding parse_int
expires_float = refl

ttl_float : (parse_int (codes "2000")).failed ≡ false
unfolding parse_int
ttl_float = refl

parse_db_keyspace_string-print_example :
    parse_db_keyspace_string whole_numbers
      (codes "db0")
      (print_pairs (keys_field ∷ expires_field ∷ ttl_field ∷ []))
    ≡ some (record {
      keys_total = float_of whole_numbers (codes "5");
      keys_expiring_total = float_of whole_numbers (codes "1");
      avg_ttl = float_of whole_numbers (codes "2000");
      keys_cached_total = minus_one whole_numbers;
    })
parse_db_keyspace_string-print_example =
    parse_db_keyspace_string-print whole_numbers (codes "db0") keys_field expires_field ttl_field
      is_db ((ground arith), keys_float) ((ground arith), expires_float) ((ground arith), ttl_float)

one_replica : is_slave (codes "slave0") ≡ true
unfolding is_slave
one_replica = refl

abbrev replica_fields : List (Bytes × Bytes)
replica_fields =
    slave_fields whole_numbers (codes "10.254.11.1") (codes "6379") (codes "online") (codes "2000")
      (codes "1")

replica-IsClean : All IsClean replica_fields
replica-IsClean = ground arith

parse_connected_slave_string-print_example :
    parse_connected_slave_string whole_numbers (codes "slave0") (print_pairs replica_fields)
    ≡ some (record {
      offset = float_of whole_numbers (codes "2000");
      ip = codes "10.254.11.1";
      port = codes "6379";
      state = codes "online";
      lag = float_of whole_numbers (codes "1");
    })
parse_connected_slave_string-print_example =
    parse_connected_slave_string-print whole_numbers (codes "slave0") (codes "10.254.11.1")
      (codes "6379") (codes "online") (codes "2000") (codes "1") one_replica replica-IsClean
      ttl_float expires_float

abbrev keyspace_scan : InfoScan ℤ
keyspace_scan = record info_start { field_class = codes "Keyspace" }

handle_field-keyspace_example :
    handle_field whole_numbers
      (pos 1700000000)
      sample_exporter
      (codes "db0")
      (print_pairs (keys_field ∷ expires_field ∷ ttl_field ∷ []))
      keyspace_scan
      fresh_channel
    ≡ some (
      record keyspace_scan { handled_dbs = insert (codes "db0") true [] },
      sending whole_numbers
          (sending whole_numbers
            (sending whole_numbers fresh_channel (
              db_gauge whole_numbers
                (codes "db_keys")
                (float_of whole_numbers (codes "5"))
                (codes "db0")))
            (db_gauge whole_numbers
              (codes "db_keys_expiring")
              (float_of whole_numbers (codes "1"))
              (codes "db0")))
          (db_gauge whole_numbers
            (codes "db_avg_ttl_seconds")
            (float_of whole_numbers (codes "2000"))
            (codes "db0")),
    )
handle_field-keyspace_example =
    handle_field-keyspace whole_numbers (pos 1700000000) sample_exporter (codes "db0") keys_field
      expires_field ttl_field keyspace_scan fresh_channel refl is_db ((ground arith), keys_float)
      ((ground arith), expires_float) ((ground arith), ttl_float) ttl_above (refl, refl, refl)
      fresh_channel-IsSound

abbrev small_maps : MetricMaps
small_maps = record { gauges = (codes "u_m_1", codes "memory_used_bytes") ∷ []; counters = [] }

abbrev empty_channel : Channel ℤ
empty_channel = record { descriptions = []; sent = [] }

-- A key with a character of two bytes.
abbrev memory_key : List Character
memory_key =
    name_byte b'u'
    ∷ name_byte b'_'
    ∷ name_byte b'm'
    ∷ other (0xc3 ∷ 0xb6 ∷ [])
    ∷ name_byte b'1'
    ∷ []

memory-IsCharacter : All IsCharacter memory_key
memory-IsCharacter = (
  inl (omega arith, omega arith),
  (
    inr (inr (inr refl)),
    (
      inl (omega arith, omega arith),
      (
        ((omega arith, omega arith), (omega arith, omega arith)),
        (inr (inr (inl (omega arith, omega arith))), tt),
      ),
    ),
  ),
)

nothing_described : (name : Bytes) → lookup name empty_channel.descriptions ≡ none
unfolding lookup
nothing_described name = refl

memory-IsNamed : IsNamed whole_numbers small_maps (name_of memory_key) (codes "memory_used_bytes")
unfolding lookup bytes_eq
memory-IsNamed = inl refl

memory-IsTyped : IsTyped whole_numbers small_maps (name_of memory_key) gauge_value
unfolding lookup
memory-IsTyped = inl (refl, refl)

memory_value : HasValue whole_numbers (codes "1024") (pos 1024)
unfolding parse_int
memory_value =
    inr (inr (ground arith, ground arith, ground arith, ground arith, ground arith, refl))

parse_and_register_const_metric-exported_example :
    parse_and_register_const_metric whole_numbers small_maps
      (text_of memory_key)
      (codes "1024")
      empty_channel
    ≡ send
        (const (plain_desc whole_numbers (codes "memory_used_bytes")) gauge_value (pos 1024) [])
        (with_description whole_numbers (codes "memory_used_bytes") empty_channel)
parse_and_register_const_metric-exported_example =
    parse_and_register_const_metric-exported whole_numbers small_maps memory_key (codes "1024")
      (codes "memory_used_bytes") gauge_value (pos 1024) (codes "memory_used_bytes") (pos 1024)
      empty_channel memory-IsCharacter memory-IsNamed memory-IsTyped memory_value
      (inl (ground arith, refl, refl)) (nothing_described _) refl
