-- ===== src/Examples/Keys.antt =====
-- The scans of keys and of key groups on the server that answers with one page.
use redis_exporter.Base.{
  ℤ, Assoc, lookup, ◌≡◌, ◌≢◌, refl, Bool-cases, inl, inr, Option, none, some, List, [], ◌∷◌, ◌++◌,
  Bytes, codes, pos, bytes_eq, arith,
}
use redis_exporter.Deps.{whole_numbers}
use redis_exporter.Run.{◌>>◌, ◌>>=◌, case_option}
use redis_exporter.Run.Safe.{Ends}
use redis_exporter.Redis.{Session}
use redis_exporter.Keys.Parse.{DbKeyPair, parse_key_arg, parse_items, next_item, parse_item}
use redis_exporter.Keys.Scan.{
  is_glob, scan_page, scan_loop, scan_keys, get_keys_count, expand_keys, get_keys_from_patterns,
  do_redis_cmd,
}
use redis_exporter.Keys.ScanLaws.{Pages, last, scan_keys-Pages}
use redis_exporter.Keys.Pipelined.{keys_by_db}
use redis_exporter.Keys.ByDb.{keys_in, keys_of_db, keys_by_db-keys_of_db}
use redis_exporter.Keys.Check.{extract_check_key_metrics, extract_count_keys_metrics}
use redis_exporter.Keys.NoPanic.{
  KeysSound, Expands, Counts, extract_check_key_metrics-Ends, extract_count_keys_metrics-Ends,
}
use redis_exporter.KeyGroups.Gather.{
  KeyGroupMetrics, groups_of, script_page, gather_loop, gather_key_group_metrics,
}
use redis_exporter.KeyGroups.Word.{to_word}
use redis_exporter.KeyGroups.Pages.{ScriptPages, last_page, gather_key_group_metrics-ScriptPages}
use redis_exporter.KeyGroups.Collect.{extract_key_group_metrics}
use redis_exporter.KeyGroups.NoPanic.{Gathers, extract_key_group_metrics-Ends}
use redis_exporter.KeyGroups.GroupSums.{count_of, memory_of, count_named, memory_named}
use redis_exporter.SentinelClient.{extract_sentinel_metrics, extract_sentinel_config}
use redis_exporter.SentinelClient.NoPanic.{extract_sentinel_metrics-Ends}
use redis_exporter.Construct.{new_redis_exporter, constructed}
use redis_exporter.Construct.Configured.{
  IsConfigured, new_redis_exporter-IsConfigured, extract_check_key_metrics-IsConfigured,
}
use redis_exporter.Text.Split.{split}
use redis_exporter.Text.Trim.{trim_space}
use redis_exporter.Text.Query.{query_unescape, remove_db}
use redis_exporter.Text.Number.{parse_int}
use redis_exporter.Examples.Server.{
  group, Answer, bulk, one_page, sample_options, sample_exporter, fresh_session,
  fresh_channel-IsSound,
}

one_page-Pages :
    Pages one_page (codes "user:*") (pos 1000) (pos 0) tt ((bulk (codes "user:1") ∷ []) ∷ []) tt
unfolding scan_page do_redis_cmd
one_page-Pages = last (bulk (codes "user:1") ∷ []) (pos 0) refl refl

scan_keys-Pages_example :
    scan_keys one_page 1 (codes "user:*") (pos 1000) tt
    ≡ some (some (bulk (codes "user:1") ∷ []), tt)
scan_keys-Pages_example =
    scan_keys-Pages one_page (codes "user:*") (pos 1000) 1 (ground arith) one_page-Pages
      (omega arith)

abbrev total_key : DbKeyPair
total_key = record { db = codes "0"; key = codes "total" }

some-ne-none : {A : Type 0} (a : A) → some a ≢ none
some-ne-none a e = absurd (cc)

scan_keys-ends :
    (pattern : Bytes) (c : Unit {0})
    → (keys : Option (List Answer)) × (scan_keys one_page 1 pattern (pos 1000) c ≡ some (keys, c))
unfolding scan_keys scan_loop scan_page do_redis_cmd
scan_keys-ends pattern c = elim (Bool-cases (bytes_eq pattern [])) [
  | inl e ↦ (none, rw e)
  | inr e ↦ (some (bulk (codes "user:1") ∷ []), rw e)
]

pub counts : Counts whole_numbers one_page sample_exporter 1
unfolding get_keys_count
counts pattern c = let (keys, e) = scan_keys-ends pattern c in rw (e, ◌>>=◌) (some-ne-none _)

expand_keys-ends :
    (keys expanded : List DbKeyPair) (c : Unit {0})
    → expand_keys one_page 1 (pos 1000) keys expanded c ≢ none
unfolding expand_keys do_redis_cmd case_option
expand_keys-ends [] expanded c = some-ne-none _
expand_keys-ends (k ∷ ks) expanded c =
    let found = scan_keys-ends k.key c in
    let rest = expand_keys-ends ks in
    elim (Bool-cases (is_glob k.key)) [
      | inl glob ↦ rw (glob) (rw (found.1, ◌>>=◌) (rest _ c))
      | inr plain ↦ rw (plain) (rest (expanded ++ k ∷ []) c)
    ]

pub expands : Expands whole_numbers one_page sample_exporter 1
unfolding get_keys_from_patterns
expands keys c = expand_keys-ends keys [] c

pub gathers : Gathers whole_numbers one_page (λ s. some (s ∷ [])) sample_exporter 1
unfolding gather_key_group_metrics gather_loop script_page case_option groups_of
gathers key_groups c = some-ne-none _

fresh_session-KeysSound : KeysSound whole_numbers one_page sample_exporter fresh_session
fresh_session-KeysSound = fresh_channel-IsSound

extract_check_key_metrics-Ends_example :
    Ends
      (KeysSound whole_numbers one_page sample_exporter)
      (extract_check_key_metrics whole_numbers one_page sample_exporter 1 fresh_session)
extract_check_key_metrics-Ends_example =
    extract_check_key_metrics-Ends whole_numbers one_page sample_exporter 1 fresh_session expands
      fresh_session-KeysSound

extract_count_keys_metrics-Ends_example :
    Ends
      (KeysSound whole_numbers one_page sample_exporter)
      (extract_count_keys_metrics whole_numbers one_page sample_exporter 1 fresh_session)
extract_count_keys_metrics-Ends_example =
    extract_count_keys_metrics-Ends whole_numbers one_page sample_exporter 1 fresh_session counts
      fresh_session-KeysSound

extract_key_group_metrics-Ends_example : Ends (KeysSound whole_numbers one_page sample_exporter) (
    extract_key_group_metrics whole_numbers one_page
      (λ s. some (s ∷ []))
      sample_exporter
      1
      (pos 12)
      (pos 16)
      fresh_session)
extract_key_group_metrics-Ends_example =
    extract_key_group_metrics-Ends whole_numbers one_page (λ s. some (s ∷ [])) sample_exporter 1 100
      refl gathers (pos 12) 16 fresh_session fresh_session-KeysSound

abbrev user_group : KeyGroupMetrics
user_group = record { key_group = codes "user"; count = 3; memory_usage = 120 }

one_group-ScriptPages :
    ScriptPages one_page (pos 1000) (codes "^(.*):" ∷ []) (pos 0) tt ((user_group ∷ []) ∷ []) tt
unfolding script_page groups_of to_word
one_group-ScriptPages =
    last_page (group (codes "user") (pos 3) (pos 120) ∷ []) (user_group ∷ []) (pos 0) refl refl refl

gather_key_group_metrics-ScriptPages_example :
    (groups : Assoc KeyGroupMetrics) × (gather_key_group_metrics one_page 1
        (pos 1000)
        (codes "^(.*):" ∷ [])
        tt
      ≡ some (some groups, tt))
    × ((name : Bytes)
        → (count_of (lookup name groups) ≡ count_named name (user_group ∷ []) 0)
          × (memory_of (lookup name groups) ≡ memory_named name (user_group ∷ []) 0))
gather_key_group_metrics-ScriptPages_example =
    gather_key_group_metrics-ScriptPages one_page (pos 1000) (codes "^(.*):" ∷ []) 1
      one_group-ScriptPages (omega arith) ((omega arith, omega arith), tt)

sample-constructed :
    new_redis_exporter (codes "redis://localhost:6379") sample_options ≡ constructed sample_exporter
unfolding new_redis_exporter parse_key_arg parse_items next_item parse_item split trim_space
    query_unescape remove_db parse_int bytes_eq
sample-constructed = refl

new_redis_exporter-IsConfigured_example : IsConfigured sample_exporter
new_redis_exporter-IsConfigured_example =
    new_redis_exporter-IsConfigured (codes "redis://localhost:6379") sample_options sample_exporter
      sample-constructed

sample-IsConfigured : IsConfigured sample_exporter
sample-IsConfigured =
    new_redis_exporter-IsConfigured (codes "redis://localhost:6379") sample_options sample_exporter
      sample-constructed

extract_check_key_metrics-IsConfigured_example :
    (s' : Session ℤ (Unit {0})) × (extract_check_key_metrics whole_numbers one_page sample_exporter
        1 fresh_session
      ≡ some (none, s'))
extract_check_key_metrics-IsConfigured_example =
    extract_check_key_metrics-IsConfigured whole_numbers one_page sample_exporter 1 fresh_session
      sample-IsConfigured expands fresh_session-KeysSound

abbrev no_quorum : List Bytes → Unit {0} → Bytes
no_quorum args c = codes "NOQUORUM"

extract_sentinel_metrics-Ends_example : Ends (KeysSound whole_numbers one_page sample_exporter) (
    (extract_sentinel_metrics whole_numbers one_page no_quorum sample_exporter
        >> extract_sentinel_config whole_numbers one_page no_quorum sample_exporter)
      fresh_session)
extract_sentinel_metrics-Ends_example =
    extract_sentinel_metrics-Ends whole_numbers one_page no_quorum sample_exporter fresh_session
      fresh_session-KeysSound

abbrev user_key : DbKeyPair
user_key = record { db = codes "3"; key = codes "user:1" }

keys_by_db-keys_of_db_example :
    keys_in (lookup (codes "0") (keys_by_db (total_key ∷ user_key ∷ total_key ∷ []) []))
    ≡ keys_of_db (codes "0") (total_key ∷ user_key ∷ total_key ∷ [])
keys_by_db-keys_of_db_example =
    keys_by_db-keys_of_db (codes "0") (total_key ∷ user_key ∷ total_key ∷ [])
