-- ===== src/KeyGroups/Collect.antt =====
-- gatherKeyGroupsMetricsForAllDatabases and extractKeyGroupMetrics. `read_csv` is encoding/csv's
-- NewReader(s).Read(), `none` for an error; `duration` is the time that the scan of all databases
-- took, in milliseconds.
use redis_exporter.Base.{
  ℕ, zero, suc, Option, none, some, List, [], ◌∷◌, ◌++◌, length, Bytes, codes, if◌then◌else◌,
  bytes_eq, ℤ, pos, negsuc, Assoc,
}
use redis_exporter.Deps.{Deps}
use redis_exporter.Text.Number.{itoa}
use redis_exporter.Text.Trim.{trim_space}
use redis_exporter.Run.{◌>>=◌, ◌>>◌, pure, panic, case_option, for_each}
use redis_exporter.Redis.{Redis, talk, talk_partial}
use redis_exporter.Options.{Exporter}
use redis_exporter.Keys.Single.{Step, gauge}
use redis_exporter.KeyGroups.Word.{of_word}
use redis_exporter.KeyGroups.Gather.{KeyGroupMetrics, gather_key_group_metrics}
use redis_exporter.KeyGroups.Overflow.{OverflowedKeyGroupMetrics, groups_in, overflow_of}

-- `metrics[db]` and `overflowedMetrics[db]` of a keyGroupsScrapeResult; `none` is nil.
pub record DbGroups : Type 0 where
  pub metrics : Option (Assoc KeyGroupMetrics)
  pub overflowed_metrics : Option OverflowedKeyGroupMetrics

abbrev pub no_groups : DbGroups
no_groups = record { metrics = none; overflowed_metrics = none }

unfoldable pub replicate : ℕ → List DbGroups
replicate zero = []
replicate (suc n) = no_groups ∷ replicate n

-- The names of the option, trimmed, without the empty ones.
unfoldable pub trimmed_names : List Bytes → List Bytes
trimmed_names [] = []
trimmed_names (s ∷ ss) =
    let rest = trimmed_names ss in if bytes_eq (trim_space s) [] then rest else trim_space s ∷ rest

abbrev pub db_label : ℕ → Bytes
db_label db = codes "db" ++ itoa db

module _ (deps : Deps) (r : Redis) (read_csv : Bytes → Option (List Bytes)) (e : Exporter)
    (fuel : ℕ) where
  open deps use {Float, of_ℤ}
  open r use {Conn}

  -- One database: a database that cannot be selected or scanned has no groups.
  unfoldable pub gather_db : List Bytes → ℕ → Step deps r e DbGroups
  unfolding overflow_of
  gather_db key_groups db = do
    selected ← talk (r.do_cmd (codes "SELECT" ∷ itoa db ∷ []))
    case_option selected (pure no_groups) (λ _. do
      gathered ←
          talk_partial (gather_key_group_metrics r fuel e.options.check_keys_batch_size key_groups)
      case_option gathered (pure no_groups) (λ groups.
          case_option (overflow_of e.options.max_distinct_key_groups groups) panic (λ overflowed.
            pure (record { metrics = some groups; overflowed_metrics = overflowed }))))

  -- `count` databases from number `db` on.
  unfoldable pub gather_dbs : List Bytes → ℕ → ℕ → Step deps r e (List DbGroups)
  unfolding gather_db
  gather_dbs key_groups zero db = pure []
  gather_dbs key_groups (suc count) db = do
    groups ← gather_db key_groups db
    rest ← gather_dbs key_groups count (suc db)
    pure (groups ∷ rest)

  unfoldable pub gather_names : ℕ → List Bytes → Step deps r e (List DbGroups)
  unfolding gather_dbs replicate
  gather_names count [] = pure (replicate count)
  gather_names count (name ∷ names) = gather_dbs (name ∷ names) count 0

  -- `make` panics for a negative number of databases.
  unfoldable pub gather_key_groups_metrics_for_all_databases : ℤ → Step deps r e (List DbGroups)
  unfolding gather_names replicate trimmed_names
  gather_key_groups_metrics_for_all_databases (negsuc n) = panic
  gather_key_groups_metrics_for_all_databases (pos db_count) =
      if bytes_eq (trim_space e.options.check_key_groups) []
      then pure (replicate db_count)
      else case_option (read_csv e.options.check_key_groups) (pure (replicate db_count))
          (λ fields. gather_names db_count (trimmed_names fields))

  unfoldable pub register_key_group_metrics : Bytes → KeyGroupMetrics → Step deps r e (Unit {0})
  unfolding of_word
  register_key_group_metrics label g = do
    gauge deps r e (codes "key_group_count") (of_ℤ (of_word g.count)) (label ∷ g.key_group ∷ [])
    gauge deps r e (codes "key_group_memory_usage_bytes") (of_ℤ (of_word g.memory_usage))
        (label ∷ g.key_group ∷ [])

  abbrev number_of_groups : Bytes → ℕ → Step deps r e (Unit {0})
  number_of_groups label n =
      gauge deps r e (codes "number_of_distinct_key_groups") (of_ℤ (pos n)) (label ∷ [])

  unfoldable pub register_db : Bytes → DbGroups → Step deps r e (Unit {0})
  unfolding register_key_group_metrics
  register_db label g =
      case_option g.overflowed_metrics
        (case_option g.metrics (pure tt) (λ groups. do
          for_each (groups_in groups) (register_key_group_metrics label)
          number_of_groups label (length groups)))
        (λ overflowed. do
          for_each overflowed.top_memory_usage_key_groups (register_key_group_metrics label)
          register_key_group_metrics label overflowed.overflow_key_group_aggregate
          number_of_groups label overflowed.key_groups_count)

  unfoldable pub register_dbs : ℕ → List DbGroups → Step deps r e (Unit {0})
  unfolding register_db
  register_dbs db [] = pure tt
  register_dbs db (g ∷ gs) = register_db (db_label db) g >> register_dbs (suc db) gs

  unfoldable pub extract_key_group_metrics : Float → ℤ → Step deps r e (Unit {0})
  unfolding register_dbs gather_key_groups_metrics_for_all_databases
  extract_key_group_metrics duration db_count = do
    all ← gather_key_groups_metrics_for_all_databases db_count
    register_dbs 0 all
    gauge deps r e (codes "last_key_groups_scrape_duration_milliseconds") duration []
