-- ===== src/Keys/Check.antt =====
-- extractCheckKeyMetrics and extractCountKeysMetrics: the keys that the options name.
use redis_exporter.Base.{
  ℕ, Bool, true, false, Option, none, some, List, [], ◌∷◌, ◌++◌, codes, if◌then◌else◌, ℤ, pos,
}
use redis_exporter.Deps.{Deps}
use redis_exporter.Run.{◌>>=◌, ◌>>◌, pure, case_option, for_each}
use redis_exporter.Redis.{Redis, talk, talk_partial}
use redis_exporter.Options.{Exporter}
use redis_exporter.Keys.Parse.{DbKeyPair, KeyArgError, parse_key_arg}
use redis_exporter.Keys.Scan.{get_keys_count, get_keys_from_patterns}
use redis_exporter.Keys.Single.{Step, gauge, extract_check_key_metrics_not_pipelined}
use redis_exporter.Keys.Pipelined.{extract_check_key_metrics_pipelined}

-- The keys of a list of patterns that could be expanded.
abbrev pub scanned : List DbKeyPair × Bool → List DbKeyPair
scanned (keys, true) = []
scanned (keys, false) = keys

module _ (deps : Deps) (r : Redis) (e : Exporter) (fuel : ℕ) where
  open deps use {Float, of_ℤ}
  open r use {Reply, Conn}

  abbrev batch_size : ℤ
  batch_size = e.options.check_keys_batch_size

  unfoldable pub check_all_keys : List DbKeyPair → Step deps r e (Unit {0})
  unfolding extract_check_key_metrics_not_pipelined extract_check_key_metrics_pipelined
  check_all_keys all_keys =
      if e.options.is_cluster
      then extract_check_key_metrics_not_pipelined deps r e all_keys
      else extract_check_key_metrics_pipelined deps r e all_keys

  -- The single keys come first; patterns that cannot be expanded are left out. The result is the
  -- error of an option that cannot be parsed.
  unfoldable pub extract_check_key_metrics : Step deps r e (Option KeyArgError)
  unfolding check_all_keys get_keys_from_patterns
  extract_check_key_metrics =
      let keys = parse_key_arg e.options.check_keys in
      let single_keys = parse_key_arg e.options.check_single_keys in
      case_option keys.1
        (case_option single_keys.1
          (do
            expanded ← talk_partial (get_keys_from_patterns r fuel keys.0 batch_size)
            check_all_keys (single_keys.0 ++ scanned expanded)
            pure none)
          (λ error. pure (some error)))
        (λ error. pure (some error))

  -- One pattern to count.
  unfoldable pub count_keys : DbKeyPair → Step deps r e (Unit {0})
  unfolding get_keys_count
  count_keys k = do
    selected ← talk (r.do_cmd (codes "SELECT" ∷ k.db ∷ []))
    case_option selected (pure tt) (λ _. do
      count ← talk_partial (get_keys_count r fuel k.key batch_size)
      case_option count (pure tt) (λ n.
          gauge deps r e (codes "keys_count") (of_ℤ (pos n)) ((codes "db" ++ k.db) ∷ k.key ∷ [])))

  unfoldable pub extract_count_keys_metrics : Step deps r e (Unit {0})
  unfolding count_keys
  extract_count_keys_metrics =
      let keys = parse_key_arg e.options.count_keys in
      case_option keys.1 (for_each keys.0 count_keys) (λ _. pure tt)
