-- ===== src/Config.antt =====
-- extractConfigMetrics (exporter/exporter.go): the reply of CONFIG GET.
pub mod Redacted
pub mod NoPanic
pub mod Count
use redis_exporter.Base.{
  ℕ, zero, suc, ◌+◌, ◌%◌, Bool, true, false, not, ◌||◌, ◌&&◌, Option, none, some, List, [], ◌∷◌,
  ◌++◌, map, Bytes, codes, if◌then◌else◌, bytes_eq, ℤ, pos, ◌==◌, length,
}
use redis_exporter.Deps.{Deps}
use redis_exporter.Text.Split.{split}
use redis_exporter.Text.Number.{Parsed, parse_int}
use redis_exporter.Run.{Run, ◌>>=◌, ◌>>◌, pure, panic, case_option}
use redis_exporter.Metrics.{Collect, register_const_metric_gauge}
use redis_exporter.Redis.{Redis}
use redis_exporter.Options.{Exporter}

-- The keys whose values are secret.
abbrev pub is_secret : Bytes → Bool
is_secret key =
    bytes_eq key (codes "masterauth")
    || bytes_eq key (codes "requirepass")
    || bytes_eq key (codes "tls-key-file-pass")
    || bytes_eq key (codes "tls-client-key-file-pass")

abbrev pub is_plain_metric : Bytes → Bool
is_plain_metric key =
    bytes_eq key (codes "io-threads")
    || bytes_eq key (codes "maxclients")
    || bytes_eq key (codes "maxmemory")

-- strings.ReplaceAll(s, "-", "_")
abbrev pub underscored : Bytes → Bytes
underscored = map (λ c. if c == b'-' then b'_' else c)

module _ (deps : Deps) (r : Redis) (e : Exporter) where
  open deps use {Float, of_ℤ, parse_float}
  open r use {Reply, string}

  abbrev gauge : Bytes → Float → List Bytes → Collect Float (Unit {0})
  gauge = register_const_metric_gauge deps

  -- `if val, err := strconv.ParseFloat(s, 64); err == nil { gauge }`
  unfoldable pub gauge_if_float : Bytes → Bytes → List Bytes → Collect Float (Unit {0})
  gauge_if_float metric text values =
      if (parse_float text).failed then pure tt else gauge metric (parse_float text).value values

  unfoldable pub send_key_value : Bytes → Bytes → Collect Float (Unit {0})
  unfolding gauge_if_float
  send_key_value key value = do
    gauge (codes "config_key_value") (of_ℤ (pos 1)) (key ∷ value ∷ [])
    gauge_if_float (codes "config_value") value (key ∷ [])

  abbrev pub hard_limit : Bytes → Bytes → Collect Float (Unit {0})
  hard_limit class hard =
      gauge_if_float (codes "config_client_output_buffer_limit_bytes") hard
        (class ∷ codes "hard" ∷ [])

  abbrev pub soft_limit : Bytes → Bytes → Collect Float (Unit {0})
  soft_limit class soft =
      gauge_if_float (codes "config_client_output_buffer_limit_bytes") soft
        (class ∷ codes "soft" ∷ [])

  abbrev pub soft_seconds : Bytes → Bytes → Collect Float (Unit {0})
  soft_seconds class seconds =
      gauge_if_float (codes "config_client_output_buffer_limit_overcome_seconds") seconds
        (class ∷ codes "soft" ∷ [])

  -- The classes of clients: fewer than three parts behind a class are an index out of range.
  unfoldable pub send_limits : List Bytes → Collect Float (Unit {0})
  unfolding gauge_if_float
  send_limits [] = pure tt
  send_limits (class ∷ []) = panic
  send_limits (class ∷ hard ∷ []) = hard_limit class hard >> panic
  send_limits (class ∷ hard ∷ soft ∷ []) = hard_limit class hard >> (soft_limit class soft >> panic)
  send_limits (class ∷ hard ∷ soft ∷ seconds ∷ parts) =
      hard_limit class hard
      >> (soft_limit class soft >> (soft_seconds class seconds >> send_limits parts))

  -- The metrics of a pair.
  unfoldable pub send_pair : Bytes → Bytes → Collect Float (Unit {0})
  unfolding send_key_value gauge_if_float send_limits
  send_pair key value = do
    (if e.options.incl_config_metrics
          && (not (is_secret key) || not e.options.redact_config_metrics)
        then send_key_value key value
        else pure tt)
    (if is_plain_metric key
        then gauge_if_float (codes "config_" ++ underscored key) value []
        else pure tt)
    (if bytes_eq key (codes "client-output-buffer-limit")
        then send_limits (split b' ' value)
        else pure tt)

  -- strconv.Atoi, on a platform with int of 64 bits.
  abbrev pub atoi : Bytes → Option ℤ
  atoi s = if (parse_int s).failed then none else some (parse_int s).value

  -- One pair: the number of databases behind it, or `none` for an error that ends the loop.
  unfoldable pub config_pair : Option Bytes → Option Bytes → ℤ → Collect Float (Option ℤ)
  unfolding send_pair
  config_pair none value db_count = pure (some db_count)
  config_pair (some key) none db_count = pure (some db_count)
  config_pair (some key) (some value) db_count =
      if bytes_eq key (codes "databases")
      then case_option (atoi value) (pure none) (λ n. send_pair key value >> pure (some n))
      else send_pair key value >> pure (some db_count)

  abbrev pub go_on_with : (ℤ → Collect Float (Option ℤ)) → Option ℤ → Collect Float (Option ℤ)
  go_on_with rest none = pure none
  go_on_with rest (some n) = rest n

  unfoldable pub config_pairs : List Reply → ℤ → Collect Float (Option ℤ)
  unfolding config_pair
  config_pairs (key ∷ value ∷ config) db_count =
      config_pair (string key) (string value) db_count >>= go_on_with (config_pairs config)
  config_pairs _ db_count = pure (some db_count)

  -- The number of databases, 0 where the reply does not say it; `none` for an error.
  unfoldable pub extract_config_metrics : List Reply → Collect Float (Option ℤ)
  unfolding config_pairs
  extract_config_metrics config =
      if length config % 2 == 0 then config_pairs config (pos 0) else pure none
