-- ===== src/Collectors/Slowlog.antt =====
-- extractSlowLogMetrics (exporter/slowlog.go): the length of the slow log and its last entry.
use redis_exporter.Base.{
  ◌≡◌, ◌≢◌, none, some, List, [], ◌∷◌, Bytes, codes, ℤ, pos, Option, get_elem?,
}
use redis_exporter.Deps.{Deps}
use redis_exporter.Run.{◌>>=◌, ◌>>◌, pure, panic, case_option}
use redis_exporter.Run.Safe.{Safe, Safe-pure, Safe-bind, Safe-case_option, safe_rules}
use redis_exporter.Metrics.Safe.{gauge_plain-Sound}
use redis_exporter.Tables.Init.{initial_descriptions}
use redis_exporter.Redis.{Redis}
use redis_exporter.Redis.Views.{Views}
use redis_exporter.Redis.Safe.{Safe-collect, Safe-talk_with}
use redis_exporter.Options.{Exporter}
use redis_exporter.Keys.Single.{Step, gauge, int64_cmd, if_some}
use redis_exporter.Keys.NoPanic.{KeysSound, int64_cmd-Sound}
use redis_exporter.Redis.{talk}

ruleset slow_rules = (safe_rules, Safe-collect, gauge_plain-Sound)

module _ (deps : Deps) (r : Redis) (v : Views r) (e : Exporter) where
  open deps use {Float, of_ℤ, div}
  open r use {Reply, Conn, values}
  open v use {as_int64}

  -- `reply.(int64)`, which panics for a reply of another type.
  unfoldable pub assert_int64 : Reply → Step deps r e ℤ
  assert_int64 reply = case_option (as_int64 reply) panic pure

  abbrev no_entry : ℤ × Float
  no_entry = (pos 0, of_ℤ (pos 0))

  -- The id of the last entry, and how long it took in seconds.
  unfoldable pub last_entry : List Reply → Step deps r e (ℤ × Float)
  unfolding assert_int64
  last_entry [] = pure no_entry
  last_entry (id ∷ fields) = do
    last_id ← assert_int64 id
    case_option (get_elem? fields 1) (pure (last_id, of_ℤ (pos 0))) (λ duration. do
      microseconds ← assert_int64 duration
      pure (last_id, div (of_ℤ microseconds) (of_ℤ (pos 1000000))))

  unfoldable pub first_entry : List Reply → Step deps r e (ℤ × Float)
  unfolding last_entry
  first_entry [] = pure no_entry
  first_entry (entry ∷ entries) = case_option (values entry) (pure no_entry) last_entry

  abbrev slowlog_get : List Bytes
  slowlog_get = codes "SLOWLOG" ∷ codes "GET" ∷ codes "1" ∷ []

  abbrev log_entries : Conn → Option (List Reply)
  log_entries c = if_some (r.do_cmd slowlog_get c).0 values

  unfoldable pub send_entry : ℤ × Float → Step deps r e (Unit {0})
  send_entry entry = do
    gauge deps r e (codes "slowlog_last_id") (of_ℤ entry.0) []
    gauge deps r e (codes "last_slow_execution_duration_seconds") entry.1 []

  unfoldable pub extract_slow_log_metrics : Step deps r e (Unit {0})
  unfolding first_entry send_entry int64_cmd
  extract_slow_log_metrics = do
    reply ← int64_cmd deps r e (codes "SLOWLOG" ∷ codes "LEN" ∷ [])
    case_option reply (pure tt) (λ n. gauge deps r e (codes "slowlog_length") (of_ℤ n) [])
    entries ← talk (λ c. (log_entries c, (r.do_cmd slowlog_get c).1))
    case_option entries (pure tt) (λ values. do entry ← first_entry values; send_entry entry)

  -- The id and the duration of an entry are integers, where it has them.
  abbrev pub IsEntry : List Reply → Type 0
  IsEntry [] = Unit
  IsEntry (id ∷ fields) =
      (as_int64 id ≢ none)
      × ((duration : Reply) → get_elem? fields 1 ≡ some duration → as_int64 duration ≢ none)

  abbrev pub HasEntry : List Reply → Type 0
  HasEntry [] = Unit
  HasEntry (entry ∷ entries) = (fields : List Reply) → values entry ≡ some fields → IsEntry fields

  assert_int64-Safe :
      (reply : Reply) → as_int64 reply ≢ none → Safe (KeysSound deps r e) (assert_int64 reply)
  unfolding assert_int64
  assert_int64-Safe reply h =
      Safe-case_option (as_int64 reply) panic pure (λ p. absurd (h p)) (λ n _. Safe-pure n)

  last_entry-Safe :
      (fields : List Reply) → IsEntry fields → Safe (KeysSound deps r e) (last_entry fields)
  unfolding last_entry
  last_entry-Safe [] h = Safe-pure _
  last_entry-Safe (id ∷ fields) h = search (safe_rules, assert_int64-Safe, h.0, h.1) depth 9

  first_entry-Safe :
      (entries : List Reply) → HasEntry entries → Safe (KeysSound deps r e) (first_entry entries)
  unfolding first_entry
  first_entry-Safe [] h = Safe-pure _
  first_entry-Safe (entry ∷ entries) h = search (safe_rules, last_entry-Safe, h)

  send_entry-Safe : (entry : ℤ × Float) → Safe (KeysSound deps r e) (send_entry entry)
  unfolding send_entry
  send_entry-Safe entry = search slow_rules

  -- What Redis documents of SLOWLOG GET.
  abbrev pub HasEntries : Type 0
  HasEntries = (c : Conn) (entries : List Reply) → log_entries c ≡ some entries → HasEntry entries

  pub extract_slow_log_metrics-Sound :
      HasEntries → Safe (KeysSound deps r e) extract_slow_log_metrics
  unfolding extract_slow_log_metrics
  extract_slow_log_metrics-Sound h = Safe-bind _ _ (int64_cmd-Sound deps r e _) (λ reply.
      Safe-bind _ _ (search slow_rules) (λ _. Safe-talk_with initial_descriptions _ _ (λ c.
        Safe-case_option (log_entries c) _ _ (λ _. Safe-pure tt)
          (λ entries found.
            Safe-bind _ _ (first_entry-Safe entries (h c entries found)) send_entry-Safe))))
