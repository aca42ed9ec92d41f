-- ===== src/Latency/Collect.antt =====
-- extractLatencyMetrics: LATENCY LATEST, and the histograms of LATENCY HISTOGRAM.
-- `scan_latest` and `scan_calls` are redis.Scan into an event, two int64 and an int64, and into a
-- uint64 and a []uint64 at the second and the fourth place; `none` is its error.
use redis_exporter.Base.{
  ℕ, ◌%◌, ◌≡◌, ◌≢◌, Option, none, some, List, [], ◌∷◌, Bytes, codes, ℤ, pos, length, arith,
  if◌then◌else◌,
}
use redis_exporter.Deps.{Deps}
use redis_exporter.Run.{◌>>=◌, ◌>>◌, pure, panic, case_option, for_each}
use redis_exporter.Metrics.{create_metric_description, register_const_histogram}
use redis_exporter.Redis.{Redis, collect, talk}
use redis_exporter.Options.{Exporter}
use redis_exporter.Keys.Single.{Step, gauge, if_some, text_of}
use redis_exporter.Latency.Usec.{extract_total_usec_for_command}

-- What LATENCY LATEST says of an event.
pub record LatestEvent : Type 0 where
  pub event_name : Bytes
  pub spike_last : ℤ
  pub spike_duration : ℤ
  pub max_latency : ℤ

-- What LATENCY HISTOGRAM says of a command.
pub record CallBuckets : Type 0 where
  pub total_calls : ℕ
  pub bucket_info : List ℕ

pub record LatencyScans (Reply : Type 0) : Type 0 where
  pub scan_latest : List Reply → Option LatestEvent
  pub scan_calls : List Reply → Option CallBuckets

module _ (deps : Deps) where
  open deps use {Float, of_ℤ, float_eq}

  -- buckets[usec] = count
  unfoldable pub insert_bucket : Float → ℕ → List (Float × ℕ) → List (Float × ℕ)
  insert_bucket usec count [] = (usec, count) ∷ []
  insert_bucket usec count ((q, n) ∷ m) =
      if float_eq q usec then (q, count) ∷ m else (q, n) ∷ insert_bucket usec count m

  -- A bucket without a count is an index out of range.
  unfoldable pub fill_buckets : List ℕ → List (Float × ℕ) → Option (List (Float × ℕ))
  unfolding insert_bucket
  fill_buckets [] buckets = some buckets
  fill_buckets (usec ∷ []) buckets = none
  fill_buckets (usec ∷ count ∷ info) buckets =
      fill_buckets info (insert_bucket (of_ℤ (pos usec)) count buckets)

  pub fill_buckets-some :
      (info : List ℕ) (buckets : List (Float × ℕ))
      → length info % 2 ≡ 0
      → fill_buckets info buckets ≢ none
  unfolding fill_buckets
  fill_buckets-some [] buckets h = λ e. cc
  fill_buckets-some (usec ∷ []) buckets h = absurd (omega arith)
  fill_buckets-some (usec ∷ count ∷ info) buckets h =
      fill_buckets-some info (insert_bucket (of_ℤ (pos usec)) count buckets) (omega arith)

module _ (deps : Deps) (r : Redis) (scans : LatencyScans r.Reply) (e : Exporter) where
  open deps use {Float, of_ℤ, div}
  open r use {Reply, Conn, values, string}
  open scans use {scan_latest, scan_calls}

  unfoldable pub send_event : LatestEvent → Step deps r e (Unit {0})
  send_event event = do
    gauge deps r e (codes "latency_spike_last") (of_ℤ event.spike_last) (event.event_name ∷ [])
    gauge deps r e (codes "latency_spike_duration_seconds")
        (div (of_ℤ event.spike_duration) (of_ℤ (pos 1000))) (event.event_name ∷ [])

  unfoldable pub send_latest : Reply → Step deps r e (Unit {0})
  unfolding send_event
  send_latest reply = case_option (if_some (values reply) scan_latest) (pure tt) send_event

  unfoldable pub extract_latency_latest_metrics : Step deps r e (Unit {0})
  unfolding send_latest
  extract_latency_latest_metrics = do
    reply ← talk (λ c.
        let x = r.do_cmd (codes "LATENCY" ∷ codes "LATEST" ∷ []) c in (if_some x.0 values, x.1))
    case_option reply (pure tt) (λ events. for_each events send_latest)

  unfoldable pub send_histogram : Bytes → Bytes → CallBuckets → Step deps r e (Unit {0})
  unfolding extract_total_usec_for_command fill_buckets
  send_histogram info_all cmd calls =
      case_option (fill_buckets deps calls.bucket_info []) panic (λ buckets. collect (
        create_metric_description deps (codes "commands_latencies_usec") (codes "cmd" ∷ [])
        >> register_const_histogram deps (codes "commands_latencies_usec") calls.total_calls
            (of_ℤ (pos (extract_total_usec_for_command info_all cmd))) buckets (cmd ∷ [])))

  abbrev pub list_of : Option (List Reply) → List Reply
  list_of none = []
  list_of (some vs) = vs

  abbrev pub calls_of : Reply → Option CallBuckets
  calls_of details = scan_calls (list_of (values details))

  -- The pairs of a command and its details; details that cannot be read end the loop.
  unfoldable pub send_histograms : Bytes → List Reply → Step deps r e (Unit {0})
  unfolding send_histogram
  send_histograms info_all [] = pure tt
  send_histograms info_all (cmd ∷ []) = panic
  send_histograms info_all (cmd ∷ details ∷ reply) =
      case_option (calls_of details) (pure tt) (λ calls.
        send_histogram info_all (text_of (string cmd)) calls >> send_histograms info_all reply)

  abbrev latency_histogram : List Bytes
  latency_histogram = codes "LATENCY" ∷ codes "HISTOGRAM" ∷ []

  abbrev pub histogram_reply : Conn → Option (List Reply)
  histogram_reply c = if_some (r.do_cmd latency_histogram c).0 values

  unfoldable pub extract_latency_histogram_metrics : Bytes → Step deps r e (Unit {0})
  unfolding send_histograms
  extract_latency_histogram_metrics info_all = do
    reply ← talk (λ c. (histogram_reply c, (r.do_cmd latency_histogram c).1))
    case_option reply (pure tt) (send_histograms info_all)

  unfoldable pub extract_latency_metrics : Bytes → Step deps r e (Unit {0})
  unfolding extract_latency_latest_metrics extract_latency_histogram_metrics
  extract_latency_metrics info_all =
      extract_latency_latest_metrics >> extract_latency_histogram_metrics info_all
