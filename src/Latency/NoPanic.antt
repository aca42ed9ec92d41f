-- ===== src/Latency/NoPanic.antt =====
-- When collecting latencies does not panic.
use redis_exporter.Base.{
  ◌%◌, ◌≡◌, refl, true, some, List, [], ◌∷◌, Bytes, codes, length, lookup, bytes_eq,
}
use redis_exporter.Deps.{Deps}
use redis_exporter.Run.Safe.{Safe, Safe-pure, Safe-bind, Safe-case_option, safe_rules}
use redis_exporter.Metrics.Safe.{
  create_metric_description-Sound, gauge_labelled-Sound, register_histogram-Sound,
}
use redis_exporter.Tables.Init.{initial_descriptions}
use redis_exporter.Redis.{Redis}
use redis_exporter.Redis.Safe.{Safe-collect, Safe-talk, Safe-talk_with}
use redis_exporter.Options.{Exporter}
use redis_exporter.Keys.Single.{text_of}
use redis_exporter.Keys.NoPanic.{KeysSound}
use redis_exporter.Collectors.Described.{collectors_described}
use redis_exporter.Latency.Collect.{
  LatencyScans, LatestEvent, CallBuckets, fill_buckets, fill_buckets-some, send_event, send_latest,
  extract_latency_latest_metrics, send_histogram, send_histograms, calls_of, histogram_reply,
  extract_latency_histogram_metrics, extract_latency_metrics,
}

ruleset latency_rules =
    (safe_rules, Safe-collect, Safe-talk, gauge_labelled-Sound, collectors_described)

histogram_described :
    lookup (codes "commands_latencies_usec") initial_descriptions
    ≡ some (record { name = codes "commands_latencies_usec"; labels = codes "cmd" ∷ [] })
unfolding initial_descriptions lookup bytes_eq
histogram_described = refl

module _ (deps : Deps) (r : Redis) (scans : LatencyScans r.Reply) (e : Exporter) where
  open deps use {Float, accepts}
  open r use {Reply, Conn, values, string}

  send_event-Safe :
      (event : LatestEvent) → Safe (KeysSound deps r e) (send_event deps r scans e event)
  unfolding send_event
  send_event-Safe event = search latency_rules

  send_latest-Safe : (reply : Reply) → Safe (KeysSound deps r e) (send_latest deps r scans e reply)
  unfolding send_latest
  send_latest-Safe reply = search (latency_rules, send_event-Safe)

  latest-Sound : Safe (KeysSound deps r e) (extract_latency_latest_metrics deps r scans e)
  unfolding extract_latency_latest_metrics
  latest-Sound = search (latency_rules, send_latest-Safe)

  -- The client takes every value for the label of the histogram.
  abbrev pub TakesCommand : Type 0
  TakesCommand =
      (cmd : Bytes) → accepts (codes "commands_latencies_usec") (codes "cmd" ∷ []) (cmd ∷ []) ≡ true

  -- Pairs of a command and details whose buckets come with their counts.
  abbrev pub HasPairs : List Reply → Type 0
  HasPairs [] = Unit
  HasPairs (cmd ∷ []) = ⊥
  HasPairs (cmd ∷ details ∷ reply) =
      ((calls : CallBuckets)
        → calls_of deps r scans e details ≡ some calls
        → length calls.bucket_info % 2 ≡ 0)
      × HasPairs reply

  send_histogram-Safe :
      TakesCommand
      → (info_all cmd : Bytes) (calls : CallBuckets) → length calls.bucket_info % 2 ≡ 0
      → Safe (KeysSound deps r e) (send_histogram deps r scans e info_all cmd calls)
  unfolding send_histogram
  send_histogram-Safe takes info_all cmd calls even =
      Safe-case_option (fill_buckets deps calls.bucket_info []) _ _
        (λ e. absurd (fill_buckets-some deps calls.bucket_info [] even e))
        (λ buckets filled. Safe-collect initial_descriptions _ (
          Safe-bind _ _ (create_metric_description-Sound deps initial_descriptions _ _) (λ _.
            register_histogram-Sound deps initial_descriptions (codes "commands_latencies_usec") _
              calls.total_calls _ buckets (cmd ∷ []) histogram_described (takes cmd))))

  send_histograms-Safe :
      TakesCommand
      → (info_all : Bytes) (reply : List Reply) → HasPairs reply
      → Safe (KeysSound deps r e) (send_histograms deps r scans e info_all reply)
  unfolding send_histograms
  send_histograms-Safe takes info_all [] h = Safe-pure tt
  send_histograms-Safe takes info_all (cmd ∷ []) h = absurd h
  send_histograms-Safe takes info_all (cmd ∷ details ∷ reply) (even, h) =
      Safe-case_option (calls_of deps r scans e details) _ _ (λ _. Safe-pure tt)
        (λ calls found.
          Safe-bind _ _
            (send_histogram-Safe takes info_all (text_of (string cmd)) calls (even calls found))
            (λ _. send_histograms-Safe takes info_all reply h))

  -- LATENCY HISTOGRAM answers with pairs.
  abbrev pub AnswersHistograms : Type 0
  AnswersHistograms =
      (c : Conn) (reply : List Reply)
      → histogram_reply deps r scans e c ≡ some reply
      → HasPairs reply

  pub extract_latency_metrics-Sound :
      TakesCommand
      → AnswersHistograms
      → (info_all : Bytes)
      → Safe (KeysSound deps r e) (extract_latency_metrics deps r scans e info_all)
  unfolding extract_latency_metrics extract_latency_histogram_metrics
  extract_latency_metrics-Sound takes answers info_all = Safe-bind _ _ latest-Sound (λ _.
      Safe-talk_with initial_descriptions _ _ (λ c.
        Safe-case_option (histogram_reply deps r scans e c) _ _ (λ _. Safe-pure tt)
          (λ reply found. send_histograms-Safe takes info_all reply (answers c reply found))))
