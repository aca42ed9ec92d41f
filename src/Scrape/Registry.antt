-- ===== src/Scrape/Registry.antt =====
-- Collect and Describe: the interface to the registry of Prometheus. The state that lasts from scrape
-- to scrape is the table of descriptions and the exporter's own three metrics.
use redis_exporter.Base.{
  ℕ, ◌+◌, Option, none, some, List, [], ◌∷◌, ◌++◌, map, Bytes, codes, bytes_eq, if◌then◌else◌, pos,
  Assoc,
}
use redis_exporter.Deps.{Deps}
use redis_exporter.Run.{◌>>=◌, ◌>>◌, case_option}
use redis_exporter.Metrics.{Channel, Collect, Desc, Metric, register_const_metric_gauge}
use redis_exporter.Options.{Exporter}
use redis_exporter.Scrape.Outside.{Outside, ScrapeError}
use redis_exporter.Scrape.Host.{scrape_redis_host}

pub record State (F : Type 0) : Type 0 where
  pub descriptions : Assoc Desc
  pub total_scrapes : ℕ
  pub scrape_durations : List F
  pub target_scrape_request_errors : ℕ

-- What Collect sends: the metrics of the scrape, and the exporter's own as they are then.
pub record Collection (F : Type 0) : Type 0 where
  pub metrics : List (Metric F)
  pub total_scrapes : ℕ
  pub scrape_durations : List F
  pub target_scrape_request_errors : ℕ

-- The channel at the start of a scrape.
abbrev pub fresh : {F : Type 0} → State F → Channel F
fresh st = record { descriptions = st.descriptions; sent = [] }

abbrev pub collection : {F : Type 0} → List (Metric F) → State F → Collection F
collection metrics st = record {
  metrics = metrics;
  total_scrapes = st.total_scrapes;
  scrape_durations = st.scrape_durations;
  target_scrape_request_errors = st.target_scrape_request_errors;
}

abbrev pub no_labels : Bytes → Desc
no_labels name = record { name = name; labels = [] }

-- The descriptions of the table, one for each value of the renaming tables, and the exporter's own.
unfoldable pub describe : {F : Type 0} → Exporter → State F → List Desc
describe e st =
    map (λ x. x.1) st.descriptions
    ++ (map (λ x. no_labels x.1) e.maps.gauges
        ++ (map (λ x. no_labels x.1) e.maps.counters
            ++ (no_labels (codes "exporter_scrapes_total")
                ∷ no_labels (codes "exporter_scrape_duration_seconds")
                ∷ no_labels (codes "target_scrape_request_errors_total")
                ∷ [])))

module _ (deps : Deps) (o : Outside deps) (e : Exporter) (fuel : ℕ) where
  open deps use {Float, of_ℤ}

  -- The text of the error, and 1 with an error or 0 without one.
  unfoldable pub send_scrape_error : Option ScrapeError → Collect Float (Unit {0})
  send_scrape_error error =
      case_option error
        (register_const_metric_gauge deps (codes "exporter_last_scrape_error") (of_ℤ (pos 0))
          ([] ∷ []))
        (λ err.
          register_const_metric_gauge deps (codes "exporter_last_scrape_error") (of_ℤ (pos 1))
            (o.scrape_error_text err ∷ []))

  abbrev pub up_value : Option ScrapeError → Float
  up_value none = of_ℤ (pos 1)
  up_value (some err) = of_ℤ (pos 0)

  unfoldable pub collect_metrics : Collect Float (Unit {0})
  unfolding scrape_redis_host send_scrape_error
  collect_metrics = do
    error ← scrape_redis_host deps o e fuel
    send_scrape_error error
    register_const_metric_gauge deps (codes "up") (up_value error) []
    register_const_metric_gauge deps (codes "exporter_last_scrape_duration_seconds") o.scrape_took
        []

  abbrev pub counted : State Float → State Float
  counted st = record st { total_scrapes = st.total_scrapes + 1 }

  -- The state behind a scrape that took its time and left these descriptions.
  abbrev pub observed : Channel Float → State Float → State Float
  observed c st = record st {
    descriptions = c.descriptions;
    scrape_durations = st.scrape_durations ++ o.scrape_took ∷ [];
  }

  -- `none` is a panic.
  unfoldable pub collect : State Float → Option (Collection Float × State Float)
  unfolding collect_metrics
  collect st =
      if bytes_eq e.redis_addr []
      then some (collection [] (counted st), counted st)
      else elim (collect_metrics (fresh st)) [
        | none ↦ none
        | some (done, c) ↦
            some (collection c.sent (observed c (counted st)), observed c (counted st))
      ]
