-- ===== src/Scrape/Up.antt =====
-- What Collect reports of a scrape: `up`, the error and the duration.
use redis_exporter.Base.{
  ℕ, ◌+◌, ◌≡◌, ◌≢◌, refl, sym, ap, ◌∙◌, true, false, Option, none, some, List, [], ◌∷◌, ◌++◌, Bytes,
  codes, bytes_eq, bytes_eq-nil_ne, lookup, Assoc, pos,
}
use redis_exporter.Deps.{Deps}
use redis_exporter.Run.{bind_some, case_option}
use redis_exporter.Run.Safe.{Ends}
use redis_exporter.Metrics.{Channel, Desc, Metric, const, gauge_value, register_const_metric_gauge}
use redis_exporter.Metrics.Safe.{IsSound}
use redis_exporter.Info.Sends.{gauge_sends, sending}
use redis_exporter.Tables.Init.{initial_descriptions}
use redis_exporter.Options.{Exporter}
use redis_exporter.Scrape.Outside.{Outside, ScrapeError}
use redis_exporter.Scrape.Host.{scrape_redis_host}
use redis_exporter.Scrape.Answers.{Answers}
use redis_exporter.Scrape.NoPanic.{scrape_redis_host-Sound}
use redis_exporter.Scrape.Registry.{
  State, fresh, collection, send_scrape_error, up_value, collect_metrics, counted, no_labels,
  observed, collect,
}
use redis_exporter.Scrape.Plain.{IsPlain, with_plain, with_plain-IsPlain, gauge_plain_sends}

module _ (deps : Deps) (o : Outside deps) (e : Exporter) (fuel : ℕ) where
  open deps use {Float, accepts, of_ℤ}

  abbrev error_desc : Desc
  error_desc = record { name = codes "exporter_last_scrape_error"; labels = codes "err" ∷ [] }

  error_described :
      lookup (codes "exporter_last_scrape_error") initial_descriptions ≡ some error_desc
  unfolding initial_descriptions lookup bytes_eq
  error_described = refl

  up_described : lookup (codes "up") initial_descriptions ≡ some (no_labels (codes "up"))
  unfolding initial_descriptions lookup bytes_eq
  up_described = refl

  -- A sound channel has the description of `up` that the table of the exporter has.
  up-IsPlain :
      (c : Channel Float) → IsSound initial_descriptions c → IsPlain (codes "up") c.descriptions
  up-IsPlain c sound d found =
      some_desc d (no_labels (codes "up")) (sym found ∙ sound.kept _ _ up_described)
    where
      some_desc : (a b : Desc) → some a ≡ some b → a ≡ b
      some_desc a b e = cc

  -- 0 and no text, or 1 and the text of the error.
  abbrev pub error_metric : Option ScrapeError → Metric Float
  error_metric none = const error_desc gauge_value (of_ℤ (pos 0)) ([] ∷ [])
  error_metric (some err) =
      const error_desc gauge_value (of_ℤ (pos 1)) (o.scrape_error_text err ∷ [])

  -- 1 without an error, and 0 with one.
  abbrev pub up_metric : Option ScrapeError → Metric Float
  up_metric none = const (no_labels (codes "up")) gauge_value (of_ℤ (pos 1)) []
  up_metric (some err) = const (no_labels (codes "up")) gauge_value (of_ℤ (pos 0)) []

  up_metric_lem :
      (error : Option ScrapeError)
      → const (no_labels (codes "up")) gauge_value (up_value deps o e fuel error) []
        ≡ up_metric error
  up_metric_lem none = refl
  up_metric_lem (some err) = refl

  abbrev duration_name : Bytes
  duration_name = codes "exporter_last_scrape_duration_seconds"

  abbrev pub duration_metric : Metric Float
  duration_metric = const (no_labels duration_name) gauge_value o.scrape_took []

  -- The client takes the label of the error: no text, and the text of each error.
  abbrev pub TakesError : Type 0
  TakesError =
      (accepts error_desc.name error_desc.labels ([] ∷ []) ≡ true)
      × ((err : ScrapeError)
          → accepts error_desc.name error_desc.labels (o.scrape_error_text err ∷ []) ≡ true)

  error_sends :
      (error : Option ScrapeError) (c : Channel Float)
      → IsSound initial_descriptions c
      → TakesError
      → send_scrape_error deps o e fuel error c ≡ some (tt, sending deps c (error_metric error))
  unfolding send_scrape_error case_option
  error_sends none c sound takes =
      gauge_sends deps _ error_desc _ [] c (sound.kept _ _ error_described) takes.0
  error_sends (some err) c sound takes =
      gauge_sends deps _ error_desc _ _ c (sound.kept _ _ error_described) (takes.1 err)

  abbrev pub final_table : Assoc Desc → Assoc Desc
  final_table table = with_plain duration_name (with_plain (codes "up") table)

  -- The metrics behind those of the scrape.
  report_sends :
      (error : Option ScrapeError) (start c : Channel Float)
      → scrape_redis_host deps o e fuel start ≡ some (error, c)
      → IsSound initial_descriptions c
      → TakesError
      → accepts (codes "up") [] [] ≡ true
      → accepts duration_name [] [] ≡ true
      → IsPlain duration_name c.descriptions
      → collect_metrics deps o e fuel start
        ≡ some (
          tt,
          record {
            descriptions = final_table c.descriptions;
            sent =
                ((c.sent ++ error_metric error ∷ []) ++ up_metric error ∷ [])
                ++ duration_metric ∷ [];
          },
        )
  unfolding collect_metrics
  report_sends error start c scraped sound takes_error takes_up takes_duration duration_plain =
      bind_some (scrape_redis_host deps o e fuel) _ start scraped
      ∙ bind_some (send_scrape_error deps o e fuel error) _ c
          (error_sends error c sound takes_error)
      ∙ bind_some (register_const_metric_gauge deps (codes "up") (up_value deps o e fuel error) [])
          _ _
          (gauge_plain_sends deps (codes "up") _ _ (up-IsPlain c sound) takes_up
            ∙ ap
                (λ metric. some (
                  tt,
                  record {
                    descriptions = with_plain (codes "up") c.descriptions;
                    sent = (c.sent ++ error_metric error ∷ []) ++ metric ∷ [];
                  },
                ))
                (up_metric_lem error))
      ∙ gauge_plain_sends deps duration_name o.scrape_took _
          (with_plain-IsPlain (codes "up") duration_name c.descriptions duration_plain names_differ)
          takes_duration
    where
      names_differ : bytes_eq (codes "up") duration_name ≡ false
      names_differ = unfold bytes_eq in refl

  abbrev pub reported : Option ScrapeError → Channel Float → List (Metric Float)
  reported error c =
      ((c.sent ++ error_metric error ∷ []) ++ up_metric error ∷ []) ++ duration_metric ∷ []

  -- The state behind Collect.
  abbrev pub scraped_state : Channel Float → State Float → State Float
  scraped_state c st = record st {
    descriptions = final_table c.descriptions;
    total_scrapes = st.total_scrapes + 1;
    scrape_durations = st.scrape_durations ++ o.scrape_took ∷ [];
  }

  collected :
      (st : State Float) (ch : Channel Float)
      → e.redis_addr ≢ []
      → collect_metrics deps o e fuel (fresh st) ≡ some (tt, ch)
      → collect deps o e fuel st
        ≡ some (
          collection ch.sent (observed deps o e fuel ch (counted deps o e fuel st)),
          observed deps o e fuel ch (counted deps o e fuel st),
        )
  unfolding collect
  collected st ch address done = rw (bytes_eq-nil_ne e.redis_addr address) (rw (done, collect) refl)

  result_of :
      (x : Option (Option ScrapeError × Channel Float))
      → Ends (IsSound initial_descriptions) x
      → (error : Option ScrapeError) × (c : Channel Float) × (x ≡ some (error, c))
        × IsSound initial_descriptions c
  result_of none h = absurd h
  result_of (some (error, c)) h = (error, c, refl, h)

  -- Collect returns, and reports the scrape truly: behind the metrics of the scrape it sends the error
  -- with its text, or 0 and no text where scrapeRedisHost returned no error; `up`, which is 1 exactly
  -- where there was no error; and the duration. The scrape is counted and its duration observed. The
  -- replies and the start are as for a scrape that does not panic, there is an address, the client
  -- takes these three metrics with these labels, and the scrape made no description with labels under the name of the
  -- duration.
  pub collect-reported :
      (st : State Float)
      → Answers deps o e fuel
      → e.redis_addr ≢ []
      → IsSound initial_descriptions (fresh st)
      → TakesError
      → accepts (codes "up") [] [] ≡ true
      → accepts duration_name [] [] ≡ true
      → ((error : Option ScrapeError) (c : Channel Float)
          → scrape_redis_host deps o e fuel (fresh st) ≡ some (error, c)
          → IsPlain duration_name c.descriptions)
      → (error : Option ScrapeError) × (c : Channel Float) × (scrape_redis_host deps o e fuel
            (fresh st)
          ≡ some (error, c))
        × (collect deps o e fuel st
            ≡ some (collection (reported error c) (scraped_state c st), scraped_state c st))
  collect-reported st a address sound takes_error takes_up takes_duration plain =
      let (error, c, scraped, kept) =
        result_of (scrape_redis_host deps o e fuel (fresh st))
          ((scrape_redis_host-Sound deps o e fuel a).at (fresh st) sound) in
      (
        error,
        c,
        scraped,
        collected st _ address (
            report_sends error (fresh st) c scraped kept takes_error takes_up takes_duration
              (plain error c scraped)),
      )
