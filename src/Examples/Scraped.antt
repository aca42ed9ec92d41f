-- ===== src/Examples/Scraped.antt =====
-- A scrape of the sample server, and a collection from a server that does not answer.
use redis_exporter.Base.{
  length, List, ◌+◌, ℤ, ◌≡◌, refl, none, some, Option, [], ◌∷◌, Bytes, codes, arith, lookup,
  bytes_eq, false, sym, ◌∙◌, ap, pos, strip_prefix, contains,
}
use redis_exporter.Deps.{whole_numbers}
use redis_exporter.Run.Safe.{Ends}
use redis_exporter.Metrics.{const, gauge_value, Channel, register_const_metric_gauge}
use redis_exporter.Metrics.Safe.{IsSound}
use redis_exporter.Tables.Init.{initial_descriptions}
use redis_exporter.Scrape.Outside.{ScrapeError, connect_failed}
use redis_exporter.Scrape.Host.{scrape_redis_host, scrape_dialed, dial_host}
use redis_exporter.Scrape.Registry.{State, no_labels, fresh, collection, collect}
use redis_exporter.Scrape.Plain.{IsPlain, with_plain, with_plain-IsPlain, gauge_plain_sends}
use redis_exporter.Connect.Dial.{dial_again, two_frags, cut_scheme, with_scheme}
use redis_exporter.Run.{bind_some}
use redis_exporter.Scrape.NoPanic.{scrape_redis_host-Ends}
use redis_exporter.Scrape.Rounds.{Round, IsLasting, collects, collects-IsLasting}
use redis_exporter.Scrape.Up.{reported, scraped_state, collect-reported}
use redis_exporter.Examples.Server.{sample_exporter, fresh_channel, fresh_channel-IsSound}
use redis_exporter.Examples.Outside.{sample_outside, sample_outside-Answers}

scrape_redis_host-Ends_example :
    Ends
      (IsSound initial_descriptions)
      (scrape_redis_host whole_numbers (sample_outside (some tt)) sample_exporter 1 fresh_channel)
scrape_redis_host-Ends_example =
    scrape_redis_host-Ends whole_numbers (sample_outside (some tt)) sample_exporter 1
      (sample_outside-Answers (some tt)) fresh_channel fresh_channel-IsSound

abbrev new_state : State ℤ
new_state = record {
  descriptions = initial_descriptions;
  total_scrapes = 4;
  scrape_durations = [];
  target_scrape_request_errors = 0;
}

abbrev connect_time : Bytes
connect_time = codes "exporter_last_scrape_connect_time_seconds"

no_host : dial_host whole_numbers (sample_outside none) sample_exporter 1 ≡ none
unfolding dial_host dial_again two_frags cut_scheme contains strip_prefix bytes_eq with_scheme
no_host = refl

undescribed :
    (name : Bytes) → lookup name initial_descriptions ≡ none → IsPlain name initial_descriptions
undescribed name missing d found = absurd (cc)

connect_time-undescribed : lookup connect_time initial_descriptions ≡ none
unfolding initial_descriptions lookup bytes_eq
connect_time-undescribed = refl

abbrev unreached_channel : Channel ℤ
unreached_channel = record {
  descriptions = with_plain connect_time initial_descriptions;
  sent = const (no_labels connect_time) gauge_value (pos 1) [] ∷ [];
}

unreached :
    scrape_redis_host whole_numbers (sample_outside none) sample_exporter 1 (fresh new_state)
    ≡ some (some connect_failed, unreached_channel)
unfolding scrape_redis_host scrape_dialed
unreached =
    bind_some (register_const_metric_gauge whole_numbers connect_time (pos 1) [])
      (λ done.
        scrape_dialed whole_numbers (sample_outside none) sample_exporter 1
          (dial_host whole_numbers (sample_outside none) sample_exporter 1))
      (fresh new_state)
      (gauge_plain_sends whole_numbers connect_time (pos 1) (fresh new_state)
        (undescribed connect_time connect_time-undescribed) refl)
    ∙ ap
        (λ dialed.
          scrape_dialed whole_numbers (sample_outside none) sample_exporter 1 dialed
            unreached_channel)
        no_host

unreached-IsPlain :
    (name : Bytes) (error : Option ScrapeError) (c : Channel ℤ)
    → IsPlain name initial_descriptions
    → bytes_eq connect_time name ≡ false
    → ◌≡◌ {A = Option (Option ScrapeError × Channel ℤ)}
        (some (some connect_failed, unreached_channel))
        (some (error, c))
    → IsPlain name c.descriptions
unreached-IsPlain name error c plain differ same =
    let same_c : unreached_channel ≡ c = cc in
    rw (← same_c) (with_plain-IsPlain connect_time name initial_descriptions plain differ)

duration-undescribed :
    lookup (codes "exporter_last_scrape_duration_seconds") initial_descriptions ≡ none
unfolding initial_descriptions lookup bytes_eq
duration-undescribed = refl

unreached_descriptions :
    (error : Option ScrapeError) (c : Channel ℤ)
    → scrape_redis_host whole_numbers (sample_outside none) sample_exporter 1 (fresh new_state)
      ≡ some (error, c)
    → IsPlain (codes "exporter_last_scrape_duration_seconds") c.descriptions
unfolding bytes_eq
unreached_descriptions error c done =
    unreached-IsPlain (codes "exporter_last_scrape_duration_seconds") error c
      (undescribed (codes "exporter_last_scrape_duration_seconds") duration-undescribed) refl
      (sym unreached ∙ done)

collect-reported_example :
    (error : Option ScrapeError) × (c : Channel ℤ) × (scrape_redis_host whole_numbers
        (sample_outside none)
        sample_exporter
        1
        (fresh new_state)
      ≡ some (error, c))
    × (collect whole_numbers (sample_outside none) sample_exporter 1 new_state
        ≡ some (
          collection
              (reported whole_numbers (sample_outside none) sample_exporter 1 error c)
              (scraped_state whole_numbers (sample_outside none) sample_exporter 1 c new_state),
          scraped_state whole_numbers (sample_outside none) sample_exporter 1 c new_state,
        ))
collect-reported_example =
    collect-reported whole_numbers (sample_outside none) sample_exporter 1 new_state
      (sample_outside-Answers none) (ground arith) fresh_channel-IsSound (refl, λ err. refl) refl
      refl unreached_descriptions

abbrev two_rounds : List (Round whole_numbers sample_exporter 1)
two_rounds =
    record { outside = sample_outside (some tt); answers = sample_outside-Answers (some tt) }
    ∷ record { outside = sample_outside none; answers = sample_outside-Answers none }
    ∷ []

collects-IsLasting_example :
    (st' : State ℤ) × (collects whole_numbers sample_exporter 1 two_rounds new_state ≡ some st')
    × IsLasting whole_numbers sample_exporter 1 st'
    × (st'.total_scrapes ≡ 4 + 2)
    × (length st'.scrape_durations ≡ 0 + 2)
    × (st'.target_scrape_request_errors ≡ 0)
collects-IsLasting_example =
    collects-IsLasting whole_numbers sample_exporter 1 two_rounds new_state (ground arith)
      fresh_channel-IsSound
