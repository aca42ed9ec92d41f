-- ===== src/Scrape/Rounds.antt =====
-- Scrape after scrape: what Collect leaves of the state that lasts.
use redis_exporter.Base.{
  ℕ, ◌+◌, ◌≡◌, ◌≢◌, refl, ap, ◌∙◌, Option, none, some, List, [], ◌∷◌, codes, length, length-append,
  bytes_eq, bytes_eq-nil_ne, lookup, arith,
}
use redis_exporter.Deps.{Deps}
use redis_exporter.Run.Safe.{Safe, Safe-then, Safe-bind, Safe-case_option, Ends}
use redis_exporter.Metrics.{Channel}
use redis_exporter.Metrics.Safe.{IsSound, IsDescribed, gauge_labelled-Sound, gauge_plain-Sound}
use redis_exporter.Tables.Init.{initial_descriptions}
use redis_exporter.Options.{Exporter}
use redis_exporter.Scrape.Outside.{Outside}
use redis_exporter.Scrape.Answers.{Answers}
use redis_exporter.Scrape.NoPanic.{scrape_redis_host-Sound}
use redis_exporter.Scrape.Registry.{
  State, Collection, fresh, send_scrape_error, collect_metrics, counted, observed, collect,
}

module _ (deps : Deps) (e : Exporter) (fuel : ℕ) where
  open deps use {Float}

  abbrev pub IsLasting : State Float → Type 0
  IsLasting st = IsSound {F = Float} initial_descriptions (fresh st)

  -- A scrape of what is outside then.
  pub record Round : Type 1 where
    pub outside : Outside deps
    pub answers : Answers deps outside e fuel

  abbrev pub next_state : Option (Collection Float × State Float) → Option (State Float)
  next_state none = none
  next_state (some (metrics, st)) = some st

  abbrev pub and_then :
      Option (State Float) → (State Float → Option (State Float)) → Option (State Float)
  and_then none rest = none
  and_then (some st) rest = rest st

  -- The state behind one scrape after the other.
  unfoldable pub collects : List Round → State Float → Option (State Float)
  unfolding collect
  collects [] st = some st
  collects (r ∷ rounds) st =
      and_then (next_state (collect deps r.outside e fuel st)) (collects rounds)

  error_described : IsDescribed initial_descriptions (codes "exporter_last_scrape_error")
  unfolding initial_descriptions lookup bytes_eq
  error_described = record { there = (_, refl) }

  collect_metrics-Sound :
      (o : Outside deps)
      → Answers deps o e fuel
      → Safe (IsSound initial_descriptions) (collect_metrics deps o e fuel)
  unfolding collect_metrics send_scrape_error
  collect_metrics-Sound o a = Safe-bind _ _ (scrape_redis_host-Sound deps o e fuel a) (λ error.
      Safe-then _ _
        (Safe-case_option error _ _
          (λ _. gauge_labelled-Sound deps initial_descriptions _ _ _ _ error_described)
          (λ err _. gauge_labelled-Sound deps initial_descriptions _ _ _ _ error_described))
        (Safe-then _ _ (gauge_plain-Sound deps initial_descriptions _ _)
          (gauge_plain-Sound deps initial_descriptions _ _)))

  -- What a scrape leaves.
  abbrev IsBehind : ℕ → State Float → State Float → Type 0
  IsBehind n st st' =
      IsLasting st'
      × (st'.total_scrapes ≡ st.total_scrapes + n)
      × (length st'.scrape_durations ≡ length st.scrape_durations + n)
      × (st'.target_scrape_request_errors ≡ st.target_scrape_request_errors)

  channel_of :
      (x : Option (Unit {0} × Channel Float))
      → Ends (IsSound initial_descriptions) x
      → (c : Channel Float) × (x ≡ some (tt, c)) × IsSound initial_descriptions c
  channel_of none h = absurd h
  channel_of (some (done, c)) h = (c, refl, h)

  collected_state :
      (o : Outside deps) (st : State Float) (c : Channel Float)
      → e.redis_addr ≢ []
      → collect_metrics deps o e fuel (fresh st) ≡ some (tt, c)
      → next_state (collect deps o e fuel st)
        ≡ some (observed deps o e fuel c (counted deps o e fuel st))
  unfolding collect
  collected_state o st c address done =
      rw (bytes_eq-nil_ne e.redis_addr address) (rw (done, collect) refl)

  one_round :
      (o : Outside deps) (st : State Float)
      → Answers deps o e fuel
      → e.redis_addr ≢ []
      → IsLasting st
      → (st' : State Float) × (next_state (collect deps o e fuel st) ≡ some st') × IsBehind 1 st st'
  one_round o st a address sound =
      let (c, done, kept) =
        channel_of (collect_metrics deps o e fuel (fresh st))
          ((collect_metrics-Sound o a).at (fresh st) sound) in
      (
        _,
        collected_state o st c address done,
        (
          record { kept = kept.kept; fits = tt },
          refl,
          length-append st.scrape_durations (o.scrape_took ∷ []),
          refl,
        ),
      )

  -- However many scrapes follow each other, of servers whose replies have the documented form at the
  -- time, every one returns. Behind them the table of descriptions still has those that the exporter
  -- began with, unchanged; the counter of scrapes has grown by their number, and as many durations
  -- were observed; the counter of bad requests is as it was. The exporter has an address, and the
  -- state at the start has the exporter's descriptions.
  pub collects-IsLasting :
      (rounds : List Round) (st : State Float)
      → e.redis_addr ≢ []
      → IsLasting st
      → (st' : State Float) × (collects rounds st ≡ some st')
        × IsLasting st'
        × (st'.total_scrapes ≡ st.total_scrapes + length rounds)
        × (length st'.scrape_durations ≡ length st.scrape_durations + length rounds)
        × (st'.target_scrape_request_errors ≡ st.target_scrape_request_errors)
  unfolding collects
  collects-IsLasting [] st address sound = (st, refl, sound, omega arith, omega arith, refl)
  collects-IsLasting (r ∷ rounds) st address sound =
      let (st1, first, (sound1, total1, durations1, errors1)) =
        one_round r.outside st r.answers address sound in
      let (st2, rest, sound2, total2, durations2, errors2) =
        collects-IsLasting rounds st1 address sound1 in
      (
        st2,
        ap (λ x. and_then x (collects rounds)) first ∙ rest,
        sound2,
        omega arith,
        omega arith,
        errors2 ∙ errors1,
      )
