-- ===== src/Config/NoPanic.antt =====
-- When extractConfigMetrics panics, and when it does not.
use redis_exporter.Base.{
  ◌%◌, ◌≡◌, ◌≢◌, refl, true, Option, none, some, List, [], ◌∷◌, Bytes, codes, lookup, bytes_eq, ℤ,
  length, arith,
}
use redis_exporter.Deps.{Deps}
use redis_exporter.Text.Split.{split}
use redis_exporter.Run.{panic, panic_after}
use redis_exporter.Run.Safe.{Safe, Ends, Safe-pure, Safe-bind}
use redis_exporter.Metrics.{Channel, Collect}
use redis_exporter.Metrics.Safe.{IsSound, IsDescribed, sound_rules}
use redis_exporter.Tables.Init.{initial_descriptions}
use redis_exporter.Redis.{Redis}
use redis_exporter.Options.{Exporter}
use redis_exporter.Config.{
  gauge_if_float, hard_limit, soft_limit, soft_seconds, send_key_value, send_limits, send_pair,
  config_pair, go_on_with, config_pairs, extract_config_metrics,
}

config_key_value : IsDescribed initial_descriptions (codes "config_key_value")
unfolding initial_descriptions lookup bytes_eq
config_key_value = record { there = (_, refl) }

config_value : IsDescribed initial_descriptions (codes "config_value")
unfolding initial_descriptions lookup bytes_eq
config_value = record { there = (_, refl) }

limit_bytes : IsDescribed initial_descriptions (codes "config_client_output_buffer_limit_bytes")
unfolding initial_descriptions lookup bytes_eq
limit_bytes = record { there = (_, refl) }

limit_overcome_seconds :
    IsDescribed initial_descriptions (codes "config_client_output_buffer_limit_overcome_seconds")
unfolding initial_descriptions lookup bytes_eq
limit_overcome_seconds = record { there = (_, refl) }

ruleset config_rules =
    (sound_rules, config_key_value, config_value, limit_bytes, limit_overcome_seconds)

module _ (deps : Deps) (r : Redis) (e : Exporter) where
  open deps use {Float}
  open r use {Reply, string}

  abbrev pub ConfigSound : Channel Float → Type 0
  ConfigSound = IsSound initial_descriptions

  float_labelled-Sound :
      (metric text value : Bytes) (values : List Bytes)
      → IsDescribed initial_descriptions metric
      → Safe ConfigSound (gauge_if_float deps r e metric text (value ∷ values))
  unfolding gauge_if_float
  float_labelled-Sound metric text value values d = search (config_rules, d)

  float_plain-Sound :
      (metric text : Bytes) → Safe ConfigSound (gauge_if_float deps r e metric text [])
  unfolding gauge_if_float
  float_plain-Sound metric text = search config_rules

  send_key_value-Sound : (key value : Bytes) → Safe ConfigSound (send_key_value deps r e key value)
  unfolding send_key_value
  send_key_value-Sound key value = search (config_rules, float_labelled-Sound)

  send_limits-Sound :
      (parts : List Bytes) → length parts % 4 ≡ 0 → Safe ConfigSound (send_limits deps r e parts)
  unfolding send_limits
  send_limits-Sound [] h = Safe-pure tt
  send_limits-Sound (class ∷ hard ∷ soft ∷ seconds ∷ parts) h =
      Safe-bind (hard_limit deps r e class hard) _ (search (config_rules, float_labelled-Sound))
        (λ _.
          Safe-bind (soft_limit deps r e class soft) _ (search (config_rules, float_labelled-Sound))
            (λ _.
              Safe-bind (soft_seconds deps r e class seconds) _
                (search (config_rules, float_labelled-Sound))
                (λ _. send_limits-Sound parts (omega arith))))
  send_limits-Sound (class ∷ []) h = absurd (omega arith)
  send_limits-Sound (class ∷ hard ∷ []) h = absurd (omega arith)
  send_limits-Sound (class ∷ hard ∷ soft ∷ []) h = absurd (omega arith)

  -- The value is a list of classes of clients, with three limits each.
  abbrev pub IsClasses : Bytes → Bytes → Type 0
  IsClasses key value =
      bytes_eq key (codes "client-output-buffer-limit") ≡ true → length (split b' ' value) % 4 ≡ 0

  send_pair-Sound :
      (key value : Bytes) → IsClasses key value → Safe ConfigSound (send_pair deps r e key value)
  unfolding send_pair
  send_pair-Sound key value h =
      search (config_rules, send_key_value-Sound, float_plain-Sound, send_limits-Sound, h) depth 9

  -- In the reply, the limits of the output buffers come in classes of clients.
  abbrev pub HasClasses : List Reply → Type 0
  HasClasses [] = Unit
  HasClasses (k ∷ []) = Unit
  HasClasses (k ∷ v ∷ config) =
      ((key value : Bytes) → string k ≡ some key → string v ≡ some value → IsClasses key value)
      × HasClasses config

  config_pair-Sound :
      (k v : Option Bytes) (n : ℤ)
      → ((key value : Bytes) → k ≡ some key → v ≡ some value → IsClasses key value)
      → Safe ConfigSound (config_pair deps r e k v n)
  unfolding config_pair
  config_pair-Sound none v n h = Safe-pure _
  config_pair-Sound (some key) none n h = Safe-pure _
  config_pair-Sound (some key) (some value) n h =
      search (config_rules, send_pair-Sound, h key value refl refl) depth 9

  go_on_with-Sound :
      (f : ℤ → Collect Float (Option ℤ)) (o : Option ℤ)
      → ((n : ℤ) → Safe ConfigSound (f n))
      → Safe ConfigSound (go_on_with deps r e f o)
  go_on_with-Sound f none h = Safe-pure none
  go_on_with-Sound f (some n) h = h n

  config_pairs-Sound :
      (config : List Reply) (n : ℤ)
      → HasClasses config
      → Safe ConfigSound (config_pairs deps r e config n)
  unfolding config_pairs
  config_pairs-Sound [] n h = Safe-pure _
  config_pairs-Sound (k ∷ []) n h = Safe-pure _
  config_pairs-Sound (k ∷ v ∷ config) n (h, hs) =
      Safe-bind (config_pair deps r e (string k) (string v) n) _
        (config_pair-Sound (string k) (string v) n h)
        (λ o.
          go_on_with-Sound (config_pairs deps r e config) o (λ m. config_pairs-Sound config m hs))

  pub extract_config_metrics-Sound :
      (config : List Reply)
      → HasClasses config
      → Safe ConfigSound (extract_config_metrics deps r e config)
  unfolding extract_config_metrics
  extract_config_metrics-Sound config h = search (config_rules, config_pairs-Sound) depth 9

  -- From a channel with the exporter's descriptions, extractConfigMetrics does not panic, keeps the
  -- descriptions, and each metric it sends fits its description, provided that the number of words
  -- of each `client-output-buffer-limit` in the reply is a multiple of four.
  pub extract_config_metrics-Ends :
      (config : List Reply) (c : Channel Float)
      → HasClasses config
      → ConfigSound c
      → Ends ConfigSound (extract_config_metrics deps r e config c)
  extract_config_metrics-Ends config c classes h =
      (extract_config_metrics-Sound config classes).at c h

  -- Otherwise the loop over the classes indexes past the end of the words, from every channel.
  pub send_limits_panics :
      (parts : List Bytes) (c : Channel Float)
      → length parts % 4 ≢ 0
      → send_limits deps r e parts c ≡ none
  unfolding send_limits
  send_limits_panics [] c h = absurd (h refl)
  send_limits_panics (class ∷ []) c h = refl
  send_limits_panics (class ∷ hard ∷ []) c h =
      panic_after (hard_limit deps r e class hard) panic (λ d. refl) c
  send_limits_panics (class ∷ hard ∷ soft ∷ []) c h =
      panic_after (hard_limit deps r e class hard) _
        (panic_after (soft_limit deps r e class soft) panic (λ d. refl)) c
  send_limits_panics (class ∷ hard ∷ soft ∷ seconds ∷ parts) c h =
      panic_after (hard_limit deps r e class hard) _
        (panic_after (soft_limit deps r e class soft) _ (
          panic_after (soft_seconds deps r e class seconds) (send_limits deps r e parts)
            (λ d. send_limits_panics parts d (λ m. h (omega arith)))))
        c
