-- ===== src/Config/Count.antt =====
-- The number of databases that extractConfigMetrics returns.
use redis_exporter.Base.{
  ◌≡◌, refl, Option, none, some, List, [], ◌∷◌, Bytes, codes, bytes_eq, ℤ, pos, negsuc, Bool-cases,
  ap, bytes_eq_iff, arith, inl, inr, length, ◌%◌, ◌==◌,
}
use redis_exporter.Deps.{Deps}
use redis_exporter.Text.Number.{parse_int}
use redis_exporter.Run.Gives.{Gives, Gives-pure, Gives-if, Gives-with, Gives-any, Gives-case_option}
use redis_exporter.Metrics.{Collect}
use redis_exporter.Redis.{Redis}
use redis_exporter.Options.{Exporter}
use redis_exporter.Config.{
  atoi, send_pair, config_pair, config_pairs, go_on_with, extract_config_metrics,
}

abbrev pub IsCount : ℤ → Type 0
IsCount (pos n) = Unit
IsCount (negsuc n) = ⊥

-- An error, or a number that is not negative.
abbrev pub IsCounted : Option ℤ → Type 0
IsCounted none = Unit
IsCounted (some n) = IsCount n

transport-IsCount : {m n : ℤ} → m ≡ n → IsCount m → IsCount n
transport-IsCount same h = rw (← same) h

module _ (deps : Deps) (r : Redis) (e : Exporter) where
  open r use {Reply, string}

  -- In the reply, the number of databases is not negative.
  abbrev pub HasCount : List Reply → Type 0
  HasCount [] = Unit
  HasCount (k ∷ []) = Unit
  HasCount (k ∷ v ∷ config) =
      ((value : Bytes)
        → string k ≡ some (codes "databases")
        → string v ≡ some value
        → IsCount (parse_int value).value)
      × HasCount config

  atoi-counts :
      (value : Bytes) (n : ℤ)
      → atoi deps r e value ≡ some n
      → IsCount (parse_int value).value
      → IsCount n
  atoi-counts value n found h = elim (Bool-cases (parse_int value).failed) [
    | inl failed ↦ absurd (ground (arith, found, failed))
    | inr fine ↦ transport-IsCount (ground (arith, found, fine)) h
  ]

  config_pair-counts :
      (k v : Option Bytes) (n : ℤ)
      → IsCount n
      → ((value : Bytes)
          → k ≡ some (codes "databases")
          → v ≡ some value
          → IsCount (parse_int value).value)
      → Gives IsCounted (config_pair deps r e k v n)
  unfolding config_pair
  config_pair-counts none v n h counts = Gives-pure _ h
  config_pair-counts (some key) none n h counts = Gives-pure _ h
  config_pair-counts (some key) (some value) n h counts =
      Gives-if (bytes_eq key (codes "databases")) _ _
        (λ is_databases.
          Gives-case_option (atoi deps r e value) _ _ (λ _. Gives-pure none tt)
            (λ m found.
              Gives-with {P = λ _. Unit {0}} (send_pair deps r e key value) _ (Gives-any _) (λ _ _.
                Gives-pure (some m) (
                  atoi-counts value m found (
                    counts value (ap some ((bytes_eq_iff key (codes "databases")).0 is_databases))
                      refl)))))
        (λ _.
          Gives-with {P = λ _. Unit {0}} (send_pair deps r e key value) _ (Gives-any _)
            (λ _ _. Gives-pure (some n) h))

  go_on_with-counts :
      (f : ℤ → Collect deps.Float (Option ℤ)) (o : Option ℤ)
      → IsCounted o
      → ((n : ℤ) → IsCount n → Gives IsCounted (f n))
      → Gives IsCounted (go_on_with deps r e f o)
  go_on_with-counts f none h k = Gives-pure none tt
  go_on_with-counts f (some n) h k = k n h

  config_pairs-counts :
      (config : List Reply) (n : ℤ)
      → IsCount n
      → HasCount config
      → Gives IsCounted (config_pairs deps r e config n)
  unfolding config_pairs
  config_pairs-counts [] n h counts = Gives-pure _ h
  config_pairs-counts (k ∷ []) n h counts = Gives-pure _ h
  config_pairs-counts (k ∷ v ∷ config) n h (c, counts) =
      Gives-with {P = IsCounted} (config_pair deps r e (string k) (string v) n) _
        (config_pair-counts (string k) (string v) n h c)
        (λ o counted.
          go_on_with-counts (config_pairs deps r e config) o counted
            (λ m hm. config_pairs-counts config m hm counts))

  pub extract_config_metrics-counts :
      (config : List Reply)
      → HasCount config
      → Gives IsCounted (extract_config_metrics deps r e config)
  unfolding extract_config_metrics
  extract_config_metrics-counts config counts =
      Gives-if (length config % 2 == 0) _ _ (λ _. config_pairs-counts config (pos 0) tt counts)
        (λ _. Gives-pure none tt)
