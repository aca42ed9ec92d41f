-- ===== src/Redis/Safe.antt =====
-- Sessions without a panic: what a method does to the channel, whatever the connection answers.
use redis_exporter.Base.{◌≢◌, Option, none, some, Option-cases, inl, inr, Assoc}
use redis_exporter.Run.Safe.{Safe, Ends}
use redis_exporter.Metrics.{Channel, Collect, Desc}
use redis_exporter.Metrics.Safe.{IsSound}
use redis_exporter.Run.{◌>>=◌}
use redis_exporter.Redis.{Session, Act, collect, talk, talk_partial}

-- The channel of a session is sound.
abbrev pub SessionSound : {F C : Type 0} → Assoc Desc → Session F C → Type 0
SessionSound table s = IsSound table s.channel

module _ (table : Assoc Desc) {F C A : Type 0} where
  Ends-collect :
      (r : Option (A × Channel F)) (s : Session F C)
      → Ends (IsSound table) r
      → Ends {A = A} (SessionSound table) (elim r as (λ _. Option (A × Session F C)) [
        | none ↦ none
        | some (a, c) ↦ some (a, record s { channel = c })
      ])
  Ends-collect none s h = h
  Ends-collect (some (a, c)) s h = h

  pub Safe-collect :
      (m : Collect F A) → Safe (IsSound table) m → Safe (SessionSound {C = C} table) (collect m)
  unfolding collect
  Safe-collect m h = record { at = λ s p. Ends-collect (m s.channel) s (h.at s.channel p) }

  pub Safe-talk : (f : C → A × C) → Safe (SessionSound table) (talk {F = F} f)
  unfolding talk
  Safe-talk f = record { at = λ s p. p }

  pub Safe-talk_partial :
      (f : C → Option (A × C))
      → ((c : C) → f c ≢ none)
      → Safe (SessionSound table) (talk_partial {F = F} f)
  unfolding talk_partial
  Safe-talk_partial f h = record {
    at = λ s p. elim (Option-cases (f s.conn)) [
      | inl e ↦ absurd (h s.conn e)
      | inr (x, e) ↦ rw (e, Ends) p
    ];
  }

module _ (table : Assoc Desc) {F C A B : Type 0} where
  -- A call of the connection whose answer is known to the method behind it.
  pub Safe-talk_with :
      (f : C → A × C) (k : A → Act F C B)
      → ((c : C) → Safe (SessionSound table) (k (f c).0))
      → Safe (SessionSound table) (talk f >>= k)
  unfolding talk
  Safe-talk_with f k h = record { at = λ s p. (h s.conn).at _ p }
