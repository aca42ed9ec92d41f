-- ===== src/Redis/Gives.antt =====
-- What a method over a session returns.
use redis_exporter.Base.{Option, none, some}
use redis_exporter.Run.{◌>>=◌}
use redis_exporter.Run.Gives.{Gives, Results}
use redis_exporter.Metrics.{Channel, Collect}
use redis_exporter.Redis.{Session, Act, collect, talk}

module _ {F C A : Type 0} where
  Results-collect :
      (Q : A → Type 0) (x : Option (A × Channel F)) (s : Session F C)
      → Results Q x
      → Results Q (elim x as (λ _. Option (A × Session F C)) [
        | none ↦ none
        | some (a, c) ↦ some (a, record s { channel = c })
      ])
  Results-collect Q none s h = h
  Results-collect Q (some (a, c)) s h = h

module _ {F C A : Type 0} {Q : A → Type 0} where
  pub Gives-talk : (f : C → A × C) → ((c : C) → Q (f c).0) → Gives Q (talk {F = F} f)
  unfolding talk
  Gives-talk f h = record { of = λ s. h s.conn }

  pub Gives-collect : (m : Collect F A) → Gives Q m → Gives Q (collect {C = C} m)
  unfolding collect
  Gives-collect m h = record { of = λ s. Results-collect Q (m s.channel) s (h.of s.channel) }

module _ {F C A B : Type 0} {Q : B → Type 0} where
  pub Gives-talk_with :
      (f : C → A × C) (k : A → Act F C B) → ((c : C) → Gives Q (k (f c).0)) → Gives Q (talk f >>= k)
  unfolding talk
  Gives-talk_with f k h = record { of = λ s. (h s.conn).of _ }
