-- ===== src/Run/Gives.antt =====
-- The rules for what a method returns.
use redis_exporter.Base.{◌≡◌, refl, Bool, true, false, Option, none, some, if◌then◌else◌}
use redis_exporter.Run.{Run, ◌>>=◌, pure, case_option}
use redis_exporter.Run.Safe.{Safe, Ends}

-- A result that was there has the property.
abbrev pub Results : {S A : Type 0} → (A → Type 0) → Option (A × S) → Type 0
Results Q none = Unit
Results Q (some (a, s)) = Q a

-- Whatever the state, a result of the method has `Q`.
pub record Gives {S A : Type 0} (Q : A → Type 0) (m : Run S A) : Type 0 where
  pub of : (s : S) → Results Q (m s)

module _ {S A : Type 0} {Q : A → Type 0} where
  pub Gives-pure : (a : A) → Q a → Gives Q (pure {S = S} a)
  Gives-pure a h = record { of = λ s. h }

  pub Gives-if :
      (b : Bool) (m n : Run S A)
      → (b ≡ true → Gives Q m)
      → (b ≡ false → Gives Q n)
      → Gives Q (if b then m else n)
  Gives-if true m n hm hn = hm refl
  Gives-if false m n hm hn = hn refl

module _ {S A B : Type 0} {P : A → Type 0} {Q : B → Type 0} where
  Results-bind :
      (x : Option (A × S)) (f : A → Run S B)
      → Results P x
      → ((a : A) → P a → Gives Q (f a))
      → Results Q (elim x as (λ _. Option (B × S)) [ none ↦ none | some (a, s) ↦ f a s ])
  Results-bind none f h k = tt
  Results-bind (some (a, s)) f h k = (k a h).of s

  pub Gives-with :
      (m : Run S A) (f : A → Run S B)
      → Gives P m
      → ((a : A) → P a → Gives Q (f a))
      → Gives Q (m >>= f)
  Gives-with m f h k = record { of = λ s. Results-bind (m s) f (h.of s) k }

module _ {S A : Type 0} where
  Results-any : (x : Option (A × S)) → Results (λ _. Unit) x
  Results-any none = tt
  Results-any (some (a, s)) = tt

  -- Nothing is known of the result.
  pub Gives-any : (m : Run S A) → Gives (λ _. Unit {0}) m
  Gives-any m = record { of = λ s. Results-any (m s) }

module _ {S A X : Type 0} {Q : A → Type 0} where
  pub Gives-case_option :
      (o : Option X) (m : Run S A) (f : X → Run S A)
      → (o ≡ none → Gives Q m)
      → ((x : X) → o ≡ some x → Gives Q (f x))
      → Gives Q (case_option o m f)
  unfolding case_option
  Gives-case_option none m f hm hf = hm refl
  Gives-case_option (some x) m f hm hf = hf x refl

module _ {S A B : Type 0} {P : S → Type 0} {Q : A → Type 0} where
  Ends-with :
      (x : Option (A × S)) (f : A → Run S B)
      → Ends P x
      → Results Q x
      → ((a : A) → Q a → Safe P (f a))
      → Ends P (elim x as (λ _. Option (B × S)) [ none ↦ none | some (a, s) ↦ f a s ])
  Ends-with none f h q k = h
  Ends-with (some (a, s)) f h q k = (k a q).at s h

  -- What follows a method whose result has a property.
  pub Safe-with :
      (m : Run S A) (f : A → Run S B)
      → Safe P m
      → Gives Q m
      → ((a : A) → Q a → Safe P (f a))
      → Safe P (m >>= f)
  Safe-with m f hm q hf = record { at = λ s h. Ends-with (m s) f (hm.at s h) (q.of s) hf }
