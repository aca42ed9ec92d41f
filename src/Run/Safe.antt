-- ===== src/Run/Safe.antt =====
-- The rules for methods that do not panic, one for each way to build a method.
use redis_exporter.Base.{
  ◌≡◌, refl, Bool, true, false, Option, none, some, List, [], ◌∷◌, All, if◌then◌else◌,
}
use redis_exporter.Run.{Run, ◌>>=◌, ◌>>◌, pure, case_option, for_each, for_while, go_on}

-- The end of a run that did not panic, in a state with `P`.
abbrev pub Ends : {S A : Type 0} → (S → Type 0) → Option (A × S) → Type 0
Ends P none = ⊥
Ends P (some (a, s)) = P s

-- From a state with `P` the method returns, without a panic, and leaves a state with `P`.
pub record Safe {S A : Type 0} (P : S → Type 0) (m : Run S A) : Type 0 where
  pub at : (s : S) → P s → Ends P (m s)

module _ {S A : Type 0} {P : S → Type 0} where
  pub Safe-pure : (a : A) → Safe P (pure {S = S} a)
  Safe-pure a = record { at = λ s h. h }

  pub Safe-if :
      (b : Bool) (m n : Run S A)
      → (b ≡ true → Safe P m)
      → (b ≡ false → Safe P n)
      → Safe P (if b then m else n)
  Safe-if true m n hm hn = hm refl
  Safe-if false m n hm hn = hn refl

module _ {S A B : Type 0} {P : S → Type 0} where
  Ends-bind :
      (r : Option (A × S)) (f : A → Run S B)
      → Ends P r
      → ((a : A) → Safe P (f a))
      → Ends P (elim r as (λ _. Option (B × S)) [ none ↦ none | some (a, s') ↦ f a s' ])
  Ends-bind none f h k = h
  Ends-bind (some (a, s)) f h k = (k a).at s h

  pub Safe-bind :
      (m : Run S A) (f : A → Run S B) → Safe P m → ((a : A) → Safe P (f a)) → Safe P (m >>= f)
  Safe-bind m f hm hf = record { at = λ s h. Ends-bind (m s) f (hm.at s h) hf }

  -- What follows a method whose result is dropped.
  pub Safe-then : (m : Run S A) (k : Run S B) → Safe P m → Safe P k → Safe P (m >> k)
  Safe-then m k hm hk = Safe-bind m (λ _. k) hm (λ _. hk)

module _ {S : Type 0} {P : S → Type 0} where
  Safe-go_on : (rest : Run S Bool) (b : Bool) → Safe P rest → Safe P (go_on rest b)
  Safe-go_on rest true h = h
  Safe-go_on rest false h = Safe-pure false

module _ {S A : Type 0} {P : S → Type 0} where
  pub Safe-for_each :
      (xs : List A) (body : A → Run S (Unit {0}))
      → ((x : A) → Safe P (body x))
      → Safe P (for_each xs body)
  unfolding for_each
  Safe-for_each [] body h = record { at = λ s p. p }
  Safe-for_each (x ∷ xs) body h =
      Safe-bind (body x) (λ _. for_each xs body) (h x) (λ _. Safe-for_each xs body h)

  -- A loop over elements with a property.
  pub for_each_All :
      (Q : A → Type 0) (xs : List A) (body : A → Run S (Unit {0}))
      → ((x : A) → Q x → Safe P (body x))
      → All Q xs
      → Safe P (for_each xs body)
  unfolding for_each
  for_each_All Q [] body h qs = Safe-pure tt
  for_each_All Q (x ∷ xs) body h (q, qs) =
      Safe-bind (body x) (λ _. for_each xs body) (h x q) (λ _. for_each_All Q xs body h qs)

  pub Safe-for_while :
      (xs : List A) (body : A → Run S Bool)
      → ((x : A) → Safe P (body x))
      → Safe P (for_while xs body)
  unfolding for_while
  Safe-for_while [] body h = Safe-pure true
  Safe-for_while (x ∷ xs) body h =
      Safe-bind (body x) (go_on (for_while xs body)) (h x)
        λ b. Safe-go_on (for_while xs body) b (Safe-for_while xs body h)

module _ {S A X : Type 0} {P : S → Type 0} where
  pub Safe-case_option :
      (o : Option X) (m : Run S A) (f : X → Run S A)
      → (o ≡ none → Safe P m)
      → ((x : X) → o ≡ some x → Safe P (f x))
      → Safe P (case_option o m f)
  unfolding case_option
  Safe-case_option none m f hm hf = hm refl
  Safe-case_option (some x) m f hm hf = hf x refl

pub ruleset safe_rules =
    (Safe-pure, Safe-if, Safe-bind, Safe-for_each, Safe-for_while, Safe-case_option)
