-- ===== src/Run.antt =====
-- Methods that change a state and may panic: a state monad over Option, with the loops and the tests
-- that the exporter's methods are written with.
pub mod Safe
pub mod Gives
use redis_exporter.Base.{◌≡◌, refl, ap, Bool, true, false, Option, none, some, List, [], ◌∷◌}

-- `none` is a panic, or a loop that has used up its fuel.
abbrev pub Run : Type 0 → Type 0 → Type 0
Run S A = S → Option (A × S)

infixl 5 ◌>>=◌ ◌>>◌
abbrev pub ◌>>=◌ : {S A B : Type 0} → Run S A → (A → Run S B) → Run S B
◌>>=◌ m f s = elim (m s) [ none ↦ none | some (a, s') ↦ f a s' ]

abbrev pub ◌>>◌ : {S A B : Type 0} → Run S A → Run S B → Run S B
m >> k = m >>= λ _. k

abbrev pub pure : {S A : Type 0} → A → Run S A
pure a s = some (a, s)

abbrev pub panic : {S A : Type 0} → Run S A
panic s = none

-- `if x, ok := …; ok { f(x) } else { m }`
unfoldable pub case_option : {S A X : Type 0} → Option X → Run S A → (X → Run S A) → Run S A
case_option none m f = m
case_option (some x) m f = f x

-- `for _, x := range xs { body(x) }`
unfoldable pub for_each : {S A : Type 0} → List A → (A → Run S (Unit {0})) → Run S (Unit {0})
for_each [] body = pure tt
for_each (x ∷ xs) body = body x >> for_each xs body

abbrev pub go_on : {S : Type 0} → Run S Bool → Bool → Run S Bool
go_on rest true = rest
go_on rest false = pure false

-- A loop whose body says whether to go on (`true`) or to return from the method (`false`).
unfoldable pub for_while : {S A : Type 0} → List A → (A → Run S Bool) → Run S Bool
for_while [] body = pure true
for_while (x ∷ xs) body = body x >>= go_on (for_while xs body)

-- What follows a method that returns.
pub bind_some :
    {S A B : Type 0} (m : Run S A) (f : A → Run S B) (s : S) {a : A} {s' : S}
    → m s ≡ some (a, s')
    → (m >>= f) s ≡ f a s'
bind_some {S = S} {B = B} m f s e =
    ap (λ x. elim x as (λ _. Option (B × S)) [ none ↦ none | some (a, t) ↦ f a t ]) e

-- A panic behind a method, from every state.
none_after :
    {S A B : Type 0} (x : Option (A × S)) (k : A → Run S B)
    → ((a : A) (s : S) → k a s ≡ none)
    → elim x as (λ _. Option (B × S)) [ none ↦ none | some (a, s) ↦ k a s ] ≡ none
none_after none k h = refl
none_after (some (a, s)) k h = h a s

pub panic_after :
    {S A B : Type 0} (m : Run S A) (k : Run S B)
    → ((s : S) → k s ≡ none)
    → (s : S) → (m >> k) s ≡ none
panic_after m k h s = none_after (m s) (λ _. k) (λ a t. h t)
