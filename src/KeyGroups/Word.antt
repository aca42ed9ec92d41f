-- ===== src/KeyGroups/Word.antt =====
-- An int64 as its bit pattern, a number below 2 ^ 64: sums wrap around.
use redis_exporter.Base.{ℕ, ◌+◌, ◌-◌, ◌%◌, ◌^◌, ◌≡◌, refl, Bool, ltb, if◌then◌else◌, ℤ, pos, negsuc}

abbrev pub word_mod : ℕ
word_mod = 2 ^ 64

abbrev pub sign_bit : ℕ
sign_bit = 2 ^ 63

unfoldable pub to_word : ℤ → ℕ
to_word (pos n) = n % word_mod
to_word (negsuc n) = (word_mod - 1) - n % word_mod

unfoldable pub of_word : ℕ → ℤ
of_word w = if ltb w sign_bit then pos w else negsuc (word_mod - 1 - w)

unfoldable pub add_word : ℕ → ℕ → ℕ
add_word a b = (a + b) % word_mod

unfoldable pub sub_word : ℕ → ℕ → ℕ
sub_word a b = (a + (word_mod - b % word_mod)) % word_mod

-- a < b as signed numbers.
abbrev pub less_word : ℕ → ℕ → Bool
less_word a b = ltb ((a + sign_bit) % word_mod) ((b + sign_bit) % word_mod)

minus_one : of_word (add_word (to_word (negsuc 2)) (to_word (pos 2))) ≡ negsuc 0
unfolding of_word add_word to_word
minus_one = refl
