-- ===== src/Text/Number.antt =====
-- strconv.ParseInt(s, 10, 64) and strconv.ParseUint(s, 10, 64), with the value that they return
-- beside an error, and the decimal digits of a number.
use mathlib.Core.List.{cons-ne-nil}
use redis_exporter.Base.{
  ℕ, zero, suc, ◌+◌, ◌-◌, ◌*◌, ◌/◌, ◌%◌, ◌^◌, ◌≤◌, ◌<◌, ◌≡◌, ◌≢◌, refl, Bool, true, false, not,
  ◌&&◌, [], ◌∷◌, foldl, All, arith, Bytes, codes, ltb, leb, ◌==◌, if◌then◌else◌, ℤ, pos, negsuc,
  ◌∙◌,
}

abbrev pub max_u64 : ℕ
max_u64 = 2 ^ 64 - 1

abbrev pub max_i64 : ℕ
max_i64 = 2 ^ 63 - 1

-- The result of ParseUint: a number, a syntax error (whose value is 0), or a range error (whose
-- value is the largest uint64).
pub data Uint : Type 0 where
  number : ℕ → Uint
  syntax : Uint
  range : Uint

abbrev pub is_digit : ℕ → Bool
is_digit c = leb b'0' c && leb c b'9'

-- The loop of ParseUint: the first byte that is no digit, or the first digit past the range, ends it.
unfoldable pub scan : Bytes → ℕ → Uint
scan [] n = number n
scan (c ∷ s) n =
    let m = n * 10 + (c - b'0') in
    let rest = scan s m in
    if not (is_digit c) then syntax else if ltb max_u64 m then range else rest

unfoldable pub parse_uint : Bytes → Uint
unfolding scan
parse_uint [] = syntax
parse_uint (c ∷ s) = scan (c ∷ s) 0

-- A Go result `(value, err)` of a numeric parse: the value, and whether `err` is not nil.
pub record Parsed {ℓ} (A : Type ℓ) : Type ℓ where
  pub value : A
  pub failed : Bool

abbrev pub negate : ℕ → ℤ
negate zero = pos 0
negate (suc n) = negsuc n

-- A value past the range is cut to the nearest int64, with an error.
abbrev pub with_sign : Bool → Uint → Parsed ℤ
with_sign neg syntax = record { value = pos 0; failed = true }
with_sign false range = record { value = pos max_i64; failed = true }
with_sign false (number n) =
    if ltb max_i64 n
    then record { value = pos max_i64; failed = true }
    else record { value = pos n; failed = false }
with_sign true range = record { value = negsuc max_i64; failed = true }
with_sign true (number n) =
    if ltb (max_i64 + 1) n
    then record { value = negsuc max_i64; failed = true }
    else record { value = negate n; failed = false }

-- strconv.ParseInt(s, 10, 64), and strconv.Atoi, whose int has 64 bits.
unfoldable pub parse_int : Bytes → Parsed ℤ
unfolding parse_uint
parse_int [] = record { value = pos 0; failed = true }
parse_int (c ∷ s) =
    if c == b'+'
    then with_sign false (parse_uint s)
    else if c == b'-'
    then with_sign true (parse_uint s)
    else with_sign false (parse_uint (c ∷ s))

abbrev pub IsDigit : ℕ → Type 0
IsDigit c = (b'0' ≤ c) × (c ≤ b'9')

-- The number that digits spell behind `n`.
abbrev pub value_of : ℕ → Bytes → ℕ
value_of = foldl (λ n c. n * 10 + (c - b'0'))

value_of_monotone : (text : Bytes) (start : ℕ) → start ≤ value_of start text
value_of_monotone [] start = omega arith
value_of_monotone (d ∷ text) start =
    let shifted = start * 10 + (d - b'0') in omega (arith, value_of_monotone text shifted)

-- Digits whose value fits are scanned without an error.
scan-IsDigit :
    (text : Bytes) (start : ℕ)
    → value_of start text ≤ max_u64
    → All IsDigit text
    → scan text start ≡ number (value_of start text)
unfolding scan
scan-IsDigit [] start _ _ = refl
scan-IsDigit (d ∷ text) start small (digit, rest) =
    let shifted = start * 10 + (d - b'0') in
    ground (arith, value_of_monotone text shifted, scan-IsDigit text shifted small rest)

-- What a successful parse without a sign reads is one or more digits, and their value.
parse_int_complete :
    (s : Bytes)
    → s ≢ []
    → All IsDigit s
    → value_of 0 s ≤ max_i64
    → parse_int s ≡ record { value = pos (value_of 0 s); failed = false }
unfolding parse_int
parse_int_complete [] h _ _ = absurd (h refl)
parse_int_complete (d ∷ text) _ (digit, rest) small =
    ground (arith, scan-IsDigit (d ∷ text) 0 (omega arith) (digit, rest))

-- The loop of strconv.Itoa for a number that is not negative: the last digit first.
unfoldable pub digits : ℕ → ℕ → Bytes → Bytes
digits zero n out = out
digits (suc fuel) n out =
    let rest = digits fuel (n / 10) ((b'0' + n % 10) ∷ out) in
    if ltb n 10 then (b'0' + n) ∷ out else rest

unfoldable pub itoa : ℕ → Bytes
unfolding digits
itoa n = digits (suc n) n []

value_of-digits :
    (fuel n : ℕ) (out : Bytes) → n < fuel → value_of 0 (digits fuel n out) ≡ value_of n out
unfolding digits
value_of-digits zero n out h = absurd (omega arith)
value_of-digits (suc fuel) n out h =
    ground (arith, value_of-digits fuel (n / 10) ((b'0' + n % 10) ∷ out))

-- The fuel is enough: the digits of a number spell it.
value_of-itoa : (n : ℕ) → value_of 0 (itoa n) ≡ n
unfolding itoa
value_of-itoa n = value_of-digits (suc n) n [] (omega arith)

digits-IsDigit : (fuel n : ℕ) (out : Bytes) → All IsDigit out → All IsDigit (digits fuel n out)
unfolding digits
digits-IsDigit zero n out h = h
digits-IsDigit (suc fuel) n out h =
    ground (arith, digits-IsDigit fuel (n / 10) ((b'0' + n % 10) ∷ out) ((omega arith), h))

pub itoa-IsDigit : (n : ℕ) → All IsDigit (itoa n)
unfolding itoa
itoa-IsDigit n = digits-IsDigit (suc n) n [] tt

digits-ne-nil : (fuel n : ℕ) (out : Bytes) → out ≢ [] → digits fuel n out ≢ []
unfolding digits
digits-ne-nil zero n out h = h
digits-ne-nil (suc fuel) n out h = ground (
  arith,
  digits-ne-nil fuel (n / 10) ((b'0' + n % 10) ∷ out) (cons-ne-nil _ _),
  cons-ne-nil (b'0' + n) out,
)

pub itoa-ne-nil : (n : ℕ) → itoa n ≢ []
unfolding itoa digits
itoa-ne-nil n = ground (
  arith,
  digits-ne-nil n (n / 10) ((b'0' + n % 10) ∷ []) (cons-ne-nil _ _),
  cons-ne-nil {A = ℕ} (b'0' + n) [],
)

-- An int64 that is not negative is read back from its decimal print.
pub parse_int-itoa :
    (n : ℕ) → n ≤ max_i64 → parse_int (itoa n) ≡ record { value = pos n; failed = false }
parse_int-itoa n h =
    parse_int_complete (itoa n) (itoa-ne-nil n) (itoa-IsDigit n) (rw value_of-itoa h)
    ∙ rw value_of-itoa refl

parse_uint_complete :
    (s : Bytes)
    → s ≢ []
    → All IsDigit s
    → value_of 0 s ≤ max_u64
    → parse_uint s ≡ number (value_of 0 s)
unfolding parse_uint
parse_uint_complete [] h _ _ = absurd (h refl)
parse_uint_complete (d ∷ text) _ digits_only small = scan-IsDigit (d ∷ text) 0 small digits_only

pub parse_uint-itoa : (n : ℕ) → n ≤ max_u64 → parse_uint (itoa n) ≡ number n
parse_uint-itoa n h =
    parse_uint_complete (itoa n) (itoa-ne-nil n) (itoa-IsDigit n) (rw value_of-itoa h)
    ∙ rw value_of-itoa refl

ints :
    (parse_int (codes "-12") ≡ record { value = negsuc 11; failed = false })
    × (parse_int (codes "+7") ≡ record { value = pos 7; failed = false })
    × (parse_int (codes "1x") ≡ record { value = pos 0; failed = true })
    × (parse_int (codes "9223372036854775808") ≡ record { value = pos max_i64; failed = true })
    × (parse_int (codes "-9223372036854775808") ≡ record { value = negsuc max_i64; failed = false })
unfolding parse_int
ints = (refl, refl, refl, refl, refl)
