-- ===== src/Deps.antt =====
-- What the exporter takes from elsewhere: Go's float64 and strconv.ParseFloat, whose values are
-- abstract here, and the check that github.com/prometheus/client_golang makes in NewConstMetric.
use redis_exporter.Base.{
  ℕ, ◌≡◌, Bool, true, false, List, Bytes, ◌==◌, ℤ, length, ltb_ℤ, eq_ℤ, ◌-ℤ◌, pos_part,
  ltb_ℤ_irrefl, ==_iff,
}
use redis_exporter.Text.Number.{Parsed, parse_int}

pub record Deps : Type 1 where
  pub Float : Type 0
  -- float64(n)
  pub of_ℤ : ℤ → Float
  -- strconv.ParseFloat(s, 64)
  pub parse_float : Bytes → Parsed Float
  -- uint64(a)
  pub to_uint : Float → ℕ
  pub div : Float → Float → Float
  pub mul : Float → Float → Float
  pub sub : Float → Float → Float
  -- a > b, a == b
  pub gt : Float → Float → Bool
  pub float_eq : Float → Float → Bool
  -- Whether NewConstMetric takes these label values for a description with this name and these
  -- label names, so that its `err` is nil.
  pub accepts : Bytes → List Bytes → List Bytes → Bool
  -- IEEE 754: no value is greater than itself.
  pub gt_irrefl : (a : Float) → gt a a ≡ false
  -- The documentation of NewConstMetric: an error if the number of label values is not the number
  -- of the description's variable labels.
  pub accepts_length :
      (name : Bytes) (labels values : List Bytes)
      → accepts name labels values ≡ true
      → length labels ≡ length values

-- Whole numbers for floats show that these assumptions can be met. (Division and multiplication
-- keep their first argument.)
abbrev pub whole_numbers : Deps
whole_numbers = record {
  Float = ℤ;
  of_ℤ = λ n. n;
  parse_float = parse_int;
  to_uint = pos_part;
  div = λ a b. a;
  mul = λ a b. a;
  sub = λ a b. a -ℤ b;
  gt = λ a b. ltb_ℤ b a;
  float_eq = eq_ℤ;
  accepts = λ name labels values. length labels == length values;
  gt_irrefl = λ a. ltb_ℤ_irrefl a;
  accepts_length = λ name labels values h. (==_iff (length labels) (length values)).0 h;
}
