-- ===== src/Text/Trim.antt =====
-- strings.TrimSpace on UTF-8 bytes.
use mathlib.Core.List.{reverse-append, reverse-reverse}
use redis_exporter.Base.{
  ◌≤◌, All, All-append, arith, ℕ, zero, suc, ◌≡◌, refl, Bool, ◌||◌, ◌&&◌, [], ◌∷◌, reverse, Bytes,
  codes, leb, ◌==◌, if◌then◌else◌,
}

-- unicode.IsSpace below 0x80: tab, line feed, vertical tab, form feed, carriage return, space.
abbrev pub is_space : ℕ → Bool
is_space c = (leb 9 c && leb c 13) || c == 32

-- U+0085 and U+00A0.
abbrev wide_two : ℕ → ℕ → Bool
wide_two a b = a == 0xC2 && (b == 0x85 || b == 0xA0)

-- U+1680, U+2000 to U+200A, U+2028, U+2029, U+202F, U+205F and U+3000.
abbrev wide_three : ℕ → ℕ → ℕ → Bool
wide_three a b c =
    (a == 0xE1 && b == 0x9A && c == 0x80)
    || (a == 0xE2
        && b == 0x80
        && ((leb 0x80 c && leb c 0x8A) || c == 0xA8 || c == 0xA9 || c == 0xAF))
    || (a == 0xE2 && b == 0x81 && c == 0x9F)
    || (a == 0xE3 && b == 0x80 && c == 0x80)

-- How many bytes the white space character at the front has; 0 where there is none.
unfoldable pub space_width : Bytes → ℕ
space_width [] = 0
space_width (a ∷ []) = if is_space a then 1 else 0
space_width (a ∷ b ∷ []) = if is_space a then 1 else if wide_two a b then 2 else 0
space_width (a ∷ b ∷ c ∷ s) =
    if is_space a then 1 else if wide_two a b then 2 else if wide_three a b c then 3 else 0

-- The same at the end, over the reversed text.
unfoldable pub space_width_back : Bytes → ℕ
space_width_back [] = 0
space_width_back (a ∷ []) = if is_space a then 1 else 0
space_width_back (b ∷ a ∷ []) = if is_space b then 1 else if wide_two a b then 2 else 0
space_width_back (c ∷ b ∷ a ∷ s) =
    if is_space c then 1 else if wide_two b c then 2 else if wide_three a b c then 3 else 0

-- Drops white space at the front: `skip` counts the bytes of a character that are still to go.
unfoldable pub trim_front : (Bytes → ℕ) → ℕ → Bytes → Bytes
trim_front width skip [] = []
trim_front width (suc skip) (c ∷ s) = trim_front width skip s
trim_front width zero (c ∷ s) = elim (width (c ∷ s)) [
  | zero ↦ c ∷ s
  | suc skip ↦ trim_front width skip s
]

unfoldable pub trim_space : Bytes → Bytes
unfolding trim_front space_width space_width_back
trim_space s = reverse (trim_front space_width_back 0 (reverse (trim_front space_width 0 s)))

-- A visible ASCII character.
abbrev pub IsGraph : ℕ → Type 0
IsGraph c = (33 ≤ c) × (c ≤ 126)

trim_front-graph : (s : Bytes) → All IsGraph s → trim_front space_width 0 s ≡ s
unfolding trim_front space_width
trim_front-graph [] h = refl
trim_front-graph (a ∷ []) (h, _) = ground arith
trim_front-graph (a ∷ b ∷ []) (h, _) = ground arith
trim_front-graph (a ∷ b ∷ c ∷ s) (h, _) = ground arith

trim_front_back-graph : (s : Bytes) → All IsGraph s → trim_front space_width_back 0 s ≡ s
unfolding trim_front space_width_back
trim_front_back-graph [] h = refl
trim_front_back-graph (a ∷ []) (h, _) = ground arith
trim_front_back-graph (b ∷ a ∷ []) (h, (k, _)) = ground arith
trim_front_back-graph (c ∷ b ∷ a ∷ s) (h, k) = ground arith

All-reverse : (s : Bytes) → All IsGraph s → All IsGraph (reverse s)
All-reverse [] h = tt
All-reverse (c ∷ s) (h, hs) =
    rw (reverse-append (c ∷ []) s)
      (All-append IsGraph (reverse s) (c ∷ []) (All-reverse s hs) (h, tt))

pub trim_space-graph : (s : Bytes) → All IsGraph s → trim_space s ≡ s
unfolding trim_space
trim_space-graph s h =
    rw (trim_front-graph s h, trim_front_back-graph (reverse s) (All-reverse s h))
      (reverse-reverse s)

trimmed : trim_space (codes "\t db0 = k  ") ≡ codes "db0 = k"
unfolding trim_space
trimmed = refl

trimmed_wide : trim_space (0xC2 ∷ 0xA0 ∷ b'a' ∷ 0xE3 ∷ 0x80 ∷ 0x80 ∷ []) ≡ codes "a"
unfolding trim_space
trimmed_wide = refl
