-- ===== src/Metrics/Names.antt =====
-- The names of metrics: what sanitizeMetricName makes of a text of characters.
use redis_exporter.Base.{
  ℕ, ◌-◌, ◌<◌, ◌≤◌, ◌≡◌, ◌≢◌, ◌⊎◌, refl, ap, ◌∙◌, true, false, List, [], ◌∷◌, ◌++◌, All, Bytes,
  arith,
}
use redis_exporter.Text.Runes.{rune_width}
use redis_exporter.Metrics.{is_name_byte, sanitize_from, sanitize_metric_name}

-- A letter, a digit or `_`.
abbrev pub IsNameByte : ℕ → Type 0
IsNameByte c =
    ((b'a' ≤ c) × (c ≤ b'z'))
    ⊎ (((b'A' ≤ c) × (c ≤ b'Z')) ⊎ (((b'0' ≤ c) × (c ≤ b'9')) ⊎ (c ≡ b'_')))

-- A character of a name, or another with its bytes.
pub data Character : Type 0 where
  name_byte : ℕ → Character
  other : Bytes → Character

abbrev pub IsContinuation : ℕ → Type 0
IsContinuation b = (128 ≤ b) × (b ≤ 191)

-- The bytes of a character in UTF-8 that is none of a name.
abbrev pub IsOther : Bytes → Type 0
IsOther (a ∷ []) = (a < 128) × ¬ IsNameByte a
IsOther (a ∷ b ∷ []) = ((0xc2 ≤ a) × (a ≤ 0xdf)) × IsContinuation b
IsOther (a ∷ b ∷ c ∷ []) =
    (((a ≡ 0xe0) × (0xa0 ≤ b) × (b ≤ 0xbf))
      ⊎ (((0xe1 ≤ a) × (a ≤ 0xef) × (a ≢ 0xed) × IsContinuation b)
          ⊎ ((a ≡ 0xed) × (0x80 ≤ b) × (b ≤ 0x9f))))
    × IsContinuation c
IsOther (a ∷ b ∷ c ∷ d ∷ []) =
    (((a ≡ 0xf0) × (0x90 ≤ b) × (b ≤ 0xbf))
      ⊎ (((0xf1 ≤ a) × (a ≤ 0xf3) × IsContinuation b) ⊎ ((a ≡ 0xf4) × (0x80 ≤ b) × (b ≤ 0x8f))))
    × IsContinuation c
    × IsContinuation d
IsOther _ = ⊥

abbrev pub IsCharacter : Character → Type 0
IsCharacter (name_byte c) = IsNameByte c
IsCharacter (other bytes) = IsOther bytes

-- A text in UTF-8, and the name that it gives: `_` in the place of every other character.
abbrev pub text_of : List Character → Bytes
text_of [] = []
text_of (name_byte c ∷ cs) = c ∷ text_of cs
text_of (other bytes ∷ cs) = bytes ++ text_of cs

abbrev pub name_of : List Character → Bytes
name_of [] = []
name_of (name_byte c ∷ cs) = c ∷ name_of cs
name_of (other bytes ∷ cs) = b'_' ∷ name_of cs

is_name_byte_lem : (c : ℕ) → IsNameByte c → is_name_byte c ≡ true
is_name_byte_lem c h = ground arith

not_name_byte : (c : ℕ) → ¬ IsNameByte c → is_name_byte c ≡ false
not_name_byte c h = ground arith

high_byte : (c : ℕ) → 128 ≤ c → is_name_byte c ≡ false
high_byte c h = ground arith

width_two_lem : (a b : ℕ) (s : Bytes) → IsOther (a ∷ b ∷ []) → rune_width a (b ∷ s) ≡ 2
unfolding rune_width
width_two_lem a b s h = ground arith

width_three_lem : (a b c : ℕ) (s : Bytes) → IsOther (a ∷ b ∷ c ∷ []) → rune_width a (b ∷ c ∷ s) ≡ 3
unfolding rune_width
width_three_lem a b c s h = ground arith

width_four_lem :
    (a b c d : ℕ) (s : Bytes) → IsOther (a ∷ b ∷ c ∷ d ∷ []) → rune_width a (b ∷ c ∷ d ∷ s) ≡ 4
unfolding rune_width
width_four_lem a b c d s h = ground arith

width_one_lem : (a : ℕ) (s : Bytes) → a < 128 → rune_width a s ≡ 1
unfolding rune_width
width_one_lem a s h = ground arith

sanitize-name_byte :
    (c : ℕ) (s : Bytes) → IsNameByte c → sanitize_from 0 (c ∷ s) ≡ c ∷ sanitize_from 0 s
unfolding sanitize_from
sanitize-name_byte c s h = rw (is_name_byte_lem c h, sanitize_from) refl

-- Another character, whose first byte is no byte of a name.
replaces :
    (a w : ℕ) (s : Bytes)
    → is_name_byte a ≡ false
    → rune_width a s ≡ w
    → sanitize_from 0 (a ∷ s) ≡ b'_' ∷ sanitize_from (w - 1) s
unfolding sanitize_from
replaces a w s no_name width =
    rw (no_name, sanitize_from) (ap (λ n. b'_' ∷ sanitize_from (n - 1) s) width)

sanitize-other :
    (bytes s : Bytes) → IsOther bytes → sanitize_from 0 (bytes ++ s) ≡ b'_' ∷ sanitize_from 0 s
unfolding sanitize_from
sanitize-other [] s h = absurd h
sanitize-other (a ∷ []) s (low, none_of) =
    replaces a 1 s (not_name_byte a none_of) (width_one_lem a s low)
sanitize-other (a ∷ b ∷ []) s h =
    replaces a 2 (b ∷ s) (high_byte a (omega (arith, h))) (width_two_lem a b s h)
sanitize-other (a ∷ b ∷ c ∷ []) s h =
    replaces a 3 (b ∷ c ∷ s) (high_byte a (ground arith)) (width_three_lem a b c s h)
sanitize-other (a ∷ b ∷ c ∷ d ∷ []) s h =
    replaces a 4 (b ∷ c ∷ d ∷ s) (high_byte a (ground arith)) (width_four_lem a b c d s h)
sanitize-other (a ∷ b ∷ c ∷ d ∷ e ∷ more) s h = absurd h

sanitize_from-text_of :
    (cs : List Character) → All IsCharacter cs → sanitize_from 0 (text_of cs) ≡ name_of cs
sanitize_from-text_of [] h = unfold sanitize_from in refl
sanitize_from-text_of (name_byte c ∷ cs) (h, hs) =
    sanitize-name_byte c (text_of cs) h ∙ ap (λ t. c ∷ t) (sanitize_from-text_of cs hs)
sanitize_from-text_of (other bytes ∷ cs) (h, hs) =
    sanitize-other bytes (text_of cs) h ∙ ap (λ t. b'_' ∷ t) (sanitize_from-text_of cs hs)

-- One `_` for each character that is replaced, whatever its bytes.
pub sanitize_metric_name-text_of :
    (cs : List Character) → All IsCharacter cs → sanitize_metric_name (text_of cs) ≡ name_of cs
unfolding sanitize_metric_name
sanitize_metric_name-text_of cs h = sanitize_from-text_of cs h
