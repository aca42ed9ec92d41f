-- ===== src/Text/Runes.antt =====
-- UTF-8 as unicode/utf8 decodes it: how many bytes the first character of a text has. A byte that
-- begins no character is one of its own.
use redis_exporter.Base.{ℕ, Bool, ◌&&◌, [], ◌∷◌, Bytes, leb, ◌==◌, if◌then◌else◌, refl, ◌≡◌}

abbrev pub is_between : ℕ → ℕ → ℕ → Bool
is_between low high b = leb low b && leb b high

abbrev pub is_continuation : ℕ → Bool
is_continuation = is_between 128 191

-- The bytes behind the first of a character of two, three or four bytes.
abbrev pub width_two : Bytes → ℕ
width_two (b ∷ s) = if is_continuation b then 2 else 1
width_two _ = 1

abbrev pub width_three : ℕ → ℕ → Bytes → ℕ
width_three low high (b ∷ c ∷ s) = if is_between low high b && is_continuation c then 3 else 1
width_three low high _ = 1

abbrev pub width_four : ℕ → ℕ → Bytes → ℕ
width_four low high (b ∷ c ∷ d ∷ s) =
    if is_between low high b && is_continuation c && is_continuation d then 4 else 1
width_four low high _ = 1

-- utf8.DecodeRuneInString, for a text that is not empty: the width alone.
unfoldable pub rune_width : ℕ → Bytes → ℕ
rune_width a s =
    if is_between 0xc2 0xdf a
    then width_two s
    else if a == 0xe0
    then width_three 0xa0 0xbf s
    else if a == 0xed
    then width_three 0x80 0x9f s
    else if is_between 0xe1 0xef a
    then width_three 0x80 0xbf s
    else if a == 0xf0
    then width_four 0x90 0xbf s
    else if is_between 0xf1 0xf3 a
    then width_four 0x80 0xbf s
    else if a == 0xf4
    then width_four 0x80 0x8f s
    else 1

euro_sign : rune_width 0xe2 (0x82 ∷ 0xac ∷ 33 ∷ []) ≡ 3
unfolding rune_width
euro_sign = refl
