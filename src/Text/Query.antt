-- ===== src/Text/Query.antt =====
-- url.QueryUnescape, and strings.ReplaceAll(s, "db", "").
use redis_exporter.Base.{
  ℕ, ◌+◌, ◌-◌, ◌*◌, ◌≡◌, ◌≢◌, refl, Bool, ◌&&◌, ◌||◌, Option, none, some, [], ◌∷◌, All, arith,
  Bytes, codes, leb, ◌==◌, if◌then◌else◌,
}

abbrev is_hex : ℕ → Bool
is_hex c = (leb b'0' c && leb c b'9') || (leb b'a' c && leb c b'f') || (leb b'A' c && leb c b'F')

abbrev unhex : ℕ → ℕ
unhex c =
    if leb b'0' c && leb c b'9'
    then c - b'0'
    else if leb b'a' c && leb c b'f'
    then c - b'a' + 10
    else c - b'A' + 10

-- What was read of an escape `%ab`: nothing, the percent sign, or the sign and its first digit.
pub data Pending : Type 0 where
  plain percent : Pending
  high : ℕ → Pending

abbrev prepend : ℕ → Option Bytes → Option Bytes
prepend c none = none
prepend c (some s) = some (c ∷ s)

unescape : Pending → Bytes → Option Bytes
unescape plain [] = some []
unescape percent [] = none
unescape (high a) [] = none
unescape plain (c ∷ s) =
    let escape = unescape percent s in
    let rest = unescape plain s in
    if c == b'%' then escape else prepend (if c == b'+' then 32 else c) rest
unescape percent (c ∷ s) = let rest = unescape (high c) s in if is_hex c then rest else none
unescape (high a) (c ∷ s) =
    let rest = unescape plain s in if is_hex c then prepend (unhex a * 16 + unhex c) rest else none

-- `none` is Go's error: a percent sign with no two hexadecimal digits behind it.
unfoldable pub query_unescape : Bytes → Option Bytes
unfolding unescape
query_unescape s = unescape plain s

-- A byte that QueryUnescape leaves alone.
abbrev pub IsPlain : ℕ → Type 0
IsPlain c = (c ≢ b'%') × (c ≢ b'+')

unescape_plain : (s : Bytes) → All IsPlain s → unescape plain s ≡ some s
unfolding unescape
unescape_plain [] h = refl
unescape_plain (c ∷ s) (hc, hs) = ground (arith, unescape_plain s hs)

pub query_unescape_plain : (s : Bytes) → All IsPlain s → query_unescape s ≡ some s
unfolding query_unescape
query_unescape_plain s h = unescape_plain s h

-- strings.ReplaceAll(s, "db", "")
unfoldable pub remove_db : Bytes → Bytes
remove_db [] = []
remove_db (c ∷ []) = c ∷ []
remove_db (c ∷ d ∷ s) =
    let behind = remove_db s in
    let rest = remove_db (d ∷ s) in if c == b'd' && d == b'b' then behind else c ∷ rest

pub remove_db_plain : (s : Bytes) → All (λ c. c ≢ b'd') s → remove_db s ≡ s
unfolding remove_db
remove_db_plain [] h = refl
remove_db_plain (c ∷ []) h = refl
remove_db_plain (c ∷ d ∷ s) (hc, h) = ground (arith, remove_db_plain (d ∷ s) h)

escapes :
    (query_unescape (codes "a%2Cb+c") ≡ some (codes "a,b c"))
    × (query_unescape (codes "a%2") ≡ none)
    × (remove_db (codes "ddbb1") ≡ codes "db1")
unfolding query_unescape remove_db
escapes = (refl, refl, refl)
