-- ===== src/Latency/Usec.antt =====
-- extractTotalUsecForCommand, over the matches of
-- `(?m)^cmdstat_([a-zA-Z0-9\|]+):.*usec=([0-9]+).*$` in the text of INFO. A match takes its whole
-- line, and `.*` is greedy: the digits are those behind the last `usec=` that has some.
use redis_exporter.Base.{
  ℕ, Bool, true, ◌||◌, ◌&&◌, Option, none, some, List, [], ◌∷◌, Bytes, codes, strip_prefix,
  has_prefix, if◌then◌else◌, leb, ◌==◌,
}
use redis_exporter.Base.Chain.{◌>>=◌, ◌>>◌, guard}
use redis_exporter.Text.Split.{split, cut}
use redis_exporter.Text.Number.{Uint, number, syntax, range, parse_uint, is_digit}
use redis_exporter.KeyGroups.Word.{add_word}

-- `[a-zA-Z0-9\|]`
abbrev pub is_command_byte : ℕ → Bool
is_command_byte c =
    (leb b'a' c && leb c b'z') || (leb b'A' c && leb c b'Z') || is_digit c || c == b'|'

abbrev pub all_command_bytes : Bytes → Bool
all_command_bytes [] = true
all_command_bytes (c ∷ s) = is_command_byte c && all_command_bytes s

-- The digits at the front.
unfoldable pub leading_digits : Bytes → Bytes
leading_digits [] = []
leading_digits (c ∷ s) = let rest = leading_digits s in if is_digit c then c ∷ rest else []

abbrev pub not_empty : Bytes → Option Bytes
not_empty [] = none
not_empty (c ∷ s) = some (c ∷ s)

-- `usec=([0-9]+)` at the front.
unfoldable pub usec_at : Bytes → Option Bytes
unfolding strip_prefix leading_digits
usec_at s = strip_prefix (codes "usec=") s >>= λ rest. not_empty (leading_digits rest)

abbrev pub or_else : Option Bytes → Option Bytes → Option Bytes
or_else none m = m
or_else (some d) m = some d

-- `.*usec=([0-9]+)`
unfoldable pub last_usec : Bytes → Option Bytes
unfolding usec_at
last_usec [] = none
last_usec (c ∷ s) = or_else (last_usec s) (usec_at (c ∷ s))

-- The name of the command and the digits, of a line that matches.
unfoldable pub match_line : Bytes → Option (Bytes × Bytes)
unfolding last_usec cut
match_line line = strip_prefix (codes "cmdstat_") line >>= λ rest. cut b':' rest >>= λ parts.
    not_empty parts.0 >>= λ name.
    guard (all_command_bytes name) >> last_usec parts.1 >>= λ digits. some (name, digits)

abbrev pub add_usecs : ℕ → Uint → ℕ
unfolding add_word
add_usecs total (number usecs) = add_word total usecs
add_usecs total syntax = total
add_usecs total range = total

-- What a line adds to the total.
unfoldable pub add_match : Bytes → Option (Bytes × Bytes) → ℕ → ℕ
unfolding add_word
add_match cmd none total = total
add_match cmd (some (name, digits)) total =
    if has_prefix cmd name then add_usecs total (parse_uint digits) else total

-- The total of type uint64, over the lines that are left.
unfoldable pub total_of_lines : Bytes → List Bytes → ℕ → ℕ
unfolding add_match
total_of_lines cmd [] total = total
total_of_lines cmd (line ∷ lines) total =
    total_of_lines cmd lines (add_match cmd (match_line line) total)

unfoldable pub extract_total_usec_for_command : Bytes → Bytes → ℕ
unfolding total_of_lines
extract_total_usec_for_command info_all cmd = total_of_lines cmd (split 10 info_all) 0
