-- ===== src/Latency/UsecSums.antt =====
-- The total of extractTotalUsecForCommand over the Commandstats section as Redis prints it.
use redis_exporter.Base.{
  ℕ, ◌+◌, ◌%◌, ◌^◌, ◌<◌, ◌≡◌, ◌≢◌, inl, refl, ◌∙◌, ap, true, false, some, List, [], ◌∷◌, ◌++◌, map,
  All, All-append, Bytes, codes, has_prefix, strip_prefix, if◌then◌else◌, arith,
}
use redis_exporter.Text.Split.{split, join, Lacks, split-join, cut-append}
use redis_exporter.Text.Number.{itoa, itoa-IsDigit, parse_uint-itoa}
use redis_exporter.KeyGroups.Word.{add_word}
use redis_exporter.Latency.Usec.{
  add_match, add_usecs, all_command_bytes, extract_total_usec_for_command, is_command_byte,
  last_usec, match_line, total_of_lines,
}
use redis_exporter.Latency.UsecLaws.{
  CommandStat, IsStat, print_stat, behind_name, last_usec-print, digit-Lacks,
}

command_bytes-Lacks :
    (b : ℕ) → is_command_byte b ≡ false → (s : Bytes) → all_command_bytes s ≡ true → Lacks b s
command_bytes-Lacks b n [] h = tt
command_bytes-Lacks b n (c ∷ s) h =
    ((λ e. ground (arith, ap is_command_byte e)), command_bytes-Lacks b n s (ground arith))

match_line_lem :
    (name behind digits : Bytes)
    → name ≢ []
    → all_command_bytes name ≡ true
    → last_usec behind ≡ some digits
    → match_line (codes "cmdstat_" ++ (name ++ b':' ∷ behind)) ≡ some (name, digits)
unfolding match_line strip_prefix
match_line_lem [] behind digits named letters found = absurd (named refl)
match_line_lem (c ∷ name) behind digits named letters found =
    rw (cut-append b':' (c ∷ name) behind (command_bytes-Lacks b':' refl (c ∷ name) letters))
      (rw letters (rw found refl))

match_line-print :
    (s : CommandStat) → IsStat s → match_line (print_stat s) ≡ some (s.name, itoa s.usec)
match_line-print s h =
    match_line_lem s.name (behind_name s) (itoa s.usec) h.named h.letters (last_usec-print s h)

print_stat-Lacks : (s : CommandStat) → IsStat s → Lacks 10 (print_stat s)
print_stat-Lacks s h = All-append P (codes "cmdstat_") _ (omega arith) (
    All-append P s.name _ (command_bytes-Lacks 10 refl s.name h.letters) (
      All-append P (codes ":calls=") _ (omega arith) (
        All-append P s.calls _ h.one_line.0 (
          All-append P (codes ",usec=") _ (omega arith) (
            All-append P (itoa s.usec) _
              (digit-Lacks 10 (inl (omega arith)) (itoa s.usec) (itoa-IsDigit s.usec))
              (All-append P (codes ",usec_per_call=") s.tail (omega arith) h.one_line.1))))))
  where
    P : ℕ → Type 0
    P c = c ≢ 10

-- The microseconds of the commands whose names begin with `cmd`.
abbrev pub usec_of_prefix : Bytes → List CommandStat → ℕ
usec_of_prefix cmd [] = 0
usec_of_prefix cmd (s ∷ stats) =
    (if has_prefix cmd s.name then s.usec else 0) + usec_of_prefix cmd stats

add_match-print :
    (cmd : Bytes) (s : CommandStat) (total : ℕ)
    → IsStat s
    → total < 2 ^ 64
    → add_match cmd (match_line (print_stat s)) total
      ≡ (total + (if has_prefix cmd s.name then s.usec else 0)) % 2 ^ 64
unfolding add_match add_word
add_match-print cmd s total h small =
    rw (match_line-print s h, add_match)
      (rw (parse_uint-itoa s.usec h.fits, add_usecs) (ground arith))

total_of_lines-print :
    (cmd : Bytes) (stats : List CommandStat) (total : ℕ)
    → All IsStat stats
    → total < 2 ^ 64
    → total_of_lines cmd (map print_stat stats) total ≡ (total + usec_of_prefix cmd stats) % 2 ^ 64
unfolding total_of_lines
total_of_lines-print cmd [] total h small = omega arith
total_of_lines-print cmd (s ∷ stats) total (h, hs) small =
    rw (add_match-print cmd s total h small, total_of_lines)
      (total_of_lines-print cmd stats _ hs (omega arith) ∙ omega arith)

total_of_nothing : (cmd : Bytes) → extract_total_usec_for_command [] cmd ≡ 0
unfolding extract_total_usec_for_command total_of_lines split match_line strip_prefix add_match
total_of_nothing cmd = refl

-- In the Commandstats section as Redis prints it, whose names the expression takes and whose numbers
-- fit a uint64, the total of a command is the sum modulo 2 ^ 64 of the microseconds of all commands
-- whose names begin with its name.
pub extract_total_usec-print :
    (cmd : Bytes) (stats : List CommandStat)
    → All IsStat stats
    → extract_total_usec_for_command (join 10 (map print_stat stats)) cmd
      ≡ usec_of_prefix cmd stats % 2 ^ 64
unfolding extract_total_usec_for_command join
extract_total_usec-print cmd [] h = total_of_nothing cmd ∙ omega arith
extract_total_usec-print cmd (s ∷ stats) (h, hs) =
    ap (λ lines. total_of_lines cmd lines 0)
      (split-join 10 (print_stat s) (map print_stat stats)
        (print_stat-Lacks s h, print_all stats hs))
    ∙ total_of_lines-print cmd (s ∷ stats) 0 (h, hs) (omega arith)
    ∙ omega arith
  where
    print_all : (ss : List CommandStat) → All IsStat ss → All (Lacks 10) (map print_stat ss)
    print_all [] q = tt
    print_all (x ∷ ss) (q, qs) = (print_stat-Lacks x q, print_all ss qs)
