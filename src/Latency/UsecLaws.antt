-- ===== src/Latency/UsecLaws.antt =====
-- What extractTotalUsecForCommand finds in the Commandstats section as Redis prints it.
use redis_exporter.Base.{
  ℕ, ◌<◌, ◌≤◌, ◌≡◌, ◌≢◌, ◌⊎◌, inr, refl, ◌∙◌, true, false, Option, none, some, [], ◌∷◌, ◌++◌, All,
  All-mono, Bytes, codes, strip_prefix, arith,
}
use redis_exporter.Text.Split.{Lacks}
use redis_exporter.Text.Number.{itoa, itoa-ne-nil, itoa-IsDigit, IsDigit, is_digit, max_u64}
use redis_exporter.Latency.Usec.{
  all_command_bytes, last_usec, leading_digits, not_empty, or_else, usec_at,
}

-- The statistics of a command, as Redis prints them. `tail` is what follows `usec_per_call=`.
pub record CommandStat : Type 0 where
  pub name : Bytes
  pub calls : Bytes
  pub usec : ℕ
  pub tail : Bytes

abbrev pub behind_digits : CommandStat → Bytes
behind_digits s = codes ",usec_per_call=" ++ s.tail

abbrev pub behind_name : CommandStat → Bytes
behind_name s = codes "calls=" ++ s.calls ++ (codes ",usec=" ++ (itoa s.usec ++ behind_digits s))

abbrev pub print_stat : CommandStat → Bytes
print_stat s = codes "cmdstat_" ++ (s.name ++ b':' ∷ behind_name s)

-- A name that the expression takes, a number that fits, and texts without a line feed; no `u` behind
-- `usec_per_call=`.
pub record IsStat (s : CommandStat) : Type 0 where
  pub named : s.name ≢ []
  pub letters : all_command_bytes s.name ≡ true
  pub fits : s.usec ≤ max_u64
  pub one_line : Lacks 10 s.calls × Lacks 10 s.tail
  pub plain : Lacks b'u' s.tail

last_usec-cons : (c : ℕ) (s : Bytes) → c ≢ b'u' → last_usec (c ∷ s) ≡ last_usec s
unfolding last_usec usec_at strip_prefix
last_usec-cons c s n = ground (arith, or_else-none (last_usec s))
  where
    or_else-none : (m : Option Bytes) → or_else m none ≡ m
    or_else-none none = refl
    or_else-none (some d) = refl

last_usec-skip : (p s : Bytes) → Lacks b'u' p → last_usec (p ++ s) ≡ last_usec s
last_usec-skip [] s h = refl
last_usec-skip (c ∷ p) s (n, h) = last_usec-cons c (p ++ s) n ∙ last_usec-skip p s h

last_usec-none : (p : Bytes) → Lacks b'u' p → last_usec p ≡ none
last_usec-none [] h = unfold last_usec in refl
last_usec-none (c ∷ p) (n, h) = last_usec-cons c p n ∙ last_usec-none p h

last_usec-step : (c : ℕ) (s d : Bytes) → last_usec s ≡ some d → last_usec (c ∷ s) ≡ some d
unfolding last_usec
last_usec-step c s d h = rw (h, or_else) refl

last_usec-append : (p s d : Bytes) → last_usec s ≡ some d → last_usec (p ++ s) ≡ some d
last_usec-append [] s d h = h
last_usec-append (c ∷ p) s d h = last_usec-step c (p ++ s) d (last_usec-append p s d h)

pub digit-Lacks : (b : ℕ) → b < b'0' ⊎ b'9' < b → (s : Bytes) → All IsDigit s → Lacks b s
digit-Lacks b h = All-mono IsDigit (λ c. c ≢ b) (λ c d. ground arith)

leading_digits-append :
    (ds : Bytes) (c : ℕ) (s : Bytes)
    → All IsDigit ds
    → is_digit c ≡ false
    → leading_digits (ds ++ c ∷ s) ≡ ds
unfolding leading_digits
leading_digits-append [] c s h n = ground arith
leading_digits-append (d ∷ ds) c s (h, hs) n = ground (arith, leading_digits-append ds c s hs n)

not_empty-some : (s : Bytes) → s ≢ [] → not_empty s ≡ some s
not_empty-some [] h = absurd (h refl)
not_empty-some (c ∷ s) h = refl

last_usec-found :
    (ds s : Bytes)
    → ds ≢ []
    → All IsDigit ds
    → last_usec (codes "sec=" ++ (ds ++ b',' ∷ s)) ≡ none
    → last_usec (codes "usec=" ++ (ds ++ b',' ∷ s)) ≡ some ds
unfolding last_usec usec_at strip_prefix
last_usec-found ds s some_digits digits_only behind =
    rw (behind, or_else)
      (rw (leading_digits-append ds b',' s digits_only refl) (not_empty-some ds some_digits))

-- `usec=`, digits, and a text without `usec=` behind them.
last_usec-here :
    (ds s : Bytes)
    → ds ≢ []
    → All IsDigit ds
    → last_usec (b',' ∷ s) ≡ none
    → last_usec (codes "usec=" ++ (ds ++ b',' ∷ s)) ≡ some ds
last_usec-here ds s some_digits digits_only clean = step
  where
    behind : last_usec (codes "sec=" ++ (ds ++ b',' ∷ s)) ≡ none
    behind =
        last_usec-skip (codes "sec=") (ds ++ b',' ∷ s) (omega arith)
        ∙ last_usec-skip ds (b',' ∷ s) (digit-Lacks b'u' (inr (omega arith)) ds digits_only)
        ∙ clean

    step : last_usec (codes "usec=" ++ (ds ++ b',' ∷ s)) ≡ some ds
    step = last_usec-found ds s some_digits digits_only behind

per_call_at :
    (tail : Bytes)
    → last_usec (codes "sec_per_call=" ++ tail) ≡ none
    → last_usec (codes "usec_per_call=" ++ tail) ≡ none
unfolding last_usec usec_at strip_prefix
per_call_at tail h = rw (h, or_else) refl

per_call : (tail : Bytes) → Lacks b'u' tail → last_usec (codes ",usec_per_call=" ++ tail) ≡ none
per_call tail plain =
    last_usec-skip (codes ",") (codes "usec_per_call=" ++ tail) (omega arith)
    ∙ per_call_at tail
        (last_usec-skip (codes "sec_per_call=") tail (omega arith) ∙ last_usec-none tail plain)

pub last_usec-print : (s : CommandStat) → IsStat s → last_usec (behind_name s) ≡ some (itoa s.usec)
last_usec-print s h = last_usec-append (codes "calls=") _ _ (
    last_usec-append s.calls _ _ (
      last_usec-append (codes ",") _ _ (
        last_usec-here (itoa s.usec) (codes "usec_per_call=" ++ s.tail) (itoa-ne-nil s.usec)
          (itoa-IsDigit s.usec) clean)))
  where
    clean : last_usec (behind_digits s) ≡ none
    clean = per_call s.tail h.plain
