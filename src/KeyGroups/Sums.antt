-- ===== src/KeyGroups/Sums.antt =====
-- The wrapped sums of counts and of memory are those of numbers without a bound, modulo 2 ^ 64.
use redis_exporter.Base.{
  ℕ, zero, suc, ◌+◌, ◌%◌, ◌<◌, ◌≡◌, refl, ◌∙◌, inl, inr, List, [], ◌∷◌, take, drop, Bool-cases,
  arith,
}
use redis_exporter.KeyGroups.Word.{add_word, word_mod}
use redis_exporter.KeyGroups.Gather.{KeyGroupMetrics}
use redis_exporter.KeyGroups.Overflow.{
  ranks_before, insert_ranked, sort_ranked, sum_counts, sum_memory,
}

-- The counts and the memory of groups, added up without a bound.
abbrev pub total_count : List KeyGroupMetrics → ℕ
total_count [] = 0
total_count (g ∷ gs) = g.count + total_count gs

abbrev pub total_memory : List KeyGroupMetrics → ℕ
total_memory [] = 0
total_memory (g ∷ gs) = g.memory_usage + total_memory gs

pub sum_counts-total :
    (gs : List KeyGroupMetrics) (n : ℕ)
    → n < word_mod
    → sum_counts gs n ≡ (n + total_count gs) % word_mod
unfolding sum_counts add_word
sum_counts-total [] n h = omega arith
sum_counts-total (g ∷ gs) n h =
    sum_counts-total gs ((n + g.count) % word_mod) (omega arith) ∙ omega arith

pub sum_memory-total :
    (gs : List KeyGroupMetrics) (n : ℕ)
    → n < word_mod
    → sum_memory gs n ≡ (n + total_memory gs) % word_mod
unfolding sum_memory add_word
sum_memory-total [] n h = omega arith
sum_memory-total (g ∷ gs) n h =
    sum_memory-total gs ((n + g.memory_usage) % word_mod) (omega arith) ∙ omega arith

-- The totals do not depend on the order, and those of two parts add up.
module _ (total : List KeyGroupMetrics → ℕ) (amount : KeyGroupMetrics → ℕ)
    (total-nil : total [] ≡ 0)
    (total-cons : (g : KeyGroupMetrics) (gs : List KeyGroupMetrics)
      → total (g ∷ gs) ≡ amount g + total gs) where
  total-insert_ranked :
      (g : KeyGroupMetrics) (gs : List KeyGroupMetrics)
      → total (insert_ranked g gs) ≡ amount g + total gs
  unfolding insert_ranked
  total-insert_ranked g [] = total-cons g []
  total-insert_ranked g (h ∷ hs) =
      let rest = total-insert_ranked g hs in
      elim (Bool-cases (ranks_before h g)) [
        | inl e ↦
            rw (e, insert_ranked)
              (omega (arith, total-cons h (insert_ranked g hs), rest, total-cons h hs))
        | inr e ↦ rw (e, insert_ranked) (total-cons g (h ∷ hs))
      ]

  total-sort_ranked : (gs : List KeyGroupMetrics) → total (sort_ranked gs) ≡ total gs
  unfolding sort_ranked
  total-sort_ranked [] = refl
  total-sort_ranked (g ∷ gs) =
      omega (arith, total-insert_ranked g (sort_ranked gs), total-sort_ranked gs, total-cons g gs)

  total-cut : (k : ℕ) (gs : List KeyGroupMetrics) → total (take k gs) + total (drop k gs) ≡ total gs
  total-cut zero gs = omega (arith, total-nil)
  total-cut (suc k) [] = omega (arith, total-nil)
  total-cut (suc k) (g ∷ gs) =
      omega (arith, total-cons g (take k gs), total-cut k gs, total-cons g gs)

pub total_count-sort_ranked :
    (gs : List KeyGroupMetrics) → total_count (sort_ranked gs) ≡ total_count gs
total_count-sort_ranked = total-sort_ranked total_count (λ g. g.count) refl (λ g gs. refl)

pub total_memory-sort_ranked :
    (gs : List KeyGroupMetrics) → total_memory (sort_ranked gs) ≡ total_memory gs
total_memory-sort_ranked = total-sort_ranked total_memory (λ g. g.memory_usage) refl (λ g gs. refl)

pub total_count-cut :
    (k : ℕ) (gs : List KeyGroupMetrics)
    → total_count (take k gs) + total_count (drop k gs) ≡ total_count gs
total_count-cut = total-cut total_count (λ g. g.count) refl (λ g gs. refl)

pub total_memory-cut :
    (k : ℕ) (gs : List KeyGroupMetrics)
    → total_memory (take k gs) + total_memory (drop k gs) ≡ total_memory gs
total_memory-cut = total-cut total_memory (λ g. g.memory_usage) refl (λ g gs. refl)
