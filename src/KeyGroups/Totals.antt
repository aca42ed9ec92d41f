-- ===== src/KeyGroups/Totals.antt =====
-- What the overflow of the key groups keeps: the groups themselves, the sums and the ranking.
use redis_exporter.Base.{
  ℕ, suc, ◌+◌, ◌%◌, ◌<◌, ◌≡◌, refl, ap, ◌∙◌, inl, inr, some, List, [], ◌∷◌, ◌++◌, pos, length, take,
  drop, Assoc, All, Bool-cases, arith, take-append-drop, length-take,
}
use mathlib.Core.List.{Perm}
use redis_exporter.KeyGroups.Word.{word_mod}
use redis_exporter.KeyGroups.Gather.{KeyGroupMetrics}
use redis_exporter.KeyGroups.Overflow.{
  OverflowedKeyGroupMetrics, ranks_before, insert_ranked, sort_ranked, sum_counts, sum_memory,
  groups_in, split_at, overflow_of,
}
use redis_exporter.KeyGroups.Ranking.{
  Outranks, sort_ranked-Perm, sort_ranked-IsRanked, IsRanked-cut,
}
use redis_exporter.KeyGroups.Sums.{
  total_count, total_memory, sum_counts-total, sum_memory-total, total_count-sort_ranked,
  total_memory-sort_ranked, total_count-cut, total_memory-cut,
}

abbrev sorted : Assoc KeyGroupMetrics → List KeyGroupMetrics
sorted groups = sort_ranked (groups_in groups)

-- What `overflow` must be for the groups of a database and a limit: `rest` is what it leaves out.
pub record IsOverflowOf (limit : ℕ) (groups : Assoc KeyGroupMetrics)
    (overflow : OverflowedKeyGroupMetrics) : Type 0 where
  pub rest : List KeyGroupMetrics
  pub same_groups : Perm (groups_in groups) (overflow.top_memory_usage_key_groups ++ rest)
  pub most_memory : All (λ top. All (Outranks top) rest) overflow.top_memory_usage_key_groups
  pub as_many : length overflow.top_memory_usage_key_groups ≡ limit
  pub overflow_count : overflow.overflow_key_group_aggregate.count ≡ total_count rest % word_mod
  pub overflow_memory :
      overflow.overflow_key_group_aggregate.memory_usage ≡ total_memory rest % word_mod
  pub counts :
      (total_count overflow.top_memory_usage_key_groups
          + overflow.overflow_key_group_aggregate.count)
        % word_mod
      ≡ total_count (groups_in groups) % word_mod
  pub memory :
      (total_memory overflow.top_memory_usage_key_groups
          + overflow.overflow_key_group_aggregate.memory_usage)
        % word_mod
      ≡ total_memory (groups_in groups) % word_mod
  pub number : overflow.key_groups_count ≡ length groups

sum_counts-rest : (gs : List KeyGroupMetrics) → sum_counts gs 0 ≡ total_count gs % word_mod
sum_counts-rest gs = omega (arith, sum_counts-total gs 0 (omega arith))

sum_memory-rest : (gs : List KeyGroupMetrics) → sum_memory gs 0 ≡ total_memory gs % word_mod
sum_memory-rest gs = omega (arith, sum_memory-total gs 0 (omega arith))

counts-split_at :
    (k : ℕ) (gs : List KeyGroupMetrics)
    → (total_count (take k gs) + sum_counts (drop k gs) 0) % word_mod ≡ total_count gs % word_mod
counts-split_at k gs = omega (arith, sum_counts-rest (drop k gs), total_count-cut k gs)

memory-split_at :
    (k : ℕ) (gs : List KeyGroupMetrics)
    → (total_memory (take k gs) + sum_memory (drop k gs) 0) % word_mod ≡ total_memory gs % word_mod
memory-split_at k gs = omega (arith, sum_memory-rest (drop k gs), total_memory-cut k gs)

length-insert_ranked :
    (g : KeyGroupMetrics) (gs : List KeyGroupMetrics)
    → length (insert_ranked g gs) ≡ suc (length gs)
unfolding insert_ranked
length-insert_ranked g [] = refl
length-insert_ranked g (h ∷ hs) =
    let rest = length-insert_ranked g hs in
    elim (Bool-cases (ranks_before h g)) [
      | inl e ↦ rw (e, insert_ranked) (ap suc rest)
      | inr e ↦ rw (e, insert_ranked)
    ]

length-sorted : (groups : Assoc KeyGroupMetrics) → length (sorted groups) ≡ length groups
unfolding sort_ranked
length-sorted [] = refl
length-sorted ((k, g) ∷ groups) =
    length-insert_ranked g (sorted groups) ∙ ap suc (length-sorted groups)

split_at-IsOverflowOf :
    (limit : ℕ) (groups : Assoc KeyGroupMetrics)
    → limit < length groups
    → IsOverflowOf limit groups (split_at limit (sorted groups) (length groups))
split_at-IsOverflowOf limit groups h =
    let gs = sorted groups in
    record {
      rest = drop limit gs;
      same_groups = rw (take-append-drop limit gs) (sort_ranked-Perm (groups_in groups));
      most_memory = IsRanked-cut limit gs (sort_ranked-IsRanked (groups_in groups));
      as_many = omega (arith, length-take limit gs, length-sorted groups);
      overflow_count = sum_counts-rest (drop limit gs);
      overflow_memory = sum_memory-rest (drop limit gs);
      counts =
          counts-split_at limit gs
          ∙ ap (λ n. n % word_mod) (total_count-sort_ranked (groups_in groups));
      memory =
          memory-split_at limit gs
          ∙ ap (λ n. n % word_mod) (total_memory-sort_ranked (groups_in groups));
      number = refl;
    }

-- Beyond the limit, a database yields an overflow: its top groups are `limit` of the groups of the
-- database, and none of the groups left out uses more memory (as int64) than one of them; the
-- aggregate has the counts and the memory of the groups left out, added up modulo 2 ^ 64, so that
-- with those of the top groups they give the totals of all the groups; and the number reported is
-- that of all the groups.
pub overflow_of-IsOverflowOf :
    (limit : ℕ) (groups : Assoc KeyGroupMetrics)
    → limit < length groups
    → (overflow : OverflowedKeyGroupMetrics) × (overflow_of (pos limit) groups
        ≡ some (some overflow))
      × IsOverflowOf limit groups overflow
unfolding overflow_of
overflow_of-IsOverflowOf limit groups h = (
  split_at limit (sorted groups) (length groups),
  ground arith,
  split_at-IsOverflowOf limit groups h,
)
