-- ===== src/KeyGroups/Overflow.antt =====
-- gatherKeyGroupsMetricsForAllDatabases: the groups with the most memory, and the sum of the others.
use redis_exporter.Base.{
  ℕ, Bool, true, false, ◌&&◌, ◌||◌, Option, none, some, List, [], ◌∷◌, map, Bytes, codes,
  if◌then◌else◌, ℤ, pos, negsuc, ltb, ◌==◌, length, take, drop, Assoc,
}
use redis_exporter.KeyGroups.Word.{add_word, less_word}
use redis_exporter.KeyGroups.Gather.{KeyGroupMetrics}

pub record OverflowedKeyGroupMetrics : Type 0 where
  pub top_memory_usage_key_groups : List KeyGroupMetrics
  pub overflow_key_group_aggregate : KeyGroupMetrics
  pub key_groups_count : ℕ

-- s < t, byte by byte.
unfoldable pub less_bytes : Bytes → Bytes → Bool
less_bytes s [] = false
less_bytes [] (d ∷ t) = true
less_bytes (c ∷ s) (d ∷ t) = ltb c d || (c == d && less_bytes s t)

-- The comparison of sort.Slice: more memory first, then the smaller count, then the name.
unfoldable pub ranks_before : KeyGroupMetrics → KeyGroupMetrics → Bool
unfolding less_bytes
ranks_before a b =
    if a.memory_usage == b.memory_usage
    then (if a.count == b.count
        then less_bytes a.key_group b.key_group
        else less_word a.count b.count)
    else less_word b.memory_usage a.memory_usage

-- sort.Slice, as an insertion sort: with distinct names only one order is sorted.
unfoldable pub insert_ranked : KeyGroupMetrics → List KeyGroupMetrics → List KeyGroupMetrics
insert_ranked g [] = g ∷ []
insert_ranked g (h ∷ hs) = if ranks_before h g then h ∷ insert_ranked g hs else g ∷ h ∷ hs

unfoldable pub sort_ranked : List KeyGroupMetrics → List KeyGroupMetrics
unfolding insert_ranked ranks_before
sort_ranked [] = []
sort_ranked (g ∷ gs) = insert_ranked g (sort_ranked gs)

-- The sums over the groups that overflow.
unfoldable pub sum_counts : List KeyGroupMetrics → ℕ → ℕ
unfolding add_word
sum_counts [] n = n
sum_counts (g ∷ gs) n = sum_counts gs (add_word n g.count)

unfoldable pub sum_memory : List KeyGroupMetrics → ℕ → ℕ
unfolding add_word
sum_memory [] n = n
sum_memory (g ∷ gs) n = sum_memory gs (add_word n g.memory_usage)

abbrev pub groups_in : Assoc KeyGroupMetrics → List KeyGroupMetrics
groups_in = map (λ x. x.1)

abbrev pub split_at : ℕ → List KeyGroupMetrics → ℕ → OverflowedKeyGroupMetrics
split_at max sorted n = record {
  top_memory_usage_key_groups = take max sorted;
  overflow_key_group_aggregate = record {
    key_group = codes "overflow";
    count = sum_counts (drop max sorted) 0;
    memory_usage = sum_memory (drop max sorted) 0;
  };
  key_groups_count = n;
}

-- The groups of one database beyond the limit. The outer `none` is the panic of a slice with a
-- negative bound; the inner one says that there is no overflow.
unfoldable pub overflow_of : ℤ → Assoc KeyGroupMetrics → Option (Option OverflowedKeyGroupMetrics)
unfolding sort_ranked sum_counts sum_memory
overflow_of (negsuc n) all_groups = none
overflow_of (pos max) all_groups =
    if ltb max (length all_groups)
    then some (some (split_at max (sort_ranked (groups_in all_groups)) (length all_groups)))
    else some none
