-- ===== src/KeyGroups/GroupSums.antt =====
-- The sums that the map of the groups holds for each name.
use redis_exporter.Base.{
  ℕ, ◌<◌, ◌≡◌, refl, sym, ap, ◌∙◌, Bool, true, false, Option, none, some, Option-cases, inl, inr,
  List, [], ◌∷◌, Bytes, if◌then◌else◌, Assoc, lookup, insert, lookup-insert, bytes_eq, bytes_eq_iff,
  All, arith,
}
use redis_exporter.KeyGroups.Word.{word_mod, add_word}
use redis_exporter.KeyGroups.Gather.{KeyGroupMetrics, add_group, add_groups}

abbrev pub count_of : Option KeyGroupMetrics → ℕ
count_of none = 0
count_of (some g) = g.count

abbrev pub memory_of : Option KeyGroupMetrics → ℕ
memory_of none = 0
memory_of (some g) = g.memory_usage

-- The sum, from `n` on, over those groups that have the name.
abbrev pub count_named : Bytes → List KeyGroupMetrics → ℕ → ℕ
count_named name [] n = n
count_named name (g ∷ gs) n =
    count_named name gs (if bytes_eq g.key_group name then add_word n g.count else n)

abbrev pub memory_named : Bytes → List KeyGroupMetrics → ℕ → ℕ
memory_named name [] n = n
memory_named name (g ∷ gs) n =
    memory_named name gs (if bytes_eq g.key_group name then add_word n g.memory_usage else n)

-- Both numbers are bit patterns of an int64.
abbrev pub IsWords : KeyGroupMetrics → Type 0
IsWords g = (g.count < word_mod) × (g.memory_usage < word_mod)

-- A number that the map holds of a group, before and after a group of a page is added.
module _ (f : Option KeyGroupMetrics → ℕ) where
  of_insert :
      (name k : Bytes) (g : KeyGroupMetrics) (groups : Assoc KeyGroupMetrics)
      → f (lookup name (insert k g groups))
        ≡ (if bytes_eq k name then f (some g) else f (lookup name groups))
  of_insert name k g groups = ap f (lookup-insert k name g groups) ∙ of_if (bytes_eq k name)
    where
      of_if :
          (b : Bool)
          → f (if b then some g else lookup name groups)
            ≡ (if b then f (some g) else f (lookup name groups))
      of_if true = refl
      of_if false = refl

  if_new :
      (b : Bool) (o : Option KeyGroupMetrics) (n : ℕ)
      → f none ≡ 0
      → n < word_mod
      → (b ≡ true → o ≡ none)
      → (if b then n else f o) ≡ (if b then add_word (f o) n else f o)
  unfolding add_word
  if_new false o n z small h = refl
  if_new true o n z small h = rw (h refl, z) (omega arith)

  if_there :
      (b : Bool) (o : Option KeyGroupMetrics) (m : KeyGroupMetrics) (n : ℕ)
      → (b ≡ true → o ≡ some m)
      → (if b then add_word (f (some m)) n else f o) ≡ (if b then add_word (f o) n else f o)
  if_there false o m n h = refl
  if_there true o m n h = rw (h refl)

named_same :
    (k name : Bytes) (groups : Assoc KeyGroupMetrics) (o : Option KeyGroupMetrics)
    → lookup k groups ≡ o
    → bytes_eq k name ≡ true
    → lookup name groups ≡ o
named_same k name groups o e b = ap (λ n. lookup n groups) (sym ((bytes_eq_iff k name).0 b)) ∙ e

count_of-add_group :
    (name : Bytes) (g : KeyGroupMetrics) (groups : Assoc KeyGroupMetrics)
    → IsWords g
    → count_of (lookup name (add_group g groups)) ≡ (
        if bytes_eq g.key_group name
        then add_word (count_of (lookup name groups)) g.count
        else count_of (lookup name groups))
unfolding add_group
count_of-add_group name g groups small = elim (Option-cases (lookup g.key_group groups)) [
  | inl e ↦
      rw (e, add_group)
        (of_insert count_of name g.key_group g groups
          ∙ if_new count_of (bytes_eq g.key_group name) (lookup name groups) g.count refl small.0
              (named_same g.key_group name groups none e))
  | inr (m, e) ↦
      rw (e, add_group)
        (of_insert count_of name g.key_group _ groups
          ∙ if_there count_of (bytes_eq g.key_group name) (lookup name groups) m g.count
              (named_same g.key_group name groups (some m) e))
]

memory_of-add_group :
    (name : Bytes) (g : KeyGroupMetrics) (groups : Assoc KeyGroupMetrics)
    → IsWords g
    → memory_of (lookup name (add_group g groups)) ≡ (
        if bytes_eq g.key_group name
        then add_word (memory_of (lookup name groups)) g.memory_usage
        else memory_of (lookup name groups))
unfolding add_group
memory_of-add_group name g groups small = elim (Option-cases (lookup g.key_group groups)) [
  | inl e ↦
      rw (e, add_group)
        (of_insert memory_of name g.key_group g groups
          ∙ if_new memory_of (bytes_eq g.key_group name) (lookup name groups) g.memory_usage refl
              small.1 (named_same g.key_group name groups none e))
  | inr (m, e) ↦
      rw (e, add_group)
        (of_insert memory_of name g.key_group _ groups
          ∙ if_there memory_of (bytes_eq g.key_group name) (lookup name groups) m g.memory_usage
              (named_same g.key_group name groups (some m) e))
]

-- After groups are added to a map, the map holds for each name the count and the
-- memory that it held before, plus, modulo 2 ^ 64, those of the added groups with that name.
pub add_groups_sums :
    (name : Bytes) (gs : List KeyGroupMetrics) (groups : Assoc KeyGroupMetrics)
    → All IsWords gs
    → (count_of (lookup name (add_groups gs groups))
        ≡ count_named name gs (count_of (lookup name groups)))
      × (memory_of (lookup name (add_groups gs groups))
          ≡ memory_named name gs (memory_of (lookup name groups)))
unfolding add_groups
add_groups_sums name [] groups _ = (refl, refl)
add_groups_sums name (g ∷ gs) groups (small, rest) =
    let (counts, memory) = add_groups_sums name gs (add_group g groups) rest in
    (
      counts ∙ ap (count_named name gs) (count_of-add_group name g groups small),
      memory ∙ ap (memory_named name gs) (memory_of-add_group name g groups small),
    )
