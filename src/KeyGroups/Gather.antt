-- ===== src/KeyGroups/Gather.antt =====
-- gatherKeyGroupMetrics: the loop over the pages of the Lua script, and the sums for each group.
use redis_exporter.Base.{
  ℕ, zero, suc, true, false, Option, none, some, List, [], ◌∷◌, Bytes, ℤ, pos, eq_ℤ, Assoc, lookup,
  insert,
}
use redis_exporter.Run.{Run, ◌>>=◌, pure, panic, case_option}
use redis_exporter.Redis.{Redis, int_arg}
use redis_exporter.Keys.Scan.{two_parts}
use redis_exporter.KeyGroups.Word.{to_word, add_word}

-- `count` and `memory_usage` are int64.
pub record KeyGroupMetrics : Type 0 where
  pub key_group : Bytes
  pub count : ℕ
  pub memory_usage : ℕ

-- One group of a page is added to the map.
unfoldable pub add_group : KeyGroupMetrics → Assoc KeyGroupMetrics → Assoc KeyGroupMetrics
unfolding add_word
add_group g groups = elim (lookup g.key_group groups) [
  | none ↦ insert g.key_group g groups
  | some m ↦
      insert g.key_group
        (record m {
          count = add_word m.count g.count;
          memory_usage = add_word m.memory_usage g.memory_usage;
        })
        groups
]

unfoldable pub add_groups : List KeyGroupMetrics → Assoc KeyGroupMetrics → Assoc KeyGroupMetrics
add_groups [] groups = groups
add_groups (g ∷ gs) groups = add_groups gs (add_group g groups)

module _ (r : Redis) where
  open r use {Reply, Conn, values, string, int64, int}

  abbrev values_or_nil : Reply → List Reply
  values_or_nil reply = elim (values reply) [ none ↦ [] | some vs ↦ vs ]

  abbrev string_or_empty : Reply → Bytes
  string_or_empty reply = elim (string reply) [ none ↦ [] | some s ↦ s ]

  abbrev word_or_zero : Reply → ℕ
  word_or_zero reply = elim (int64 reply) [ none ↦ 0 | some n ↦ to_word n ]

  -- `metricsArr[0]`, `[1]` and `[2]`: `none` is the panic of an index out of range.
  abbrev group_of : List Reply → Option KeyGroupMetrics
  group_of (name ∷ count ∷ usage ∷ rest) = some (record {
    key_group = string_or_empty name;
    count = word_or_zero count;
    memory_usage = word_or_zero usage;
  })
  group_of _ = none

  unfoldable pub groups_of : List Reply → Option (List KeyGroupMetrics)
  unfolding to_word
  groups_of [] = some []
  groups_of (reply ∷ replies) = elim (group_of (values_or_nil reply)) [
    | none ↦ none
    | some g ↦ elim (groups_of replies) [ none ↦ none | some gs ↦ some (g ∷ gs) ]
  ]

  -- What a call of the script returns: the next cursor and the groups; `none` for an error.
  unfoldable pub script_page : ℤ → ℤ → List Bytes → Run Conn (Option (ℤ × List Reply))
  script_page iter batch_size key_groups c =
      let x = r.run_script (int_arg iter ∷ int_arg batch_size ∷ key_groups) c in
      some (
        elim x.0 [
          | none ↦ none
          | some reply ↦ elim (values reply) [
            | none ↦ none
            | some arr ↦ elim (two_parts arr) [
              | none ↦ none
              | some (a, b) ↦ some (int a, values_or_nil b)
            ]
          ]
        ],
        x.1,
      )

  abbrev pub page_done :
      (ℤ → Assoc KeyGroupMetrics → Run Conn (Option (Assoc KeyGroupMetrics)))
      → ℤ
      → Assoc KeyGroupMetrics
      → Run Conn (Option (Assoc KeyGroupMetrics))
  page_done rest iter groups = elim (eq_ℤ iter (pos 0)) [
    | true ↦ pure (some groups)
    | false ↦ rest iter groups
  ]

  -- The end of a round: `rest` is the rounds behind it.
  abbrev pub page_next :
      (ℤ → Assoc KeyGroupMetrics → Run Conn (Option (Assoc KeyGroupMetrics)))
      → Assoc KeyGroupMetrics
      → Option (ℤ × List Reply)
      → Run Conn (Option (Assoc KeyGroupMetrics))
  page_next rest groups none = pure none
  page_next rest groups (some (iter, page)) =
      case_option (groups_of page) panic (λ gs. page_done rest iter (add_groups gs groups))

  unfoldable pub gather_loop :
      ℕ → ℤ → List Bytes → ℤ → Assoc KeyGroupMetrics → Run Conn (Option (Assoc KeyGroupMetrics))
  gather_loop zero batch_size key_groups iter groups = panic
  gather_loop (suc fuel) batch_size key_groups iter groups =
      script_page iter batch_size key_groups
      >>= page_next (gather_loop fuel batch_size key_groups) groups

  -- The result `none` is an error.
  unfoldable pub gather_key_group_metrics :
      ℕ → ℤ → List Bytes → Run Conn (Option (Assoc KeyGroupMetrics))
  unfolding gather_loop
  gather_key_group_metrics fuel batch_size key_groups =
      gather_loop fuel batch_size key_groups (pos 0) []
