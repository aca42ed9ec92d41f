-- ===== src/KeyGroups/Ranking.antt =====
-- The order of the key groups: sorting permutes them and puts those with more memory first.
use redis_exporter.Base.{
  ℕ, zero, suc, ◌≡◌, inl, inr, true, false, List, [], ◌∷◌, take, drop, All, All-mono, Bool-cases,
  arith,
}
use mathlib.Core.List.{Perm}
use mathlib.Core.List.Perm
use redis_exporter.KeyGroups.Word.{less_word}
use redis_exporter.KeyGroups.Gather.{KeyGroupMetrics}
use redis_exporter.KeyGroups.Overflow.{ranks_before, insert_ranked, sort_ranked}

-- g does not use more memory than t.
abbrev pub Outranks : KeyGroupMetrics → KeyGroupMetrics → Type 0
Outranks t g = less_word t.memory_usage g.memory_usage ≡ false

abbrev pub IsRanked : List KeyGroupMetrics → Type 0
IsRanked [] = Unit
IsRanked (g ∷ gs) = All (Outranks g) gs × IsRanked gs

ranks_before-true : (h g : KeyGroupMetrics) → ranks_before h g ≡ true → Outranks h g
unfolding ranks_before
ranks_before-true h g e = ground arith

ranks_before-false : (h g : KeyGroupMetrics) → ranks_before h g ≡ false → Outranks g h
unfolding ranks_before
ranks_before-false h g e = ground arith

Outranks-trans : (a b c : KeyGroupMetrics) → Outranks a b → Outranks b c → Outranks a c
Outranks-trans a b c h k = ground arith

insert_ranked-All :
    (P : KeyGroupMetrics → Type 0) (g : KeyGroupMetrics) (gs : List KeyGroupMetrics)
    → P g
    → All P gs
    → All P (insert_ranked g gs)
unfolding insert_ranked
insert_ranked-All P g [] p _ = (p, tt)
insert_ranked-All P g (h ∷ hs) p (q, qs) =
    let rest = insert_ranked-All P g hs p qs in
    elim (Bool-cases (ranks_before h g)) [
      | inl e ↦ rw (e, insert_ranked) (q, rest)
      | inr e ↦ rw (e, insert_ranked) (p, (q, qs))
    ]

insert_ranked-IsRanked :
    (g : KeyGroupMetrics) (gs : List KeyGroupMetrics) → IsRanked gs → IsRanked (insert_ranked g gs)
unfolding insert_ranked
insert_ranked-IsRanked g [] _ = (tt, tt)
insert_ranked-IsRanked g (h ∷ hs) (below, ranked) =
    let rest = insert_ranked-IsRanked g hs ranked in
    elim (Bool-cases (ranks_before h g)) [
      | inl e ↦
          rw (e, insert_ranked)
            (insert_ranked-All (Outranks h) g hs (ranks_before-true h g e) below, rest)
      | inr e ↦
          let o = ranks_before-false h g e in
          let all = All-mono (Outranks h) (Outranks g) (λ x k. Outranks-trans g h x o k) hs below in
          rw (e, insert_ranked) ((o, all), (below, ranked))
    ]

pub sort_ranked-IsRanked : (gs : List KeyGroupMetrics) → IsRanked (sort_ranked gs)
unfolding sort_ranked
sort_ranked-IsRanked [] = tt
sort_ranked-IsRanked (g ∷ gs) = insert_ranked-IsRanked g (sort_ranked gs) (sort_ranked-IsRanked gs)

insert_ranked-Perm :
    (g : KeyGroupMetrics) (gs : List KeyGroupMetrics) → Perm (g ∷ gs) (insert_ranked g gs)
unfolding insert_ranked
insert_ranked-Perm g [] = Perm.refl (g ∷ [])
insert_ranked-Perm g (h ∷ hs) =
    let rest = insert_ranked-Perm g hs in
    elim (Bool-cases (ranks_before h g)) [
      | inl e ↦ rw (e, insert_ranked) (Perm.trans (Perm.swap h g hs) (Perm.cons h rest))
      | inr e ↦ rw (e, insert_ranked) (Perm.refl (g ∷ h ∷ hs))
    ]

pub sort_ranked-Perm : (gs : List KeyGroupMetrics) → Perm gs (sort_ranked gs)
unfolding sort_ranked
sort_ranked-Perm [] = Perm.refl []
sort_ranked-Perm (g ∷ gs) =
    Perm.trans (Perm.cons g (sort_ranked-Perm gs)) (insert_ranked-Perm g (sort_ranked gs))

All-drop :
    (P : KeyGroupMetrics → Type 0) (n : ℕ) (gs : List KeyGroupMetrics)
    → All P gs
    → All P (drop n gs)
All-drop P zero gs h = h
All-drop P (suc n) [] h = tt
All-drop P (suc n) (g ∷ gs) (_, h) = All-drop P n gs h

-- Cutting a ranked list.
pub IsRanked-cut :
    (n : ℕ) (gs : List KeyGroupMetrics)
    → IsRanked gs
    → All (λ t. All (Outranks t) (drop n gs)) (take n gs)
IsRanked-cut zero gs _ = tt
IsRanked-cut (suc n) [] _ = tt
IsRanked-cut (suc n) (g ∷ gs) (below, ranked) =
    (All-drop (Outranks g) n gs below, IsRanked-cut n gs ranked)
