-- ===== src/Text/Split.antt =====
-- strings.Split and strings.SplitN at a separator of one byte, and strings.Split at "\r\n".
use mathlib.Core.List.{cons-ne-nil}
use redis_exporter.Base.{
  ℕ, ◌≡◌, ◌≢◌, refl, ap, ◌&&◌, Option, none, some, List, [], ◌∷◌, ◌++◌, arith, Bytes, ◌==◌, ==_iff,
  if◌then◌else◌, Bool-cases, Option-cases, All, inl, inr, ◌∙◌,
}

-- The byte `c` in front of the first part.
unfoldable pub extend : ℕ → List Bytes → List Bytes
extend c [] = (c ∷ []) ∷ []
extend c (p ∷ ps) = (c ∷ p) ∷ ps

-- strings.Split(s, sep): one part more than there are separators.
unfoldable pub split : ℕ → Bytes → List Bytes
unfolding extend
split sep [] = [] ∷ []
split sep (c ∷ s) = let rest = split sep s in if c == sep then [] ∷ rest else extend c rest

-- strings.SplitN(s, sep, 2), where `s` holds the separator: the text before the first one and the
-- text behind it.
unfoldable pub cut : ℕ → Bytes → Option (Bytes × Bytes)
cut sep [] = none
cut sep (c ∷ s) =
    let rest = cut sep s in
    if c == sep then some ([], s) else elim rest [ none ↦ none | some (a, b) ↦ some (c ∷ a, b) ]

-- strings.Split(s, "\r\n")
unfoldable pub split_crlf : Bytes → List Bytes
unfolding extend
split_crlf [] = [] ∷ []
split_crlf (c ∷ []) = (c ∷ []) ∷ []
split_crlf (c ∷ d ∷ s) =
    let behind = split_crlf s in
    let rest = split_crlf (d ∷ s) in if c == 13 && d == 10 then [] ∷ behind else extend c rest

-- strings.Join(parts, sep)
unfoldable pub join : ℕ → List Bytes → Bytes
join sep [] = []
join sep (p ∷ []) = p
join sep (p ∷ q ∷ ps) = p ++ sep ∷ join sep (q ∷ ps)

abbrev pub Lacks : ℕ → Bytes → Type 0
Lacks b = All (λ c. c ≢ b)

module _ (sep : ℕ) where
  pub split-ne-nil : (s : Bytes) → split sep s ≢ []
  unfolding split
  split-ne-nil [] = cons-ne-nil _ _
  split-ne-nil (c ∷ s) = ground (arith, split-ne-nil s)

  join-extend : (c : ℕ) (ps : List Bytes) → join sep (extend c ps) ≡ c ∷ join sep ps
  unfolding join extend
  join-extend c [] = refl
  join-extend c (p ∷ []) = refl
  join-extend c (p ∷ q ∷ ps) = refl

  join-nil-cons : (ps : List Bytes) → ps ≢ [] → join sep ([] ∷ ps) ≡ sep ∷ join sep ps
  unfolding join
  join-nil-cons [] h = absurd (h refl)
  join-nil-cons (p ∷ ps) h = refl

  -- The parts of a text, joined, are the text.
  pub join-split : (s : Bytes) → join sep (split sep s) ≡ s
  unfolding split
  join-split [] = unfold join in refl
  join-split (c ∷ s) = elim (Bool-cases (c == sep)) [
    | inl e ↦ rw (e, join-nil-cons _ (split-ne-nil s), join-split s) (ground (arith, ==_iff c sep))
    | inr n ↦ rw (n, join-extend c _, join-split s)
  ]

  extend-Lacks :
      (c : ℕ) (ps : List Bytes) → c ≢ sep → All (Lacks sep) ps → All (Lacks sep) (extend c ps)
  unfolding extend
  extend-Lacks c [] n h = ((n, tt), tt)
  extend-Lacks c (p ∷ ps) n (hp, hps) = ((n, hp), hps)

  -- No part holds the separator.
  pub split-Lacks : (s : Bytes) → All (Lacks sep) (split sep s)
  unfolding split
  split-Lacks [] = (tt, tt)
  split-Lacks (c ∷ s) = elim (Bool-cases (c == sep)) [
    | inl e ↦ rw e (tt, split-Lacks s)
    | inr n ↦ rw n (extend-Lacks c _ (λ e. cc ((==_iff c sep).1 e)) (split-Lacks s))
  ]

  pub split_part : (p : Bytes) → Lacks sep p → split sep p ≡ p ∷ []
  unfolding split
  split_part [] h = refl
  split_part (c ∷ p) (n, h) = ground (arith, split_part p h)

  pub split-append : (p s : Bytes) → Lacks sep p → split sep (p ++ sep ∷ s) ≡ p ∷ split sep s
  unfolding split
  split-append [] s h = ground arith
  split-append (c ∷ p) s (n, h) = ground (arith, split-append p s h)

  extend-snoc :
      (c : ℕ) (ps : List Bytes) (q : Bytes)
      → ps ≢ []
      → extend c (ps ++ q ∷ []) ≡ extend c ps ++ q ∷ []
  unfolding extend
  extend-snoc c [] q h = absurd (h refl)
  extend-snoc c (p ∷ ps) q h = refl

  -- A part behind the last separator.
  pub split-snoc : (s p : Bytes) → Lacks sep p → split sep (s ++ sep ∷ p) ≡ split sep s ++ p ∷ []
  unfolding split
  split-snoc [] p h = ground (arith, split_part p h)
  split-snoc (c ∷ s) p h = elim (Bool-cases (c == sep)) [
    | inl e ↦ rw e (ap (λ l. [] ∷ l) (split-snoc s p h))
    | inr n ↦
        rw n (ap (extend c) (split-snoc s p h) ∙ extend-snoc c (split sep s) p (split-ne-nil s))
  ]

  -- A list of parts that lack the separator is read back from its join.
  pub split-join :
      (p : Bytes) (ps : List Bytes)
      → All (Lacks sep) (p ∷ ps)
      → split sep (join sep (p ∷ ps)) ≡ p ∷ ps
  unfolding join
  split-join p [] (h, _) = split_part p h
  split-join p (q ∷ ps) (h, hs) = split-append p _ h ∙ ap (λ l. p ∷ l) (split-join q ps hs)

  -- What `cut` finds spells the text, and the first part lacks the separator.
  cut_sound : (s a b : Bytes) → cut sep s ≡ some (a, b) → (s ≡ a ++ sep ∷ b) × Lacks sep a
  unfolding cut
  cut_sound [] a b h = cc
  cut_sound (c ∷ s) a b h = elim (Option-cases (cut sep s)) [
    | inl e ↦ ground arith
    | inr ((a', b'), e) ↦ ground (arith, cut_sound s a' b')
  ]

  pub cut-append : (a b : Bytes) → Lacks sep a → cut sep (a ++ sep ∷ b) ≡ some (a, b)
  unfolding cut
  cut-append [] b h = ground arith
  cut-append (c ∷ a) b (n, h) = ground (arith, cut-append a b h)
