-- ===== src/Connect/Replaced.antt =====
-- What strings.Replace of configureOptions leaves: the text as it is, or with its first part replaced.
use redis_exporter.Base.{
  ℕ, ◌≡◌, ◌≢◌, refl, ap, none, some, [], ◌∷◌, ◌++◌, Bytes, bytes_eq, bytes_eq_iff, bytes_eq_refl,
  arith, Bool-cases, Option-cases, inl, inr,
}
use redis_exporter.Text.Split.{Lacks}
use redis_exporter.Connect.Options.{replace_front, replace_first}

replace_front-found :
    (old new s r : Bytes)
    → replace_front old new s ≡ some r
    → (behind : Bytes) × (s ≡ old ++ behind)
unfolding replace_front
replace_front-found [] new s r h = (s, refl)
replace_front-found (c ∷ old) new [] r h = absurd (cc)
replace_front-found (c ∷ old) new (d ∷ s) r h = elim (Bool-cases (bytes_eq (c ∷ []) (d ∷ []))) [
  | inl same ↦
      let (behind, e) = replace_front-found old new s r (rw (same, replace_front) at h) in
      (behind, joined ((bytes_eq_iff (c ∷ []) (d ∷ [])).0 same) e)
  | inr differ ↦ absurd (cc ((rw (differ, replace_front) at h)))
]
  where
    joined :
        {a b : ℕ} {x y : Bytes}
        → ◌≡◌ {A = Bytes} (a ∷ []) (b ∷ [])
        → x ≡ y
        → ◌≡◌ {A = Bytes} (b ∷ x) (a ∷ y)
    joined e f = cc

replace_front-append :
    (old new behind : Bytes) → replace_front old new (old ++ behind) ≡ some (new ++ behind)
unfolding replace_front
replace_front-append [] new behind = refl
replace_front-append (c ∷ old) new behind =
    rw (bytes_eq_refl (c ∷ []), replace_front) (replace_front-append old new behind)

-- Where the part does not occur, the text is as it was.
pub replace_first-absent :
    (old new s : Bytes)
    → ((front behind : Bytes) → s ≢ front ++ (old ++ behind))
    → replace_first old new s ≡ s
unfolding replace_first
replace_first-absent old new [] h = refl
replace_first-absent old new (c ∷ s) h = elim (Option-cases (replace_front old new (c ∷ s))) [
  | inl e ↦
      rw (e, replace_first)
        (ap (λ t. c ∷ t)
          (replace_first-absent old new s
            (λ front behind same. h (c ∷ front) behind (ap (λ t. c ∷ t) same))))
  | inr (r, e) ↦
      let (behind, same) = replace_front-found old new (c ∷ s) r e in absurd (h [] behind same)
]

abbrev second : Bytes → ℕ
second [] = 0
second (c ∷ []) = 0
second (c ∷ d ∷ s) = d

-- No `:@` begins before the first `@`.
not_yet :
    (c : ℕ) (front h new behind : Bytes)
    → Lacks b'@' front
    → replace_front (b':' ∷ b'@' ∷ h) new (c ∷ front ++ (b':' ∷ b'@' ∷ h ++ behind)) ≡ none
not_yet c front h new behind lacks =
    elim (Option-cases
      (replace_front (b':' ∷ b'@' ∷ h) new (c ∷ front ++ (b':' ∷ b'@' ∷ h ++ behind)))) [
        | inl e ↦ e
        | inr (r, e) ↦
            let (rest, same) = replace_front-found (b':' ∷ b'@' ∷ h) new _ r e in
            absurd (clash front lacks (ap second same))
      ]
  where
    clash :
        (front : Bytes)
        → Lacks b'@' front
        → second (c ∷ front ++ (b':' ∷ b'@' ∷ h ++ behind)) ≢ b'@'
    clash [] lacks e = absurd (omega (arith, e))
    clash (d ∷ front) (differ, lacks) e = absurd (differ e)

-- The first `:@host` is replaced.
pub replace_first-colon :
    (front h new behind : Bytes)
    → Lacks b'@' front
    → replace_first (b':' ∷ b'@' ∷ h) new (front ++ (b':' ∷ b'@' ∷ h ++ behind))
      ≡ front ++ (new ++ behind)
unfolding replace_first bytes_eq
replace_first-colon [] h new behind lacks =
    rw (replace_front-append (b':' ∷ b'@' ∷ h) new behind) refl
replace_first-colon (c ∷ front) h new behind (differ, lacks) =
    rw (not_yet c front h new behind lacks, replace_first)
      (ap (λ t. c ∷ t) (replace_first-colon front h new behind lacks))
