-- ===== src/Scrape/Plain.antt =====
-- Gauges without labels: which description they find or make, and what they send.
use redis_exporter.Base.{
  ◌≡◌, refl, sym, ◌∙◌, ap, true, false, none, some, [], ◌∷◌, ◌++◌, Bytes, bytes_eq, lookup, insert,
  lookup-insert, Assoc, if◌then◌else◌, Option-cases, inl, inr,
}
use redis_exporter.Deps.{Deps}
use redis_exporter.Run.{pure, bind_some}
use redis_exporter.Metrics.{
  Channel, Desc, const, gauge_value, send, create_metric_description, register_const_metric,
  register_const_metric_gauge,
}
use redis_exporter.Scrape.Registry.{no_labels}

-- A description under the name, where there is one, has no labels.
abbrev pub IsPlain : Bytes → Assoc Desc → Type 0
IsPlain name table = (d : Desc) → lookup name table ≡ some d → d ≡ no_labels name

-- The table with a description without labels under the name.
abbrev pub with_plain : Bytes → Assoc Desc → Assoc Desc
with_plain name table = elim (lookup name table) [
  | none ↦ insert name (no_labels name) table
  | some d ↦ table
]

pub with_plain-IsPlain :
    (name other : Bytes) (table : Assoc Desc)
    → IsPlain other table
    → bytes_eq name other ≡ false
    → IsPlain other (with_plain name table)
with_plain-IsPlain name other table h differ d found = elim (Option-cases (lookup name table)) [
  | inl e ↦ h d (sym other_kept ∙ (rw (e, with_plain) at found))
  | inr (d', e) ↦ h d (rw (e, with_plain) at found)
]
  where
    other_kept : lookup other (insert name (no_labels name) table) ≡ lookup other table
    other_kept = lookup-insert name other (no_labels name) table ∙ rw differ refl

module _ (deps : Deps) where
  open deps use {Float, accepts, of_ℤ}

  plain_made :
      (name : Bytes) (c : Channel Float)
      → IsPlain name c.descriptions
      → create_metric_description deps name [] c
        ≡ some (no_labels name, record c { descriptions = with_plain name c.descriptions })
  unfolding create_metric_description
  plain_made name c plain = elim (Option-cases (lookup name c.descriptions)) [
    | inl e ↦ rw (e, create_metric_description, with_plain) refl
    | inr (d, e) ↦ rw (e, create_metric_description, with_plain) (rw (plain d e) refl)
  ]

  -- A gauge without labels.
  pub gauge_plain_sends :
      (name : Bytes) (v : Float) (c : Channel Float)
      → IsPlain name c.descriptions
      → accepts name [] [] ≡ true
      → register_const_metric_gauge deps name v [] c
        ≡ some (
          tt,
          record c {
            descriptions = with_plain name c.descriptions;
            sent = c.sent ++ const (no_labels name) gauge_value v [] ∷ [];
          },
        )
  unfolding register_const_metric_gauge register_const_metric create_metric_description
  gauge_plain_sends name v c plain takes =
      bind_some (create_metric_description deps name []) _ c (plain_made name c plain)
      ∙ ap
          (λ b.
            (if b then send (const (no_labels name) gauge_value v []) else pure tt)
              (record c { descriptions = with_plain name c.descriptions }))
          takes
