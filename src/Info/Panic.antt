-- ===== src/Info/Panic.antt =====
-- Which fields of INFO make the exporter panic.
use redis_exporter.Base.{
  ℕ, ◌≡◌, ◌↔◌, refl, sym, ◌∙◌, ap, true, false, none, List, [], ◌∷◌, ◌++◌, Bytes, codes, arith,
  lookup, bytes_eq, Bool-cases, inl, inr,
}
use redis_exporter.Deps.{Deps}
use redis_exporter.Text.Split.{
  split, join, join-split, split-Lacks, split_part, split-append, Lacks,
}
use redis_exporter.Metrics.{
  Channel, register_const_metric, register_const_metric_gauge, must_find_metric_description,
}
use redis_exporter.Info.Fields.{
  is_master_link_status, is_master_direct, has_suffix, has_suffix-rest,
}
use redis_exporter.Tables.Init.{initial_descriptions}
use redis_exporter.Info.Parse.{percentile_parts, extract_percentile_val}
use redis_exporter.Info.Handlers.{direct_metric, handle_metrics_replication}

module _ (deps : Deps) where
  open deps use {Float}

  -- A name that begins with `slave_repl_offset` and goes on.
  abbrev pub longer_name : ℕ → Bytes → Bytes
  longer_name c s = codes "slave_repl_offset" ++ c ∷ s

  abbrev pub EndsWith : Bytes → Bytes → Type 0
  EndsWith suffix s = (front : Bytes) × (s ≡ front ++ suffix)

  longer_name-undescribed :
      (c : ℕ) (s : Bytes) → lookup (longer_name c s) initial_descriptions ≡ none
  unfolding initial_descriptions lookup bytes_eq
  longer_name-undescribed c s = refl

  longer_name-matches :
      (c : ℕ) (s : Bytes)
      → (is_master_link_status (longer_name c s) ≡ false)
        × (is_master_direct (longer_name c s) ≡ true)
  unfolding is_master_link_status is_master_direct
  longer_name-matches c s = (refl, refl)

  no_suffix : (p s : Bytes) → ¬ EndsWith p s → has_suffix p s ≡ false
  no_suffix p s h = elim (Bool-cases (has_suffix p s)) [
    | inl e ↦ absurd (h (has_suffix-rest p s e))
    | inr e ↦ e
  ]

  longer_name-direct :
      (key : Bytes)
      → ¬ EndsWith (codes "last_io_seconds_ago") key
      → ¬ EndsWith (codes "sync_in_progress") key
      → direct_metric deps key ≡ key
  unfolding direct_metric
  longer_name-direct key io sync =
      rw (no_suffix (codes "last_io_seconds_ago") key io, direct_metric)
        (rw (no_suffix (codes "sync_in_progress") key sync, direct_metric) refl)

  replication_panics_at :
      (host port key value : Bytes) (c : Channel Float)
      → is_master_link_status key ≡ false
      → is_master_direct key ≡ true
      → lookup (direct_metric deps key) c.descriptions ≡ none
      → handle_metrics_replication deps host port key value c ≡ none
  unfolding handle_metrics_replication register_const_metric_gauge register_const_metric
      must_find_metric_description
  replication_panics_at host port key value c link direct missing = ground arith

  -- reMasterDirect is open at its end: every name that begins with `slave_repl_offset` and goes on
  -- makes the exporter panic in the Replication section, while the name has no description; and the
  -- table that an exporter begins with has none. Names that end with last_io_seconds_ago or with
  -- sync_in_progress are left out, since they are exported under another name.
  pub handle_metrics_replication_panics :
      (host port s value : Bytes) (b : ℕ) (c : Channel Float)
      → ¬ EndsWith (codes "last_io_seconds_ago") (longer_name b s)
      → ¬ EndsWith (codes "sync_in_progress") (longer_name b s)
      → lookup (longer_name b s) c.descriptions ≡ none
      → (lookup (longer_name b s) initial_descriptions ≡ none)
        × (handle_metrics_replication deps host port (longer_name b s) value c ≡ none)
  handle_metrics_replication_panics host port s value b c io sync missing = (
    longer_name-undescribed b s,
    replication_panics_at host port (longer_name b s) value c (longer_name-matches b s).0
        (longer_name-matches b s).1
        (ap (λ name. lookup name c.descriptions) (longer_name-direct (longer_name b s) io sync)
          ∙ missing),
  )

  percentile_parts-none :
      (parts : List Bytes)
      → percentile_parts deps parts ≡ none
      → (v : Bytes) × (parts ≡ [] ∷ v ∷ [])
  unfolding percentile_parts
  percentile_parts-none ([] ∷ v ∷ []) h = (v, refl)
  percentile_parts-none ((c ∷ k) ∷ v ∷ []) h = absurd (ground arith)
  percentile_parts-none _ h = absurd (cc)

  -- Slicing the name of a percentile panics exactly on `=` followed by a text without `=`.
  pub extract_percentile_val_panics :
      (s : Bytes)
      → (extract_percentile_val deps s ≡ none) ↔ ((v : Bytes) × Lacks b'=' v × (s ≡ b'=' ∷ v))
  unfolding extract_percentile_val percentile_parts
  extract_percentile_val_panics s = (there, back)
    where
      there : extract_percentile_val deps s ≡ none → (v : Bytes) × Lacks b'=' v × (s ≡ b'=' ∷ v)
      there h =
          let (v, e) = percentile_parts-none (split b'=' s) h in
          (
            v,
            (rw e at (split-Lacks b'=' s)).1.0,
            sym (join-split b'=' s) ∙ ap (join b'=') e ∙ unfold join in refl,
          )

      back : (v : Bytes) × Lacks b'=' v × (s ≡ b'=' ∷ v) → extract_percentile_val deps s ≡ none
      back (v, lacks, e) = rw (e, split-append b'=' [] v tt, split_part b'=' v lacks)
