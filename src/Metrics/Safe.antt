-- ===== src/Metrics/Safe.antt =====
-- Sending metrics without a panic, and the invariant of the channel.
use redis_exporter.Base.{
  ℕ, ◌≡◌, true, some, List, [], ◌∷◌, All, All-append, length, arith, Bytes, bytes_eq_iff,
  Option-cases, inl, inr, Assoc, lookup, insert, lookup-insert,
}
use redis_exporter.Deps.{Deps}
use redis_exporter.Run.{◌>>◌}
use redis_exporter.Run.Safe.{Safe, Ends, Safe-pure, Safe-if, Safe-bind, safe_rules}
use redis_exporter.Metrics.{
  Channel, Desc, Metric, ValueType, const, summary, histogram, send, send_const,
  must_find_metric_description, create_metric_description, register_const_metric,
  register_const_metric_gauge, register_const_summary, register_const_histogram,
}

-- As many label values as the description has labels.
abbrev pub Fits : {F : Type 0} → Metric F → Type 0
Fits (const d t v values) = length d.labels ≡ length values
Fits (summary d n v q values) = length d.labels ≡ length values
Fits (histogram d n v b values) = length d.labels ≡ length values

-- The table describes the metric.
pub record IsDescribed (table : Assoc Desc) (metric : Bytes) : Type 0 where
  pub there : (d : Desc) × (lookup metric table ≡ some d)

-- Every description of `table` is still there, unchanged, and every metric that was sent fits its
-- description.
pub record IsSound {F : Type 0} (table : Assoc Desc) (c : Channel F) : Type 0 where
  pub kept :
      (name : Bytes) (d : Desc) → lookup name table ≡ some d → lookup name c.descriptions ≡ some d
  pub fits : All Fits c.sent

module _ (deps : Deps) (table : Assoc Desc) where
  open deps use {Float, accepts}

  abbrev Sound : Channel Float → Type 0
  Sound = IsSound table

  send-Sound : (m : Metric Float) → Fits m → Safe Sound (send m)
  send-Sound m f = record {
    at = λ c h. record { kept = h.kept; fits = All-append Fits c.sent (m ∷ []) h.fits (f, tt) };
  }

  send_const-Sound :
      (d : Desc) (t : ValueType) (v : Float) (values : List Bytes)
      → Safe Sound (send_const deps d t v values)
  send_const-Sound d t v values =
      Safe-if (accepts d.name d.labels values) _ _
        (λ e. send-Sound (const d t v values) (deps.accepts_length d.name d.labels values e))
        (λ e. Safe-pure tt)

  pub create_metric_description-Sound :
      (name : Bytes) (labels : List Bytes) → Safe Sound (create_metric_description deps name labels)
  unfolding create_metric_description
  create_metric_description-Sound name labels = record {
    at = λ c h.
        let desc : Desc = record { name = name; labels = labels } in
        elim (Option-cases (lookup name c.descriptions)) [
          | inl e ↦
              rw (e, Ends)
                (record {
                  kept = λ other d t. ground (
                    arith,
                    e,
                    h.kept other d t,
                    bytes_eq_iff name other,
                    lookup-insert name other desc c.descriptions,
                  );
                  fits = h.fits;
                })
          | inr (d, e) ↦ rw (e, Ends) h
        ];
  }

  must_find_metric_description-Sound :
      (name : Bytes) (d : Desc)
      → lookup name table ≡ some d
      → Safe Sound (must_find_metric_description deps name)
  unfolding must_find_metric_description
  must_find_metric_description-Sound name d e = record { at = λ c h. rw (h.kept name d e, Ends) h }

  -- A metric with label values needs its description in the table.
  pub register_labelled-Sound :
      (metric : Bytes) (v : Float) (t : ValueType) (value : Bytes) (values : List Bytes)
      → IsDescribed table metric
      → Safe Sound (register_const_metric deps metric v t (value ∷ values))
  unfolding register_const_metric
  register_labelled-Sound metric v t value values e =
      Safe-bind (must_find_metric_description deps metric) _
        (must_find_metric_description-Sound metric e.there.0 e.there.1)
        (λ desc. send_const-Sound desc t v (value ∷ values))

  -- One without label values does not.
  pub register_plain-Sound :
      (metric : Bytes) (v : Float) (t : ValueType)
      → Safe Sound (register_const_metric deps metric v t [])
  unfolding register_const_metric
  register_plain-Sound metric v t =
      Safe-bind (create_metric_description deps metric []) _
        (create_metric_description-Sound metric []) (λ desc. send_const-Sound desc t v [])

  pub gauge_labelled-Sound :
      (metric : Bytes) (v : Float) (value : Bytes) (values : List Bytes)
      → IsDescribed table metric
      → Safe Sound (register_const_metric_gauge deps metric v (value ∷ values))
  unfolding register_const_metric_gauge
  gauge_labelled-Sound metric v value values e = register_labelled-Sound metric v _ value values e

  pub gauge_plain-Sound :
      (metric : Bytes) (v : Float) → Safe Sound (register_const_metric_gauge deps metric v [])
  unfolding register_const_metric_gauge
  gauge_plain-Sound metric v = register_plain-Sound metric v _

  -- A metric whose description was made just before, or found.
  pub found_after_create :
      (name : Bytes) (labels : List Bytes) (c : Channel Float)
      → Sound c
      → (d : Desc) × (c' : Channel Float) × (create_metric_description deps name labels c
          ≡ some (d, c'))
        × (lookup name c'.descriptions ≡ some d)
        × Sound c'
  unfolding create_metric_description
  found_after_create name labels c h =
      let desc : Desc = record { name = name; labels = labels } in
      let c' : Channel Float = record c { descriptions = insert name desc c.descriptions } in
      elim (Option-cases (lookup name c.descriptions)) [
        | inl e ↦ (
          desc,
          c',
          rw (e, create_metric_description),
          ground (arith, lookup-insert name name desc c.descriptions, bytes_eq_iff name name),
          rw (e, create_metric_description, Ends) at
              ((create_metric_description-Sound name labels).at c h),
        )
        | inr (d, e) ↦ (d, c, rw (e, create_metric_description), e, h)
      ]

  pub create_gauge-Sound :
      (metric : Bytes) (labels : List Bytes) (v : Float) (value : Bytes) (values : List Bytes)
      → Safe Sound (
          create_metric_description deps metric labels
          >> register_const_metric_gauge deps metric v (value ∷ values))
  unfolding register_const_metric_gauge register_const_metric must_find_metric_description
  create_gauge-Sound metric labels v value values = record {
    at = λ c h.
        let (d, c', made, found, h') = found_after_create metric labels c h in
        rw (made, Ends) (rw (found, Ends) ((send_const-Sound d _ v (value ∷ values)).at c' h'));
  }

  -- MustNewConstSummary panics unless the client takes the label values.
  pub register_summary-Sound :
      (metric : Bytes) (d : Desc) (count : ℕ) (sum : Float) (quantiles : List (Float × Float))
      (values : List Bytes)
      → lookup metric table ≡ some d
      → accepts d.name d.labels values ≡ true
      → Safe Sound (register_const_summary deps metric count sum quantiles values)
  unfolding register_const_summary must_find_metric_description
  register_summary-Sound metric d count sum quantiles values e t = record {
    at = λ c h.
        rw (h.kept metric d e, Ends)
          (rw t (
            (send-Sound (summary d count sum quantiles values)
                (deps.accepts_length d.name d.labels values t)).at
              c h));
  }

  -- The same for MustNewConstHistogram.
  pub register_histogram-Sound :
      (metric : Bytes) (d : Desc) (count : ℕ) (sum : Float) (buckets : List (Float × ℕ))
      (values : List Bytes)
      → lookup metric table ≡ some d
      → accepts d.name d.labels values ≡ true
      → Safe Sound (register_const_histogram deps metric count sum buckets values)
  unfolding register_const_histogram must_find_metric_description
  register_histogram-Sound metric d count sum buckets values e t = record {
    at = λ c h.
        rw (h.kept metric d e, Ends)
          (rw t (
            (send-Sound (histogram d count sum buckets values)
                (deps.accepts_length d.name d.labels values t)).at
              c h));
  }

pub ruleset sound_rules = (
  safe_rules, create_metric_description-Sound, register_labelled-Sound, register_plain-Sound,
  gauge_labelled-Sound, gauge_plain-Sound,
)
