-- ===== src/Metrics/Sends.antt =====
-- What a field without labels sends.
use redis_exporter.Base.{
  ◌≡◌, ◌≢◌, ◌⊎◌, refl, sym, ◌∙◌, ap, inl, inr, true, false, Option, none, some, List, [], All,
  Bytes, codes, bytes_eq, bytes_eq_iff, bytes_eq-nil_ne, Bool-cases, if◌then◌else◌, pos, lookup,
  insert,
}
use redis_exporter.Metrics.Names.{
  Character, IsCharacter, text_of, name_of, sanitize_metric_name-text_of,
}
use redis_exporter.Deps.{Deps}
use redis_exporter.Run.{bind_some, pure}
use redis_exporter.Metrics.{
  ValueType, gauge_value, counter_value, Desc, MetricMaps, const, send, Channel,
  sanitize_metric_name, metric_name_of, metric_type_of, parse_field_value,
  create_metric_description, register_const_metric, parse_and_register_const_metric,
}

module _ (deps : Deps) where
  open deps use {Float, accepts, of_ℤ, parse_float, div}

  abbrev pub plain_desc : Bytes → Desc
  plain_desc name = record { name = name; labels = [] }

  -- The name that the tables give to a sanitised name: that of the table of gauges goes before that of
  -- the table of counters.
  abbrev pub IsNamed : MetricMaps → Bytes → Bytes → Type 0
  IsNamed maps name metric =
      (lookup name maps.gauges ≡ some metric)
      ⊎ ((lookup name maps.gauges ≡ none)
          × ((lookup name maps.counters ≡ some metric)
              ⊎ ((lookup name maps.counters ≡ none) × (metric ≡ name))))

  -- A counter where the table of counters names it, also where the table of gauges does.
  abbrev pub IsTyped : MetricMaps → Bytes → ValueType → Type 0
  IsTyped maps name type =
      ((lookup name maps.counters ≡ none) × (type ≡ gauge_value))
      ⊎ ((renamed : Bytes) × (lookup name maps.counters ≡ some renamed)
          × (renamed ≢ [])
          × (type ≡ counter_value))

  -- The words for 1 and 0, and a number for any other text.
  abbrev pub HasValue : Bytes → Float → Type 0
  HasValue value v =
      (((value ≡ codes "ok") ⊎ (value ≡ codes "true")) × (v ≡ of_ℤ (pos 1)))
      ⊎ ((((value ≡ codes "err") ⊎ ((value ≡ codes "fail") ⊎ (value ≡ codes "false")))
            × (v ≡ of_ℤ (pos 0)))
          ⊎ ((value ≢ codes "ok")
              × (value ≢ codes "true")
              × (value ≢ codes "err")
              × (value ≢ codes "fail")
              × (value ≢ codes "false")
              × (parse_float value ≡ record { value = v; failed = false })))

  -- The unit of the metric and of the value that are sent: seconds in the place of microseconds for
  -- latest_fork_usec.
  abbrev pub IsUnit : Bytes → Float → Bytes → Float → Type 0
  IsUnit metric v sent_metric sent_value =
      ((metric ≢ codes "latest_fork_usec") × (sent_metric ≡ metric) × (sent_value ≡ v))
      ⊎ ((metric ≡ codes "latest_fork_usec")
          × (sent_metric ≡ codes "latest_fork_seconds")
          × (sent_value ≡ div v (of_ℤ (pos 1000000))))

  bytes_differ : (s t : Bytes) → s ≢ t → bytes_eq s t ≡ false
  bytes_differ s t h = elim (Bool-cases (bytes_eq s t)) [
    | inl e ↦ absurd (h ((bytes_eq_iff s t).0 e))
    | inr e ↦ e
  ]

  metric_name_of-IsNamed :
      (maps : MetricMaps) (name metric : Bytes)
      → IsNamed maps name metric
      → metric_name_of deps maps name ≡ metric
  unfolding metric_name_of
  metric_name_of-IsNamed maps name metric (inl e) = rw (e, metric_name_of) refl
  metric_name_of-IsNamed maps name metric (inr (e, inl f)) =
      rw (e, metric_name_of) (rw (f, metric_name_of) refl)
  metric_name_of-IsNamed maps name metric (inr (e, inr (f, same))) =
      rw (e, metric_name_of) (rw (f, metric_name_of) (sym same))

  abbrev type_for : Option Bytes → ValueType
  type_for o =
      if bytes_eq (elim o [ none ↦ [] | some renamed ↦ renamed ]) []
      then gauge_value
      else counter_value

  metric_type_of-IsTyped :
      (maps : MetricMaps) (name : Bytes) (type : ValueType)
      → IsTyped maps name type
      → metric_type_of deps maps name ≡ type
  unfolding metric_type_of bytes_eq
  metric_type_of-IsTyped maps name type (inl (e, same)) = ap type_for e ∙ sym same
  metric_type_of-IsTyped maps name type (inr (renamed, e, there, same)) =
      ap type_for e
      ∙ ap (λ b. if b then gauge_value else counter_value) (bytes_eq-nil_ne renamed there)
      ∙ sym same

  parse_field_value-HasValue :
      (value : Bytes) (v : Float)
      → HasValue value v
      → parse_field_value deps value ≡ record { value = v; failed = false }
  unfolding parse_field_value bytes_eq
  parse_field_value-HasValue value v (inl (inl e, same)) = rw (e, same) refl
  parse_field_value-HasValue value v (inl (inr e, same)) = rw (e, same) refl
  parse_field_value-HasValue value v (inr (inl (inl e, same))) = rw (e, same) refl
  parse_field_value-HasValue value v (inr (inl (inr (inl e), same))) = rw (e, same) refl
  parse_field_value-HasValue value v (inr (inl (inr (inr e), same))) = rw (e, same) refl
  parse_field_value-HasValue value v
        (inr (inr (not_ok, not_true, not_err, not_fail, not_false, parsed))) =
      rw
        (
          bytes_differ value (codes "ok") not_ok,
          bytes_differ value (codes "true") not_true,
          bytes_differ value (codes "err") not_err,
          bytes_differ value (codes "fail") not_fail,
          bytes_differ value (codes "false") not_false,
        )
        parsed

  abbrev pub with_description : Bytes → Channel Float → Channel Float
  with_description name c = record c { descriptions = insert name (plain_desc name) c.descriptions }

  register_plain_sends :
      (metric : Bytes) (v : Float) (t : ValueType) (c : Channel Float)
      → lookup metric c.descriptions ≡ none
      → accepts metric [] [] ≡ true
      → register_const_metric deps metric v t [] c
        ≡ send (const (plain_desc metric) t v []) (with_description metric c)
  unfolding register_const_metric create_metric_description
  register_plain_sends metric v t c new fine =
      bind_some (create_metric_description deps metric []) _ c (
        ap
          (λ x. elim x as (λ _. Option (Desc × Channel Float)) [
            | none ↦ some (plain_desc metric, with_description metric c)
            | some desc ↦ some (desc, c)
          ])
          new)
      ∙ ap
          (λ b.
            (if b then send (const (plain_desc metric) t v []) else pure tt)
              (with_description metric c))
          fine

  registers :
      (maps : MetricMaps) (key value metric : Bytes) (type : ValueType) (v : Float)
      (sent_metric : Bytes) (sent_value : Float) (c : Channel Float)
      → metric_name_of deps maps (sanitize_metric_name key) ≡ metric
      → metric_type_of deps maps (sanitize_metric_name key) ≡ type
      → parse_field_value deps value ≡ record { value = v; failed = false }
      → IsUnit metric v sent_metric sent_value
      → parse_and_register_const_metric deps maps key value c
        ≡ register_const_metric deps sent_metric sent_value type [] c
  unfolding parse_and_register_const_metric bytes_eq
  registers maps key value metric type v sent_metric sent_value c named typed parsed
        (inl (differ, same_metric, same_value)) =
      rw
        (
          parsed,
          named,
          typed,
          bytes_differ metric (codes "latest_fork_usec") differ,
          same_metric,
          same_value,
        )
        refl
  registers maps key value metric type v sent_metric sent_value c named typed parsed
        (inr (fork, same_metric, same_value)) =
      rw (parsed, named, typed, fork, same_metric, same_value) refl

  -- A field whose key is a text of characters and whose value is one of the words or a number, seen
  -- for the first time, makes a description without labels and sends exactly one metric, and nothing
  -- else changes. Its name is the key with `_` for every character that is no letter, digit or `_`,
  -- in the place of which the table of gauges, or else that of counters, may put another; it is a
  -- counter exactly if the table of counters names it; its value is 1 for `ok` and `true`, 0 for
  -- `err`, `fail` and `false`, and else the number; and latest_fork_usec becomes latest_fork_seconds,
  -- with a millionth of the value. The client takes the name.
  pub parse_and_register_const_metric-exported :
      (maps : MetricMaps) (key : List Character) (value metric : Bytes) (type : ValueType)
      (v : Float) (sent_metric : Bytes) (sent_value : Float) (c : Channel Float)
      → All IsCharacter key
      → IsNamed maps (name_of key) metric
      → IsTyped maps (name_of key) type
      → HasValue value v
      → IsUnit metric v sent_metric sent_value
      → lookup sent_metric c.descriptions ≡ none
      → accepts sent_metric [] [] ≡ true
      → parse_and_register_const_metric deps maps (text_of key) value c
        ≡ send (const (plain_desc sent_metric) type sent_value []) (with_description sent_metric c)
  parse_and_register_const_metric-exported maps key value metric type v sent_metric sent_value c
        characters named typed has_value unit new takes =
      let name = sanitize_metric_name-text_of key characters in
      registers maps (text_of key) value metric type v sent_metric sent_value c
        (ap (metric_name_of deps maps) name
          ∙ metric_name_of-IsNamed maps (name_of key) metric named)
        (ap (metric_type_of deps maps) name ∙ metric_type_of-IsTyped maps (name_of key) type typed)
        (parse_field_value-HasValue value v has_value) unit
      ∙ register_plain_sends sent_metric sent_value type c new takes
