-- ===== src/Metrics.antt =====
-- exporter/metrics.go: metric descriptions, the metrics that are sent to the channel, and the
-- renaming of the fields of INFO.
pub mod Safe
pub mod Sends
pub mod Names
use redis_exporter.Base.{
  ℕ, zero, suc, ◌-◌, Bool, true, false, not, ◌||◌, ◌&&◌, Option, none, some, List, [], ◌∷◌, ◌++◌,
  Bytes, codes, bytes_eq, has_prefix, leb, ◌==◌, if◌then◌else◌, ℤ, pos, Assoc, lookup, insert,
  has_key, string_at,
}
use redis_exporter.Deps.{Deps}
use redis_exporter.Run.{Run, ◌>>=◌, ◌>>◌, pure, panic}
use redis_exporter.Text.Number.{Parsed}
use redis_exporter.Text.Runes.{rune_width}

-- prometheus.ValueType
pub data ValueType : Type 0 where
  gauge_value counter_value : ValueType

-- prometheus.Desc: the name and the variable labels.
pub record Desc : Type 0 where
  pub name : Bytes
  pub labels : List Bytes

-- What is sent to the channel.
pub data Metric (F : Type 0) : Type 0 where
  const : Desc → ValueType → F → List Bytes → Metric F
  summary : Desc → ℕ → F → List (F × F) → List Bytes → Metric F
  histogram : Desc → ℕ → F → List (F × ℕ) → List Bytes → Metric F

-- The two renaming tables of an Exporter.
pub record MetricMaps : Type 0 where
  pub gauges : Assoc Bytes
  pub counters : Assoc Bytes

-- e.metricDescriptions, which lasts from scrape to scrape, and the metrics sent so far.
pub record Channel (F : Type 0) : Type 0 where
  pub descriptions : Assoc Desc
  pub sent : List (Metric F)

-- A method that sends metrics.
abbrev pub Collect : Type 0 → Type 0 → Type 0
Collect F A = Run (Channel F) A

abbrev pub send : {F : Type 0} → Metric F → Collect F (Unit {0})
send m c = some (tt, record c { sent = c.sent ++ m ∷ [] })

abbrev pub is_name_byte : ℕ → Bool
is_name_byte c =
    (leb b'a' c && leb c b'z')
    || (leb b'A' c && leb c b'Z')
    || (leb b'0' c && leb c b'9')
    || c == b'_'

-- The text behind the characters that are replaced so far, of the last of which `skip` bytes are left.
unfoldable pub sanitize_from : ℕ → Bytes → Bytes
unfolding rune_width
sanitize_from skip [] = []
sanitize_from (suc skip) (c ∷ s) = sanitize_from skip s
sanitize_from zero (c ∷ s) = elim (is_name_byte c) [
  | true ↦ c ∷ sanitize_from 0 s
  | false ↦ b'_' ∷ sanitize_from (rune_width c s - 1) s
]

-- The regular expression puts one `_` for each character that it replaces, which may have several
-- bytes.
unfoldable pub sanitize_metric_name : Bytes → Bytes
unfolding sanitize_from
sanitize_metric_name = sanitize_from 0

unfoldable pub include_metric : MetricMaps → Bytes → Bool
include_metric maps s =
    has_prefix (codes "db") s
    || has_prefix (codes "cmdstat_") s
    || has_prefix (codes "cluster_") s
    || has_key s maps.gauges
    || has_key s maps.counters

module _ (deps : Deps) where
  open deps use {Float, of_ℤ, parse_float, div, accepts}

  unfoldable pub must_find_metric_description : Bytes → Collect Float Desc
  must_find_metric_description name c = elim (lookup name c.descriptions) [
    | none ↦ none
    | some desc ↦ some (desc, c)
  ]

  unfoldable pub create_metric_description : Bytes → List Bytes → Collect Float Desc
  create_metric_description name labels c = elim (lookup name c.descriptions) [
    | none ↦
        let desc : Desc = record { name = name; labels = labels } in
        some (desc, record c { descriptions = insert name desc c.descriptions })
    | some desc ↦ some (desc, c)
  ]

  -- NewConstMetric and `ch <- m`: nothing is sent where it returns an error.
  abbrev send_const : Desc → ValueType → Float → List Bytes → Collect Float (Unit {0})
  send_const desc type val values =
      if accepts desc.name desc.labels values then send (const desc type val values) else pure tt

  abbrev find_or_create : Bytes → List Bytes → Collect Float Desc
  unfolding create_metric_description must_find_metric_description
  find_or_create metric [] = create_metric_description metric []
  find_or_create metric (v ∷ values) = must_find_metric_description metric

  unfoldable pub register_const_metric :
      Bytes → Float → ValueType → List Bytes → Collect Float (Unit {0})
  unfolding create_metric_description must_find_metric_description
  register_const_metric metric val type values = do
    desc ← find_or_create metric values
    send_const desc type val values

  unfoldable pub register_const_metric_gauge : Bytes → Float → List Bytes → Collect Float (Unit {0})
  unfolding register_const_metric
  register_const_metric_gauge metric val values =
      register_const_metric metric val gauge_value values

  -- MustNewConstSummary panics where the label values do not fit.
  unfoldable pub register_const_summary :
      Bytes → ℕ → Float → List (Float × Float) → List Bytes → Collect Float (Unit {0})
  unfolding must_find_metric_description
  register_const_summary metric count sum quantiles values = do
    desc ← must_find_metric_description metric
    if accepts desc.name desc.labels values
        then send (summary desc count sum quantiles values)
        else panic

  unfoldable pub register_const_histogram :
      Bytes → ℕ → Float → List (Float × ℕ) → List Bytes → Collect Float (Unit {0})
  unfolding must_find_metric_description
  register_const_histogram metric count sum buckets values = do
    desc ← must_find_metric_description metric
    if accepts desc.name desc.labels values
        then send (histogram desc count sum buckets values)
        else panic

  -- The name under which a field is exported.
  unfoldable pub metric_name_of : MetricMaps → Bytes → Bytes
  metric_name_of maps name = elim (lookup name maps.gauges) [
    | some renamed ↦ renamed
    | none ↦ elim (lookup name maps.counters) [ some renamed ↦ renamed | none ↦ name ]
  ]

  unfoldable pub metric_type_of : MetricMaps → Bytes → ValueType
  metric_type_of maps name =
      if bytes_eq (string_at maps.counters name) [] then gauge_value else counter_value

  unfoldable pub parse_field_value : Bytes → Parsed Float
  parse_field_value value =
      if bytes_eq value (codes "ok") || bytes_eq value (codes "true")
      then record { value = of_ℤ (pos 1); failed = false }
      else if bytes_eq value (codes "err")
          || bytes_eq value (codes "fail")
          || bytes_eq value (codes "false")
      then record { value = of_ℤ (pos 0); failed = false }
      else parse_float value

  unfoldable pub parse_and_register_const_metric :
      MetricMaps → Bytes → Bytes → Collect Float (Unit {0})
  unfolding metric_name_of metric_type_of parse_field_value register_const_metric
  parse_and_register_const_metric maps field_key field_value =
      let org_metric_name = sanitize_metric_name field_key in
      let metric_name = metric_name_of maps org_metric_name in
      let parsed = parse_field_value field_value in
      let type = metric_type_of maps org_metric_name in
      if parsed.failed
      then pure tt
      else if bytes_eq metric_name (codes "latest_fork_usec")
      then register_const_metric (codes "latest_fork_seconds")
          (div parsed.value (of_ℤ (pos 1000000))) type []
      else register_const_metric metric_name parsed.value type []
