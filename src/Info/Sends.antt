-- ===== src/Info/Sends.antt =====
-- What a line of the Keyspace section sends.
use redis_exporter.Base.{
  ◌≡◌, refl, ◌∙◌, ap, true, Option, none, some, [], ◌∷◌, ◌++◌, Bytes, codes, bytes_eq, has_prefix,
  if◌then◌else◌, ℤ, pos, lookup, insert,
}
use redis_exporter.Deps.{Deps}
use redis_exporter.Run.{bind_some, pure, case_option}
use redis_exporter.Metrics.{
  gauge_value, Desc, Metric, const, send, Channel, register_const_metric,
  register_const_metric_gauge, must_find_metric_description,
}
use redis_exporter.Tables.Init.{initial_descriptions}
use redis_exporter.Options.{Exporter}
use redis_exporter.Info.Parse.{minus_one}
use redis_exporter.Info.Extract.{InfoScan, send_keyspace, handle_field}
use redis_exporter.Info.Sound.{InfoSound}
use redis_exporter.Info.RoundTrip.{print_pairs, IsField, float_of, parse_db_keyspace_string-print}

-- A description with the label `db`.
abbrev pub db_desc : Bytes → Desc
db_desc name = record { name = name; labels = codes "db" ∷ [] }

module _ (deps : Deps) where
  open deps use {Float, accepts, div, of_ℤ, gt}

  abbrev pub db_gauge : Bytes → Float → Bytes → Metric Float
  db_gauge name v db = const (db_desc name) gauge_value v (db ∷ [])

  -- The channel with one metric more.
  abbrev pub sending : Channel Float → Metric Float → Channel Float
  sending c m = record c { sent = c.sent ++ m ∷ [] }

  pub gauge_sends :
      (metric : Bytes) (d : Desc) (v : Float) (value : Bytes) (c : Channel Float)
      → lookup metric c.descriptions ≡ some d
      → accepts d.name d.labels (value ∷ []) ≡ true
      → register_const_metric_gauge deps metric v (value ∷ []) c
        ≡ some (tt, sending c (const d gauge_value v (value ∷ [])))
  unfolding register_const_metric_gauge register_const_metric must_find_metric_description
  gauge_sends metric d v value c found fine =
      bind_some (must_find_metric_description deps metric) _ c (
        ap
          (λ x. elim x as (λ _. Option (Desc × Channel Float)) [
            | none ↦ none
            | some desc ↦ some (desc, c)
          ])
          found)
      ∙ ap (λ b. (if b then send (const d gauge_value v (value ∷ [])) else pure tt) c) fine

  db_described :
      (lookup (codes "db_keys") initial_descriptions ≡ some (db_desc (codes "db_keys")))
      × (lookup (codes "db_keys_expiring") initial_descriptions
          ≡ some (db_desc (codes "db_keys_expiring")))
      × (lookup (codes "db_avg_ttl_seconds") initial_descriptions
          ≡ some (db_desc (codes "db_avg_ttl_seconds")))
  unfolding initial_descriptions lookup bytes_eq
  db_described = (refl, refl, refl)

  -- The client takes the three gauges of a database with its name as their label.
  abbrev pub TakesDb : Bytes → Type 0
  TakesDb db =
      (accepts (codes "db_keys") (codes "db" ∷ []) (db ∷ []) ≡ true)
      × (accepts (codes "db_keys_expiring") (codes "db" ∷ []) (db ∷ []) ≡ true)
      × (accepts (codes "db_avg_ttl_seconds") (codes "db" ∷ []) (db ∷ []) ≡ true)

  module _ (now : ℤ) (e : Exporter) where
    send_keyspace_lem :
        (db : Bytes) (keys expiring ttl : Float) (c : Channel Float)
        → InfoSound deps c
        → TakesDb db
        → gt ttl (minus_one deps) ≡ true
        → send_keyspace deps now e db
            (record {
              keys_total = keys;
              keys_expiring_total = expiring;
              avg_ttl = ttl;
              keys_cached_total = minus_one deps;
            })
            c
          ≡ some (
            tt,
            sending
                (sending
                  (sending c (db_gauge (codes "db_keys") keys db))
                  (db_gauge (codes "db_keys_expiring") expiring db))
                (db_gauge (codes "db_avg_ttl_seconds") ttl db),
          )
    unfolding send_keyspace
    send_keyspace_lem db keys expiring ttl c sound takes there =
        let a =
          gauge_sends (codes "db_keys") (db_desc (codes "db_keys")) keys db c
            (sound.kept _ _ db_described.0) takes.0 in
        let c1 = sending c (db_gauge (codes "db_keys") keys db) in
        let b =
          gauge_sends (codes "db_keys_expiring") (db_desc (codes "db_keys_expiring")) expiring db c1
            (sound.kept _ _ db_described.1) takes.1 in
        let c2 = sending c1 (db_gauge (codes "db_keys_expiring") expiring db) in
        let d =
          gauge_sends (codes "db_avg_ttl_seconds") (db_desc (codes "db_avg_ttl_seconds")) ttl db c2
            (sound.kept _ _ db_described.2) takes.2 in
        bind_some (register_const_metric_gauge deps (codes "db_keys") keys (db ∷ [])) _ c a
        ∙ bind_some (register_const_metric_gauge deps (codes "db_keys_expiring") expiring (db ∷ []))
            _ c1 b
        ∙ bind_some
            (if gt (minus_one deps) (minus_one deps)
              then register_const_metric_gauge deps (codes "db_keys_cached") (minus_one deps)
                  (db ∷ [])
              else pure tt)
            _ c2
            (ap
              (λ x.
                (if x
                    then register_const_metric_gauge deps (codes "db_keys_cached") (minus_one deps)
                        (db ∷ [])
                    else pure tt)
                  c2)
              (deps.gt_irrefl (minus_one deps)))
        ∙ ap
            (λ x.
              (if x
                  then register_const_metric_gauge deps (codes "db_avg_ttl_seconds") ttl (db ∷ [])
                  else pure tt)
                c2)
            there
        ∙ d

    -- A line of the Keyspace section that Redis printed, with the number of keys, of expiring keys and
    -- the average TTL in milliseconds, sends exactly three gauges, with the name of the database as
    -- their label: the number of keys, that of expiring keys, and the TTL in seconds. The database is
    -- marked as handled and nothing else of the scan or of the descriptions changes. The channel has
    -- the exporter's descriptions, ParseFloat takes the three values, the TTL in seconds is above -1,
    -- and the client takes these three gauges with that label.
    pub handle_field-keyspace :
        (key : Bytes) (keys expires ttl : Bytes × Bytes) (s : InfoScan Float) (c : Channel Float)
        → s.field_class ≡ codes "Keyspace"
        → has_prefix (codes "db") key ≡ true
        → IsField deps keys
        → IsField deps expires
        → IsField deps ttl
        → gt (div (float_of deps ttl.1) (of_ℤ (pos 1000))) (minus_one deps) ≡ true
        → TakesDb key
        → InfoSound deps c
        → handle_field deps now e key (print_pairs (keys ∷ expires ∷ ttl ∷ [])) s c
          ≡ some (
            record s { handled_dbs = insert key true s.handled_dbs },
            sending
                (sending
                  (sending c (db_gauge (codes "db_keys") (float_of deps keys.1) key))
                  (db_gauge (codes "db_keys_expiring") (float_of deps expires.1) key))
                (db_gauge
                  (codes "db_avg_ttl_seconds")
                  (div (float_of deps ttl.1) (of_ℤ (pos 1000)))
                  key),
          )
    unfolding handle_field bytes_eq case_option
    handle_field-keyspace key keys expires ttl s c class db hk he ht there takes sound =
        rw (class) (
          rw (parse_db_keyspace_string-print deps key keys expires ttl db hk he ht) (
            bind_some (send_keyspace deps now e key _) _ c (
              send_keyspace_lem key (float_of deps keys.1) (float_of deps expires.1)
                (div (float_of deps ttl.1) (of_ℤ (pos 1000))) c sound takes there)))
