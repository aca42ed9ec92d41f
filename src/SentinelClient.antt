-- ===== src/SentinelClient.antt =====
-- extractSentinelMetrics and extractSentinelConfig (exporter/sentinels.go): what a sentinel answers.
-- `error_text args c` is the text of the error of a command, which becomes a label.
pub mod NoPanic
use redis_exporter.Base.{
  ℕ, ◌%◌, Bool, true, false, Option, none, some, List, [], ◌∷◌, ◌++◌, map, length, Bytes, codes,
  if◌then◌else◌, ◌==◌, ℤ, pos, Assoc, lookup, string_at,
}
use redis_exporter.Deps.{Deps}
use redis_exporter.Run.{◌>>=◌, ◌>>◌, pure, case_option, for_each}
use redis_exporter.Redis.{Redis, Act, collect, talk}
use redis_exporter.Options.{Exporter}
use redis_exporter.Keys.Single.{Step, gauge, if_some, string_cmd}
use redis_exporter.Sentinels.{process_sentinel_sentinels, process_sentinel_slaves}

-- The three fields without which a master is passed over, and its address.
pub record MasterDetail : Type 0 where
  pub name : Bytes
  pub address : Bytes
  pub fields : Assoc Bytes

unfoldable pub master_detail : Assoc Bytes → Option MasterDetail
master_detail m = elim (lookup (codes "name") m) [
  | none ↦ none
  | some name ↦ elim (lookup (codes "ip") m) [
    | none ↦ none
    | some ip ↦ elim (lookup (codes "port") m) [
      | none ↦ none
      | some port ↦ some (record { name = name; address = ip ++ b':' ∷ port; fields = m })
    ]
  ]
]

module _ (deps : Deps) (r : Redis) (error_text : List Bytes → r.Conn → Bytes) (e : Exporter) where
  open deps use {Float, of_ℤ, parse_float}
  open r use {Reply, Conn, values, string, string_map}

  abbrev ckquorum : Bytes → List Bytes
  ckquorum name = codes "SENTINEL" ∷ codes "CKQUORUM" ∷ name ∷ []

  -- Whether the quorum is reached, with the message of the sentinel or of the error.
  unfoldable pub quorum_status : Bytes → Step deps r e (ℤ × Bytes)
  quorum_status name = talk (λ c.
      let x = r.do_cmd (ckquorum name) c in
      (
        elim (if_some x.0 string) [
          | none ↦ (pos 0, error_text (ckquorum name) c)
          | some message ↦ (pos 1, message)
        ],
        x.1,
      ))

  -- redis.Values of a command, without its error.
  abbrev pub values_cmd : List Bytes → Step deps r e (List Reply)
  values_cmd args = talk (λ c.
      let x = r.do_cmd args c in (elim (if_some x.0 values) [ none ↦ [] | some vs ↦ vs ], x.1))

  abbrev pub setting : MasterDetail → Bytes → Bytes → Step deps r e (Unit {0})
  setting m metric field =
      gauge deps r e metric (parse_float (string_at m.fields field)).value (m.name ∷ m.address ∷ [])

  unfoldable pub send_settings : MasterDetail → Step deps r e (Unit {0})
  send_settings m = do
    setting m (codes "sentinel_master_setting_ckquorum") (codes "quorum")
    setting m (codes "sentinel_master_setting_failover_timeout") (codes "failover-timeout")
    setting m (codes "sentinel_master_setting_parallel_syncs") (codes "parallel-syncs")
    setting m (codes "sentinel_master_setting_down_after_milliseconds")
        (codes "down-after-milliseconds")

  unfoldable pub send_master : MasterDetail → Step deps r e (Unit {0})
  unfolding quorum_status send_settings
  send_master m = do
    status ← quorum_status m.name
    gauge deps r e (codes "sentinel_master_ckquorum_status") (of_ℤ status.0)
        (m.name ∷ status.1 ∷ [])
    send_settings m
    sentinels ← values_cmd (codes "SENTINEL" ∷ codes "SENTINELS" ∷ m.name ∷ [])
    collect (process_sentinel_sentinels deps (map string_map sentinels) (m.name ∷ m.address ∷ []))
    slaves ← values_cmd (codes "SENTINEL" ∷ codes "SLAVES" ∷ m.name ∷ [])
    collect (process_sentinel_slaves deps (map string_map slaves) (m.name ∷ m.address ∷ []))

  abbrev detail_of : Reply → Option MasterDetail
  detail_of reply = if_some (string_map reply) master_detail

  unfoldable pub send_detail : Reply → Step deps r e (Unit {0})
  unfolding send_master master_detail
  send_detail reply = case_option (if_some (string_map reply) master_detail) (pure tt) send_master

  unfoldable pub extract_sentinel_metrics : Step deps r e (Unit {0})
  unfolding send_detail
  extract_sentinel_metrics = do
    masters ← values_cmd (codes "SENTINEL" ∷ codes "MASTERS" ∷ [])
    for_each masters send_detail

  -- One pair of the configuration.
  unfoldable pub send_config_pair : Bytes → Bytes → Step deps r e (Unit {0})
  send_config_pair key value = do
    gauge deps r e (codes "sentinel_config_key_value") (of_ℤ (pos 1)) (key ∷ value ∷ [])
    if (parse_float value).failed
        then pure tt
        else gauge deps r e (codes "sentinel_config_value") (parse_float value).value (key ∷ [])

  -- Pairs with a key or a value that is no string are passed over.
  unfoldable pub send_config_pairs : List Reply → Step deps r e (Unit {0})
  unfolding send_config_pair
  send_config_pairs (k ∷ v ∷ config) =
      case_option (string k) (pure tt)
        (λ key. case_option (string v) (pure tt) (λ value. send_config_pair key value))
      >> send_config_pairs config
  send_config_pairs _ = pure tt

  unfoldable pub extract_sentinel_config : Step deps r e (Unit {0})
  unfolding send_config_pairs
  extract_sentinel_config =
      if e.options.incl_config_metrics
      then (do
        config ← values_cmd (codes "SENTINEL" ∷ codes "config" ∷ codes "get" ∷ codes "*" ∷ [])
        if length config % 2 == 0 then send_config_pairs config else pure tt)
      else pure tt
