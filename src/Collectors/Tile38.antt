-- ===== src/Collectors/Tile38.antt =====
-- extractTile38Metrics (exporter/tile38.go): the pairs that SERVER EXT answers.
use redis_exporter.Base.{
  ◌%◌, ◌≡◌, ◌≢◌, refl, Option, none, some, List, [], ◌∷◌, ◌++◌, Bytes, codes, has_prefix,
  if◌then◌else◌, length, arith,
}
use redis_exporter.Deps.{Deps}
use redis_exporter.Run.{◌>>=◌, ◌>>◌, pure, panic, case_option, panic_after}
use redis_exporter.Run.Safe.{Safe, Safe-pure, Safe-bind, safe_rules}
use redis_exporter.Metrics.{Collect, Channel, include_metric, parse_and_register_const_metric}
use redis_exporter.Info.Sound.{InfoSound, parse_and_register-Sound}
use redis_exporter.Tables.Init.{initial_descriptions}
use redis_exporter.Redis.{Redis, collect, talk}
use redis_exporter.Redis.Safe.{Safe-collect, Safe-talk_with}
use redis_exporter.Options.{Exporter}
use redis_exporter.Keys.Single.{Step, if_some}
use redis_exporter.Keys.NoPanic.{KeysSound}

unfoldable pub tile38_key : Bytes → Bytes
tile38_key key = if has_prefix (codes "tile38_") key then key else codes "tile38_" ++ key

module _ (deps : Deps) (e : Exporter) where
  open deps use {Float}

  unfoldable pub tile38_pair : Bytes → Bytes → Collect Float (Unit {0})
  unfolding tile38_key
  tile38_pair key value =
      if include_metric e.maps (tile38_key key)
      then parse_and_register_const_metric deps e.maps (tile38_key key) value
      else pure tt

  -- A key without a value is an index out of range.
  unfoldable pub tile38_pairs : List Bytes → Collect Float (Unit {0})
  unfolding tile38_pair
  tile38_pairs [] = pure tt
  tile38_pairs (key ∷ []) = panic
  tile38_pairs (key ∷ value ∷ info) = tile38_pair key value >> tile38_pairs info

  tile38_pair-Safe : (key value : Bytes) → Safe (InfoSound deps) (tile38_pair key value)
  unfolding tile38_pair
  tile38_pair-Safe key value = search (safe_rules, parse_and_register-Sound)

  tile38_pairs-Safe :
      (info : List Bytes) → length info % 2 ≡ 0 → Safe (InfoSound deps) (tile38_pairs info)
  unfolding tile38_pairs
  tile38_pairs-Safe [] h = Safe-pure tt
  tile38_pairs-Safe (key ∷ []) h = absurd (omega arith)
  tile38_pairs-Safe (key ∷ value ∷ info) h =
      Safe-bind (tile38_pair key value) _ (tile38_pair-Safe key value)
        (λ _. tile38_pairs-Safe info (omega arith))

  -- An odd number of words is a panic, whatever is sent before it.
  tile38_pairs_panics :
      (info : List Bytes) (c : Channel Float) → length info % 2 ≢ 0 → tile38_pairs info c ≡ none
  unfolding tile38_pairs
  tile38_pairs_panics [] c h = absurd (h refl)
  tile38_pairs_panics (key ∷ []) c h = refl
  tile38_pairs_panics (key ∷ value ∷ info) c h =
      panic_after (tile38_pair key value) (tile38_pairs info)
        (λ d. tile38_pairs_panics info d (λ p. h (omega arith))) c

module _ (deps : Deps) (r : Redis) (e : Exporter) where
  open deps use {Float}
  open r use {Reply, Conn, values, strings}

  abbrev server_ext : List Bytes
  server_ext = codes "SERVER" ∷ codes "EXT" ∷ []

  -- redis.Strings(doRedisCmd(c, "SERVER", "EXT"))
  abbrev pub server_info : Conn → Option (List Bytes)
  server_info c = if_some (if_some (r.do_cmd server_ext c).0 values) strings

  unfoldable pub extract_tile38_metrics : Step deps r e (Unit {0})
  unfolding tile38_pairs
  extract_tile38_metrics = do
    reply ← talk (λ c. (server_info c, (r.do_cmd server_ext c).1))
    case_option reply (pure tt) (λ info. collect (tile38_pairs deps e info))

  -- SERVER EXT answers with pairs.
  abbrev pub AnswersPairs : Type 0
  AnswersPairs = (c : Conn) (info : List Bytes) → server_info c ≡ some info → length info % 2 ≡ 0

  pub extract_tile38_metrics-Sound : AnswersPairs → Safe (KeysSound deps r e) extract_tile38_metrics
  unfolding extract_tile38_metrics
  extract_tile38_metrics-Sound h =
      Safe-talk_with initial_descriptions _ _
        (λ c. search (safe_rules, Safe-collect, tile38_pairs-Safe, h c))
