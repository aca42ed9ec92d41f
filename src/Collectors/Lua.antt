-- ===== src/Collectors/Lua.antt =====
-- extractLuaScriptMetrics (exporter/lua.go): the map that a script of the user returns. The result
-- `script_result` is 0 for an error, 1 for values and 2 for an empty map.
use redis_exporter.Base.{true, false, Option, none, some, [], ◌∷◌, Bytes, codes, ℤ, pos, Assoc}
use redis_exporter.Deps.{Deps}
use redis_exporter.Run.{◌>>=◌, ◌>>◌, pure, case_option}
use redis_exporter.Run.Safe.{Safe, Safe-bind, safe_rules}
use redis_exporter.Metrics.Safe.{gauge_labelled-Sound}
use redis_exporter.Redis.{Redis, talk}
use redis_exporter.Redis.Safe.{Safe-collect, Safe-talk}
use redis_exporter.Options.{Exporter}
use redis_exporter.Keys.Single.{Step, gauge, if_some}
use redis_exporter.Keys.NoPanic.{KeysSound}
use redis_exporter.Collectors.Described.{collectors_described}

-- What stops a scrape: the command failed, or a value is no number.
pub data LuaError : Type 0 where
  command_failed bad_value : LuaError

module _ (deps : Deps) (r : Redis) (e : Exporter) where
  open deps use {Float, of_ℤ, parse_float}
  open r use {Reply, Conn, string_map}

  abbrev script_result : ℤ → Bytes → Step deps r e (Unit {0})
  script_result n filename = gauge deps r e (codes "script_result") (of_ℤ n) (filename ∷ [])

  -- The loop over the map, from what is left of it.
  unfoldable pub send_script_values : Bytes → Assoc Bytes → Step deps r e (Option LuaError)
  send_script_values filename [] = script_result (pos 1) filename >> pure none
  send_script_values filename ((key, value) ∷ kv) = elim ((parse_float value).failed) [
    | true ↦ script_result (pos 0) filename >> pure (some bad_value)
    | false ↦
        gauge deps r e (codes "script_values") (parse_float value).value (key ∷ filename ∷ [])
        >> send_script_values filename kv
  ]

  unfoldable pub send_script : Bytes → Assoc Bytes → Step deps r e (Option LuaError)
  unfolding send_script_values
  send_script filename [] = script_result (pos 2) filename >> pure none
  send_script filename (x ∷ kv) = send_script_values filename (x ∷ kv)

  unfoldable pub extract_lua_script_metrics : Bytes → Bytes → Step deps r e (Option LuaError)
  unfolding send_script
  extract_lua_script_metrics filename script = do
    reply ← talk (λ c.
        let x = r.do_cmd (codes "EVAL" ∷ script ∷ codes "0" ∷ codes "0" ∷ []) c in
        (if_some x.0 string_map, x.1))
    case_option reply (script_result (pos 0) filename >> pure (some command_failed))
        (send_script filename)

  ruleset lua_rules =
      (safe_rules, Safe-collect, Safe-talk, gauge_labelled-Sound, collectors_described)

  send_script_values-Safe :
      (filename : Bytes) (kv : Assoc Bytes)
      → Safe (KeysSound deps r e) (send_script_values filename kv)
  unfolding send_script_values
  send_script_values-Safe filename [] = search lua_rules
  send_script_values-Safe filename ((key, value) ∷ kv) =
      elim ((parse_float value).failed)
        as (λ b. Safe (KeysSound deps r e) (elim b [
          | true ↦ script_result (pos 0) filename >> pure (some bad_value)
          | false ↦
              gauge deps r e (codes "script_values") (parse_float value).value (key ∷ filename ∷ [])
              >> send_script_values filename kv
        ])) [
          | true ↦ search lua_rules
          | false ↦ Safe-bind _ _ (search lua_rules) (λ _. send_script_values-Safe filename kv)
        ]

  send_script-Safe :
      (filename : Bytes) (kv : Assoc Bytes) → Safe (KeysSound deps r e) (send_script filename kv)
  unfolding send_script
  send_script-Safe filename [] = search lua_rules
  send_script-Safe filename (x ∷ kv) = send_script_values-Safe filename (x ∷ kv)

  pub extract_lua_script_metrics-Sound :
      (filename script : Bytes)
      → Safe (KeysSound deps r e) (extract_lua_script_metrics filename script)
  unfolding extract_lua_script_metrics
  extract_lua_script_metrics-Sound filename script = search (lua_rules, send_script-Safe) depth 9
