-- ===== src/Redis.antt =====
-- The connection to Redis, github.com/gomodule/redigo, as the exporter calls it: an abstract
-- connection and reply, and the conversions of replies. A method that talks to Redis and sends
-- metrics is a function of the session. doRedisCmd (exporter/redis.go) is `do_cmd` and a log line.
pub mod Safe
pub mod Views
pub mod Gives
use redis_exporter.Base.{
  ℕ, Bool, true, false, Option, none, some, List, [], ◌∷◌, ◌++◌, Bytes, ℤ, pos, negsuc, suc, codes,
  Assoc,
}
use redis_exporter.Text.Number.{itoa}
use redis_exporter.Run.{Run}
use redis_exporter.Metrics.{Channel, Collect}

pub record Redis : Type 1 where
  pub Reply : Type 0
  pub Conn : Type 0
  -- c.Do: the reply, or `none` for an error.
  pub do_cmd : List Bytes → Conn → Option Reply × Conn
  -- script.Do of the Lua script of exporter/key_groups.go, with its arguments.
  pub run_script : List Bytes → Conn → Option Reply × Conn
  -- c.Send and c.Flush: whether `err` is nil.
  pub send : List Bytes → Conn → Bool × Conn
  pub flush : Conn → Bool × Conn
  -- c.Receive
  pub receive : Conn → Option Reply × Conn
  -- redis.String, redis.Int64, redis.Values, redis.Strings and redis.StringMap of a reply that is
  -- no error; `none` where they return an error.
  pub string : Reply → Option Bytes
  pub int64 : Reply → Option ℤ
  pub values : Reply → Option (List Reply)
  pub strings : List Reply → Option (List Bytes)
  pub string_map : Reply → Option (Assoc Bytes)
  -- The value that redis.Int returns, also beside an error.
  pub int : Reply → ℤ

pub record Session (F C : Type 0) : Type 0 where
  pub channel : Channel F
  pub conn : C

-- A method that talks to Redis and sends metrics.
abbrev pub Act : Type 0 → Type 0 → Type 0 → Type 0
Act F C A = Run (Session F C) A

-- A method that only sends metrics.
unfoldable pub collect : {F C A : Type 0} → Collect F A → Act F C A
collect m s = elim (m s.channel) [ none ↦ none | some (a, c) ↦ some (a, record s { channel = c }) ]

-- A call of the connection.
unfoldable pub talk : {F C A : Type 0} → (C → A × C) → Act F C A
talk f s = some ((f s.conn).0, record s { conn = (f s.conn).1 })

-- A call of the connection that may not return.
unfoldable pub talk_partial : {F C A : Type 0} → (C → Option (A × C)) → Act F C A
talk_partial f s = elim (f s.conn) [ none ↦ none | some (a, c) ↦ some (a, record s { conn = c }) ]

-- An integer argument of a command.
unfoldable pub int_arg : ℤ → Bytes
unfolding itoa
int_arg (pos n) = itoa n
int_arg (negsuc n) = codes "-" ++ itoa (suc n)
