-- ===== src/Redis/Views.antt =====
-- The dynamic types of replies, which the exporter asks for by type assertions, beside the
-- conversions of Redis. Where an assertion `x, ok := reply.(T)` has `ok` false the view is `none`.
use redis_exporter.Base.{Bool, Option, List, Bytes, ℤ}
use redis_exporter.Redis.{Redis}

pub record Views (r : Redis) : Type 0 where
  -- reply.(int64), reply.([]byte) and reply.([]interface{})
  pub as_int64 : r.Reply → Option ℤ
  pub as_bytes : r.Reply → Option Bytes
  pub as_slice : r.Reply → Option (List r.Reply)
  -- reply == nil
  pub is_nil : r.Reply → Bool
