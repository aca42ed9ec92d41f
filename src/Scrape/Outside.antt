-- ===== src/Scrape/Outside.antt =====
-- What a scrape takes from elsewhere, in one record: the client of Redis, the scanning of replies,
-- regular expressions, CSV, files, the network, and the clock.
use redis_exporter.Base.{Option, List, Bytes, Bool, ℤ}
use redis_exporter.Deps.{Deps}
use redis_exporter.Redis.{Redis}
use redis_exporter.Redis.Views.{Views}
use redis_exporter.Latency.Collect.{LatencyScans}
use redis_exporter.Streams.Info.{StreamScans}
use redis_exporter.SearchIndexes.Collect.{SearchIndexInfo}
use redis_exporter.Collectors.Lua.{LuaError}
use redis_exporter.Tls.{Files, ClientConfig}
use redis_exporter.Connect.Options.{Urls}
use redis_exporter.Connect.Dial.{Dialer}

-- The errors that scrapeRedisHost returns.
pub data ScrapeError : Type 0 where
  connect_failed config_failed info_failed : ScrapeError
  script_failed : LuaError → ScrapeError

pub record Outside (deps : Deps) : Type 1 where
  pub redis : Redis
  pub views : Views redis
  pub latency_scans : LatencyScans redis.Reply
  pub stream_scans : StreamScans redis.Reply
  pub scan_index : List redis.Reply → Option (SearchIndexInfo deps.Float)
  pub compile : Bytes → Option (Bytes → Bool)
  pub read_csv : Bytes → Option (List Bytes)
  pub error_text : List Bytes → redis.Conn → Bytes
  pub Cert : Type 0
  pub Pool : Type 0
  pub files : Files Cert Pool
  pub urls : Urls
  pub dialer : Dialer (ClientConfig Cert Pool) redis.Conn
  -- time.Now in seconds, and the durations that time.Since measures.
  pub now : ℤ
  pub connect_took : deps.Float
  pub ping_took : deps.Float
  pub groups_took : deps.Float
  pub scrape_took : deps.Float
  -- The text of an error, which becomes a label.
  pub scrape_error_text : ScrapeError → Bytes
