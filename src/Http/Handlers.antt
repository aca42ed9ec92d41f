-- ===== src/Http/Handlers.antt =====
-- The handlers behind the authentication: scrapeHandler, discoverClusterNodesHandler, reloadPwdFile,
-- healthHandler, indexHandler, and LoadPwdFile of exporter/pwd_file.go. `query` is r.URL.Query(),
-- with the first value of each parameter. A reply of 400 or 500 is a constructor of its own.
use redis_exporter.Base.{
  ℕ, ◌+◌, true, not, Option, none, some, List, [], ◌++◌, map, Bytes, codes, bytes_eq, has_prefix,
  if◌then◌else◌, Assoc, string_at,
}
use redis_exporter.Base.Chain.{◌>>=◌}
use redis_exporter.Options.{Options, Exporter}
use redis_exporter.Keys.Parse.{KeyArgError}
use redis_exporter.Construct.{Constructed, refused, constructed, new_redis_exporter}
use redis_exporter.Redis.{Redis}
use redis_exporter.Connect.Options.{Urls}
use redis_exporter.Connect.Dial.{Dialer, with_scheme, connect_to_redis_cluster}
use redis_exporter.Collectors.Nodes.{get_cluster_nodes}

-- How /scrape ends: three ways of 400, and a scrape of the exporter that was made.
pub data ScrapeReply : Type 0 where
  no_target bad_target : ScrapeReply
  bad_options : KeyArgError → ScrapeReply
  scraped : Exporter → ScrapeReply

-- A parameter that is given goes before the option.
abbrev pub override : Assoc Bytes → Bytes → Bytes → Bytes
override query name old = if bytes_eq (string_at query name) [] then old else string_at query name

abbrev pub reply_of : Constructed → ScrapeReply
reply_of (refused error) = bad_options error
reply_of (constructed exporter) = scraped exporter

module _ (urls : Urls) (e : Exporter) where
  open urls use {Url, parse, clear_user, user_name, to_string}

  unfoldable pub scrape_options : Assoc Bytes → Bytes → Options
  scrape_options query user = record e.options {
    user = user;
    check_keys = override query (codes "check-keys") e.options.check_keys;
    check_single_keys = override query (codes "check-single-keys") e.options.check_single_keys;
    check_streams = override query (codes "check-streams") e.options.check_streams;
    check_single_streams =
        override query (codes "check-single-streams") e.options.check_single_streams;
    count_keys = override query (codes "count-keys") e.options.count_keys;
    registry = true;
  }

  -- The scrape of a URL for a user.
  unfoldable pub scrape_as : Assoc Bytes → Bytes → Url → ScrapeReply
  unfolding scrape_options new_redis_exporter
  scrape_as query user u = reply_of (new_redis_exporter (to_string u) (scrape_options query user))

  -- The user of a target goes before the configured one, and its password is dropped.
  unfoldable pub scrape_named : Assoc Bytes → Url → Option Bytes → ScrapeReply
  unfolding scrape_as
  scrape_named query u none = scrape_as query e.options.user u
  scrape_named query u (some name) = scrape_as query name (clear_user u)

  unfoldable pub scrape_target : Assoc Bytes → Url → ScrapeReply
  unfolding scrape_named
  scrape_target query u = scrape_named query u (user_name u)

  unfoldable pub scrape_reply : Assoc Bytes → ScrapeReply
  unfolding scrape_target with_scheme
  scrape_reply query =
      let target = string_at query (codes "target") in
      if bytes_eq target []
      then no_target
      else elim (parse (with_scheme target)) [ none ↦ bad_target | some u ↦ scrape_target query u ]

-- targetScrapeRequestErrors counts the replies of 400.
abbrev pub errors_behind : ScrapeReply → ℕ → ℕ
errors_behind (scraped exporter) errors = errors
errors_behind no_target errors = errors + 1
errors_behind bad_target errors = errors + 1
errors_behind (bad_options error) errors = errors + 1

unfoldable pub scrape_handler : Urls → Exporter → Assoc Bytes → ℕ → ScrapeReply × ℕ
unfolding scrape_reply
scrape_handler urls e query errors =
    (scrape_reply urls e query, errors_behind (scrape_reply urls e query) errors)

-- How /discover-cluster-nodes ends: 400, two ways of 500, and the targets.
pub data Discovery : Type 0 where
  no_cluster not_connected no_nodes : Discovery
  targets : List Bytes → Discovery

module _ {Tls : Type 0} (urls : Urls) (r : Redis) (dialer : Dialer Tls r.Conn) (tls : Option Tls)
    (e : Exporter) where
  abbrev pub target_of : Bytes → Bytes
  target_of node =
      if has_prefix (codes "rediss://") e.redis_addr
      then codes "rediss://" ++ node
      else codes "redis://" ++ node

  unfoldable pub discover_nodes : r.Conn → Option Discovery
  unfolding get_cluster_nodes
  discover_nodes c = get_cluster_nodes r c >>= λ answer.
      some (elim (answer.0) [ none ↦ no_nodes | some nodes ↦ targets (map target_of nodes) ])

  -- `none` is a panic.
  unfoldable pub discover_cluster_nodes_handler : Option Discovery
  unfolding connect_to_redis_cluster discover_nodes
  discover_cluster_nodes_handler =
      if not e.options.is_cluster
      then some no_cluster
      else (connect_to_redis_cluster urls dialer tls e 0 >>= λ dialed. elim dialed [
        | none ↦ some not_connected
        | some c ↦ discover_nodes c
      ])

-- How /-/reload ends: 400, 500 and 200.
pub data Reload : Type 0 where
  no_file failed reloaded : Reload

-- `read_file` is os.ReadFile and `unmarshal` json.Unmarshal into a map[string]string, with `none` for
-- an error.
module _ (read_file : Bytes → Option Bytes) (unmarshal : Bytes → Option (Assoc Bytes)) where
  unfoldable pub load_pwd_file : Bytes → Option (Assoc Bytes)
  load_pwd_file password_file = read_file password_file >>= unmarshal

  abbrev pub with_passwords : Exporter → Assoc Bytes → Exporter
  with_passwords e passwords = record e { options = record e.options { password_map = passwords } }

  -- The reply, and the exporter behind it.
  unfoldable pub reload_pwd_file : Exporter → Reload × Exporter
  unfolding load_pwd_file
  reload_pwd_file e =
      if bytes_eq e.options.redis_pwd_file []
      then (no_file, e)
      else elim (load_pwd_file e.options.redis_pwd_file) [
        | none ↦ (failed, e)
        | some passwords ↦ (reloaded, with_passwords e passwords)
      ]

unfoldable pub health_handler : Bytes
health_handler = codes "ok"

unfoldable pub index_handler : Exporter → Bytes
index_handler e =
    codes "<html>\n<head><title>Redis Exporter "
    ++ (e.options.build_info.version
        ++ (codes "</title></head>\n<body>\n<h1>Redis Exporter "
            ++ (e.options.build_info.version
                ++ (codes "</h1>\n<p><a href='"
                    ++ (e.options.metrics_path ++ codes "'>Metrics</a></p>\n</body>\n</html>\n")))))
