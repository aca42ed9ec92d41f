-- ===== src/Connect/Dial.antt =====
-- connectToRedis and connectToRedisCluster. `Dialer` is what redigo and redisc do with an address
-- and options; `none` is an error. `attempt` numbers the clusters that a scrape makes.
use redis_exporter.Base.{
  ℕ, Bool, true, false, not, Option, none, some, List, [], ◌∷◌, ◌++◌, Bytes, codes, bytes_eq,
  contains, strip_prefix, if◌then◌else◌,
}
use redis_exporter.Base.Chain.{◌>>=◌, ◌>>◌, guard}
use redis_exporter.Text.Split.{split}
use redis_exporter.Options.{Exporter}
use redis_exporter.Connect.Options.{Urls, DialOption, configure_options}

pub record Dialer (Tls Conn : Type 0) : Type 0 where
  -- redis.DialURL and redis.Dial
  pub dial_url : Bytes → List (DialOption Tls) → Option Conn
  pub dial : Bytes → Bytes → List (DialOption Tls) → Option Conn
  -- Whether cluster.Refresh returns nil; cluster.Dial; redisc.RetryConn.
  pub refresh : ℕ → Bytes → List (DialOption Tls) → Bool
  pub cluster_dial : ℕ → Bytes → List (DialOption Tls) → Option Conn
  pub retry_conn : Conn → Option Conn

-- The text before the first `://`, and the text behind it.
unfoldable pub cut_scheme : Bytes → Option (Bytes × Bytes)
unfolding strip_prefix
cut_scheme [] = none
cut_scheme (c ∷ s) = elim (strip_prefix (codes "://") (c ∷ s)) [
  | some rest ↦ some ([], rest)
  | none ↦ elim (cut_scheme s) [ none ↦ none | some (a, b) ↦ some (c ∷ a, b) ]
]

-- strings.Split(s, "://"), where it has two parts.
unfoldable pub two_frags : Bytes → Option (Bytes × Bytes)
unfolding cut_scheme
two_frags s = cut_scheme s >>= λ frags. if contains (codes "://") frags.1 then none else some frags

unfoldable pub with_scheme : Bytes → Bytes
with_scheme addr = if not (contains (codes "://") addr) then codes "redis://" ++ addr else addr

abbrev has_two_parts : List Bytes → Bool
has_two_parts (a ∷ b ∷ []) = true
has_two_parts _ = false

module _ {Tls Conn : Type 0} (urls : Urls) (dialer : Dialer Tls Conn) (tls : Option Tls)
    (e : Exporter) where
  open urls use {parse, host, port}
  open dialer use {dial_url, dial, refresh, cluster_dial, retry_conn}

  -- redis.Dial, which follows a redis.DialURL that failed.
  unfoldable pub dial_again : List (DialOption Tls) → Option Conn
  unfolding two_frags
  dial_again options = elim (two_frags e.redis_addr) [
    | some (network, address) ↦ dial network address options
    | none ↦ dial (codes "tcp") e.redis_addr options
  ]

  unfoldable pub connect_to_redis : Option Conn
  unfolding configure_options with_scheme dial_again
  connect_to_redis = configure_options urls e tls (with_scheme e.redis_addr) >>= λ options.
      elim (dial_url (with_scheme e.redis_addr) options) [
        | some c ↦ some c
        | none ↦ dial_again options
      ]

  -- The start-up node of the cluster; `none` is a panic, since u is nil where url.Parse fails.
  unfoldable pub cluster_address : Bytes → Option Bytes
  cluster_address uri =
      if contains (codes "://") uri
      then elim (parse uri) [
        | none ↦ none
        | some u ↦ some (if bytes_eq (port u) [] then host u ++ codes ":6379" else host u)
      ]
      else some (if has_two_parts (split b':' uri) then uri else uri ++ codes ":6379")

  unfoldable pub dial_cluster : ℕ → Bytes → List (DialOption Tls) → Option Conn
  dial_cluster attempt node options =
      guard (refresh attempt node options) >> cluster_dial attempt node options >>= λ conn.
      retry_conn conn

  -- The outer `none` is a panic, and the inner one an error.
  unfoldable pub connect_to_redis_cluster : ℕ → Option (Option Conn)
  unfolding configure_options with_scheme cluster_address dial_cluster
  connect_to_redis_cluster attempt =
      let uri = with_scheme e.redis_addr in
      elim (configure_options urls e tls uri) [
        | none ↦ some none
        | some options ↦ cluster_address uri >>= λ node. some (dial_cluster attempt node options)
      ]
