-- ===== src/Connect/Options.antt =====
-- configureOptions and lookupPasswordInPasswordMap. `Urls` is the part of net/url that the exporter
-- calls; `Tls` the configuration of the client, and `none` an error in making it.
use redis_exporter.Base.{
  Bool, not, Option, none, some, List, [], ◌∷◌, ◌++◌, Bytes, codes, bytes_eq, has_prefix,
  if◌then◌else◌, lookup, ℤ,
}
use redis_exporter.Base.Chain.{◌>>=◌}
use redis_exporter.Options.{Exporter}

pub record Urls : Type 1 where
  pub Url : Type 0
  -- url.Parse; `none` for an error.
  pub parse : Bytes → Option Url
  -- u.User = url.User(name), and u.User = nil
  pub set_user : Bytes → Url → Url
  pub clear_user : Url → Url
  -- u.User.Username(), or `none` where u.User is nil
  pub user_name : Url → Option Bytes
  pub to_string : Url → Bytes
  pub host : Url → Bytes
  pub port : Url → Bytes

pub data DialOption (Tls : Type 0) : Type 0 where
  dial_connect_timeout : ℤ → DialOption Tls
  dial_read_timeout : ℤ → DialOption Tls
  dial_write_timeout : ℤ → DialOption Tls
  dial_tls_config : Tls → DialOption Tls
  dial_use_tls : Bool → DialOption Tls
  dial_username : Bytes → DialOption Tls
  dial_password : Bytes → DialOption Tls

-- `old` is at the front: the text with `new` in its place.
unfoldable pub replace_front : Bytes → Bytes → Bytes → Option Bytes
replace_front [] new s = some (new ++ s)
replace_front (c ∷ old) new [] = none
replace_front (c ∷ old) new (d ∷ s) =
    let rest = replace_front old new s in if bytes_eq (c ∷ []) (d ∷ []) then rest else none

-- strings.Replace(s, old, new, 1), for an `old` that is not empty.
unfoldable pub replace_first : Bytes → Bytes → Bytes → Bytes
unfolding replace_front
replace_first old new [] = []
replace_first old new (c ∷ s) = elim (replace_front old new (c ∷ s)) [
  | some replaced ↦ replaced
  | none ↦ c ∷ replace_first old new s
]

module _ {Tls : Type 0} where
  -- What is made of an option that is not empty.
  abbrev pub unless_empty : Bytes → (Bytes → DialOption Tls) → List (DialOption Tls)
  unless_empty [] f = []
  unless_empty (c ∷ s) f = f (c ∷ s) ∷ []

  abbrev pub password_option : Option Bytes → List (DialOption Tls)
  password_option none = []
  password_option (some pwd) = unless_empty pwd dial_password

-- An entry that is empty counts as none.
abbrev pub not_blank : Option Bytes → Option Bytes
not_blank none = none
not_blank (some []) = none
not_blank (some (c ∷ pwd)) = some (c ∷ pwd)

module _ (urls : Urls) (e : Exporter) where
  open urls use {Url, parse, set_user, to_string, host}

  abbrev pub with_user : Url → Url
  with_user u = if not (bytes_eq e.options.user []) then set_user e.options.user u else u

  -- The key of the map: a solo `:` behind the user is taken out.
  unfoldable pub map_key : Url → Bytes
  unfolding replace_first
  map_key u =
      replace_first (codes ":@" ++ host (with_user u)) (codes "@" ++ host (with_user u))
        (to_string (with_user u))

  unfoldable pub lookup_password_in_password_map : Bytes → Option Bytes
  unfolding map_key
  lookup_password_in_password_map uri =
      parse uri >>= λ u. not_blank (lookup (map_key u) e.options.password_map)

  abbrev pub first_options : {Tls : Type 0} → Tls → List (DialOption Tls)
  first_options tls_config =
      dial_connect_timeout e.options.connection_timeouts
      ∷ dial_read_timeout e.options.connection_timeouts
      ∷ dial_write_timeout e.options.connection_timeouts
      ∷ dial_tls_config tls_config
      ∷ dial_use_tls (has_prefix (codes "rediss://") e.redis_addr)
      ∷ []

  unfoldable pub configure_options :
      {Tls : Type 0} → Option Tls → Bytes → Option (List (DialOption Tls))
  unfolding lookup_password_in_password_map
  configure_options tls uri = tls >>= λ tls_config. some (
      first_options tls_config
      ++ (unless_empty e.options.user dial_username
          ++ (unless_empty e.options.password dial_password
              ++ password_option (lookup_password_in_password_map uri))))
