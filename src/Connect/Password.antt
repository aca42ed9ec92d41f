-- ===== src/Connect/Password.antt =====
-- Which password the dial options set: an option later in the list goes before an earlier one.
-- redis.DialURL puts the user and the password that a URL has itself behind these options.
use redis_exporter.Base.{
  ◌≡◌, ◌≢◌, ◌⊎◌, inl, inr, refl, sym, ap, ◌∙◌, Option, none, some, List, [], ◌∷◌, ◌++◌, All, Bytes,
  codes, bytes_eq_iff, bytes_eq-nil_ne, lookup,
}
use redis_exporter.Text.Split.{Lacks}
use redis_exporter.Connect.Replaced.{replace_first-absent, replace_first-colon}
use redis_exporter.Base.Chain.{◌>>=◌}
use redis_exporter.Options.{Exporter}
use redis_exporter.Connect.Options.{
  Urls, DialOption, dial_username, dial_password, unless_empty, password_option, not_blank, map_key,
  with_user, replace_first, lookup_password_in_password_map, configure_options, first_options,
}

abbrev or_later : Option Bytes → Option Bytes → Option Bytes
or_later none earlier = earlier
or_later (some later) earlier = some later

module _ {Tls : Type 0} where
  abbrev pub password_of : DialOption Tls → Option Bytes
  password_of (dial_password pwd) = some pwd
  password_of _ = none

  -- The password of the last option that sets one.
  abbrev pub last_password : List (DialOption Tls) → Option Bytes
  last_password [] = none
  last_password (o ∷ options) = or_later (last_password options) (password_of o)

abbrev text_option : Bytes → Option Bytes
text_option [] = none
text_option (c ∷ s) = some (c ∷ s)

-- A password that is there, or else that of the options.
abbrev pub chosen : Option Bytes → Bytes → Option Bytes
chosen none own = text_option own
chosen (some []) own = text_option own
chosen (some (c ∷ pwd)) own = some (c ∷ pwd)

or_later-none : (m : Option Bytes) → or_later m none ≡ m
or_later-none none = refl
or_later-none (some pwd) = refl

module _ (Tls : Type 0) where
  last_password-own :
      (own : Bytes) (m : Option Bytes)
      → last_password {Tls = Tls} (unless_empty own dial_password ++ password_option (not_blank m))
        ≡ chosen m own
  last_password-own [] none = refl
  last_password-own [] (some []) = refl
  last_password-own [] (some (c ∷ pwd)) = refl
  last_password-own (d ∷ own) none = refl
  last_password-own (d ∷ own) (some []) = refl
  last_password-own (d ∷ own) (some (c ∷ pwd)) = refl

module _ {Tls : Type 0} where
  -- An option that sets no password stands in front.
  last_password-cons :
      (o : DialOption Tls) (options : List (DialOption Tls))
      → password_of o ≡ none
      → last_password (o ∷ options) ≡ last_password options
  last_password-cons o options e = rw e (or_later-none (last_password options))

  last_password-skip :
      (front options : List (DialOption Tls))
      → All (λ o. password_of o ≡ none) front
      → last_password (front ++ options) ≡ last_password options
  last_password-skip [] options h = refl
  last_password-skip (o ∷ front) options (e, h) =
      last_password-cons o (front ++ options) e ∙ last_password-skip front options h

  last_password-user :
      (user : Bytes) (options : List (DialOption Tls))
      → last_password (unless_empty user dial_username ++ options) ≡ last_password options
  last_password-user [] options = refl
  last_password-user (c ∷ user) options = last_password-cons (dial_username (c ∷ user)) options refl

module _ (urls : Urls) (e : Exporter) where
  open urls use {Url, parse, set_user, to_string, host}

  -- The URL of an address, with the configured user where there is one.
  abbrev pub IsUserUrl : Url → Url → Type 0
  IsUserUrl u v =
      ((e.options.user ≡ []) × (v ≡ u)) ⊎ ((e.options.user ≢ []) × (v ≡ set_user e.options.user u))

  -- The key of a URL in the password map: its text, in which a first `:@host` has become `@host`.
  abbrev pub IsKey : Url → Bytes → Type 0
  IsKey v key =
      (((front behind : Bytes) → to_string v ≢ front ++ ((codes ":@" ++ host v) ++ behind))
        × (key ≡ to_string v))
      ⊎ ((front : Bytes) × (behind : Bytes) × Lacks b'@' front
          × (to_string v ≡ front ++ ((codes ":@" ++ host v) ++ behind))
          × (key ≡ front ++ ((codes "@" ++ host v) ++ behind)))

  -- What the password map holds for an address.
  abbrev pub IsEntry : Bytes → Option Bytes → Type 0
  IsEntry uri entry =
      ((parse uri ≡ none) × (entry ≡ none))
      ⊎ ((u : Url) × (v : Url) × (key : Bytes) × (parse uri ≡ some u)
          × IsUserUrl u v
          × IsKey v key
          × (entry ≡ lookup key e.options.password_map))

  with_user-IsUserUrl : (u v : Url) → IsUserUrl u v → with_user urls e u ≡ v
  with_user-IsUserUrl u v (inl (none_given, same)) =
      rw ((bytes_eq_iff e.options.user []).1 none_given) (sym same)
  with_user-IsUserUrl u v (inr (given, same)) = rw (bytes_eq-nil_ne e.options.user given) (sym same)

  key_of :
      (v : Url) (key : Bytes)
      → IsKey v key
      → replace_first (codes ":@" ++ host v) (codes "@" ++ host v) (to_string v) ≡ key
  key_of v key (inl (absent, same)) =
      replace_first-absent (codes ":@" ++ host v) (codes "@" ++ host v) (to_string v) absent
      ∙ sym same
  key_of v key (inr (front, behind, lacks, text, same)) =
      ap (replace_first (codes ":@" ++ host v) (codes "@" ++ host v)) text
      ∙ replace_first-colon front (host v) (codes "@" ++ host v) behind lacks
      ∙ sym same

  map_key-IsKey : (u v : Url) (key : Bytes) → IsUserUrl u v → IsKey v key → map_key urls e u ≡ key
  unfolding map_key
  map_key-IsKey u v key is_url is_key =
      ap (λ w. replace_first (codes ":@" ++ host w) (codes "@" ++ host w) (to_string w))
        (with_user-IsUserUrl u v is_url)
      ∙ key_of v key is_key

  looked_up :
      (uri : Bytes) (entry : Option Bytes)
      → IsEntry uri entry
      → lookup_password_in_password_map urls e uri ≡ not_blank entry
  unfolding lookup_password_in_password_map
  looked_up uri entry (inl (failed, same)) =
      ap (λ o. o >>= λ u. not_blank (lookup (map_key urls e u) e.options.password_map)) failed
      ∙ ap not_blank (sym same)
  looked_up uri entry (inr (u, v, key, parsed, is_url, is_key, same)) =
      ap (λ o. o >>= λ w. not_blank (lookup (map_key urls e w) e.options.password_map)) parsed
      ∙ ap (λ k. not_blank (lookup k e.options.password_map)) (map_key-IsKey u v key is_url is_key)
      ∙ ap not_blank (sym same)

  -- The options end with the user and the passwords.
  configured :
      {Tls : Type 0} (t : Tls) (uri : Bytes) (entry : Option Bytes)
      → IsEntry uri entry
      → (options : List (DialOption Tls)) × (configure_options urls e (some t) uri ≡ some options)
        × (last_password options ≡ chosen entry e.options.password)
  unfolding configure_options
  configured {Tls} t uri entry is_entry =
      let rest : List (DialOption Tls) =
        unless_empty e.options.user dial_username
        ++ (unless_empty e.options.password dial_password
            ++ password_option (lookup_password_in_password_map urls e uri)) in
      (
        _,
        refl,
        last_password-skip (first_options urls e t) rest (refl, (refl, (refl, (refl, (refl, tt)))))
            ∙ last_password-user e.options.user _
            ∙ ap
                (λ m.
                  last_password {Tls = Tls}
                    (unless_empty e.options.password dial_password ++ password_option m))
                (looked_up uri entry is_entry)
            ∙ last_password-own Tls e.options.password entry,
      )

  -- The last password among the dial options that configureOptions makes is the entry of the password
  -- map for the address, whose key is the text of its URL with the configured user, where there is
  -- one, and without a solo `:` in front of the host. Where there is no entry, or an empty one, or the
  -- address is no URL, it is the configured password, unless that is empty too; then no option sets a
  -- password. The entry goes before a configured password. This says nothing of a password in the
  -- URL itself, which redis.DialURL puts behind these options.
  pub configure_options-password :
      {Tls : Type 0} (tls : Option Tls) (uri : Bytes) (entry : Option Bytes)
      (options : List (DialOption Tls))
      → IsEntry uri entry
      → configure_options urls e tls uri ≡ some options
      → last_password options ≡ chosen entry e.options.password
  configure_options-password none uri entry options is_entry h = unfold configure_options in cc
  configure_options-password (some t) uri entry options is_entry h =
      let (made, same, choice) = configured t uri entry is_entry in cc
