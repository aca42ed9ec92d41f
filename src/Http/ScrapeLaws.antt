-- ===== src/Http/ScrapeLaws.antt =====
-- Which exporter a request for /scrape is served with.
use redis_exporter.Base.{
  ℕ, ◌≡◌, ◌≢◌, refl, sym, ap, ◌∙◌, Option, none, some, [], ◌∷◌, Bytes, codes, bytes_eq,
  bytes_eq_iff, ◌⊎◌, bytes_eq-nil_ne, Assoc, lookup, string_at, Option-cases, Bool-cases, inl, inr,
}
use redis_exporter.Options.{Options, Exporter}
use redis_exporter.Keys.Parse.{KeyArgError, parse_key_arg}
use redis_exporter.Construct.{
  Constructed, refused, constructed, new_redis_exporter, unless_error, redis_uri, with_defaults,
}
use redis_exporter.Construct.Configured.{IsConfigured, new_redis_exporter-IsConfigured}
use redis_exporter.Tables.Init.{metric_maps}
use redis_exporter.Connect.Options.{Urls}
use redis_exporter.Connect.Dial.{with_scheme}
use redis_exporter.Http.Handlers.{
  scraped, override, reply_of, scrape_as, scrape_named, scrape_options, scrape_target, scrape_reply,
  errors_behind, scrape_handler,
}

-- What NewRedisExporter returns, where it returns an exporter.
unless_error-made :
    (error : Option KeyArgError) (rest : Constructed) (e made : Exporter)
    → (rest ≡ constructed made → e ≡ made)
    → unless_error error rest ≡ constructed made
    → e ≡ made
unless_error-made (some error) rest e made h same = absurd (cc)
unless_error-made none rest e made h same = h same

pub new_redis_exporter-made :
    (uri : Bytes) (opts : Options) (made : Exporter)
    → new_redis_exporter uri opts ≡ constructed made
    → record {
      redis_addr = redis_uri uri;
      options = with_defaults opts;
      maps = metric_maps opts.incl_system_metrics;
    }
      ≡ made
unfolding new_redis_exporter
new_redis_exporter-made uri opts made =
    unless_error-made (parse_key_arg opts.check_keys).1 _ _ made (
      unless_error-made (parse_key_arg opts.check_single_keys).1 _ _ made (
        unless_error-made (parse_key_arg opts.check_streams).1 _ _ made (
          unless_error-made (parse_key_arg opts.check_single_streams).1 _ _ made
            (unless_error-made (parse_key_arg opts.count_keys).1 _ _ made (λ same. cc)))))

module _ (urls : Urls) (e : Exporter) where
  open urls use {Url, parse, clear_user, user_name, to_string}

  abbrev pub scrape_user : Url → Bytes
  scrape_user u = elim (user_name u) [ none ↦ e.options.user | some name ↦ name ]

  abbrev pub without_user : Url → Url
  without_user u = elim (user_name u) [ none ↦ u | some name ↦ clear_user u ]

  scrape_target-named :
      (query : Assoc Bytes) (u : Url)
      → scrape_target urls e query u ≡ scrape_as urls e query (scrape_user u) (without_user u)
  unfolding scrape_target scrape_named
  scrape_target-named query u = go (user_name u)
    where
      go :
          (x : Option Bytes)
          → scrape_named urls e query u x
            ≡ scrape_as urls e query
                (elim x [ none ↦ e.options.user | some name ↦ name ])
                (elim x [ none ↦ u | some name ↦ clear_user u ])
      go none = refl
      go (some name) = refl

  scraped-made :
      (x : Constructed) (made : Exporter) → reply_of x ≡ scraped made → x ≡ constructed made
  scraped-made (refused error) made h = absurd (cc)
  scraped-made (constructed exporter) made h = cc

  -- The reply is a scrape: of which URL, and by which exporter.
  scrape_reply-scraped :
      (query : Assoc Bytes) (made : Exporter)
      → scrape_reply urls e query ≡ scraped made
      → (u : Url) × (parse (with_scheme (string_at query (codes "target"))) ≡ some u)
        × (new_redis_exporter
              (to_string (without_user u))
              (scrape_options urls e query (scrape_user u))
            ≡ constructed made)
  unfolding scrape_reply scrape_as
  scrape_reply-scraped query made h =
      elim (Bool-cases (bytes_eq (string_at query (codes "target")) [])) [
        | inl empty ↦ absurd (cc ((rw (empty, scrape_reply) at h)))
        | inr there ↦ elim (Option-cases (parse (with_scheme (string_at query (codes "target"))))) [
          | inl failed ↦ absurd (cc ((rw (there, failed, scrape_reply) at h)))
          | inr (u, parsed) ↦ (
            u,
            parsed,
            scraped-made _ made
                (sym (scrape_target-named query u) ∙ (rw (there, parsed, scrape_reply) at h)),
          )
        ]
      ]

  -- An option behind a request: the parameter, where it is given and not empty, or else as before.
  abbrev pub IsChosen : Assoc Bytes → Bytes → Bytes → Bytes → Type 0
  IsChosen query name old chosen =
      ((string_at query name ≢ []) × (chosen ≡ string_at query name))
      ⊎ ((string_at query name ≡ []) × (chosen ≡ old))

  override-IsChosen :
      (query : Assoc Bytes) (name old : Bytes) → IsChosen query name old (override query name old)
  override-IsChosen query name old = elim (Bool-cases (bytes_eq (string_at query name) [])) [
    | inl same ↦ inr ((bytes_eq_iff (string_at query name) []).0 same, rw (same) refl)
    | inr differ ↦ inl (
      (λ empty. absurd (cc (differ, (bytes_eq_iff (string_at query name) []).1 empty))),
      rw (differ) refl,
    )
  ]

  -- The parts of an exporter that a request decides: the address without the user, the user of the
  -- target, and the keys to check, each from its parameter where that is given. The passwords are
  -- those of the exporter that was asked.
  pub record IsAsked (query : Assoc Bytes) (u : Url) (made : Exporter) : Type 0 where
    pub redis_addr : made.redis_addr ≡ redis_uri (to_string (without_user u))
    pub user : made.options.user ≡ scrape_user u
    pub password : made.options.password ≡ e.options.password
    pub password_map : made.options.password_map ≡ e.options.password_map
    pub check_keys :
        IsChosen query (codes "check-keys") e.options.check_keys made.options.check_keys
    pub check_single_keys :
        IsChosen query
          (codes "check-single-keys")
          e.options.check_single_keys
          made.options.check_single_keys
    pub check_streams :
        IsChosen query (codes "check-streams") e.options.check_streams made.options.check_streams
    pub check_single_streams :
        IsChosen query
          (codes "check-single-streams")
          e.options.check_single_streams
          made.options.check_single_streams
    pub count_keys :
        IsChosen query (codes "count-keys") e.options.count_keys made.options.count_keys

  made-IsAsked :
      (query : Assoc Bytes) (u : Url) (made : Exporter)
      → record {
        redis_addr = redis_uri (to_string (without_user u));
        options = with_defaults (scrape_options urls e query (scrape_user u));
        maps = metric_maps e.options.incl_system_metrics;
      }
        ≡ made
      → IsAsked query u made
  unfolding scrape_options
  made-IsAsked query u made same = rw (← same) (record {
    redis_addr = refl;
    user = refl;
    password = refl;
    password_map = refl;
    check_keys = override-IsChosen query _ _;
    check_single_keys = override-IsChosen query _ _;
    check_streams = override-IsChosen query _ _;
    check_single_streams = override-IsChosen query _ _;
    count_keys = override-IsChosen query _ _;
  })

  made_from :
      (query : Assoc Bytes) (u : Url) (made : Exporter)
      → new_redis_exporter
          (to_string (without_user u))
          (scrape_options urls e query (scrape_user u))
        ≡ constructed made
      → IsAsked query u made × IsConfigured made
  unfolding scrape_options
  made_from query u made built = (
    made-IsAsked query u made (new_redis_exporter-made _ _ made built),
    new_redis_exporter-IsConfigured _ _ made built,
  )

  -- A request for /scrape that is not refused is served by the exporter that it asks for: the target
  -- is a URL, whose user goes before the configured one and whose password is dropped; the keys to
  -- check come from the parameters where they are given; the passwords are the exporter's; and the
  -- options were checked. No error is counted.
  pub scrape_handler-IsAsked :
      (query : Assoc Bytes) (errors n : ℕ) (made : Exporter)
      → scrape_handler urls e query errors ≡ (scraped made, n)
      → (u : Url) × (parse (with_scheme (string_at query (codes "target"))) ≡ some u)
        × IsAsked query u made
        × IsConfigured made
        × (n ≡ errors)
  unfolding scrape_handler
  scrape_handler-IsAsked query errors n made h =
      let reply : scrape_reply urls e query ≡ scraped made = ap (λ x. x.0) h in
      let (u, parsed, built) = scrape_reply-scraped query made reply in
      let (asked, configured) = made_from query u made built in
      (u, parsed, asked, configured, sym (ap (λ x. x.1) h) ∙ ap (λ x. errors_behind x errors) reply)

  target_reply :
      (target : Bytes) (query : Assoc Bytes) (u : Url)
      → target ≢ []
      → parse (with_scheme target) ≡ some u
      → scrape_reply urls e ((codes "target", target) ∷ query)
        ≡ scrape_target urls e ((codes "target", target) ∷ query) u
  unfolding scrape_reply lookup bytes_eq
  target_reply target query u there parsed =
      rw (bytes_eq-nil_ne target there, scrape_reply) (rw (parsed, scrape_reply) refl)

  -- The target is no parameter of the scrape.
  same_query :
      (target name : Bytes) (query : Assoc Bytes) (u : Url)
      → scrape_as urls e ((codes "target", target) ∷ query) name u ≡ scrape_as urls e query name u
  unfolding scrape_as scrape_options lookup bytes_eq
  same_query target name query u = refl

  named_reply :
      (target name : Bytes) (query : Assoc Bytes) (u : Url)
      → user_name u ≡ some name
      → scrape_target urls e ((codes "target", target) ∷ query) u
        ≡ scrape_as urls e query name (clear_user u)
  unfolding scrape_target scrape_named
  named_reply target name query u named =
      ap (scrape_named urls e ((codes "target", target) ∷ query) u) named
      ∙ same_query target name query (clear_user u)

  -- Of two targets whose URLs differ in the password of the same user alone, a request makes the same
  -- scrape: what the password in a target is does not matter.
  pub scrape_reply-password :
      (target other name : Bytes) (query : Assoc Bytes) (u v : Url)
      → target ≢ []
      → other ≢ []
      → parse (with_scheme target) ≡ some u
      → parse (with_scheme other) ≡ some v
      → user_name u ≡ some name
      → user_name v ≡ some name
      → clear_user u ≡ clear_user v
      → scrape_reply urls e ((codes "target", target) ∷ query)
        ≡ scrape_reply urls e ((codes "target", other) ∷ query)
  scrape_reply-password target other name query u v there there' parsed parsed' named named' same =
      target_reply target query u there parsed
      ∙ named_reply target name query u named
      ∙ ap (scrape_as urls e query name) same
      ∙ sym (named_reply other name query v named')
      ∙ sym (target_reply other query v there' parsed')
