-- ===== src/Startup/MainLaws.antt =====
-- What holds of an exporter that is served.
use redis_exporter.Base.{
  ◌≡◌, ◌≢◌, ◌⊎◌, inl, inr, refl, sym, ap, ◌∙◌, Bool, true, false, Option, none, some, [], Bytes,
  bytes_eq, bytes_eq_iff, ℤ, Assoc, Bool-cases,
}
use redis_exporter.Options.{BuildInfo, Exporter}
use redis_exporter.Construct.{Constructed, refused, constructed, new_redis_exporter}
use redis_exporter.Construct.Configured.{IsConfigured, new_redis_exporter-IsConfigured}
use redis_exporter.Http.ScrapeLaws.{new_redis_exporter-made}
use redis_exporter.Tls.{Files, ServerConfig, create_client_tls_config, create_server_tls_config}
use redis_exporter.Startup.Checks.{validate_tls_client_config, validate_auth_params}
use redis_exporter.Startup.Flags.{Flags, options_of_flags}
use redis_exporter.Startup.Main.{
  Fatal, Started, version_shown, fatal, serving, or_fatal, unless_fatal, made, passwords, serve,
  check_exporter, start, main, load_scripts, bad_server_tls,
}

module _ {Cert Pool : Type 0} where
  -- What is served behind a check.
  or_fatal-serving :
      {A : Type 0} (x : Option A) (error : Fatal) (rest : A → Started Cert Pool) (e : Exporter)
      (s : Option (ServerConfig Cert Pool))
      → or_fatal x error rest ≡ serving e s
      → (a : A) × (x ≡ some a) × (rest a ≡ serving e s)
  or_fatal-serving none error rest e s h = absurd (cc)
  or_fatal-serving (some a) error rest e s h = (a, refl, h)

  unless_fatal-serving :
      (b : Bool) (error : Fatal) (rest : Started Cert Pool) (e : Exporter)
      (s : Option (ServerConfig Cert Pool))
      → unless_fatal b error rest ≡ serving e s
      → (b ≡ true) × (rest ≡ serving e s)
  unless_fatal-serving true error rest e s h = (refl, h)
  unless_fatal-serving false error rest e s h = absurd (cc)

  made-serving :
      (x : Constructed) (rest : Exporter → Started Cert Pool) (e : Exporter)
      (s : Option (ServerConfig Cert Pool))
      → made x rest ≡ serving e s
      → (e' : Exporter) × (x ≡ constructed e') × (rest e' ≡ serving e s)
  made-serving (refused error) rest e s h = absurd (cc)
  made-serving (constructed e') rest e s h = (e', refl, h)

  exporter_of : Started Cert Pool → Exporter → Exporter
  exporter_of (serving e s) other = e
  exporter_of version_shown other = other
  exporter_of (fatal error) other = other

  server_of : Started Cert Pool → Option (ServerConfig Cert Pool)
  server_of (serving e s) = s
  server_of version_shown = none
  server_of (fatal error) = none

  serving_injective :
      (e e' : Exporter) (s s' : Option (ServerConfig Cert Pool))
      → serving e s ≡ serving e' s'
      → (e ≡ e') × (s ≡ s')
  unfolding exporter_of server_of
  serving_injective e e' s s' h = (ap (λ x. exporter_of x e) h, ap server_of h)

module _ {Cert Pool : Type 0} (parse_duration : Bytes → Option ℤ) (read_file : Bytes → Option Bytes)
    (unmarshal : Bytes → Option (Assoc Bytes)) (has_cost : Bytes → Bool) (files : Files Cert Pool)
    (build : BuildInfo) where
  -- TLS by the configuration that the files make, or no TLS where one of the two is not given.
  abbrev pub ServesTls : Flags → Option (ServerConfig Cert Pool) → Type 0
  ServesTls flags none = (flags.tls_server_cert_file ≡ []) ⊎ (flags.tls_server_key_file ≡ [])
  ServesTls flags (some config) =
      create_server_tls_config flags.tls_server_cert_file flags.tls_server_key_file
        flags.tls_server_ca_cert_file flags.tls_server_min_version files
      ≡ some config

  -- What the checks of main say of an exporter and of the server's configuration.
  pub record IsServed (flags : Flags) (e : Exporter) (s : Option (ServerConfig Cert Pool))
      : Type 0 where
    pub configured : IsConfigured e
    pub auth :
        validate_auth_params has_cost e.options.basic_auth_password
          e.options.basic_auth_hash_password
        ≡ true
    pub client_pair :
        validate_tls_client_config e.options.client_cert_file e.options.client_key_file ≡ true
    pub client_tls : create_client_tls_config e.options files ≢ none
    pub one_source : (e.options.password ≡ []) ⊎ (e.options.password_map ≡ [])
    pub tls : ServesTls flags s

  tls-ServesTls :
      (flags : Flags) (e' e : Exporter) (s : Option (ServerConfig Cert Pool))
      → or_fatal
          (create_server_tls_config flags.tls_server_cert_file flags.tls_server_key_file
            flags.tls_server_ca_cert_file flags.tls_server_min_version files)
          bad_server_tls
          (λ config. serving e' (some config))
        ≡ serving e s
      → (e' ≡ e) × ServesTls flags s
  tls-ServesTls flags e' e s h =
      let (config, found, same) = or_fatal-serving _ _ _ e s h in
      let (same_e, same_s) = serving_injective e' e (some config) s same in
      (same_e, rw (← same_s) found)

  no_tls-ServesTls :
      (flags : Flags) (e' e : Exporter) (s : Option (ServerConfig Cert Pool))
      → (flags.tls_server_cert_file ≡ []) ⊎ (flags.tls_server_key_file ≡ [])
      → serving e' none ≡ serving e s
      → (e' ≡ e) × ServesTls flags s
  no_tls-ServesTls flags e' e s missing h =
      let (same_e, same_s) = serving_injective e' e none s h in (same_e, rw (← same_s) missing)

  serve-ServesTls :
      (flags : Flags) (e' e : Exporter) (s : Option (ServerConfig Cert Pool))
      → serve parse_duration read_file unmarshal has_cost files build flags e' ≡ serving e s
      → (e' ≡ e) × ServesTls flags s
  unfolding serve
  serve-ServesTls flags e' e s h = elim (Bool-cases (bytes_eq flags.tls_server_cert_file [])) [
    | inl no_cert ↦
        no_tls-ServesTls flags e' e s (inl ((bytes_eq_iff flags.tls_server_cert_file []).0 no_cert))
          (rw (no_cert, serve) at h)
    | inr cert ↦ elim (Bool-cases (bytes_eq flags.tls_server_key_file [])) [
      | inl no_key ↦
          no_tls-ServesTls flags e' e s (inr ((bytes_eq_iff flags.tls_server_key_file []).0 no_key))
            (rw (cert, no_key, serve) at h)
      | inr key ↦ tls-ServesTls flags e' e s (rw (cert, key, serve) at h)
    ]
  ]

  -- The checks behind NewRedisExporter.
  checked :
      (flags : Flags) (e' e : Exporter) (s : Option (ServerConfig Cert Pool))
      → check_exporter parse_duration read_file unmarshal has_cost files build flags e'
        ≡ serving e s
      → (validate_auth_params has_cost flags.basic_auth_password flags.basic_auth_hash_password
          ≡ true)
        × (validate_tls_client_config flags.tls_client_cert_file flags.tls_client_key_file ≡ true)
        × (create_client_tls_config e'.options files ≢ none)
        × (e' ≡ e)
        × ServesTls flags s
  unfolding check_exporter
  checked flags e' e s h =
      let (auth, h1) = unless_fatal-serving _ _ _ e s h in
      let (pair, h2) = unless_fatal-serving _ _ _ e s h1 in
      let (config, made_tls, h3) =
        or_fatal-serving (create_client_tls_config e'.options files) _ _ e s h2 in
      let (same, tls) = serve-ServesTls flags e' e s h3 in
      (auth, pair, (λ failed. absurd (cc (made_tls, failed))), same, tls)

  -- Either a password is given, or the map comes from a file.
  passwords-one_source :
      (flags : Flags) (password_map : Assoc Bytes)
      → passwords parse_duration read_file unmarshal has_cost files build flags ≡ some password_map
      → (flags.redis_pwd ≡ []) ⊎ (password_map ≡ [])
  unfolding passwords
  passwords-one_source flags password_map h = elim (Bool-cases (bytes_eq flags.redis_pwd [])) [
    | inl empty ↦ inl ((bytes_eq_iff flags.redis_pwd []).0 empty)
    | inr given ↦ inr (sym (empty_map (rw (given, passwords) at h)))
  ]
    where
      empty_map : ◌≡◌ {A = Option (Assoc Bytes)} (some []) (some password_map) → [] ≡ password_map
      empty_map e = cc

  -- What the exporter that is made takes from the flags.
  built :
      (flags : Flags) (password_map ls : Assoc Bytes) (timeout : ℤ) (e : Exporter)
      → new_redis_exporter flags.redis_addr (options_of_flags flags password_map ls timeout build)
        ≡ constructed e
      → (e.options.password ≡ flags.redis_pwd)
        × (e.options.password_map ≡ password_map)
        × (e.options.basic_auth_password ≡ flags.basic_auth_password)
        × (e.options.basic_auth_hash_password ≡ flags.basic_auth_hash_password)
        × (e.options.client_cert_file ≡ flags.tls_client_cert_file)
        × (e.options.client_key_file ≡ flags.tls_client_key_file)
  unfolding options_of_flags
  built flags password_map ls timeout e h =
      rw
        (← new_redis_exporter-made flags.redis_addr
          (options_of_flags flags password_map ls timeout build) e h)
        (refl, refl, refl, refl, refl, refl)

  served :
      (flags : Flags) (password_map ls : Assoc Bytes) (timeout : ℤ) (e : Exporter)
      (s : Option (ServerConfig Cert Pool))
      → passwords parse_duration read_file unmarshal has_cost files build flags ≡ some password_map
      → new_redis_exporter flags.redis_addr (options_of_flags flags password_map ls timeout build)
        ≡ constructed e
      → check_exporter parse_duration read_file unmarshal has_cost files build flags e ≡ serving e s
      → IsServed flags e s
  served flags password_map ls timeout e s from_file made_e h =
      let (password, map_is, auth_is, hash_is, cert_is, key_is) =
        built flags password_map ls timeout e made_e in
      let (auth, pair, tls, same, tls_of) = checked flags e e s h in
      record {
        configured = new_redis_exporter-IsConfigured _ _ e made_e;
        auth = rw (auth_is, hash_is) auth;
        client_pair = rw (cert_is, key_is) pair;
        client_tls = tls;
        one_source = rw (password, map_is) (passwords-one_source flags password_map from_file);
        tls = tls_of;
      }

  start-IsServed :
      (flags : Flags) (e : Exporter) (s : Option (ServerConfig Cert Pool))
      → start parse_duration read_file unmarshal has_cost files build flags ≡ serving e s
      → IsServed flags e s
  unfolding start
  start-IsServed flags e s h =
      let (timeout, _, h1) = or_fatal-serving (parse_duration flags.connection_timeout) _ _ e s h in
      let (password_map, from_file, h2) =
        or_fatal-serving (passwords parse_duration read_file unmarshal has_cost files build flags) _
          _ e s h1 in
      let (ls, _, h3) = or_fatal-serving (load_scripts read_file flags.script_path) _ _ e s h2 in
      let (e', made_e, h4) = made-serving _ _ e s h3 in
      let same = (checked flags e' e s h4).3 in
      served flags password_map ls timeout e s from_file (made_e ∙ ap constructed same) (
        ap (check_exporter parse_duration read_file unmarshal has_cost files build flags) (sym same)
        ∙ h4)

  -- An exporter that main serves has passed every check: its options parse; the parameters of the
  -- basic authentication are valid; the certificate and the key of the client are both given or both
  -- missing, and its configuration of TLS can be made; it has no password map beside a password; and
  -- the server uses TLS, by the configuration of its files, unless one of them is missing.
  pub main-IsServed :
      (flags : Flags) (e : Exporter) (s : Option (ServerConfig Cert Pool))
      → main parse_duration read_file unmarshal has_cost files build flags ≡ serving e s
      → IsServed flags e s
  unfolding main
  main-IsServed flags e s h = elim (Bool-cases flags.show_version) [
    | inl shown ↦ absurd (cc (rw (shown, main) at h))
    | inr hidden ↦ start-IsServed flags e s (rw (hidden, main) at h)
  ]
