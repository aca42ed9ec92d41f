-- ===== src/Http/AuthLaws.antt =====
-- Which requests pass the authentication.
use redis_exporter.Base.{◌≡◌, ◌≢◌, ◌↔◌, ◌⊎◌, Bool, true, [], Bytes, bytes_eq_iff, arith}
use redis_exporter.Options.{Exporter}
use redis_exporter.Http.Auth.{
  Credentials, is_basic_auth_configured, validate_basic_auth_password, verify_basic_auth,
}

module _ (compare_hash : Bytes → Bytes → Bool) (e : Exporter) where
  -- There is a user name, and a password of one of the two kinds.
  abbrev pub Protected : Type 0
  Protected =
      (e.options.basic_auth_username ≢ [])
      × ((e.options.basic_auth_password ≢ []) ⊎ (e.options.basic_auth_hash_password ≢ []))

  -- The password is the configured one, or has the configured hash, where there is one.
  abbrev pub IsPassword : Bytes → Type 0
  IsPassword password =
      ((e.options.basic_auth_hash_password ≡ []) × (password ≡ e.options.basic_auth_password))
      ⊎ ((e.options.basic_auth_hash_password ≢ [])
          × (compare_hash e.options.basic_auth_hash_password password ≡ true))

  is_basic_auth_configured_iff : (is_basic_auth_configured e ≡ true) ↔ Protected
  unfolding is_basic_auth_configured
  is_basic_auth_configured_iff = ground (
    arith,
    bytes_eq_iff e.options.basic_auth_username [],
    bytes_eq_iff e.options.basic_auth_password [],
    bytes_eq_iff e.options.basic_auth_hash_password [],
  )

  validate_basic_auth_password_iff :
      (password : Bytes)
      → (validate_basic_auth_password compare_hash e password ≡ true) ↔ IsPassword password
  unfolding validate_basic_auth_password
  validate_basic_auth_password_iff password = ground (
    arith,
    bytes_eq_iff password e.options.basic_auth_password,
    bytes_eq_iff e.options.basic_auth_hash_password [],
  )

  -- Where a user name and a password, plain or hashed, are configured, a request reaches the handlers
  -- exactly if it has the header, the user name is the configured one, and the password is right: it
  -- has the configured hash, where there is a hash, and else it is the plain password.
  pub verify_basic_auth_iff :
      (credentials : Credentials)
      → Protected
      → (verify_basic_auth compare_hash e credentials ≡ true) ↔ (
          (credentials.header_set ≡ true)
          × (credentials.user ≡ e.options.basic_auth_username)
          × IsPassword credentials.password)
  unfolding verify_basic_auth
  verify_basic_auth_iff credentials on = rw (is_basic_auth_configured_iff.1 on) (
      ground (
        arith,
        bytes_eq_iff credentials.user e.options.basic_auth_username,
        validate_basic_auth_password_iff credentials.password,
      ))

  -- Where no user name or no password is configured, every request passes.
  verify_basic_auth-open :
      (credentials : Credentials)
      → ¬ Protected
      → verify_basic_auth compare_hash e credentials ≡ true
  unfolding verify_basic_auth
  verify_basic_auth-open credentials off = ground (arith, is_basic_auth_configured_iff)
