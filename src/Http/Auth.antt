-- ===== src/Http/Auth.antt =====
-- isBasicAuthConfigured, verifyBasicAuth, validateBasicAuthPassword and ServeHTTP.
-- `compare_hash hash password` is whether golang.org/x/crypto/bcrypt's CompareHashAndPassword
-- returns nil; subtle.ConstantTimeCompare is 1 exactly for equal bytes.
use redis_exporter.Base.{Bool, true, false, not, ◌||◌, ◌&&◌, [], Bytes, if◌then◌else◌, bytes_eq}
use redis_exporter.Options.{Exporter}

unfoldable pub is_basic_auth_configured : Exporter → Bool
is_basic_auth_configured e =
    not (bytes_eq e.options.basic_auth_username [])
    && (not (bytes_eq e.options.basic_auth_password [])
        || not (bytes_eq e.options.basic_auth_hash_password []))

-- What r.BasicAuth() returns: the user, the password, and whether the header is set.
pub record Credentials : Type 0 where
  pub user : Bytes
  pub password : Bytes
  pub header_set : Bool

module _ (compare_hash : Bytes → Bytes → Bool) (e : Exporter) where
  unfoldable pub validate_basic_auth_password : Bytes → Bool
  validate_basic_auth_password password =
      if not (bytes_eq e.options.basic_auth_hash_password [])
      then compare_hash e.options.basic_auth_hash_password password
      else bytes_eq password e.options.basic_auth_password

  -- Whether the error is nil.
  unfoldable pub verify_basic_auth : Credentials → Bool
  unfolding is_basic_auth_configured validate_basic_auth_password
  verify_basic_auth credentials =
      let user_correct = bytes_eq credentials.user e.options.basic_auth_username in
      let pass_correct = validate_basic_auth_password credentials.password in
      if not (is_basic_auth_configured e)
      then true
      else if not credentials.header_set
      then false
      else if not user_correct || not pass_correct
      then false
      else true

  -- `serve` is what the mux does with the request.
  unfoldable pub serve_http : {Response : Type 0} → Credentials → Response → Response → Response
  unfolding verify_basic_auth
  serve_http credentials unauthorized serve =
      if verify_basic_auth credentials then serve else unauthorized
