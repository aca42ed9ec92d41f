-- ===== src/Startup/Checks.antt =====
-- validateTLSClientConfig and validateAuthParams. `has_cost hash` is whether bcrypt.Cost returns no
-- error: whether `hash` is a bcrypt hash.
use redis_exporter.Base.{
  ◌≡◌, ◌≢◌, ◌↔◌, inl, Bool, true, false, not, ◌||◌, ◌&&◌, [], Bytes, if◌then◌else◌, bytes_eq,
  bytes_eq_iff, arith,
}
use redis_exporter.Options.{Exporter}
use redis_exporter.Http.Auth.{Credentials, verify_basic_auth}
use redis_exporter.Http.AuthLaws.{verify_basic_auth_iff}

-- Whether the error is nil.
unfoldable pub validate_tls_client_config : Bytes → Bytes → Bool
validate_tls_client_config cert_file key_file =
    if not (bytes_eq cert_file []) && bytes_eq key_file []
      || bytes_eq cert_file [] && not (bytes_eq key_file [])
    then false
    else true

unfoldable pub validate_auth_params : (Bytes → Bool) → Bytes → Bytes → Bool
validate_auth_params has_cost password hash_password =
    if not (bytes_eq password []) && not (bytes_eq hash_password [])
    then false
    else if not (bytes_eq hash_password [])
    then has_cost hash_password
    else true

-- With a plain password that the check of the parameters lets pass, and a user name, a request
-- reaches the handlers exactly if it has the header with that user name and that password.
pub validate_auth_params-plain :
    (has_cost : Bytes → Bool) (compare_hash : Bytes → Bytes → Bool) (e : Exporter)
    (credentials : Credentials)
    → e.options.basic_auth_username ≢ []
    → e.options.basic_auth_password ≢ []
    → validate_auth_params has_cost e.options.basic_auth_password e.options.basic_auth_hash_password
      ≡ true
    → (verify_basic_auth compare_hash e credentials ≡ true) ↔ (
        (credentials.header_set ≡ true)
        × (credentials.user ≡ e.options.basic_auth_username)
        × (credentials.password ≡ e.options.basic_auth_password))
unfolding validate_auth_params
validate_auth_params-plain has_cost compare_hash e credentials user password valid = ground (
  arith,
  verify_basic_auth_iff compare_hash e credentials (user, inl password),
  bytes_eq_iff e.options.basic_auth_password [],
  bytes_eq_iff e.options.basic_auth_hash_password [],
)
