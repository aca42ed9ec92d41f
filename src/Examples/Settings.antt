-- ===== src/Examples/Settings.antt =====
-- The authentication with a concrete configuration.
use redis_exporter.Base.{
  ◌≡◌, ◌≢◌, ◌↔◌, inl, Bool, true, false, [], Bytes, codes, arith, refl, bytes_eq,
}
use redis_exporter.Http.Auth.{Credentials, verify_basic_auth}
use redis_exporter.Http.AuthLaws.{IsPassword, verify_basic_auth_iff}
use redis_exporter.Startup.Checks.{validate_auth_params, validate_auth_params-plain}
use redis_exporter.Examples.Server.{sample_exporter}

-- A hash that is the password itself.
abbrev plain_hash : Bytes → Bytes → Bool
plain_hash = bytes_eq

abbrev admin : Credentials
admin = record { user = codes "admin"; password = codes "secret"; header_set = true }

user_there : codes "admin" ≢ []
user_there = ground arith

password_there : codes "secret" ≢ []
password_there = ground arith

verify_basic_auth_iff_example : (verify_basic_auth plain_hash sample_exporter admin ≡ true) ↔ (
    (true ≡ true)
    × (codes "admin" ≡ codes "admin")
    × IsPassword plain_hash sample_exporter (codes "secret"))
verify_basic_auth_iff_example =
    verify_basic_auth_iff plain_hash sample_exporter admin (user_there, inl password_there)

valid_params : validate_auth_params (λ hash. false) (codes "secret") [] ≡ true
unfolding validate_auth_params bytes_eq
valid_params = refl

validate_auth_params-plain_example :
    (verify_basic_auth plain_hash sample_exporter admin ≡ true)
    ↔ ((true ≡ true) × (codes "admin" ≡ codes "admin") × (codes "secret" ≡ codes "secret"))
validate_auth_params-plain_example =
    validate_auth_params-plain (λ hash. false) plain_hash sample_exporter admin user_there
      password_there valid_params
