-- ===== src/Config/Redacted.antt =====
-- The redaction of secret configuration values.
use redis_exporter.Base.{
  suc, ◌%◌, ◌≡◌, refl, sym, ap, ◌∙◌, inl, inr, true, false, Option, none, some, Bool-cases, List,
  [], ◌∷◌, Bytes, codes, if◌then◌else◌, bytes_eq, bytes_eq_iff, ℤ, pos, ◌==◌, length, arith,
}
use mathlib.Core.Path.{fun_ext}
use redis_exporter.Deps.{Deps}
use redis_exporter.Run.{◌>>=◌, pure}
use redis_exporter.Metrics.{Channel, Collect}
use redis_exporter.Redis.{Redis}
use redis_exporter.Options.{Exporter}
use redis_exporter.Config.{
  is_secret, is_plain_metric, send_pair, config_pair, go_on_with, config_pairs,
  extract_config_metrics,
}

-- None of the other keys that the method looks for.
record IsNoOther (key : Bytes) : Type 0 where
  plain : is_plain_metric key ≡ false
  limits : bytes_eq key (codes "client-output-buffer-limit") ≡ false
  databases : bytes_eq key (codes "databases") ≡ false

named : (key name : Bytes) → bytes_eq key name ≡ true → IsNoOther name → IsNoOther key
named key name e h = rw ((bytes_eq_iff key name).0 e) h

secret-IsNoOther : (key : Bytes) → is_secret key ≡ true → IsNoOther key
unfolding bytes_eq
secret-IsNoOther key h = elim (Bool-cases (bytes_eq key (codes "masterauth"))) [
  | inl e ↦
      named key (codes "masterauth") e (record { plain = refl; limits = refl; databases = refl })
  | inr e ↦ elim (Bool-cases (bytes_eq key (codes "requirepass"))) [
    | inl e2 ↦
        named key (codes "requirepass") e2
          (record { plain = refl; limits = refl; databases = refl })
    | inr e2 ↦ elim (Bool-cases (bytes_eq key (codes "tls-key-file-pass"))) [
      | inl e3 ↦
          named key (codes "tls-key-file-pass") e3
            (record { plain = refl; limits = refl; databases = refl })
      | inr e3 ↦
          named key (codes "tls-client-key-file-pass") (ground arith)
            (record { plain = refl; limits = refl; databases = refl })
    ]
  ]
]

module _ (deps : Deps) (r : Redis) (e : Exporter)
    (redact : e.options.redact_config_metrics ≡ true) where
  open deps use {Float}
  open r use {Reply, string}

  send_pair-secret :
      (key value : Bytes) (c : Channel Float)
      → is_secret key ≡ true
      → send_pair deps r e key value c ≡ some (tt, c)
  unfolding send_pair
  send_pair-secret key value c h =
      let o = secret-IsNoOther key h in
      elim (Bool-cases e.options.incl_config_metrics) [
        | inl on ↦ rw (redact, h, on, o.plain, o.limits)
        | inr off ↦ rw (off, o.plain, o.limits)
      ]

  abbrev after : Option (Unit {0} × Channel Float) → ℤ → Option (Option ℤ × Channel Float)
  after x n = elim x [ none ↦ none | some (_, c) ↦ some (some n, c) ]

  config_pair-secret :
      (key : Bytes) (value : Option Bytes) (n : ℤ) (c : Channel Float)
      → is_secret key ≡ true
      → config_pair deps r e (some key) value n c ≡ some (some n, c)
  unfolding config_pair
  config_pair-secret key none n c h = refl
  config_pair-secret key (some value) n c h =
      rw ((secret-IsNoOther key h).databases, ◌>>=◌)
        (ap (λ x. after x n) (send_pair-secret key value c h))

  -- Two replies that differ at most in the values of secret keys.
  pub data SameButSecrets : List Reply → List Reply → Type 0 where
    ended : SameButSecrets [] []
    odd : (k : Reply) → SameButSecrets (k ∷ []) (k ∷ [])
    same :
        (k v : Reply) {config config' : List Reply}
        → SameButSecrets config config'
        → SameButSecrets (k ∷ v ∷ config) (k ∷ v ∷ config')
    secret :
        (key : Bytes) (k v v' : Reply) {config config' : List Reply}
        → string k ≡ some key
        → is_secret key ≡ true
        → SameButSecrets config config'
        → SameButSecrets (k ∷ v ∷ config) (k ∷ v' ∷ config')

  abbrev go_on_after :
      Option (Option ℤ × Channel Float) → List Reply → Option (Option ℤ × Channel Float)
  go_on_after x config = elim x [
    | none ↦ none
    | some (a, c) ↦ go_on_with deps r e (λ m. config_pairs deps r e config m) a c
  ]

  config_pairs-SameButSecrets :
      {config config' : List Reply} (n : ℤ) (c : Channel Float)
      → SameButSecrets config config'
      → config_pairs deps r e config n c ≡ config_pairs deps r e config' n c
  unfolding config_pairs
  config_pairs-SameButSecrets n c ended = refl
  config_pairs-SameButSecrets n c (odd k) = refl
  config_pairs-SameButSecrets n c (same k v rest) =
      ap (λ f. (config_pair deps r e (string k) (string v) n >>= go_on_with deps r e f) c)
        (fun_ext (λ m. fun_ext (λ d. config_pairs-SameButSecrets m d rest)))
  config_pairs-SameButSecrets n c
        (secret key k v v' {config = config} {config' = config'} e h rest) =
      rw (e, ◌>>=◌)
        (ap (λ x. go_on_after x config) (config_pair-secret key (string v) n c h)
          ∙ config_pairs-SameButSecrets n c rest
          ∙ sym (ap (λ x. go_on_after x config') (config_pair-secret key (string v') n c h)))

  length-SameButSecrets :
      {config config' : List Reply} → SameButSecrets config config' → length config ≡ length config'
  length-SameButSecrets ended = refl
  length-SameButSecrets (odd k) = refl
  length-SameButSecrets (same k v rest) = ap (λ n. suc (suc n)) (length-SameButSecrets rest)
  length-SameButSecrets (secret key k v v' e h rest) =
      ap (λ n. suc (suc n)) (length-SameButSecrets rest)

  -- With redaction on, what extractConfigMetrics sends and returns, from any channel, does not
  -- depend on the values of secret keys (passwords): two replies of CONFIG GET that differ in
  -- nothing else have the same metrics, the same descriptions and the same result.
  pub extract_config_metrics-SameButSecrets :
      {config config' : List Reply} (c : Channel Float)
      → SameButSecrets config config'
      → extract_config_metrics deps r e config c ≡ extract_config_metrics deps r e config' c
  unfolding extract_config_metrics
  extract_config_metrics-SameButSecrets {config = config} {config' = config'} c h =
      rw (length-SameButSecrets h) (
        ap (λ (f : Collect Float (Option ℤ)). (if length config' % 2 == 0 then f else pure none) c)
          (fun_ext (λ d. config_pairs-SameButSecrets (pos 0) d h)))
