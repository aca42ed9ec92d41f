-- ===== src/Construct/Configured.antt =====
-- What the checks of NewRedisExporter guarantee to the rest of the program.
use redis_exporter.Base.{
  ℕ, ◌≡◌, ◌≢◌, refl, ap, ◌∙◌, inl, inr, true, Option, none, some, Option-cases, [], ◌++◌, Bytes,
  codes, bytes_eq_iff, arith,
}
use redis_exporter.Deps.{Deps}
use redis_exporter.Redis.{Redis, Session, talk_partial}
use redis_exporter.Run.{Run, case_option, ◌>>◌, pure}
use redis_exporter.Options.{Options, Exporter}
use redis_exporter.Keys.Parse.{KeyArgError, parse_key_arg}
use redis_exporter.Keys.Scan.{get_keys_from_patterns}
use redis_exporter.Keys.Check.{scanned, check_all_keys, extract_check_key_metrics}
use redis_exporter.Keys.NoPanic.{Expands, KeysSound, extract_check_key_metrics-Ends}
use redis_exporter.Construct.{
  Constructed, refused, constructed, unless_error, default_to, new_redis_exporter,
}

abbrev pub Parses : Bytes → Type 0
Parses arg = (parse_key_arg arg).1 ≡ none

-- A configuration that the program can use.
pub record IsConfigured (e : Exporter) : Type 0 where
  pub check_keys : Parses e.options.check_keys
  pub check_single_keys : Parses e.options.check_single_keys
  pub check_streams : Parses e.options.check_streams
  pub check_single_streams : Parses e.options.check_single_streams
  pub count_keys : Parses e.options.count_keys
  pub registry : e.options.registry ≡ true
  pub command_name : e.options.config_command_name ≢ []
  pub metrics_path : e.options.metrics_path ≢ []

unless_error-constructed :
    (error : Option KeyArgError) (rest : Constructed) (e : Exporter)
    → unless_error error rest ≡ constructed e
    → (error ≡ none) × (rest ≡ constructed e)
unless_error-constructed (some error) rest e h = absurd (cc)
unless_error-constructed none rest e h = (refl, h)

exporter_of : Constructed → Exporter → Exporter
exporter_of (constructed e) other = e
exporter_of (refused error) other = other

constructed_injective : (e e' : Exporter) → constructed e ≡ constructed e' → e ≡ e'
unfolding exporter_of
constructed_injective e e' h = ap (λ x. exporter_of x e) h

default_to-there : (default s : Bytes) → default ≢ [] → default_to default s ≢ []
default_to-there default s h = ground (arith, bytes_eq_iff s [])

-- An exporter that NewRedisExporter returns is configured: the options that name keys and streams
-- parse, there is a registry, and the name of the configuration command and the path of the metrics
-- are not empty.
pub new_redis_exporter-IsConfigured :
    (uri : Bytes) (opts : Options) (e : Exporter)
    → new_redis_exporter uri opts ≡ constructed e
    → IsConfigured e
unfolding new_redis_exporter
new_redis_exporter-IsConfigured uri opts e made =
    let (a, made1) = unless_error-constructed (parse_key_arg opts.check_keys).1 _ e made in
    let (b, made2) = unless_error-constructed (parse_key_arg opts.check_single_keys).1 _ e made1 in
    let (c, made3) = unless_error-constructed (parse_key_arg opts.check_streams).1 _ e made2 in
    let (d, made4) =
      unless_error-constructed (parse_key_arg opts.check_single_streams).1 _ e made3 in
    let (f, made5) = unless_error-constructed (parse_key_arg opts.count_keys).1 _ e made4 in
    rw (← constructed_injective _ e made5) (record {
      check_keys = a;
      check_single_keys = b;
      check_streams = c;
      check_single_streams = d;
      count_keys = f;
      registry = refl;
      command_name = default_to-there (codes "CONFIG") opts.config_command_name (ground arith);
      metrics_path = default_to-there (codes "/metrics") opts.metrics_path (ground arith);
    })

module _ {S : Type 0} where
  last-pure :
      (x : Option (Unit {0} × S)) (error : Option KeyArgError) (s : S)
      → (elim x as (λ _. Option (Option KeyArgError × S)) [
        | none ↦ none
        | some (u, s2) ↦ some (none, s2)
      ])
        ≡ some (error, s)
      → error ≡ none
  last-pure none error s h = absurd (cc)
  last-pure (some (u, s2)) error s h = cc

module _ {S X : Type 0} where
  then-pure :
      (x : Option (X × S)) (m : X → Run S (Unit {0})) (error : Option KeyArgError) (s : S)
      → (elim x as (λ _. Option (Option KeyArgError × S)) [
        | none ↦ none
        | some (a, s1) ↦ (m a >> pure none) s1
      ])
        ≡ some (error, s)
      → error ≡ none
  then-pure none m error s h = absurd (cc)
  then-pure (some (a, s1)) m error s h = last-pure (m a s1) error s h

module _ (deps : Deps) (r : Redis) (e : Exporter) (fuel : ℕ) where
  open deps use {Float}
  open r use {Conn}

  no_error :
      (s s' : Session Float Conn) (error : Option KeyArgError)
      → IsConfigured e
      → extract_check_key_metrics deps r e fuel s ≡ some (error, s')
      → error ≡ none
  unfolding extract_check_key_metrics case_option
  no_error s s' error ok run =
      then-pure
        (talk_partial
          (get_keys_from_patterns r fuel (parse_key_arg e.options.check_keys).0
            e.options.check_keys_batch_size)
          s)
        (λ expanded.
          check_all_keys deps r e fuel
            ((parse_key_arg e.options.check_single_keys).0 ++ scanned expanded))
        error s' (rw (ok.check_keys, ok.check_single_keys) at run)

  -- On a configured exporter, extractCheckKeyMetrics returns without an error, whatever Redis answers,
  -- from a channel with the exporter's descriptions, provided that the scans of the patterns end.
  pub extract_check_key_metrics-IsConfigured :
      (s : Session Float Conn)
      → IsConfigured e
      → Expands deps r e fuel
      → KeysSound deps r e s
      → (s' : Session Float Conn) × (extract_check_key_metrics deps r e fuel s ≡ some (none, s'))
  extract_check_key_metrics-IsConfigured s ok ends sound =
      elim (Option-cases (extract_check_key_metrics deps r e fuel s)) [
        | inl panics ↦
            absurd (rw panics at (extract_check_key_metrics-Ends deps r e fuel s ends sound))
        | inr ((error, s'), run) ↦ (s', run ∙ ap (λ x. some (x, s')) (no_error s s' error ok run))
      ]
