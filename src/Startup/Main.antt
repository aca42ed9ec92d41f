-- ===== src/Startup/Main.antt =====
-- loadScripts, createPrometheusRegistry and the checks of main (main.go), up to the server. flag.Parse
-- gives `flags`; `parse_duration` is time.ParseDuration, `read_file` os.ReadFile, `unmarshal`
-- json.Unmarshal, each with `none` for an error, and `has_cost` whether bcrypt.Cost returns none.
use redis_exporter.Base.{
  Bool, true, false, not, ◌&&◌, Option, none, some, List, [], ◌∷◌, Bytes, bytes_eq, if◌then◌else◌,
  ℤ, Assoc, insert,
}
use redis_exporter.Base.Chain.{◌>>=◌}
use redis_exporter.Text.Split.{split}
use redis_exporter.Options.{BuildInfo, Exporter}
use redis_exporter.Keys.Parse.{KeyArgError}
use redis_exporter.Construct.{Constructed, refused, constructed, new_redis_exporter}
use redis_exporter.Http.Handlers.{load_pwd_file}
use redis_exporter.Tls.{Files, ServerConfig, create_client_tls_config, create_server_tls_config}
use redis_exporter.Startup.Checks.{validate_tls_client_config, validate_auth_params}
use redis_exporter.Startup.Flags.{Flags, options_of_flags}

-- The scripts so far, in a map from the path to the text; an error ends the loop.
unfoldable pub read_scripts :
    (Bytes → Option Bytes) → List Bytes → Assoc Bytes → Option (Assoc Bytes)
read_scripts read_file [] ls = some ls
read_scripts read_file (script ∷ scripts) ls =
    read_file script >>= λ content. read_scripts read_file scripts (insert script content ls)

unfoldable pub load_scripts : (Bytes → Option Bytes) → Bytes → Option (Assoc Bytes)
unfolding read_scripts
load_scripts read_file script_path =
    if bytes_eq script_path [] then some [] else read_scripts read_file (split b',' script_path) []

pub data RuntimeCollector : Type 0 where
  process_collector go_collector : RuntimeCollector

unfoldable pub create_prometheus_registry : Bool → Bool → List RuntimeCollector
create_prometheus_registry redis_metrics_only incl_go_runtime_metrics =
    if not redis_metrics_only
    then process_collector ∷ (if incl_go_runtime_metrics then go_collector ∷ [] else [])
    else []

-- The errors that main ends with.
pub data Fatal : Type 0 where
  bad_timeout bad_passwords bad_script bad_auth bad_client_pair bad_client_tls bad_server_tls :
      Fatal
  bad_option : KeyArgError → Fatal

-- How main goes on: the version is shown, an error ends it, or the exporter is served, with TLS or
-- without.
pub data Started (Cert Pool : Type 0) : Type 0 where
  version_shown : Started Cert Pool
  fatal : Fatal → Started Cert Pool
  serving : Exporter → Option (ServerConfig Cert Pool) → Started Cert Pool

module _ {Cert Pool : Type 0} where
  -- `if err != nil { log.Fatal(err) }`
  abbrev pub or_fatal {ℓ} :
      {A : Type ℓ} → Option A → Fatal → (A → Started Cert Pool) → Started Cert Pool
  or_fatal none error rest = fatal error
  or_fatal (some a) error rest = rest a

  abbrev pub unless_fatal : Bool → Fatal → Started Cert Pool → Started Cert Pool
  unless_fatal true error rest = rest
  unless_fatal false error rest = fatal error

  abbrev pub made : Constructed → (Exporter → Started Cert Pool) → Started Cert Pool
  made (refused error) rest = fatal (bad_option error)
  made (constructed e) rest = rest e

module _ {Cert Pool : Type 0} (parse_duration : Bytes → Option ℤ) (read_file : Bytes → Option Bytes)
    (unmarshal : Bytes → Option (Assoc Bytes)) (has_cost : Bytes → Bool) (files : Files Cert Pool)
    (build : BuildInfo) where
  -- The password file is read where no password is given.
  unfoldable pub passwords : Flags → Option (Assoc Bytes)
  unfolding load_pwd_file
  passwords flags =
      if bytes_eq flags.redis_pwd [] && not (bytes_eq flags.redis_pwd_file [])
      then load_pwd_file read_file unmarshal flags.redis_pwd_file
      else some []

  -- The server uses TLS where both files are given.
  unfoldable pub serve : Flags → Exporter → Started Cert Pool
  unfolding create_server_tls_config
  serve flags e =
      if not (bytes_eq flags.tls_server_cert_file []) && not (bytes_eq flags.tls_server_key_file [])
      then or_fatal
          (create_server_tls_config flags.tls_server_cert_file flags.tls_server_key_file
            flags.tls_server_ca_cert_file flags.tls_server_min_version files)
          bad_server_tls (λ config. serving e (some config))
      else serving e none

  -- The checks behind NewRedisExporter.
  unfoldable pub check_exporter : Flags → Exporter → Started Cert Pool
  unfolding validate_auth_params validate_tls_client_config create_client_tls_config serve
  check_exporter flags e =
      unless_fatal
        (validate_auth_params has_cost flags.basic_auth_password flags.basic_auth_hash_password)
        bad_auth
        (unless_fatal
          (validate_tls_client_config flags.tls_client_cert_file flags.tls_client_key_file)
          bad_client_pair
          (or_fatal (create_client_tls_config e.options files) bad_client_tls
            (λ config. serve flags e)))

  -- What main does with flags that do not ask for the version.
  unfoldable pub start : Flags → Started Cert Pool
  unfolding passwords load_scripts options_of_flags new_redis_exporter check_exporter
  start flags = or_fatal (parse_duration flags.connection_timeout) bad_timeout (λ timeout.
      or_fatal (passwords flags) bad_passwords (λ password_map.
        or_fatal (load_scripts read_file flags.script_path) bad_script (λ ls.
          made
            (new_redis_exporter flags.redis_addr
              (options_of_flags flags password_map ls timeout build))
            (check_exporter flags))))

  unfoldable pub main : Flags → Started Cert Pool
  unfolding start
  main flags = if flags.show_version then version_shown else start flags
