-- ===== src/Construct.antt =====
-- NewRedisExporter (exporter/exporter.go): the defaults, the checks of the options, and the tables.
-- The collectors and the handlers that it registers are not part of the result.
pub mod Configured
use redis_exporter.Base.{
  Bool, true, false, Option, none, some, [], ◌∷◌, ◌++◌, Bytes, codes, if◌then◌else◌, bytes_eq,
  strip_prefix,
}
use redis_exporter.Options.{Options, Exporter}
use redis_exporter.Tables.Init.{metric_maps}
use redis_exporter.Keys.Parse.{KeyArgError, parse_key_arg}

-- The schemes of Valkey are those of Redis.
unfoldable pub redis_uri : Bytes → Bytes
unfolding strip_prefix
redis_uri uri = elim (strip_prefix (codes "valkey://") uri) [
  | some rest ↦ codes "redis://" ++ rest
  | none ↦ elim (strip_prefix (codes "valkeys://") uri) [
    | some rest ↦ codes "rediss://" ++ rest
    | none ↦ uri
  ]
]

pub data Constructed : Type 0 where
  refused : KeyArgError → Constructed
  constructed : Exporter → Constructed

-- `if _, err := parseKeyArg(arg); err != nil { return nil, err }`
abbrev pub unless_error : Option KeyArgError → Constructed → Constructed
unless_error (some error) rest = refused error
unless_error none rest = rest

abbrev pub check_arg : Bytes → Constructed → Constructed
check_arg arg rest = unless_error (parse_key_arg arg).1 rest

abbrev pub default_to : Bytes → Bytes → Bytes
default_to default s = if bytes_eq s [] then default else s

abbrev pub with_defaults : Options → Options
with_defaults opts = record opts {
  registry = true;
  config_command_name = default_to (codes "CONFIG") opts.config_command_name;
  metrics_path = default_to (codes "/metrics") opts.metrics_path;
}

unfoldable pub new_redis_exporter : Bytes → Options → Constructed
unfolding redis_uri
new_redis_exporter uri opts = check_arg opts.check_keys (
    check_arg opts.check_single_keys (
      check_arg opts.check_streams (
        check_arg opts.check_single_streams (
          check_arg opts.count_keys (
            constructed (record {
              redis_addr = redis_uri uri;
              options = with_defaults opts;
              maps = metric_maps opts.incl_system_metrics;
            }))))))
