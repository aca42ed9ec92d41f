-- ===== src/Startup/Settings.antt =====
-- getEnv, getEnvBool, getEnvInt64, parseLogLevel and setupLogging. The environment is what
-- os.LookupEnv looks up.
use redis_exporter.Base.{
  ◌-◌, Bool, true, false, ◌||◌, ◌&&◌, Option, none, some, List, [], ◌∷◌, Bytes, codes,
  if◌then◌else◌, bytes_eq, ◌==◌, leb, ℤ, Assoc, lookup,
}
use redis_exporter.Text.Number.{Parsed, parse_int}

unfoldable pub get_env : Assoc Bytes → Bytes → Bytes → Bytes
get_env env key default_val = elim (lookup key env) [ some env_val ↦ env_val | none ↦ default_val ]

-- strconv.ParseBool; `none` is a syntax error.
abbrev is_one_of : Bytes → List Bytes → Bool
is_one_of s [] = false
is_one_of s (t ∷ ts) = bytes_eq s t || is_one_of s ts

unfoldable pub parse_bool : Bytes → Option Bool
parse_bool s =
    if is_one_of s
      (codes "1" ∷ codes "t" ∷ codes "T" ∷ codes "TRUE" ∷ codes "true" ∷ codes "True" ∷ [])
    then some true
    else if is_one_of s
        (codes "0" ∷ codes "f" ∷ codes "F" ∷ codes "FALSE" ∷ codes "false" ∷ codes "False" ∷ [])
    then some false
    else none

unfoldable pub get_env_bool : Assoc Bytes → Bytes → Bool → Bool
unfolding parse_bool
get_env_bool env key default_val = elim (lookup key env) [
  | some env_val ↦ elim (parse_bool env_val) [ some env_bool ↦ env_bool | none ↦ default_val ]
  | none ↦ default_val
]

unfoldable pub get_env_int64 : Assoc Bytes → Bytes → ℤ → ℤ
get_env_int64 env key default_val = elim (lookup key env) [
  | some env_val ↦ if (parse_int env_val).failed then default_val else (parse_int env_val).value
  | none ↦ default_val
]

-- strings.ToUpper as far as its result is ASCII: besides the letters of ASCII, U+0131 becomes I and
-- U+017F becomes S. Other bytes stand for themselves.
unfoldable pub to_upper : Bytes → Bytes
to_upper [] = []
to_upper (c ∷ []) = (if leb b'a' c && leb c b'z' then c - 32 else c) ∷ []
to_upper (c ∷ d ∷ s) =
    let behind = to_upper s in
    let rest = to_upper (d ∷ s) in
    if c == 0xC4 && d == 0xB1
    then b'I' ∷ behind
    else if c == 0xC5 && d == 0xBF
    then b'S' ∷ behind
    else (if leb b'a' c && leb c b'z' then c - 32 else c) ∷ rest

pub data Level : Type 0 where
  debug_level : Level
  info_level : Level
  warn_level : Level
  error_level : Level

-- The level, and whether there is an error.
unfoldable pub parse_log_level : Bytes → Parsed Level
unfolding to_upper
parse_log_level level =
    let upper = to_upper level in
    if bytes_eq upper (codes "DEBUG")
    then record { value = debug_level; failed = false }
    else if bytes_eq upper (codes "INFO")
    then record { value = info_level; failed = false }
    else if bytes_eq upper (codes "WARN") || bytes_eq upper (codes "WARNING")
    then record { value = warn_level; failed = false }
    else if bytes_eq upper (codes "ERROR")
    then record { value = error_level; failed = false }
    else record { value = info_level; failed = true }

pub data Formatter : Type 0 where
  json_formatter : Formatter
  text_formatter : Formatter

-- What is set on the logger.
unfoldable pub setup_logging : Bool → Bytes → Bytes → Formatter × Level
unfolding parse_log_level
setup_logging is_debug log_level log_format = (
  if bytes_eq log_format (codes "json") then json_formatter else text_formatter,
  if is_debug
      then debug_level
      else if (parse_log_level log_level).failed
      then info_level
      else (parse_log_level log_level).value,
)
