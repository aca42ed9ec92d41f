-- ===== src/Examples/Server.antt =====
-- A server that answers a command by its first letter, and a configuration of the exporter.
use redis_exporter.Base.{
  Assoc, true, false, ◌++◌, ◌==◌, if◌then◌else◌, Option, none, some, List, [], ◌∷◌, Bytes, codes, ℤ,
  pos,
}
use redis_exporter.Metrics.{Channel}
use redis_exporter.Metrics.Safe.{IsSound}
use redis_exporter.Tables.Init.{initial_descriptions, metric_maps}
use redis_exporter.Redis.{Redis, Session}
use redis_exporter.Options.{Options, Exporter}

pub data Answer : Type 0 where
  bulk : Bytes → Answer
  integer : ℤ → Answer
  bulks : List Bytes → Answer
  page : ℤ → List Bytes → Answer
  group : Bytes → ℤ → ℤ → Answer
  groups : ℤ → Answer → Answer
  one : Answer → Answer

abbrev pub all_bulks : List Bytes → List Answer
all_bulks [] = []
all_bulks (b ∷ bs) = bulk b ∷ all_bulks bs

abbrev names_of : List Answer → Option (List Bytes)
names_of [] = some []
names_of (bulk b ∷ answers) = elim (names_of answers) [ none ↦ none | some bs ↦ some (b ∷ bs) ]
names_of (answer ∷ answers) = none

abbrev pub bulk_of : Answer → Option Bytes
bulk_of (bulk b) = some b
bulk_of _ = none

abbrev pub integer_of : Answer → Option ℤ
integer_of (integer n) = some n
integer_of _ = none

abbrev pub list_of : Answer → Option (List Answer)
list_of (bulks bs) = some (all_bulks bs)
list_of (page cursor bs) = some (integer cursor ∷ bulks bs ∷ [])
list_of (group name count usage) = some (bulk name ∷ integer count ∷ integer usage ∷ [])
list_of (groups cursor answer) = some (integer cursor ∷ one answer ∷ [])
list_of (one answer) = some (answer ∷ [])
list_of _ = none

abbrev cursor_of : Answer → ℤ
cursor_of (integer n) = n
cursor_of _ = pos 0

abbrev master_map : Assoc Bytes
master_map =
    (codes "name", codes "mymaster")
    ∷ (codes "ip", codes "10.0.0.5")
    ∷ (codes "port", codes "6379")
    ∷ (codes "quorum", codes "2")
    ∷ (codes "flags", codes "slave,s_down")
    ∷ []

abbrev pub info_text : Bytes
info_text =
    codes "# Replication"
    ++ b'\n' ∷ codes "master_last_io_seconds_ago:2"
    ++ b'\n' ∷ codes "# Keyspace"
    ++ b'\n' ∷ codes "db0:keys=5,expires=1,avg_ttl=2000"

abbrev pub config_bulks : List Bytes
config_bulks = codes "databases" ∷ codes "16" ∷ []

-- By the first letter of the command: INFO, CONFIG and the like, and all others.
abbrev pub answer_to : List Bytes → Answer
answer_to ((c ∷ word) ∷ args) =
    if c == b'I'
    then bulk info_text
    else if c == b'C'
    then bulks config_bulks
    else page (pos 0) (codes "user:1" ∷ [])
answer_to _ = page (pos 0) (codes "user:1" ∷ [])

-- INFO has a text, CONFIG GET one setting, SCAN one page with one key, and the script one group.
abbrev pub one_page : Redis
one_page = record {
  Reply = Answer;
  Conn = Unit {0};
  do_cmd = λ args c. (some (answer_to args), c);
  run_script = λ args c. (some (groups (pos 0) (group (codes "user") (pos 3) (pos 120))), c);
  send = λ args c. (true, c);
  flush = λ c. (true, c);
  receive = λ c. (some (integer (pos 7)), c);
  string = bulk_of;
  int64 = integer_of;
  values = list_of;
  strings = names_of;
  string_map = λ reply. some master_map;
  int = cursor_of;
}

abbrev pub sample_options : Options
sample_options = record {
  user = [];
  password = [];
  namespace = codes "redis";
  password_map = [];
  config_command_name = codes "CONFIG";
  check_keys = codes "db0=user:*";
  check_single_keys = codes "db1=total";
  check_streams = [];
  check_single_streams = [];
  streams_exclude_consumer_metrics = false;
  check_keys_batch_size = pos 1000;
  check_key_groups = codes "^(.*):[0-9]+$";
  max_distinct_key_groups = pos 100;
  count_keys = codes "db0=user:*";
  lua_script = [];
  client_cert_file = [];
  client_key_file = [];
  ca_cert_file = [];
  incl_config_metrics = true;
  incl_modules_metrics = false;
  incl_search_indexes_metrics = false;
  check_search_indexes = [];
  disable_exporting_key_values = false;
  exclude_latency_histogram_metrics = false;
  redact_config_metrics = true;
  incl_system_metrics = false;
  skip_tls_verification = false;
  set_client_name = true;
  is_tile38 = false;
  is_cluster = false;
  export_client_list = true;
  export_clients_incl_port = true;
  connection_timeouts = pos 15000000000;
  metrics_path = codes "/metrics";
  redis_metrics_only = false;
  ping_on_connect = false;
  redis_pwd_file = [];
  registry = true;
  build_info = record { version = []; commit_sha = []; date = [] };
  basic_auth_username = codes "admin";
  basic_auth_password = codes "secret";
  basic_auth_hash_password = [];
  skip_check_keys_for_role_master = false;
  incl_metrics_for_empty_databases = true;
}

abbrev pub sample_exporter : Exporter
sample_exporter = record {
  redis_addr = codes "redis://localhost:6379";
  options = sample_options;
  maps = metric_maps false;
}

abbrev pub fresh_channel : Channel ℤ
fresh_channel = record { descriptions = initial_descriptions; sent = [] }

pub fresh_channel-IsSound : IsSound initial_descriptions fresh_channel
fresh_channel-IsSound = record { kept = λ name d e. e; fits = tt }

abbrev pub fresh_session : Session ℤ (Unit {0})
fresh_session = record { channel = fresh_channel; conn = tt }
