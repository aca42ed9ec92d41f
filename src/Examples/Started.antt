-- ===== src/Examples/Started.antt =====
-- Latencies, the entries of a stream, and a start with the flags' defaults.
use redis_exporter.Base.{
  ◌%◌, ◌^◌, ◌≡◌, ◌↔◌, refl, true, false, none, some, List, [], ◌∷◌, map, codes, bytes_eq, lookup,
  pos, arith,
}
use redis_exporter.Text.Split.{join}
use redis_exporter.Options.{BuildInfo, Exporter}
use redis_exporter.Keys.Parse.{parse_key_arg, parse_items}
use redis_exporter.Construct.{new_redis_exporter}
use redis_exporter.Tables.Init.{metric_maps}
use redis_exporter.Latency.Usec.{extract_total_usec_for_command}
use redis_exporter.Latency.UsecLaws.{CommandStat, IsStat, print_stat}
use redis_exporter.Latency.UsecSums.{usec_of_prefix, extract_total_usec-print}
use redis_exporter.Streams.Info.{StreamInfo, entry_ids}
use redis_exporter.Streams.NoPanic.{ends_with_name, entry_ids_panics}
use redis_exporter.Startup.Flags.{default_flags, options_of_flags}
use redis_exporter.Startup.Settings.{get_env, get_env_bool, get_env_int64}
use redis_exporter.Startup.Main.{serving, main}
use redis_exporter.Startup.MainLaws.{IsServed, main-IsServed}
use redis_exporter.Examples.Server.{Answer, bulk, one_page}
use redis_exporter.Examples.Outside.{No, answer_views, sample_files}

abbrev get_stat : CommandStat
get_stat = record { name = codes "get"; calls = codes "2"; usec = 14; tail = codes "7.00" }

abbrev getrange_stat : CommandStat
getrange_stat = record {
  name = codes "getrange";
  calls = codes "1";
  usec = 30;
  tail = codes "30.00";
}

get-IsStat : IsStat get_stat
get-IsStat = record {
  named = ground arith;
  letters = refl;
  fits = omega arith;
  one_line = (omega arith, omega arith);
  plain = omega arith;
}

getrange-IsStat : IsStat getrange_stat
getrange-IsStat = record {
  named = ground arith;
  letters = refl;
  fits = omega arith;
  one_line = (omega arith, omega arith);
  plain = omega arith;
}

extract_total_usec-print_example :
    extract_total_usec_for_command
      (join 10 (map print_stat (get_stat ∷ getrange_stat ∷ [])))
      (codes "get")
    ≡ usec_of_prefix (codes "get") (get_stat ∷ getrange_stat ∷ []) % 2 ^ 64
extract_total_usec-print_example =
    extract_total_usec-print (codes "get") (get_stat ∷ getrange_stat ∷ [])
      (get-IsStat, (getrange-IsStat, tt))

abbrev new_stream : StreamInfo
new_stream = record {
  length = pos 0;
  radix_tree_keys = pos 0;
  radix_tree_nodes = pos 1;
  last_generated_id = codes "0-0";
  groups = pos 0;
  max_deleted_entry_id = codes "0-0";
  first_entry_id = [];
  last_entry_id = [];
  stream_groups_info = [];
}

abbrev cut_short : List Answer
cut_short = bulk (codes "length") ∷ bulk (codes "first-entry") ∷ []

entry_ids_panics_example :
    (entry_ids one_page answer_views cut_short new_stream ≡ none)
    ↔ (ends_with_name one_page answer_views cut_short ≡ true)
entry_ids_panics_example = entry_ids_panics one_page answer_views cut_short new_stream

abbrev a_build : BuildInfo
a_build = record { version = codes "v1"; commit_sha = []; date = [] }

abbrev served_exporter : Exporter
served_exporter = record {
  redis_addr = codes "redis://localhost:6379";
  options = options_of_flags (default_flags []) [] [] (pos 15) a_build;
  maps = metric_maps false;
}

defaults-serving :
    main {Cert = No} {Pool = No}
      (λ s. some (pos 15))
      (λ path. none)
      (λ text. none)
      (λ hash. true)
      sample_files
      a_build
      (default_flags [])
    ≡ serving served_exporter none
unfolding main default_flags options_of_flags get_env get_env_bool get_env_int64 new_redis_exporter
    parse_key_arg parse_items lookup bytes_eq
defaults-serving = refl

main-IsServed_example :
    IsServed
      (λ s. some (pos 15))
      (λ path. none)
      (λ text. none)
      (λ hash. true)
      sample_files
      a_build
      (default_flags [])
      served_exporter
      none
main-IsServed_example =
    main-IsServed (λ s. some (pos 15)) (λ path. none) (λ text. none) (λ hash. true) sample_files
      a_build (default_flags []) served_exporter none defaults-serving
