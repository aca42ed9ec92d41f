-- ===== src/Examples/Outside.antt =====
-- What is outside of a scrape, made concrete: the sample server, with a dialer to choose.
use redis_exporter.Base.{
  ℕ, ◌%◌, arith, true, false, Option, none, some, [], ◌∷◌, Bytes, codes, pos, ◌≡◌, refl, ◌≢◌,
  length, All, bytes_eq, strip_prefix,
}
use redis_exporter.Deps.{whole_numbers}
use redis_exporter.Text.Split.{split, split_crlf}
use redis_exporter.Text.Number.{parse_int}
use redis_exporter.Redis.Views.{Views}
use redis_exporter.Latency.Collect.{LatencyScans, CallBuckets}
use redis_exporter.Latency.NoPanic.{AnswersHistograms, HasPairs}
use redis_exporter.Streams.Info.{StreamScans}
use redis_exporter.Streams.NoPanic.{AnswersStreams, ends_with_name}
use redis_exporter.Config.NoPanic.{HasClasses}
use redis_exporter.Config.Count.{HasCount, IsCount}
use redis_exporter.Collectors.Slowlog.{HasEntry}
use redis_exporter.Collectors.Modules.{IsModuleLine}
use redis_exporter.Tls.{Files, ClientConfig}
use redis_exporter.Connect.Options.{Urls}
use redis_exporter.Connect.Dial.{Dialer}
use redis_exporter.Scrape.Outside.{Outside}
use redis_exporter.Scrape.Host.{get_key_operation_connection}
use redis_exporter.Scrape.Answers.{Answers}
use redis_exporter.Info.NoPanic.{IsTame}
use redis_exporter.Examples.Server.{
  Answer, bulks, integer, all_bulks, bulk_of, integer_of, list_of, one_page, sample_exporter,
  info_text, config_bulks,
}
use redis_exporter.Examples.Scrape.{info-IsTame, for_the_pair}
use redis_exporter.Examples.Keys.{counts, expands, gathers}

abbrev pub No : Type 0
No = Unit {0}

abbrev pub answer_views : Views one_page
answer_views = record {
  as_int64 = integer_of;
  as_bytes = bulk_of;
  as_slice = list_of;
  is_nil = λ reply. false;
}

abbrev three_calls : CallBuckets
three_calls = record { total_calls = 3; bucket_info = 1 ∷ 2 ∷ 4 ∷ 3 ∷ [] }

abbrev latency_scans : LatencyScans Answer
latency_scans = record { scan_latest = λ replies. none; scan_calls = λ replies. some three_calls }

abbrev stream_scans : StreamScans Answer
stream_scans = record {
  scan_stream = λ replies. none;
  scan_group = λ replies. none;
  scan_consumer = λ replies. none;
}

-- No file has a certificate of its own.
abbrev pub sample_files : Files No No
sample_files = record {
  load_x509_key_pair = λ cert key. some tt;
  read_file = λ path. some [];
  system_cert_pool = some tt;
  append_certs_from_pem = λ pem. tt;
}

-- A URL is its text.
abbrev pub text_urls : Urls
text_urls = record {
  Url = Bytes;
  parse = λ s. some s;
  set_user = λ name u. u;
  clear_user = λ u. u;
  user_name = λ u. none;
  to_string = λ u. u;
  host = λ u. u;
  port = λ u. [];
}

-- A server that is there, or not.
abbrev pub dialer_of : Option No → Dialer (ClientConfig No No) No
dialer_of conn = record {
  dial_url = λ uri options. conn;
  dial = λ network address options. conn;
  refresh = λ attempt node options. false;
  cluster_dial = λ attempt node options. conn;
  retry_conn = λ c. some c;
}

abbrev pub sample_outside : Option No → Outside whole_numbers
sample_outside conn = record {
  redis = one_page;
  views = answer_views;
  latency_scans = latency_scans;
  stream_scans = stream_scans;
  scan_index = λ replies. none;
  compile = λ s. some (λ name. true);
  read_csv = λ s. some (s ∷ []);
  error_text = λ args c. codes "ERR";
  Cert = No;
  Pool = No;
  files = sample_files;
  urls = text_urls;
  dialer = dialer_of conn;
  now = pos 1700000000;
  connect_took = pos 1;
  ping_took = pos 1;
  groups_took = pos 1;
  scrape_took = pos 2;
  scrape_error_text = λ err. codes "dial tcp: connection refused";
}

some_is : {A : Type 0} (a b : A) → some a ≡ some b → a ≡ b
some_is a b e = cc

-- A property of what the server answers.
for_answer : {A : Type 0} (P : A → Type 0) (a b : A) → P a → some a ≡ some b → P b
for_answer P a b h e = rw (← some_is a b e) h

databases-HasCount : HasCount whole_numbers one_page sample_exporter (all_bulks config_bulks)
unfolding parse_int
databases-HasCount = (
  (λ value is_name is_value.
      for_answer (λ v. IsCount (parse_int v).value) (codes "16") value tt is_value),
  tt,
)

databases-HasClasses : HasClasses whole_numbers one_page sample_exporter (all_bulks config_bulks)
unfolding bytes_eq
databases-HasClasses = (for_the_pair (codes "databases") (codes "16") (ground arith), tt)

histograms : AnswersHistograms whole_numbers one_page latency_scans sample_exporter
histograms c reply answer =
    for_answer (HasPairs whole_numbers one_page latency_scans sample_exporter)
      (integer (pos 0) ∷ bulks (codes "user:1" ∷ []) ∷ []) reply
      (
        (λ calls found.
            for_answer (λ q. length q.bucket_info % 2 ≡ 0) three_calls calls refl found),
        tt,
      )
      answer

streams : AnswersStreams whole_numbers one_page answer_views stream_scans sample_exporter
streams key c fields answer =
    for_answer (λ q. ends_with_name one_page answer_views q ≡ false)
      (integer (pos 0) ∷ bulks (codes "user:1" ∷ []) ∷ []) fields refl answer

three-ne-two : (a b c x y : Bytes) → a ∷ b ∷ c ∷ [] ≢ x ∷ y ∷ []
three-ne-two a b c x y e = absurd (cc)

module_lines : All IsModuleLine (split_crlf info_text)
unfolding split_crlf split strip_prefix
module_lines = ((λ value e. absurd (three-ne-two _ _ _ _ value e)), tt)

connects :
    (conn : Option No) (attempt : ℕ) (c : No)
    → get_key_operation_connection whole_numbers (sample_outside conn) sample_exporter 1 attempt c
      ≢ none
unfolding get_key_operation_connection
connects conn attempt c e = absurd (cc)

pub sample_outside-Answers :
    (conn : Option No) → Answers whole_numbers (sample_outside conn) sample_exporter 1
sample_outside-Answers conn = record {
  limit = 100;
  at_limit = refl;
  expands = expands;
  counts = counts;
  gathers = gathers;
  compiles = λ e. absurd (cc);
  connects = connects conn;
  takes_commands = λ cmd. refl;
  takes_command = λ cmd. refl;
  configuration = λ c config answer.
      for_answer
        (λ q.
          HasClasses whole_numbers one_page sample_exporter q
          × HasCount whole_numbers one_page sample_exporter q)
        (all_bulks config_bulks) config (databases-HasClasses, databases-HasCount) answer;
  info_all = λ c text answer.
      for_answer (λ t. All (IsTame whole_numbers) (split 10 t)) info_text text info-IsTame answer;
  info = λ c text answer.
      for_answer (λ t. All (IsTame whole_numbers) (split 10 t)) info_text text info-IsTame answer;
  histograms = histograms;
  streams = streams;
  slow_log = λ c entries answer.
      for_answer (HasEntry whole_numbers one_page answer_views sample_exporter)
        (integer (pos 0) ∷ bulks (codes "user:1" ∷ []) ∷ []) entries (λ fields no_list. absurd (cc))
        answer;
  pairs = λ c pairs answer. absurd (cc);
  module_lines = λ c text answer.
      for_answer (λ t. All IsModuleLine (split_crlf t)) info_text text module_lines answer;
}
