-- ===== src/Examples/Scrape.antt =====
-- A scrape of INFO, of CONFIG GET and of CLIENT LIST.
use redis_exporter.Base.{
  ◌≡◌, ◌≢◌, refl, sym, ◌∙◌, none, some, List, [], ◌∷◌, Bytes, codes, pos, All, lookup, bytes_eq,
  has_prefix, strip_prefix, arith,
}
use redis_exporter.Deps.{whole_numbers}
use redis_exporter.Text.Split.{split, cut}
use redis_exporter.Text.Trim.{trim_space}
use redis_exporter.Run.Safe.{Ends}
use redis_exporter.Config.{extract_config_metrics, send_limits}
use redis_exporter.Config.Redacted.{
  SameButSecrets, ended, same, secret, extract_config_metrics-SameButSecrets,
}
use redis_exporter.Config.NoPanic.{
  ConfigSound, HasClasses, IsClasses, extract_config_metrics-Ends, send_limits_panics,
}
use redis_exporter.Clients.Register.{parse_connected_client_metrics}
use redis_exporter.Clients.NoPanic.{parse_connected_client_metrics-Ends}
use redis_exporter.Metrics.Safe.{IsSound}
use redis_exporter.Info.Fields.{is_master_direct, has_suffix}
use redis_exporter.Info.Parse.{parse_metrics_latency_stats}
use redis_exporter.Info.Sound.{InfoSound, IsKnown}
use redis_exporter.Info.Handlers.{direct_metric}
use redis_exporter.Tables.Init.{initial_descriptions}
use redis_exporter.Info.Extract.{extract_info_metrics}
use redis_exporter.Info.NoPanic.{IsTame, extract_info_metrics-Ends}
use redis_exporter.Examples.Server.{
  Answer, bulk, info_text, one_page, sample_exporter, fresh_channel, fresh_channel-IsSound,
}

some-key : (p q : Bytes × Bytes) → some p ≡ some q → p.0 ≡ q.0
some-key p q e = cc

some-value : (p q : Bytes × Bytes) → some p ≡ some q → p.1 ≡ q.1
some-value p q e = cc

tame :
    (raw k v : Bytes)
    → cut b':' (trim_space raw) ≡ some (k, v)
    → IsKnown whole_numbers k
    → parse_metrics_latency_stats whole_numbers k v ≢ none
    → IsTame whole_numbers raw
tame raw k v e known latency key value found =
    let same = sym e ∙ found in
    let key_is : k ≡ key = some-key (k, v) (key, value) same in
    let value_is : v ≡ value = some-value (k, v) (key, value) same in
    rw (← key_is, ← value_is) (known, latency)

comment : (raw : Bytes) → cut b':' (trim_space raw) ≡ none → IsTame whole_numbers raw
comment raw e key value found = absurd (cc)

io-IsKnown : IsKnown whole_numbers (codes "master_last_io_seconds_ago")
unfolding direct_metric initial_descriptions lookup bytes_eq has_suffix
io-IsKnown _ = record { there = (_, refl) }

pub info-IsTame : All (IsTame whole_numbers) (split 10 info_text)
unfolding split cut trim_space parse_metrics_latency_stats has_prefix strip_prefix bytes_eq
    is_master_direct
info-IsTame = (
  comment (codes "# Replication") refl,
  (
    tame (codes "master_last_io_seconds_ago:2") (codes "master_last_io_seconds_ago") (codes "2")
        refl io-IsKnown (ground arith),
    (
      comment (codes "# Keyspace") refl,
      (
        tame (codes "db0:keys=5,expires=1,avg_ttl=2000") (codes "db0")
            (codes "keys=5,expires=1,avg_ttl=2000") refl (λ d. absurd (ground arith))
            (ground arith),
        tt,
      ),
    ),
  ),
)

extract_info_metrics-Ends_example : Ends (InfoSound whole_numbers) (
    extract_info_metrics whole_numbers
      (pos 1700000000)
      sample_exporter
      info_text
      (pos 16)
      fresh_channel)
extract_info_metrics-Ends_example =
    extract_info_metrics-Ends whole_numbers (pos 1700000000) sample_exporter info_text (pos 16)
      fresh_channel info-IsTame (λ cmd. refl) fresh_channel-IsSound

abbrev config_reply : Bytes → List Answer
config_reply password =
    bulk (codes "maxmemory")
    ∷ bulk (codes "1024")
    ∷ bulk (codes "requirepass")
    ∷ bulk password
    ∷ bulk (codes "client-output-buffer-limit")
    ∷ bulk (codes "normal 0 0 0 pubsub 33554432 8388608 60")
    ∷ []

passwords_differ :
    SameButSecrets whole_numbers one_page sample_exporter refl
      (config_reply (codes "hunter2"))
      (config_reply (codes "swordfish"))
unfolding bytes_eq
passwords_differ = same _ _ (secret (codes "requirepass") _ _ _ refl refl (same _ _ ended))

extract_config_metrics-SameButSecrets_example :
    extract_config_metrics whole_numbers one_page sample_exporter
      (config_reply (codes "hunter2"))
      fresh_channel
    ≡ extract_config_metrics whole_numbers one_page sample_exporter
        (config_reply (codes "swordfish"))
        fresh_channel
extract_config_metrics-SameButSecrets_example =
    extract_config_metrics-SameButSecrets whole_numbers one_page sample_exporter refl fresh_channel
      passwords_differ

some_text : (s t : Bytes) → some s ≡ some t → s ≡ t
some_text s t e = cc

pub for_the_pair :
    (k v : Bytes)
    → IsClasses whole_numbers one_page sample_exporter k v
    → (key value : Bytes) → some k ≡ some key
    → some v ≡ some value
    → IsClasses whole_numbers one_page sample_exporter key value
for_the_pair k v h key value e1 e2 = rw (← some_text k key e1, ← some_text v value e2) h

config_classes : HasClasses whole_numbers one_page sample_exporter (config_reply (codes "hunter2"))
unfolding split bytes_eq
config_classes = (
  for_the_pair (codes "maxmemory") (codes "1024") (ground arith),
  (
    for_the_pair (codes "requirepass") (codes "hunter2") (ground arith),
    (
      for_the_pair (codes "client-output-buffer-limit")
          (codes "normal 0 0 0 pubsub 33554432 8388608 60") (λ h. refl),
      tt,
    ),
  ),
)

extract_config_metrics-Ends_example : Ends (ConfigSound whole_numbers one_page sample_exporter) (
    extract_config_metrics whole_numbers one_page sample_exporter
      (config_reply (codes "hunter2"))
      fresh_channel)
extract_config_metrics-Ends_example =
    extract_config_metrics-Ends whole_numbers one_page sample_exporter
      (config_reply (codes "hunter2")) fresh_channel config_classes fresh_channel-IsSound

send_limits_panics_example :
    send_limits whole_numbers one_page sample_exporter
      (codes "normal" ∷ codes "0" ∷ [])
      fresh_channel
    ≡ none
send_limits_panics_example =
    send_limits_panics whole_numbers one_page sample_exporter (codes "normal" ∷ codes "0" ∷ [])
      fresh_channel (omega arith)

parse_connected_client_metrics-Ends_example : Ends (IsSound initial_descriptions) (
    parse_connected_client_metrics whole_numbers
      (pos 1700000000)
      sample_exporter
      (codes "id=11 addr=127.0.0.1:63508 name= age=6321 idle=6320 flags=N db=0")
      fresh_channel)
parse_connected_client_metrics-Ends_example =
    parse_connected_client_metrics-Ends whole_numbers (pos 1700000000) sample_exporter
      (codes "id=11 addr=127.0.0.1:63508 name= age=6321 idle=6320 flags=N db=0") fresh_channel tt
