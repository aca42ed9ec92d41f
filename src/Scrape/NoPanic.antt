-- ===== src/Scrape/NoPanic.antt =====
-- When a whole scrape does not panic.
use redis_exporter.Base.{ℕ, Bool, true, false, not, Option, none, some, All, Bytes, ℤ, pos, negsuc}
use redis_exporter.Text.Split.{split}
use redis_exporter.Deps.{Deps}
use redis_exporter.Run.Safe.{Ends, Safe, Safe-pure, Safe-if, Safe-bind, Safe-then, Safe-case_option}
use redis_exporter.Run.Gives.{Safe-with}
use redis_exporter.Metrics.{Channel}
use redis_exporter.Metrics.Safe.{IsSound, gauge_plain-Sound}
use redis_exporter.Tables.Init.{initial_descriptions}
use redis_exporter.Redis.Safe.{Safe-collect, Safe-talk, Safe-talk_with}
use redis_exporter.Options.{Exporter}
use redis_exporter.Info.NoPanic.{IsTame, extract_info_metrics-Sound}
use redis_exporter.Config.Count.{IsCount, IsCounted}
use redis_exporter.Keys.NoPanic.{extract_check_key_metrics-Sound, extract_count_keys_metrics-Sound}
use redis_exporter.KeyGroups.NoPanic.{extract_key_group_metrics-Sound}
use redis_exporter.KeyGroups.Collect.{extract_key_group_metrics}
use redis_exporter.SentinelClient.NoPanic.{metrics-Sound, config-Sound}
use redis_exporter.Streams.NoPanic.{extract_stream_metrics-Sound}
use redis_exporter.Latency.NoPanic.{extract_latency_metrics-Sound}
use redis_exporter.SearchIndexes.NoPanic.{extract_search_indexes_metrics-Sound}
use redis_exporter.Collectors.Slowlog.{extract_slow_log_metrics-Sound}
use redis_exporter.Collectors.Tile38.{extract_tile38_metrics-Sound}
use redis_exporter.Collectors.Modules.{extract_modules_metrics-Sound}
use redis_exporter.Scrape.Outside.{Outside}
use redis_exporter.Scrape.Host.{
  extract_keys, extract_others, get_key_operation_connection, read_info, scrape_connected,
  scrape_counted, scrape_dialed, dial_host, scrape_info, scrape_redis_host, scrape_text,
  with_key_connection, Host, when, checks_keys,
}
use redis_exporter.Scrape.Parts.{
  HostSound, Safe-connected, Safe-on_connection, clients-Sound, count_databases-Sound,
  count_databases-counts, or_info-Sound, ping-Sound, run_scripts-Sound, set_client_name-Sound,
}
use redis_exporter.Scrape.Answers.{Answers, IsTameInfo, config-Safe, config-counts, read_info-tame}

module _ (deps : Deps) (o : Outside deps) (e : Exporter) (fuel : ℕ) where
  module _ (a : Answers deps o e fuel) where
    with_key_connection-Safe :
        (attempt : ℕ) (m : Host deps o e fuel (Unit {0}))
        → Safe (HostSound deps o e fuel) m
        → Safe (HostSound deps o e fuel) (with_key_connection deps o e fuel attempt m)
    unfolding with_key_connection
    with_key_connection-Safe attempt m h = Safe-talk_with initial_descriptions _ _ (λ c.
        Safe-case_option (get_key_operation_connection deps o e fuel attempt c) _ _
          (λ lost. absurd (a.connects attempt c lost))
          (λ dialed _.
            Safe-case_option dialed _ _ (λ _. Safe-pure tt)
              (λ key_conn _.
                Safe-if e.options.is_cluster _ _ (λ _. Safe-on_connection key_conn m h) (λ _. h))))

    when-Safe :
        (b : Bool) (m : Host deps o e fuel (Unit {0}))
        → Safe (HostSound deps o e fuel) m
        → Safe (HostSound deps o e fuel) (when deps o e fuel b m)
    when-Safe true m h = h
    when-Safe false m h = Safe-pure tt

    extract_keys-Safe : Safe (HostSound deps o e fuel) (extract_keys deps o e fuel)
    unfolding extract_keys
    extract_keys-Safe =
        Safe-bind _ _ (extract_check_key_metrics-Sound deps o.redis e fuel a.expands) (λ _.
          Safe-bind _ _ (extract_count_keys_metrics-Sound deps o.redis e fuel a.counts) (λ _.
            extract_stream_metrics-Sound deps o.redis o.views o.stream_scans e a.streams fuel
              a.expands))

    extract_others-Safe :
        (info_all : Bytes) → Safe (HostSound deps o e fuel) (extract_others deps o e fuel info_all)
    unfolding extract_others
    extract_others-Safe info_all =
        Safe-then _ _
          (when-Safe _ _ (
            Safe-then _ _ (metrics-Sound deps o.redis o.error_text e)
              (config-Sound deps o.redis o.error_text e)))
          (Safe-then _ _ (when-Safe _ _ (clients-Sound deps o e fuel)) (
            Safe-then _ _ (when-Safe _ _ (extract_tile38_metrics-Sound deps o.redis e a.pairs)) (
              Safe-then _ _
                (when-Safe _ _ (extract_modules_metrics-Sound deps o.redis e a.module_lines))
                (when-Safe _ _ (
                  extract_search_indexes_metrics-Sound deps o.redis o.compile o.scan_index e
                    a.compiles)))))

    key_groups-Safe :
        (n : ℤ)
        → IsCount n
        → Safe
            (HostSound deps o e fuel)
            (extract_key_group_metrics deps o.redis o.read_csv e fuel o.groups_took n)
    key_groups-Safe (pos n) h =
        extract_key_group_metrics-Sound deps o.redis o.read_csv e fuel a.limit a.at_limit a.gathers
          o.groups_took n
    key_groups-Safe (negsuc n) h = absurd h

    read_info-Safe : Safe (HostSound deps o e fuel) (read_info deps o e fuel)
    unfolding read_info
    read_info-Safe = Safe-bind _ _ (Safe-talk initial_descriptions _) (or_info-Sound deps o e fuel)

    scrape_info-Safe :
        (info_all : Bytes) (n : ℤ)
        → All (IsTame deps) (split 10 info_all)
        → IsCount n
        → Safe (HostSound deps o e fuel) (scrape_info deps o e fuel info_all n)
    unfolding scrape_info
    scrape_info-Safe info_all n tame counted =
        Safe-bind _ _
          (Safe-collect initial_descriptions _
            (extract_info_metrics-Sound deps o.now e info_all n tame a.takes_commands))
          (λ role.
            Safe-then _ _
              (when-Safe (not e.options.exclude_latency_histogram_metrics) _ (
                extract_latency_metrics-Sound deps o.redis o.latency_scans e a.takes_command
                  a.histograms info_all))
              (Safe-then _ _
                (when-Safe (checks_keys deps o e fuel role) _
                  (with_key_connection-Safe 0 _ extract_keys-Safe))
                (Safe-then _ _ (extract_slow_log_metrics-Sound deps o.redis o.views e a.slow_log) (
                  Safe-then _ _ (with_key_connection-Safe 1 _ (key_groups-Safe n counted)) (
                    Safe-then _ _ (extract_others-Safe info_all)
                      (run_scripts-Sound deps o e fuel e.options.lua_script))))))

    -- The text of INFO that was read, or none.
    scrape_text-Safe :
        (info : Option Bytes) (n : ℤ)
        → IsTameInfo deps o e fuel a info
        → IsCount n
        → Safe (HostSound deps o e fuel) (scrape_text deps o e fuel n info)
    unfolding scrape_text
    scrape_text-Safe none n tame counted = Safe-pure _
    scrape_text-Safe (some info_all) n tame counted =
        Safe-with _ _ (count_databases-Sound deps o e fuel info_all n)
          (count_databases-counts deps o e fuel info_all n counted)
          (λ m. scrape_info-Safe info_all m tame)

    scrape_counted-Safe :
        (configured : Option ℤ)
        → IsCounted configured
        → Safe (HostSound deps o e fuel) (scrape_counted deps o e fuel configured)
    unfolding scrape_counted
    scrape_counted-Safe none counted = Safe-pure _
    scrape_counted-Safe (some n) counted =
        Safe-with _ _ read_info-Safe (read_info-tame deps o e fuel a)
          (λ info tame. scrape_text-Safe info n tame counted)

    scrape_connected-Safe : Safe (HostSound deps o e fuel) (scrape_connected deps o e fuel)
    unfolding scrape_connected
    scrape_connected-Safe = Safe-then _ _ (when-Safe _ _ (ping-Sound deps o e fuel)) (
        Safe-then _ _ (when-Safe _ _ (set_client_name-Sound deps o e fuel)) (
          Safe-with _ _ (config-Safe deps o e fuel a) (config-counts deps o e fuel a)
            scrape_counted-Safe))

    scrape_dialed-Safe :
        (dialed : Option o.redis.Conn)
        → Safe (IsSound initial_descriptions) (scrape_dialed deps o e fuel dialed)
    unfolding scrape_dialed
    scrape_dialed-Safe none = Safe-pure _
    scrape_dialed-Safe (some c) = Safe-connected c _ scrape_connected-Safe

    pub scrape_redis_host-Sound :
        Safe (IsSound initial_descriptions) (scrape_redis_host deps o e fuel)
    unfolding scrape_redis_host
    scrape_redis_host-Sound =
        Safe-then _ _ (gauge_plain-Sound deps initial_descriptions _ _)
          (scrape_dialed-Safe (dial_host deps o e fuel))

  -- A scrape of a server whose replies have the documented form does not panic, whatever error it
  -- ends with: from a channel with the exporter's descriptions it returns, keeps them, and each metric
  -- that any collector sends fits its description. The scans and the script end within the fuel, the
  -- limit of key groups is not negative, the expression of search indexes compiles, the address of a
  -- cluster is a URL, and the client takes the names of commands as labels.
  pub scrape_redis_host-Ends :
      Answers deps o e fuel
      → (c : Channel deps.Float) → IsSound initial_descriptions c
      → Ends (IsSound initial_descriptions) (scrape_redis_host deps o e fuel c)
  scrape_redis_host-Ends a c h = (scrape_redis_host-Sound a).at c h
