-- ===== src/Scrape/Answers.antt =====
-- What a scrape needs of what is outside, and what it then reads first: the number of databases of
-- the configuration, and the text of INFO.
use redis_exporter.Base.{
  ℕ, ◌≡◌, ◌≢◌, refl, Option, none, some, List, [], ◌∷◌, All, Bytes, codes, pos, bytes_eq,
}
use redis_exporter.Text.Split.{split}
use redis_exporter.Deps.{Deps}
use redis_exporter.Run.Safe.{Safe, Safe-pure, Safe-if, Safe-case_option}
use redis_exporter.Run.Gives.{Gives, Gives-case_option, Gives-if, Gives-pure, Gives-with}
use redis_exporter.Tables.Init.{initial_descriptions}
use redis_exporter.Redis.Safe.{Safe-collect, Safe-talk_with}
use redis_exporter.Redis.Gives.{Gives-collect, Gives-talk, Gives-talk_with}
use redis_exporter.Options.{Exporter}
use redis_exporter.Info.NoPanic.{IsTame, TakesCommands}
use redis_exporter.Config.NoPanic.{HasClasses, extract_config_metrics-Sound}
use redis_exporter.Config.Count.{IsCounted, HasCount, extract_config_metrics-counts}
use redis_exporter.Keys.NoPanic.{Expands, Counts}
use redis_exporter.KeyGroups.NoPanic.{Gathers}
use redis_exporter.Streams.NoPanic.{AnswersStreams}
use redis_exporter.Latency.NoPanic.{TakesCommand, AnswersHistograms}
use redis_exporter.Collectors.Slowlog.{HasEntries}
use redis_exporter.Collectors.Tile38.{AnswersPairs}
use redis_exporter.Collectors.Modules.{AnswersModules}
use redis_exporter.Scrape.Outside.{Outside}
use redis_exporter.Scrape.Host.{
  config_reply, get_key_operation_connection, info_all_args, info_args, info_cmd, info_of, or_info,
  read_config, read_info,
}
use redis_exporter.Scrape.Parts.{HostSound}

module _ (deps : Deps) (o : Outside deps) (e : Exporter) (fuel : ℕ) where
  open deps use {Float}

  -- What a scrape needs of what is outside. The scans and the script end within the fuel, and the
  -- limit of key groups is not negative; the expression of the search indexes compiles, and the
  -- address of a cluster is a URL; the client takes the names of commands as labels; and the server
  -- answers with replies of the documented form.
  pub record Answers : Type 0 where
    pub limit : ℕ
    pub at_limit : e.options.max_distinct_key_groups ≡ pos limit
    pub expands : Expands deps o.redis e fuel
    pub counts : Counts deps o.redis e fuel
    pub gathers : Gathers deps o.redis o.read_csv e fuel
    pub compiles : o.compile e.options.check_search_indexes ≢ none
    pub connects :
        (attempt : ℕ) (c : o.redis.Conn)
        → get_key_operation_connection deps o e fuel attempt c ≢ none
    pub takes_commands : TakesCommands deps o.now e
    pub takes_command : TakesCommand deps o.redis o.latency_scans e
    pub configuration :
        (c : o.redis.Conn) (config : List o.redis.Reply)
        → config_reply deps o e fuel c ≡ some config
        → HasClasses deps o.redis e config × HasCount deps o.redis e config
    pub info_all :
        (c : o.redis.Conn) (text : Bytes)
        → info_of deps o e fuel (info_all_args deps o e fuel) c ≡ some text
        → All (IsTame deps) (split 10 text)
    pub info :
        (c : o.redis.Conn) (text : Bytes)
        → info_of deps o e fuel (info_args deps o e fuel) c ≡ some text
        → All (IsTame deps) (split 10 text)
    pub histograms : AnswersHistograms deps o.redis o.latency_scans e
    pub streams : AnswersStreams deps o.redis o.views o.stream_scans e
    pub slow_log : HasEntries deps o.redis o.views e
    pub pairs : AnswersPairs deps o.redis e
    pub module_lines : AnswersModules deps o.redis e

  module _ (a : Answers) where
    pub config-Safe : Safe (HostSound deps o e fuel) (read_config deps o e fuel)
    unfolding read_config
    config-Safe =
        Safe-if (bytes_eq e.options.config_command_name (codes "-")) _ _ (λ _. Safe-pure _)
          (λ _. Safe-talk_with initial_descriptions _ _ (λ c.
            Safe-case_option (config_reply deps o e fuel c) _ _ (λ _. Safe-pure _)
              (λ config found. Safe-collect initial_descriptions _ (
                extract_config_metrics-Sound deps o.redis e config
                  (a.configuration c config found).0))))

    pub config-counts : Gives IsCounted (read_config deps o e fuel)
    unfolding read_config
    config-counts =
        Gives-if (bytes_eq e.options.config_command_name (codes "-")) _ _
          (λ _. Gives-pure (some (pos 0)) tt)
          (λ _. Gives-talk_with _ _ (λ c.
            Gives-case_option (config_reply deps o e fuel c) _ _ (λ _. Gives-pure (some (pos 0)) tt)
              (λ config found. Gives-collect _ (
                extract_config_metrics-counts deps o.redis e config
                  (a.configuration c config found).1))))

    -- The lines of the text of INFO, where there is one.
    abbrev pub IsTameInfo : Option Bytes → Type 0
    IsTameInfo none = Unit
    IsTameInfo (some text) = All (IsTame deps) (split 10 text)

    tame_reply :
        (x : Option Bytes)
        → ((text : Bytes) → x ≡ some text → All (IsTame deps) (split 10 text))
        → IsTameInfo x
    tame_reply none h = tt
    tame_reply (some text) h = h text refl

    plain_info-tame : Gives IsTameInfo (info_cmd deps o e fuel (info_args deps o e fuel))
    plain_info-tame = Gives-talk _ (λ c. tame_reply _ (a.info c))

    or_info-tame : (x : Option Bytes) → IsTameInfo x → Gives IsTameInfo (or_info deps o e fuel x)
    or_info-tame none h = plain_info-tame
    or_info-tame (some []) h = plain_info-tame
    or_info-tame (some (c ∷ text)) h = Gives-pure _ h

    pub read_info-tame : Gives IsTameInfo (read_info deps o e fuel)
    unfolding read_info
    read_info-tame =
        Gives-with {P = IsTameInfo} _ _ (Gives-talk _ (λ c. tame_reply _ (a.info_all c)))
          or_info-tame
