-- ===== src/Scrape/Parts.antt =====
-- The parts of a scrape that do not panic, whatever Redis answers.
use redis_exporter.Base.{
  ℕ, Bool, true, false, Option, none, some, List, [], ◌∷◌, Bytes, codes, ℤ, pos, negsuc, Assoc,
  if◌then◌else◌, contains, eq_ℤ,
}
use redis_exporter.Deps.{Deps}
use redis_exporter.Text.Split.{split}
use redis_exporter.Run.{pure}
use redis_exporter.Run.Safe.{Safe, Ends, Safe-pure, Safe-bind, Safe-case_option, safe_rules}
use redis_exporter.Run.Gives.{Gives, Gives-pure, Gives-if, Gives-with, Gives-any, Gives-case_option}
use redis_exporter.Metrics.{Channel}
use redis_exporter.Metrics.Safe.{IsSound, gauge_plain-Sound}
use redis_exporter.Tables.Init.{initial_descriptions}
use redis_exporter.Redis.{Session, Act}
use redis_exporter.Redis.Safe.{SessionSound, Safe-collect, Safe-talk}
use redis_exporter.Options.{Exporter}
use redis_exporter.Keys.Single.{string_cmd}
use redis_exporter.Keys.NoPanic.{KeysSound, string_cmd-Sound}
use redis_exporter.Config.Count.{IsCount}
use redis_exporter.Info.Extract.{cluster_line, generic_field, extract_cluster_info_metrics}
use redis_exporter.Info.NoPanic.{generic_field-Sound}
use redis_exporter.Info.Sound.{InfoSound}
use redis_exporter.Clients.Register.{extract_connected_client_metrics}
use redis_exporter.Clients.NoPanic.{parse_connected_client_metrics-Sound}
use redis_exporter.Collectors.Lua.{extract_lua_script_metrics-Sound}
use redis_exporter.Scrape.Outside.{Outside}
use redis_exporter.Scrape.Host.{
  on_connection, connected, default_count, ping, set_client_name, or_info, count_databases,
  run_scripts,
}

module _ {F C A : Type 0} where
  Ends-on_connection :
      (x : Option (A × Session F C)) (conn : C)
      → Ends (SessionSound initial_descriptions) x
      → Ends {A = A}
          (SessionSound initial_descriptions)
          (elim x as (λ _. Option (A × Session F C)) [
            | none ↦ none
            | some (a, s') ↦ some (a, record s' { conn = conn })
          ])
  Ends-on_connection none conn h = h
  Ends-on_connection (some (a, s)) conn h = h

  pub Safe-on_connection :
      (conn : C) (m : Act F C A)
      → Safe (SessionSound initial_descriptions) m
      → Safe (SessionSound initial_descriptions) (on_connection conn m)
  unfolding on_connection
  Safe-on_connection conn m h = record {
    at = λ s p. Ends-on_connection (m (record s { conn = conn })) s.conn (h.at _ p);
  }

  Ends-connected :
      (x : Option (A × Session F C))
      → Ends (SessionSound initial_descriptions) x
      → Ends {A = A} (IsSound initial_descriptions) (elim x as (λ _. Option (A × Channel F)) [
        | none ↦ none
        | some (a, s) ↦ some (a, s.channel)
      ])
  Ends-connected none h = h
  Ends-connected (some (a, s)) h = h

  pub Safe-connected :
      (conn : C) (m : Act F C A)
      → Safe (SessionSound initial_descriptions) m
      → Safe (IsSound initial_descriptions) (connected conn m)
  unfolding connected
  Safe-connected conn m h = record { at = λ c p. Ends-connected (m _) (h.at _ p) }

default_count-IsCount : (n : ℤ) → IsCount n → IsCount (default_count n)
unfolding default_count
default_count-IsCount (pos n) h = count_if (eq_ℤ (pos n) (pos 0))
  where
    count_if : (b : Bool) → IsCount (if b then pos 16 else pos n)
    count_if true = tt
    count_if false = tt
default_count-IsCount (negsuc n) h = absurd h

module _ (deps : Deps) (o : Outside deps) (e : Exporter) (fuel : ℕ) where
  open deps use {Float}

  abbrev pub HostSound : Session Float o.redis.Conn → Type 0
  HostSound = KeysSound deps o.redis e

  pub ping-Sound : Safe HostSound (ping deps o e fuel)
  unfolding ping
  ping-Sound = search (safe_rules, Safe-collect, Safe-talk, gauge_plain-Sound)

  pub set_client_name-Sound : Safe HostSound (set_client_name deps o e fuel)
  unfolding set_client_name
  set_client_name-Sound = search (safe_rules, Safe-talk)

  pub or_info-Sound : (reply : Option Bytes) → Safe HostSound (or_info deps o e fuel reply)
  or_info-Sound none = search (safe_rules, Safe-talk)
  or_info-Sound (some []) = search (safe_rules, Safe-talk)
  or_info-Sound (some (c ∷ text)) = Safe-pure _

  cluster_line-Sound : (line : Bytes) → Safe (InfoSound deps) (cluster_line deps o.now e line)
  unfolding cluster_line
  cluster_line-Sound line = fields_Sound (split b':' line)
    where
      fields_Sound :
          (fields : List Bytes)
          → Safe
              (InfoSound deps)
              (elim fields [ k ∷ v ∷ [] ↦ generic_field deps o.now e k v | _ ↦ pure tt ])
      fields_Sound [] = Safe-pure tt
      fields_Sound (k ∷ []) = Safe-pure tt
      fields_Sound (k ∷ v ∷ []) = generic_field-Sound deps o.now e k v
      fields_Sound (k ∷ v ∷ w ∷ more) = Safe-pure tt

  cluster_info-Sound :
      (info : Bytes) → Safe (InfoSound deps) (extract_cluster_info_metrics deps o.now e info)
  unfolding extract_cluster_info_metrics
  cluster_info-Sound info = search (safe_rules, cluster_line-Sound)

  pub count_databases-Sound :
      (info_all : Bytes) (n : ℤ) → Safe HostSound (count_databases deps o e fuel info_all n)
  unfolding count_databases
  count_databases-Sound info_all n =
      search (safe_rules, Safe-collect, string_cmd-Sound, cluster_info-Sound) depth 9

  -- The number of databases that a scrape goes on with is not negative.
  pub count_databases-counts :
      (info_all : Bytes) (n : ℤ)
      → IsCount n
      → Gives IsCount (count_databases deps o e fuel info_all n)
  unfolding count_databases
  count_databases-counts info_all n h =
      Gives-if (contains (codes "cluster_enabled:1") info_all) _ _
        (λ _.
          Gives-with {P = λ _. Unit {0}} (string_cmd deps o.redis e _) _ (Gives-any _) (λ reply _.
            Gives-case_option reply _ _ (λ _. Gives-pure n h)
              (λ cluster_info _.
                Gives-with {P = λ _. Unit {0}} _ _ (Gives-any _) (λ _ _. Gives-pure (pos 1) tt))))
        (λ _. Gives-pure _ (default_count-IsCount n h))

  pub clients-Sound : Safe HostSound (extract_connected_client_metrics deps o.redis o.now e)
  unfolding extract_connected_client_metrics
  clients-Sound =
      search (safe_rules, Safe-collect, Safe-talk, parse_connected_client_metrics-Sound) depth 9

  pub run_scripts-Sound :
      (scripts : Assoc Bytes) → Safe HostSound (run_scripts deps o e fuel scripts)
  unfolding run_scripts
  run_scripts-Sound [] = Safe-pure none
  run_scripts-Sound ((filename, script) ∷ scripts) =
      Safe-bind _ _ (extract_lua_script_metrics-Sound deps o.redis e filename script) (λ error.
        Safe-case_option error _ _ (λ _. run_scripts-Sound scripts) (λ err _. Safe-pure _))
