-- ===== src/Collectors/Modules.antt =====
-- extractModulesMetrics (exporter/modules.go): the lines of INFO MODULES.
use redis_exporter.Base.{
  ◌≡◌, ◌≢◌, refl, Option, none, some, List, [], ◌∷◌, Bytes, codes, bytes_eq, if◌then◌else◌, pos, ap,
  true, bytes_eq_iff, All, arith,
}
use redis_exporter.Deps.{Deps}
use redis_exporter.Text.Split.{split, split_crlf}
use redis_exporter.Run.{◌>>=◌, pure, panic, case_option, for_each}
use redis_exporter.Run.Safe.{Safe, Safe-pure, Safe-case_option, safe_rules, for_each_All}
use redis_exporter.Metrics.{
  Collect, Channel, include_metric, parse_and_register_const_metric, register_const_metric_gauge,
}
use redis_exporter.Metrics.Safe.{gauge_labelled-Sound}
use redis_exporter.Info.Sound.{InfoSound, parse_and_register-Sound}
use redis_exporter.Tables.Init.{initial_descriptions}
use redis_exporter.Redis.{Redis, collect, talk}
use redis_exporter.Redis.Safe.{Safe-collect, Safe-talk_with}
use redis_exporter.Options.{Exporter}
use redis_exporter.Keys.Single.{Step, if_some}
use redis_exporter.Keys.NoPanic.{KeysSound}
use redis_exporter.Collectors.Described.{module_info}

-- strings.Split(s, "=")[1]
unfoldable pub behind_equals : Bytes → Option Bytes
behind_equals s = elim (split b'=' s) [ k ∷ v ∷ _ ↦ some v | _ ↦ none ]

-- The six values of a module, or `none` for an index out of range.
unfoldable pub six_values : Bytes → Bytes → Bytes → Bytes → Bytes → Bytes → Option (List Bytes)
six_values a b c d e f = if_some (behind_equals a) (λ name. if_some (behind_equals b) (λ ver.
    if_some (behind_equals c) (λ api. if_some (behind_equals d) (λ filters.
      if_some (behind_equals e) (λ usedby.
        if_some (behind_equals f)
          (λ using. some (name ∷ ver ∷ api ∷ filters ∷ usedby ∷ using ∷ [])))))))

-- `=` stands in each of the first six parts.
abbrev pub HasValues : List Bytes → Type 0
HasValues (a ∷ b ∷ c ∷ d ∷ x ∷ f ∷ options ∷ []) =
    (behind_equals a ≢ none)
    × (behind_equals b ≢ none)
    × (behind_equals c ≢ none)
    × (behind_equals d ≢ none)
    × (behind_equals x ≢ none)
    × (behind_equals f ≢ none)
HasValues _ = Unit

-- A line that describes a module has its values.
abbrev pub IsModuleLine : Bytes → Type 0
IsModuleLine line =
    (value : Bytes) → split b':' line ≡ codes "module" ∷ value ∷ [] → HasValues (split b',' value)

six_values-some :
    (a b c d x f : Bytes) (values : List Bytes)
    → six_values a b c d x f ≡ some values
    → (v : Bytes) × (vs : List Bytes) × (values ≡ v ∷ vs)
unfolding six_values
six_values-some a b c d x f [] h = absurd (ground arith)
six_values-some a b c d x f (v ∷ vs) h = (v, vs, refl)

six_values-none :
    (a b c d x f : Bytes)
    → behind_equals a ≢ none
    → behind_equals b ≢ none
    → behind_equals c ≢ none
    → behind_equals d ≢ none
    → behind_equals x ≢ none
    → behind_equals f ≢ none
    → six_values a b c d x f ≢ none
unfolding six_values
six_values-none a b c d x f ha hb hc hd hx hf = ground arith

module _ (deps : Deps) (e : Exporter) where
  open deps use {Float, of_ℤ}

  -- `module[0]` to `module[6]`
  unfoldable pub module_parts : List Bytes → Collect Float (Unit {0})
  unfolding six_values
  module_parts (a ∷ b ∷ c ∷ d ∷ x ∷ f ∷ options ∷ []) =
      case_option (six_values a b c d x f) panic
        (λ values. register_const_metric_gauge deps (codes "module_info") (of_ℤ (pos 1)) values)
  module_parts _ = pure tt

  -- The fields between the colons of a line.
  unfoldable pub module_fields : List Bytes → Collect Float (Unit {0})
  unfolding module_parts
  module_fields (key ∷ value ∷ []) =
      if bytes_eq key (codes "module")
      then module_parts (split b',' value)
      else if include_metric e.maps key
      then parse_and_register_const_metric deps e.maps key value
      else pure tt
  module_fields _ = pure tt

  unfoldable pub module_line : Bytes → Collect Float (Unit {0})
  unfolding module_fields
  module_line line = module_fields (split b':' line)

  module_values-Safe :
      (values : List Bytes)
      → (v : Bytes) × (vs : List Bytes) × (values ≡ v ∷ vs)
      → Safe
          (InfoSound deps)
          (register_const_metric_gauge deps (codes "module_info") (of_ℤ (pos 1)) values)
  module_values-Safe values (v, vs, same) = rw same (search (gauge_labelled-Sound, module_info))

  module_parts-Safe :
      (parts : List Bytes) → HasValues parts → Safe (InfoSound deps) (module_parts parts)
  unfolding module_parts
  module_parts-Safe (a ∷ b ∷ c ∷ d ∷ x ∷ f ∷ options ∷ []) (ha, hb, hc, hd, hx, hf) =
      Safe-case_option (six_values a b c d x f) _ _
        (λ none_yet. absurd (six_values-none a b c d x f ha hb hc hd hx hf none_yet))
        (λ values found. module_values-Safe values (six_values-some a b c d x f values found))
  module_parts-Safe [] h = Safe-pure tt
  module_parts-Safe (a ∷ []) h = Safe-pure tt
  module_parts-Safe (a ∷ b ∷ []) h = Safe-pure tt
  module_parts-Safe (a ∷ b ∷ c ∷ []) h = Safe-pure tt
  module_parts-Safe (a ∷ b ∷ c ∷ d ∷ []) h = Safe-pure tt
  module_parts-Safe (a ∷ b ∷ c ∷ d ∷ x ∷ []) h = Safe-pure tt
  module_parts-Safe (a ∷ b ∷ c ∷ d ∷ x ∷ f ∷ []) h = Safe-pure tt
  module_parts-Safe (a ∷ b ∷ c ∷ d ∷ x ∷ f ∷ g ∷ h' ∷ more) h = Safe-pure tt

  module_fields-Safe :
      (fields : List Bytes)
      → ((value : Bytes) → fields ≡ codes "module" ∷ value ∷ [] → HasValues (split b',' value))
      → Safe (InfoSound deps) (module_fields fields)
  unfolding module_fields
  module_fields-Safe [] h = Safe-pure tt
  module_fields-Safe (key ∷ []) h = Safe-pure tt
  module_fields-Safe (key ∷ value ∷ x ∷ more) h = Safe-pure tt
  module_fields-Safe (key ∷ value ∷ []) h =
      let known : bytes_eq key (codes "module") ≡ true → HasValues (split b',' value) =
        λ same. h value (ap (λ k. k ∷ value ∷ []) ((bytes_eq_iff key (codes "module")).0 same)) in
      search (safe_rules, module_parts-Safe, known, parse_and_register-Sound)

  pub module_line-Safe :
      (line : Bytes) → IsModuleLine line → Safe (InfoSound deps) (module_line line)
  unfolding module_line
  module_line-Safe line h = module_fields-Safe (split b':' line) h

  -- A value that is missing is an index out of range.
  pub module_parts_panics :
      (a b c d x f options : Bytes) (ch : Channel Float)
      → six_values a b c d x f ≡ none
      → module_parts (a ∷ b ∷ c ∷ d ∷ x ∷ f ∷ options ∷ []) ch ≡ none
  unfolding module_parts case_option
  module_parts_panics a b c d x f options ch h = rw (h, case_option) refl

module _ (deps : Deps) (r : Redis) (e : Exporter) where
  open deps use {Float}
  open r use {Conn, string}

  abbrev info_modules : List Bytes
  info_modules = codes "INFO" ∷ codes "MODULES" ∷ []

  abbrev pub modules_text : Conn → Option Bytes
  modules_text c = if_some (r.do_cmd info_modules c).0 string

  unfoldable pub extract_modules_metrics : Step deps r e (Unit {0})
  unfolding module_line
  extract_modules_metrics = do
    reply ← talk (λ c. (modules_text c, (r.do_cmd info_modules c).1))
    case_option reply (pure tt) (λ info. collect (for_each (split_crlf info) (module_line deps e)))

  -- The lines of INFO MODULES are those of Redis.
  abbrev pub AnswersModules : Type 0
  AnswersModules =
      (c : Conn) (info : Bytes) → modules_text c ≡ some info → All IsModuleLine (split_crlf info)

  pub extract_modules_metrics-Sound :
      AnswersModules → Safe (KeysSound deps r e) extract_modules_metrics
  unfolding extract_modules_metrics
  extract_modules_metrics-Sound h = Safe-talk_with initial_descriptions _ _ (λ c.
      Safe-case_option (modules_text c) _ _ (λ _. Safe-pure tt)
        (λ info found.
          Safe-collect initial_descriptions _
            (for_each_All IsModuleLine _ _ (module_line-Safe deps e) (h c info found))))
