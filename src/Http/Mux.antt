-- ===== src/Http/Mux.antt =====
-- The handlers that NewRedisExporter registers with its http.ServeMux (exporter/exporter.go).
-- `takes pattern registered` is whether Handle takes the pattern beside those that are registered;
-- otherwise it panics.
use redis_exporter.Base.{
  ◌≡◌, refl, Bool, true, false, ◌||◌, Option, none, some, List, [], ◌∷◌, ◌++◌, Bytes, codes,
  bytes_eq, bytes_eq_iff, if◌then◌else◌, Bool-cases, inl, inr, arith,
}
use redis_exporter.Base.Chain.{◌>>=◌}
use redis_exporter.Options.{Exporter}
use redis_exporter.Construct.Configured.{IsConfigured}

pub data Handler : Type 0 where
  metrics_handler index scrape discover_cluster_nodes health reload : Handler

abbrev pub Mux : Type 0
Mux = List (Bytes × Handler)

abbrev pub patterns : Mux → List Bytes
patterns [] = []
patterns ((pattern, h) ∷ mux) = pattern ∷ patterns mux

abbrev pub fixed : Mux
fixed =
    (codes "/", index)
    ∷ (codes "/scrape", scrape)
    ∷ (codes "/discover-cluster-nodes", discover_cluster_nodes)
    ∷ (codes "/health", health)
    ∷ (codes "/-/reload", reload)
    ∷ []

abbrev pub is_among : Bytes → List Bytes → Bool
is_among p [] = false
is_among p (q ∷ qs) = bytes_eq q p || is_among p qs

module _ (takes : Bytes → List Bytes → Bool) where
  unfoldable pub handle : Bytes → Handler → Mux → Option Mux
  handle pattern h mux =
      if takes pattern (patterns mux) then some (mux ++ (pattern, h) ∷ []) else none

  -- One registration after the other.
  unfoldable pub handle_all : Mux → Mux → Option Mux
  unfolding handle
  handle_all [] mux = some mux
  handle_all ((pattern, h) ∷ rest) mux = handle pattern h mux >>= handle_all rest

  -- The metrics come first, where there is a registry. `none` is a panic.
  unfoldable pub new_mux : Exporter → Option Mux
  unfolding handle_all
  new_mux e =
      handle_all
        (if e.options.registry then (e.options.metrics_path, metrics_handler) ∷ fixed else fixed) []

  -- A pattern that stands among those to come, while it is the first of the mux.
  handle_all-none :
      (p : Bytes) (h : Handler) (rest mux : Mux)
      → ((pattern : Bytes) (registered : List Bytes) → takes pattern (pattern ∷ registered) ≡ false)
      → is_among p (patterns rest) ≡ true
      → handle_all rest ((p, h) ∷ mux) ≡ none
  unfolding handle_all handle
  handle_all-none p h [] mux conflict among = absurd (cc)
  handle_all-none p h ((q, g) ∷ rest) mux conflict among = elim (Bool-cases (bytes_eq q p)) [
    | inl same ↦ clash ((bytes_eq_iff q p).0 same)
    | inr differ ↦ elim (Bool-cases (takes q (p ∷ patterns mux))) [
      | inl fine ↦
          rw (fine, handle_all)
            (handle_all-none p h rest (mux ++ (q, g) ∷ []) conflict (ground (arith, among, differ)))
      | inr refused ↦ rw (refused, handle_all) refl
    ]
  ]
    where
      clash : q ≡ p → handle_all ((q, g) ∷ rest) ((p, h) ∷ mux) ≡ none
      clash same = rw same (rw (conflict p (patterns mux), handle_all) refl)

  -- Where the path of the metrics is one of the five paths that are taken, registering the handlers
  -- panics: ServeMux refuses a pattern that is registered already. The exporter is one that the
  -- checks let pass.
  pub new_mux_panics :
      (e : Exporter)
      → ((pattern : Bytes) (registered : List Bytes) → takes pattern (pattern ∷ registered) ≡ false)
      → IsConfigured e
      → is_among e.options.metrics_path (patterns fixed) ≡ true
      → new_mux e ≡ none
  unfolding new_mux handle_all handle
  new_mux_panics e conflict configured among =
      rw (configured.registry, new_mux)
        (elim (Bool-cases (takes e.options.metrics_path [])) [
          | inl fine ↦
              rw (fine, handle_all)
                (handle_all-none e.options.metrics_path metrics_handler fixed [] conflict among)
          | inr refused ↦ rw (refused, handle_all) refl
        ])
