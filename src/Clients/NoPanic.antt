-- ===== src/Clients/NoPanic.antt =====
-- Collecting the metrics of the clients does not panic, whatever CLIENT LIST answers.
use redis_exporter.Base.{◌≡◌, refl, All, Option, none, some, List, [], ◌∷◌, Bytes, codes, ℤ, Assoc}
use redis_exporter.Deps.{Deps}
use redis_exporter.Run.{◌>>=◌, ◌>>◌, for_each}
use redis_exporter.Run.Safe.{Safe, Ends, Safe-bind, safe_rules}
use redis_exporter.Metrics.{Desc, Channel, Collect}
use redis_exporter.Metrics.Safe.{
  IsSound, IsDescribed, Fits, found_after_create, sound_rules, create_gauge-Sound,
}
use redis_exporter.Options.{Exporter}
use redis_exporter.Clients.Parse.{ClientInfo}
use redis_exporter.Clients.Register.{
  send_info, send_newer, send_base, send_client, send_line, create_base, base_metrics, base_labels,
  parse_connected_client_metrics,
}

module _ (deps : Deps) (table : Assoc Desc) (now : ℤ) (e : Exporter) where
  open deps use {Float}

  send_info-Sound : (info : ClientInfo) → Safe (IsSound table) (send_info deps now e info)
  unfolding send_info
  send_info-Sound info = search (create_gauge-Sound)

  send_newer-Sound :
      (info : ClientInfo) (metric : Bytes) (n : ℤ)
      → Safe (IsSound table) (send_newer deps now e info metric n)
  unfolding send_newer
  send_newer-Sound info metric n = search (sound_rules, create_gauge-Sound)

  -- A channel is sound for its own descriptions, and what is sound for a later table is sound for an
  -- earlier one.
  IsSound-self : (c : Channel Float) → All Fits c.sent → IsSound c.descriptions c
  IsSound-self c h = record { kept = λ name d e. e; fits = h }

  IsSound-trans :
      (t : Assoc Desc) (c c' : Channel Float)
      → IsSound t c
      → IsSound c.descriptions c'
      → IsSound t c'
  IsSound-trans t c c' h k = record {
    kept = λ name d e. k.kept name d (h.kept name d e);
    fits = k.fits;
  }

  created :
      (ms : List Bytes) (c : Channel Float)
      → All Fits c.sent
      → (c' : Channel Float) × (for_each ms (create_base deps now e) c ≡ some (tt, c'))
        × IsSound c.descriptions c'
        × All (IsDescribed c'.descriptions) ms
  unfolding for_each
  created [] c h = (c, refl, IsSound-self c h, tt)
  created (m ∷ ms) c h =
      let (d, c1, made, found, s1) =
        found_after_create deps c.descriptions m base_labels c (IsSound-self c h) in
      let (c', run, s', all) = created ms c1 s1.fits in
      (
        c',
        rw (made, ◌>>=◌) run,
        IsSound-trans c.descriptions c1 c' s1 s',
        (record { there = (d, s'.kept m d found) }, all),
      )

module _ (deps : Deps) (now : ℤ) (e : Exporter) where
  open deps use {Float}

  send_base-Sound :
      (table : Assoc Desc) (info : ClientInfo)
      → All (IsDescribed table) base_metrics
      → Safe (IsSound table) (send_base deps now e info)
  unfolding send_base
  send_base-Sound table info (a, (b, (c, (d, (f, (g, (h, (i, (j, (k, _)))))))))) =
      search (sound_rules, a, b, c, d, f, g, h, i, j, k) depth 16

  Ends-IsSound-trans :
      (t : Assoc Desc) (c : Channel Float)
      → IsSound t c
      → (o : Option (Unit {0} × Channel Float)) → Ends (IsSound c.descriptions) o
      → Ends (IsSound t) o
  Ends-IsSound-trans t c h none k = k
  Ends-IsSound-trans t c h (some (u, c')) k = IsSound-trans deps t now e t c c' h k

  -- The metrics that are described on the way.
  created_then-Sound :
      (table : Assoc Desc) (m : Collect Float (Unit {0}))
      → ((t : Assoc Desc) → All (IsDescribed t) base_metrics → Safe (IsSound t) m)
      → Safe (IsSound table) (for_each base_metrics (create_base deps now e) >> m)
  created_then-Sound table m h = record {
    at = λ c p.
        let (c', run, s', all) = created deps table now e base_metrics c p.fits in
        let p' = IsSound-trans deps table now e table c c' p s' in
        rw (run, ◌>>=◌)
          (Ends-IsSound-trans table c' p' (m c')
            ((h c'.descriptions all).at c' (IsSound-self deps table now e c' s'.fits)));
  }

  abbrev send_rest : ClientInfo → Collect Float (Unit {0})
  send_rest info = do
    send_base deps now e info
    send_newer deps now e info (codes "connected_client_shard_channel_subscriptions_count")
        info.ssub
    send_newer deps now e info (codes "connected_client_shard_channel_watched_keys") info.watch

  send_client-Sound :
      (table : Assoc Desc) (info : ClientInfo) → Safe (IsSound table) (send_client deps now e info)
  unfolding send_client
  send_client-Sound table info =
      Safe-bind (send_info deps now e info) _ (send_info-Sound deps table now e info) (λ _.
        created_then-Sound table (send_rest info) (λ t all.
          Safe-bind (send_base deps now e info) _ (send_base-Sound t info all) (λ _.
            Safe-bind
              (send_newer deps now e info
                (codes "connected_client_shard_channel_subscriptions_count") info.ssub)
              _ (send_newer-Sound deps t now e info _ info.ssub)
              (λ _. send_newer-Sound deps t now e info _ info.watch))))

  send_line-Sound :
      (table : Assoc Desc) (line : Bytes) → Safe (IsSound table) (send_line deps now e line)
  unfolding send_line
  send_line-Sound table line = search (safe_rules, send_client-Sound)

  pub parse_connected_client_metrics-Sound :
      (table : Assoc Desc) (input : Bytes)
      → Safe (IsSound table) (parse_connected_client_metrics deps now e input)
  unfolding parse_connected_client_metrics
  parse_connected_client_metrics-Sound table input = search (safe_rules, send_line-Sound)

  -- Whatever text CLIENT LIST answers, and whatever descriptions the exporter has made before,
  -- parseConnectedClientMetrics does not panic, leaves each description as it was, and each metric
  -- it sends has as many label values as its description has labels, provided that this holds for
  -- the metrics sent before.
  pub parse_connected_client_metrics-Ends :
      (input : Bytes) (c : Channel Float)
      → All Fits c.sent
      → Ends (IsSound c.descriptions) (parse_connected_client_metrics deps now e input c)
  parse_connected_client_metrics-Ends input c h =
      (parse_connected_client_metrics-Sound c.descriptions input).at c
        (IsSound-self deps c.descriptions now e c h)
