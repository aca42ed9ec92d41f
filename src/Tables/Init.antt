-- ===== src/Tables/Init.antt =====
-- The maps that NewRedisExporter (exporter/exporter.go) builds from its tables.
use Prim.Native.String.{String}
use redis_exporter.Base.{Bool, List, ◌++◌, map, codes, if◌then◌else◌, Assoc, Bytes, insert}
use redis_exporter.Metrics.{MetricMaps, Desc}
use redis_exporter.Tables.Gauges.{gauges_first, gauges_second}
use redis_exporter.Tables.Counters.{counters}
use redis_exporter.Tables.Descriptions.{described}

abbrev renaming : List (String × String) → Assoc Bytes
renaming = map (λ r. (codes r.0, codes r.1))

-- `total_system_memory` is there only where InclSystemMetrics is set.
unfoldable pub metric_maps : Bool → MetricMaps
unfolding gauges_first gauges_second counters
metric_maps incl_system_metrics =
    let gauges = renaming (gauges_first ++ gauges_second) in
    record {
      gauges =
          if incl_system_metrics
          then insert (codes "total_system_memory") (codes "total_system_memory_bytes") gauges
          else gauges;
      counters = renaming counters;
    }

-- e.metricDescriptions as the constructor leaves it.
unfoldable pub initial_descriptions : Assoc Desc
unfolding described
initial_descriptions =
    map (λ r. (codes r.0, record { name = codes r.0; labels = map codes r.1 })) described
