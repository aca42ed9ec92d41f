-- ===== src/SearchIndexes/Collect.antt =====
-- searchIndexInfo and extractSearchIndexesMetrics. `compile` is regexp.Compile, with `none` for an
-- error, and `scan_index` is redis.ScanStruct into a searchIndexInfo, with `none` for its error.
use redis_exporter.Base.{
  Bool, true, false, Option, List, [], ◌∷◌, Bytes, codes, ℤ, pos, if◌then◌else◌,
}
use redis_exporter.Deps.{Deps}
use redis_exporter.Run.{◌>>=◌, ◌>>◌, pure, panic, case_option, for_while}
use redis_exporter.Metrics.{register_const_metric, counter_value}
use redis_exporter.Redis.{Redis, collect, talk}
use redis_exporter.Options.{Exporter}
use redis_exporter.Keys.Single.{Step, gauge, if_some}

pub record SearchIndexInfo (F : Type 0) : Type 0 where
  pub index_name : Bytes
  pub num_docs : ℤ
  pub max_doc_id : ℤ
  pub num_terms : ℤ
  pub num_records : ℤ
  pub inverted_size_mb : F
  pub total_inverted_index_blocks : ℤ
  pub vector_index_size_mb : F
  pub offset_vectors_size_mb : F
  pub doc_table_size_mb : F
  pub sortable_values_size_mb : F
  pub key_table_size_mb : F
  pub tag_overhead_size_mb : F
  pub text_overhead_size_mb : F
  pub total_index_memory_size_mb : F
  pub geoshapes_size_mb : F
  pub records_per_doc_avg : F
  pub bytes_per_record_avg : F
  pub offsets_per_term_avg : F
  pub offset_bits_per_record_avg : F
  pub indexing : ℤ
  pub percent_indexed : F
  pub hash_indexing_failures : ℤ
  pub number_of_uses : ℤ
  pub cleaning : ℤ

-- The elements that a regular expression matches.
unfoldable pub matching : (Bytes → Bool) → List Bytes → List Bytes
matching match_string [] = []
matching match_string (index ∷ indexes) =
    let rest = matching match_string indexes in if match_string index then index ∷ rest else rest

module _ (deps : Deps) (r : Redis) (compile : Bytes → Option (Bytes → Bool))
    (scan_index : List r.Reply → Option (SearchIndexInfo deps.Float)) (e : Exporter) where
  open deps use {Float, of_ℤ, mul}
  open r use {Reply, Conn, values, strings}

  abbrev pub index_gauge : SearchIndexInfo Float → Bytes → Float → Step deps r e (Unit {0})
  index_gauge info metric value = gauge deps r e metric value (info.index_name ∷ [])

  -- A size that Redis gives in megabytes.
  abbrev in_bytes : Float → Float
  in_bytes megabytes = mul megabytes (of_ℤ (pos 1048576))

  unfoldable pub send_sizes : SearchIndexInfo Float → Step deps r e (Unit {0})
  send_sizes info = do
    index_gauge info (codes "search_index_num_docs") (of_ℤ info.num_docs)
    index_gauge info (codes "search_index_max_doc_id") (of_ℤ info.max_doc_id)
    index_gauge info (codes "search_index_num_terms") (of_ℤ info.num_terms)
    index_gauge info (codes "search_index_num_records") (of_ℤ info.num_records)
    index_gauge info (codes "search_index_inverted_size_bytes") (in_bytes info.inverted_size_mb)
    index_gauge info (codes "search_index_total_inverted_index_blocks")
        (of_ℤ info.total_inverted_index_blocks)
    index_gauge info (codes "search_index_vector_index_size_bytes")
        (in_bytes info.vector_index_size_mb)
    index_gauge info (codes "search_index_offset_vectors_size_bytes")
        (in_bytes info.offset_vectors_size_mb)
    index_gauge info (codes "search_index_doc_table_size_bytes") (in_bytes info.doc_table_size_mb)
    index_gauge info (codes "search_index_sortable_values_size_bytes")
        (in_bytes info.sortable_values_size_mb)
    index_gauge info (codes "search_index_key_table_size_bytes") (in_bytes info.key_table_size_mb)
    index_gauge info (codes "search_index_tag_overhead_size_bytes")
        (in_bytes info.tag_overhead_size_mb)

  unfoldable pub send_averages : SearchIndexInfo Float → Step deps r e (Unit {0})
  send_averages info = do
    index_gauge info (codes "search_index_text_overhead_size_bytes")
        (in_bytes info.text_overhead_size_mb)
    index_gauge info (codes "search_index_total_index_memory_size_bytes")
        (in_bytes info.total_index_memory_size_mb)
    index_gauge info (codes "search_index_geoshapes_size_bytes") (in_bytes info.geoshapes_size_mb)
    index_gauge info (codes "search_index_avg_per_doc_records") info.records_per_doc_avg
    index_gauge info (codes "search_index_avg_per_record_bytes") info.bytes_per_record_avg
    index_gauge info (codes "search_index_avg_per_term_offsets") info.offsets_per_term_avg
    index_gauge info (codes "search_index_avg_per_record_offset_bits")
        info.offset_bits_per_record_avg
    index_gauge info (codes "search_index_indexing") (of_ℤ info.indexing)
    index_gauge info (codes "search_index_percent_indexed") info.percent_indexed
    index_gauge info (codes "search_index_hash_indexing_failures")
        (of_ℤ info.hash_indexing_failures)
    collect (
        register_const_metric deps (codes "search_index_number_of_uses_total")
          (of_ℤ info.number_of_uses) counter_value (info.index_name ∷ []))
    index_gauge info (codes "search_index_cleaning") (of_ℤ info.cleaning)

  unfoldable pub send_index : SearchIndexInfo Float → Step deps r e (Unit {0})
  unfolding send_sizes send_averages
  send_index info = send_sizes info >> send_averages info

  -- One index; an error of the command ends the loop, and one of the scan passes it over.
  unfoldable pub search_index : Bytes → Step deps r e Bool
  unfolding send_index
  search_index index = do
    reply ←
        talk (λ c. let x = r.do_cmd (codes "FT.INFO" ∷ index ∷ []) c in (if_some x.0 values, x.1))
    case_option reply (pure false) (λ fields.
        case_option (scan_index fields) (pure true) (λ info. send_index info >> pure true))

  -- regexp.MustCompile panics where the expression of the option is none.
  unfoldable pub extract_search_indexes_metrics : Step deps r e (Unit {0})
  unfolding search_index matching
  extract_search_indexes_metrics = do
    reply ← talk (λ c.
        let x = r.do_cmd (codes "FT._LIST" ∷ []) c in (if_some (if_some x.0 values) strings, x.1))
    case_option reply (pure tt) (λ all_search_indexes.
        case_option (compile e.options.check_search_indexes) panic (λ match_string.
          for_while (matching match_string all_search_indexes) search_index >> pure tt))
