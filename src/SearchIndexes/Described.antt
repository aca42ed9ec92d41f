-- ===== src/SearchIndexes/Described.antt =====
-- The metrics of search indexes are in the table of descriptions.
use redis_exporter.Base.{refl, codes, lookup, bytes_eq}
use redis_exporter.Metrics.Safe.{IsDescribed}
use redis_exporter.Tables.Init.{initial_descriptions}

pub search_index_avg_per_doc_records :
    IsDescribed initial_descriptions (codes "search_index_avg_per_doc_records")
unfolding initial_descriptions lookup bytes_eq
search_index_avg_per_doc_records = record { there = (_, refl) }

pub search_index_avg_per_record_bytes :
    IsDescribed initial_descriptions (codes "search_index_avg_per_record_bytes")
unfolding initial_descriptions lookup bytes_eq
search_index_avg_per_record_bytes = record { there = (_, refl) }

pub search_index_avg_per_record_offset_bits :
    IsDescribed initial_descriptions (codes "search_index_avg_per_record_offset_bits")
unfolding initial_descriptions lookup bytes_eq
search_index_avg_per_record_offset_bits = record { there = (_, refl) }

pub search_index_avg_per_term_offsets :
    IsDescribed initial_descriptions (codes "search_index_avg_per_term_offsets")
unfolding initial_descriptions lookup bytes_eq
search_index_avg_per_term_offsets = record { there = (_, refl) }

pub search_index_cleaning : IsDescribed initial_descriptions (codes "search_index_cleaning")
unfolding initial_descriptions lookup bytes_eq
search_index_cleaning = record { there = (_, refl) }

pub search_index_doc_table_size_bytes :
    IsDescribed initial_descriptions (codes "search_index_doc_table_size_bytes")
unfolding initial_descriptions lookup bytes_eq
search_index_doc_table_size_bytes = record { there = (_, refl) }

pub search_index_geoshapes_size_bytes :
    IsDescribed initial_descriptions (codes "search_index_geoshapes_size_bytes")
unfolding initial_descriptions lookup bytes_eq
search_index_geoshapes_size_bytes = record { there = (_, refl) }

pub search_index_hash_indexing_failures :
    IsDescribed initial_descriptions (codes "search_index_hash_indexing_failures")
unfolding initial_descriptions lookup bytes_eq
search_index_hash_indexing_failures = record { there = (_, refl) }

pub search_index_indexing : IsDescribed initial_descriptions (codes "search_index_indexing")
unfolding initial_descriptions lookup bytes_eq
search_index_indexing = record { there = (_, refl) }

pub search_index_inverted_size_bytes :
    IsDescribed initial_descriptions (codes "search_index_inverted_size_bytes")
unfolding initial_descriptions lookup bytes_eq
search_index_inverted_size_bytes = record { there = (_, refl) }

pub search_index_key_table_size_bytes :
    IsDescribed initial_descriptions (codes "search_index_key_table_size_bytes")
unfolding initial_descriptions lookup bytes_eq
search_index_key_table_size_bytes = record { there = (_, refl) }

pub search_index_max_doc_id : IsDescribed initial_descriptions (codes "search_index_max_doc_id")
unfolding initial_descriptions lookup bytes_eq
search_index_max_doc_id = record { there = (_, refl) }

pub search_index_num_docs : IsDescribed initial_descriptions (codes "search_index_num_docs")
unfolding initial_descriptions lookup bytes_eq
search_index_num_docs = record { there = (_, refl) }

pub search_index_num_records : IsDescribed initial_descriptions (codes "search_index_num_records")
unfolding initial_descriptions lookup bytes_eq
search_index_num_records = record { there = (_, refl) }

pub search_index_num_terms : IsDescribed initial_descriptions (codes "search_index_num_terms")
unfolding initial_descriptions lookup bytes_eq
search_index_num_terms = record { there = (_, refl) }

pub search_index_number_of_uses_total :
    IsDescribed initial_descriptions (codes "search_index_number_of_uses_total")
unfolding initial_descriptions lookup bytes_eq
search_index_number_of_uses_total = record { there = (_, refl) }

pub search_index_offset_vectors_size_bytes :
    IsDescribed initial_descriptions (codes "search_index_offset_vectors_size_bytes")
unfolding initial_descriptions lookup bytes_eq
search_index_offset_vectors_size_bytes = record { there = (_, refl) }

pub search_index_percent_indexed :
    IsDescribed initial_descriptions (codes "search_index_percent_indexed")
unfolding initial_descriptions lookup bytes_eq
search_index_percent_indexed = record { there = (_, refl) }

pub search_index_sortable_values_size_bytes :
    IsDescribed initial_descriptions (codes "search_index_sortable_values_size_bytes")
unfolding initial_descriptions lookup bytes_eq
search_index_sortable_values_size_bytes = record { there = (_, refl) }

pub search_index_tag_overhead_size_bytes :
    IsDescribed initial_descriptions (codes "search_index_tag_overhead_size_bytes")
unfolding initial_descriptions lookup bytes_eq
search_index_tag_overhead_size_bytes = record { there = (_, refl) }

pub search_index_text_overhead_size_bytes :
    IsDescribed initial_descriptions (codes "search_index_text_overhead_size_bytes")
unfolding initial_descriptions lookup bytes_eq
search_index_text_overhead_size_bytes = record { there = (_, refl) }

pub search_index_total_index_memory_size_bytes :
    IsDescribed initial_descriptions (codes "search_index_total_index_memory_size_bytes")
unfolding initial_descriptions lookup bytes_eq
search_index_total_index_memory_size_bytes = record { there = (_, refl) }

pub search_index_total_inverted_index_blocks :
    IsDescribed initial_descriptions (codes "search_index_total_inverted_index_blocks")
unfolding initial_descriptions lookup bytes_eq
search_index_total_inverted_index_blocks = record { there = (_, refl) }

pub search_index_vector_index_size_bytes :
    IsDescribed initial_descriptions (codes "search_index_vector_index_size_bytes")
unfolding initial_descriptions lookup bytes_eq
search_index_vector_index_size_bytes = record { there = (_, refl) }

pub ruleset search_described = (
  search_index_avg_per_doc_records, search_index_avg_per_record_bytes,
  search_index_avg_per_record_offset_bits, search_index_avg_per_term_offsets, search_index_cleaning,
  search_index_doc_table_size_bytes, search_index_geoshapes_size_bytes,
  search_index_hash_indexing_failures, search_index_indexing, search_index_inverted_size_bytes,
  search_index_key_table_size_bytes, search_index_max_doc_id, search_index_num_docs,
  search_index_num_records, search_index_num_terms, search_index_number_of_uses_total,
  search_index_offset_vectors_size_bytes, search_index_percent_indexed,
  search_index_sortable_values_size_bytes, search_index_tag_overhead_size_bytes,
  search_index_text_overhead_size_bytes, search_index_total_index_memory_size_bytes,
  search_index_total_inverted_index_blocks, search_index_vector_index_size_bytes,
)
