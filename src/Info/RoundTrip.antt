-- ===== src/Info/RoundTrip.antt =====
-- What Redis prints is read back: the values of the Keyspace, Replication, Commandstats and
-- Errorstats sections.
use redis_exporter.Base.{
  ◌≡◌, refl, ◌∙◌, ap, true, false, some, List, [], ◌∷◌, ◌++◌, map, Bytes, codes, arith, All,
  All-append, Assoc, lookup, insert, has_prefix, pos, bytes_eq,
}
use redis_exporter.Deps.{Deps}
use redis_exporter.Text.Split.{split, join, split-join, split_part, split-append, Lacks}
use redis_exporter.Info.Fields.{is_slave}
use redis_exporter.Info.Parse.{
  if_parsed, parse_pairs, extract_val, keyspace_parts, parse_db_keyspace_string, slave_of,
  parse_connected_slave_string, minus_one,
}

-- `key=value`
abbrev pub print_pair : Bytes × Bytes → Bytes
print_pair (k, v) = k ++ b'=' ∷ v

-- Neither the name nor the value holds a separator.
abbrev pub IsClean : Bytes × Bytes → Type 0
IsClean (k, v) = Lacks b'=' k × Lacks b',' k × Lacks b'=' v × Lacks b',' v

-- `k1=v1,k2=v2,…`
abbrev pub print_pairs : List (Bytes × Bytes) → Bytes
print_pairs ps = join b',' (map print_pair ps)

split-print_pair : (p : Bytes × Bytes) → IsClean p → split b'=' (print_pair p) ≡ p.0 ∷ p.1 ∷ []
split-print_pair (k, v) (hk, _, hv, _) =
    split-append b'=' k v hk ∙ ap (λ l. k ∷ l) (split_part b'=' v hv)

print_pair-Lacks : (p : Bytes × Bytes) → IsClean p → Lacks b',' (print_pair p)
print_pair-Lacks (k, v) (_, hk, _, hv) = All-append _ k (b'=' ∷ v) hk ((ground arith), hv)

print_pairs-Lacks :
    (ps : List (Bytes × Bytes)) → All IsClean ps → All (Lacks b',') (map print_pair ps)
print_pairs-Lacks [] h = tt
print_pairs-Lacks (p ∷ ps) (h, hs) = (print_pair-Lacks p h, print_pairs-Lacks ps hs)

split-print_pairs :
    (p : Bytes × Bytes) (ps : List (Bytes × Bytes))
    → All IsClean (p ∷ ps)
    → split b',' (print_pairs (p ∷ ps)) ≡ map print_pair (p ∷ ps)
split-print_pairs p ps h =
    split-join b',' (print_pair p) (map print_pair ps) (print_pairs-Lacks (p ∷ ps) h)

-- `m[k] = v` for each pair.
abbrev insert_pairs : List (Bytes × Bytes) → Assoc Bytes → Assoc Bytes
insert_pairs [] m = m
insert_pairs ((k, v) ∷ ps) m = insert_pairs ps (insert k v m)

parse_pairs-map :
    (ps : List (Bytes × Bytes)) (m : Assoc Bytes)
    → All IsClean ps
    → parse_pairs (map print_pair ps) m ≡ some (insert_pairs ps m)
unfolding parse_pairs
parse_pairs-map [] m h = refl
parse_pairs-map ((k, v) ∷ ps) m (h, hs) =
    rw (split-print_pair (k, v) h, parse_pairs) (parse_pairs-map ps (insert k v m) hs)

module _ (deps : Deps) where
  open deps use {Float, of_ℤ, parse_float, div}

  -- ParseFloat takes the text.
  abbrev pub IsFloat : Bytes → Type 0
  IsFloat s = (parse_float s).failed ≡ false

  extract_val-print_pair :
      (p : Bytes × Bytes)
      → IsClean p
      → IsFloat p.1
      → extract_val deps (print_pair p) ≡ parse_float p.1
  unfolding extract_val
  extract_val-print_pair p clean fine = rw (split-print_pair p clean, extract_val) (ground arith)

  abbrev pub float_of : Bytes → Float
  float_of s = (parse_float s).value

  -- A printed pair whose value ParseFloat takes.
  abbrev pub IsField : Bytes × Bytes → Type 0
  IsField p = IsClean p × IsFloat p.1

  if_parsed-extract_val :
      (p : Bytes × Bytes)
      → IsField p
      → if_parsed (extract_val deps (print_pair p)) ≡ some (float_of p.1)
  if_parsed-extract_val p (clean, fine) = rw (extract_val-print_pair p clean fine, fine)

  keyspace_parts-print :
      (keys expires ttl : Bytes × Bytes)
      → IsField keys
      → IsField expires
      → IsField ttl
      → keyspace_parts deps (print_pair keys ∷ print_pair expires ∷ print_pair ttl ∷ [])
        ≡ some (record {
          keys_total = float_of keys.1;
          keys_expiring_total = float_of expires.1;
          avg_ttl = div (float_of ttl.1) (of_ℤ (pos 1000));
          keys_cached_total = minus_one deps;
        })
  unfolding keyspace_parts
  keyspace_parts-print keys expires ttl hk he ht = rw (
    if_parsed-extract_val keys hk,
    if_parsed-extract_val expires he,
    if_parsed-extract_val ttl ht,
  )

  -- A line of the Keyspace section in which Redis printed the number of keys, of expiring keys and
  -- the average TTL in milliseconds is read back, with the TTL in seconds, and with -1 for the
  -- cached keys that are not there.
  pub parse_db_keyspace_string-print :
      (key : Bytes) (keys expires ttl : Bytes × Bytes)
      → has_prefix (codes "db") key ≡ true
      → IsField keys
      → IsField expires
      → IsField ttl
      → parse_db_keyspace_string deps key (print_pairs (keys ∷ expires ∷ ttl ∷ []))
        ≡ some (record {
          keys_total = float_of keys.1;
          keys_expiring_total = float_of expires.1;
          avg_ttl = div (float_of ttl.1) (of_ℤ (pos 1000));
          keys_cached_total = minus_one deps;
        })
  unfolding parse_db_keyspace_string
  parse_db_keyspace_string-print key keys expires ttl db hk he ht =
      rw (db, split-print_pairs keys (expires ∷ ttl ∷ []) (hk.0, (he.0, (ht.0, tt))))
        (keyspace_parts-print keys expires ttl hk he ht)

  parse_connected_slave_string-pairs :
      (name : Bytes) (p : Bytes × Bytes) (ps : List (Bytes × Bytes))
      → is_slave name ≡ true
      → All IsClean (p ∷ ps)
      → parse_connected_slave_string deps name (print_pairs (p ∷ ps))
        ≡ slave_of deps (insert_pairs (p ∷ ps) [])
  unfolding parse_connected_slave_string
  parse_connected_slave_string-pairs name p ps slave clean =
      rw (slave, split-print_pairs p ps clean, parse_pairs-map (p ∷ ps) [] clean)

  -- The fields of a replica from Redis 3.0 on.
  abbrev pub slave_fields : Bytes → Bytes → Bytes → Bytes → Bytes → List (Bytes × Bytes)
  slave_fields ip port state offset lag =
      (codes "ip", ip)
      ∷ (codes "port", port)
      ∷ (codes "state", state)
      ∷ (codes "offset", offset)
      ∷ (codes "lag", lag)
      ∷ []

  -- A replica whose fields Redis printed is read back: its address, its state, and its offset and lag
  -- as floats. The name is `slave` and digits, no value holds a separator, and ParseFloat takes the
  -- offset and the lag.
  pub parse_connected_slave_string-print :
      (name ip port state offset lag : Bytes)
      → is_slave name ≡ true
      → All IsClean (slave_fields ip port state offset lag)
      → IsFloat offset
      → IsFloat lag
      → parse_connected_slave_string deps name (print_pairs (slave_fields ip port state offset lag))
        ≡ some (record {
          offset = float_of offset;
          ip = ip;
          port = port;
          state = state;
          lag = float_of lag;
        })
  unfolding slave_of insert lookup bytes_eq
  parse_connected_slave_string-print name ip port state offset lag slave clean fo fl =
      parse_connected_slave_string-pairs name (codes "ip", ip)
        ((codes "port", port)
          ∷ (codes "state", state)
          ∷ (codes "offset", offset)
          ∷ (codes "lag", lag)
          ∷ [])
        slave clean
      ∙ rw (fo, fl)
