-- ===== src/Keys/ParseLaws.antt =====
-- What parseKeyArg returns: only usable pairs, and the pairs of a clean list in their order.
use redis_exporter.Base.{
  ℕ, ◌≡◌, ◌≢◌, ◌≤◌, refl, ◌∙◌, ap, false, Option, none, some, List, [], ◌∷◌, ◌++◌, append_assoc,
  append-nil, map, Bytes, codes, bytes_eq, bytes_eq_iff, pos, ltb_ℤ, All, All-append, All-mono,
  arith, Bool-cases, inl, inr,
}
use redis_exporter.Text.Split.{split, join, split-join, split_part, split-append, Lacks}
use redis_exporter.Text.Trim.{trim_space-graph, IsGraph}
use redis_exporter.Text.Query.{query_unescape_plain, remove_db, remove_db_plain, IsPlain}
use redis_exporter.Text.Number.{
  parse_int, itoa, itoa-IsDigit, itoa-ne-nil, parse_int-itoa, IsDigit, max_i64,
}
use redis_exporter.Keys.Parse.{
  DbKeyPair, KeyArgError, Item, skip, pair, fail, check_pair, parse_frags, parse_item, next_item,
  parse_items, parse_key_arg,
}

-- A pair that may go into a Redis call: neither part is empty, and the database is a number that is
-- not negative.
pub record IsUsable (p : DbKeyPair) : Type 0 where
  pub db_there : p.db ≢ []
  pub key_there : p.key ≢ []
  pub db_number : (parse_int p.db).failed ≡ false
  pub db_not_negative : ltb_ℤ (parse_int p.db).value (pos 0) ≡ false

check_pair-IsUsable :
    (db : Bytes) (key : Option Bytes) (p : DbKeyPair) → check_pair db key ≡ pair p → IsUsable p
unfolding check_pair
check_pair-IsUsable db none p h = absurd (cc)
check_pair-IsUsable db (some key) p h = ground (arith, bytes_eq_iff db [], bytes_eq_iff key [])

parse_frags-IsUsable :
    (frags : List Bytes) (p : DbKeyPair) → parse_frags frags ≡ pair p → IsUsable p
unfolding parse_frags
parse_frags-IsUsable (k ∷ []) p h = check_pair-IsUsable _ _ p h
parse_frags-IsUsable (d ∷ k ∷ []) p h = check_pair-IsUsable _ _ p h
parse_frags-IsUsable _ p h = absurd (cc)

parse_item-IsUsable : (k : Bytes) (p : DbKeyPair) → parse_item k ≡ pair p → IsUsable p
unfolding parse_item
parse_item-IsUsable k p h = ground (arith, parse_frags-IsUsable (split b'=' k) p)

abbrev IsUsableItem : Item → Type 0
IsUsableItem i = (p : DbKeyPair) → i ≡ pair p → IsUsable p

next_item-IsUsable :
    (i : Item) (rest : List DbKeyPair → List DbKeyPair × Option KeyArgError) (keys : List DbKeyPair)
    → IsUsableItem i
    → ((keys' : List DbKeyPair) → All IsUsable keys' → All IsUsable (rest keys').0)
    → All IsUsable keys
    → All IsUsable (next_item i rest keys).0
unfolding next_item
next_item-IsUsable skip rest keys hi hr h = hr keys h
next_item-IsUsable (pair p) rest keys hi hr h =
    hr (keys ++ p ∷ []) (All-append IsUsable keys (p ∷ []) h (hi p refl, tt))
next_item-IsUsable (fail e) rest keys hi hr h = h

parse_items-IsUsable :
    (ks : List Bytes) (keys : List DbKeyPair)
    → All IsUsable keys
    → All IsUsable (parse_items ks keys).0
unfolding parse_items
parse_items-IsUsable [] keys h = h
parse_items-IsUsable (k ∷ ks) keys h =
    next_item-IsUsable (parse_item k) (parse_items ks) keys (parse_item-IsUsable k)
      (parse_items-IsUsable ks) h

-- Every pair that parseKeyArg returns, with or without an error, is usable: neither part is empty,
-- and the database is a number that is not negative.
pub parse_key_arg-IsUsable : (arg : Bytes) → All IsUsable (parse_key_arg arg).0
unfolding parse_key_arg
parse_key_arg-IsUsable arg = elim (Bool-cases (bytes_eq arg [])) [
  | inl e ↦ rw e tt
  | inr e ↦ rw e (parse_items-IsUsable (split b',' arg) [] tt)
]

-- A byte that stands for itself in a list of keys.
abbrev pub IsKeyByte : ℕ → Type 0
IsKeyByte c = IsGraph c × (c ≢ b',') × (c ≢ b'=') × (c ≢ b'%') × (c ≢ b'+')

abbrev print_db : ℕ → Bytes
print_db db = codes "db" ++ itoa db

-- `db3=key`
abbrev pub print_item : ℕ × Bytes → Bytes
print_item (db, key) = print_db db ++ b'=' ∷ key

-- A database that an int64 holds, and a key of visible ASCII characters other than `, = % +`.
abbrev pub IsPrintable : ℕ × Bytes → Type 0
IsPrintable (db, key) = (db ≤ max_i64) × (key ≢ []) × All IsKeyByte key

abbrev pub pair_for : ℕ × Bytes → DbKeyPair
pair_for (db, key) = record { db = itoa db; key = key }

digit_is : (c : ℕ) → IsDigit c → IsKeyByte c × (c ≢ b'd')
digit_is c h = ((omega arith, omega arith, omega arith, omega arith, omega arith), omega arith)

print_db-key_bytes : (db : ℕ) → All IsKeyByte (print_db db)
print_db-key_bytes db = (
  ((omega arith, omega arith, omega arith, omega arith, omega arith)),
  (
    (omega arith, omega arith, omega arith, omega arith, omega arith),
    All-mono IsDigit IsKeyByte (λ c h. (digit_is c h).0) (itoa db) (itoa-IsDigit db),
  ),
)

key-IsGraph : (s : Bytes) → All IsKeyByte s → All IsGraph s
key-IsGraph = All-mono IsKeyByte IsGraph (λ c h. h.0)

key-Lacks_eq : (s : Bytes) → All IsKeyByte s → Lacks b'=' s
key-Lacks_eq = All-mono IsKeyByte _ (λ c h. h.2)

remove_db-print : (db : ℕ) → remove_db (print_db db) ≡ itoa db
remove_db-print db =
    unfold remove_db in
    remove_db_plain (itoa db)
      (All-mono IsDigit _ (λ c h. (digit_is c h).1) (itoa db) (itoa-IsDigit db))

check_pair-print :
    (x : ℕ × Bytes) → IsPrintable x → check_pair (itoa x.0) (some x.1) ≡ pair (pair_for x)
unfolding check_pair
check_pair-print (db, key) (small, there, plain) =
    rw (parse_int-itoa db small)
      (ground (arith, bytes_eq_iff (itoa db) [], itoa-ne-nil db, bytes_eq_iff key []))

split-print_item :
    (db : ℕ) (key : Bytes)
    → All IsKeyByte key
    → split b'=' (print_item (db, key)) ≡ print_db db ∷ key ∷ []
split-print_item db key plain =
    split-append b'=' (print_db db) key (key-Lacks_eq (print_db db) (print_db-key_bytes db))
    ∙ ap (λ l. print_db db ∷ l) (split_part b'=' key (key-Lacks_eq key plain))

parse_frags-print :
    (x : ℕ × Bytes) → IsPrintable x → parse_frags (print_db x.0 ∷ x.1 ∷ []) ≡ pair (pair_for x)
unfolding parse_frags
parse_frags-print (db, key) (small, there, plain) =
    rw
      (
        trim_space-graph (print_db db) (key-IsGraph (print_db db) (print_db-key_bytes db)),
        trim_space-graph key (key-IsGraph key plain),
        remove_db-print db,
        query_unescape_plain key (All-mono IsKeyByte IsPlain (λ c h. (h.3, h.4)) key plain),
      )
      (check_pair-print (db, key) (small, there, plain))

parse_item-print : (x : ℕ × Bytes) → IsPrintable x → parse_item (print_item x) ≡ pair (pair_for x)
unfolding parse_item bytes_eq
parse_item-print (db, key) h = rw (split-print_item db key h.2) (parse_frags-print (db, key) h)

item-Lacks : (x : ℕ × Bytes) → IsPrintable x → Lacks b',' (print_item x)
item-Lacks (db, key) (_, _, plain) =
    All-append _ (print_db db) (b'=' ∷ key)
      (All-mono IsKeyByte _ (λ c h. h.1) (print_db db) (print_db-key_bytes db))
      (omega arith, All-mono IsKeyByte _ (λ c h. h.1) key plain)

items-Lacks : (xs : List (ℕ × Bytes)) → All IsPrintable xs → All (Lacks b',') (map print_item xs)
items-Lacks [] h = tt
items-Lacks (x ∷ xs) (h, hs) = (item-Lacks x h, items-Lacks xs hs)

parse_items-print :
    (xs : List (ℕ × Bytes)) (keys : List DbKeyPair)
    → All IsPrintable xs
    → parse_items (map print_item xs) keys ≡ (keys ++ map pair_for xs, none)
unfolding parse_items next_item
parse_items-print [] keys h = rw append-nil
parse_items-print (x ∷ xs) keys (h, hs) =
    rw (parse_item-print x h) (rw (parse_items-print xs (keys ++ pair_for x ∷ []) hs, append_assoc))

join_there : (c : ℕ) (p : Bytes) (ps : List Bytes) → bytes_eq (join b',' ((c ∷ p) ∷ ps)) [] ≡ false
unfolding join bytes_eq
join_there c p [] = refl
join_there c p (q ∷ ps) = refl

-- A list `db1=key1,db2=key2,…` is read back as those pairs, in that order and without an error, for
-- databases that an int64 holds and keys of visible ASCII characters other than `, = % +`.
pub parse_key_arg-print :
    (xs : List (ℕ × Bytes))
    → All IsPrintable xs
    → parse_key_arg (join b',' (map print_item xs)) ≡ (map pair_for xs, none)
unfolding parse_key_arg
parse_key_arg-print [] h = unfold join bytes_eq in refl
parse_key_arg-print (x ∷ xs) (h, hs) =
    rw
      (
        join_there b'd' _ (map print_item xs),
        split-join b',' (print_item x) (map print_item xs) (items-Lacks (x ∷ xs) (h, hs)),
      )
      (parse_items-print (x ∷ xs) [] (h, hs))
