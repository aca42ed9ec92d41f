-- ===== src/Keys/ByDb.antt =====
-- Grouping the keys by database loses none and keeps their order.
use redis_exporter.Base.{
  ◌≡◌, refl, sym, ap, ◌∙◌, Bool, true, false, Option, none, some, List, [], ◌∷◌, ◌++◌, append_assoc,
  append-nil, Bytes, if◌then◌else◌, Assoc, lookup, insert, lookup-insert, bytes_eq, bytes_eq_iff,
}
use redis_exporter.Keys.Parse.{DbKeyPair}
use redis_exporter.Keys.Pipelined.{add_key, keys_by_db}

-- The keys of a group; none for a database that has no group.
abbrev pub keys_in : Option (List Bytes) → List Bytes
keys_in none = []
keys_in (some keys) = keys

-- The keys of a database, in their order.
abbrev pub keys_of_db : Bytes → List DbKeyPair → List Bytes
keys_of_db db [] = []
keys_of_db db (k ∷ ks) = (if bytes_eq k.db db then k.key ∷ [] else []) ++ keys_of_db db ks

keys_in-if :
    (b : Bool) (keys : List Bytes) (o : Option (List Bytes))
    → keys_in (if b then some keys else o) ≡ (if b then keys else keys_in o)
keys_in-if true keys o = refl
keys_in-if false keys o = refl

appended :
    (b : Bool) (old : Option (List Bytes)) (o : Option (List Bytes)) (key : Bytes)
    → (b ≡ true → o ≡ old)
    → (if b then keys_in old ++ key ∷ [] else keys_in o) ≡ keys_in o ++ (if b then key ∷ [] else [])
appended true old o key h = rw (h refl)
appended false old o key h = sym (append-nil _)

insert_group :
    (k : DbKeyPair) (groups : Assoc (List Bytes)) (old : Option (List Bytes))
    → lookup k.db groups ≡ old
    → add_key groups k ≡ insert k.db (keys_in old ++ k.key ∷ []) groups
unfolding add_key
insert_group k groups none e = rw (e, add_key)
insert_group k groups (some a) e = rw (e, add_key)

add_key-lookup :
    (db : Bytes) (k : DbKeyPair) (groups : Assoc (List Bytes))
    → keys_in (lookup db (add_key groups k))
      ≡ keys_in (lookup db groups) ++ (if bytes_eq k.db db then k.key ∷ [] else [])
add_key-lookup db k groups =
    let old = lookup k.db groups in
    ap (λ m. keys_in (lookup db m)) (insert_group k groups old refl)
    ∙ ap keys_in (lookup-insert k.db db (keys_in old ++ k.key ∷ []) groups)
    ∙ keys_in-if (bytes_eq k.db db) (keys_in old ++ k.key ∷ []) (lookup db groups)
    ∙ appended (bytes_eq k.db db) old (lookup db groups) k.key
        (λ e. ap (λ n. lookup n groups) (sym ((bytes_eq_iff k.db db).0 e)))

by_db :
    (db : Bytes) (ks : List DbKeyPair) (groups : Assoc (List Bytes))
    → keys_in (lookup db (keys_by_db ks groups)) ≡ keys_in (lookup db groups) ++ keys_of_db db ks
unfolding keys_by_db
by_db db [] groups = sym (append-nil _)
by_db db (k ∷ ks) groups =
    by_db db ks (add_key groups k)
    ∙ ap (λ l. l ++ keys_of_db db ks) (add_key-lookup db k groups)
    ∙ rw append_assoc

-- The groups that the pipelined collection makes of its keys hold, for each database, exactly the
-- keys that were given for it, in the given order and as often as they were given.
pub keys_by_db-keys_of_db :
    (db : Bytes) (all_keys : List DbKeyPair)
    → keys_in (lookup db (keys_by_db all_keys [])) ≡ keys_of_db db all_keys
unfolding lookup
keys_by_db-keys_of_db db all_keys = by_db db all_keys []
