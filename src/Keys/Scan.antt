-- ===== src/Keys/Scan.antt =====
-- scanKeys, getKeysCount and getKeysFromPatterns. They only talk to Redis: methods over the
-- connection. `fuel` bounds the rounds of the loop of scanKeys.
use redis_exporter.Base.{
  ℕ, zero, suc, Bool, true, false, ◌||◌, Option, none, some, List, [], ◌∷◌, ◌++◌, map, Bytes, codes,
  if◌then◌else◌, bytes_eq, ℤ, pos, eq_ℤ, length, ◌==◌,
}
use redis_exporter.Run.{Run, ◌>>=◌, pure, panic, case_option}
use redis_exporter.Redis.{Redis, int_arg}
use redis_exporter.Keys.Parse.{DbKeyPair}

-- `[\?\*\[\]\^]+` matches somewhere.
unfoldable pub is_glob : Bytes → Bool
is_glob [] = false
is_glob (c ∷ s) = c == b'?' || c == b'*' || c == b'[' || c == b']' || c == b'^' || is_glob s

-- `[cursor, keys]`, the two parts of a reply of SCAN.
abbrev pub two_parts {ℓ} : {A : Type ℓ} → List A → Option (A × A)
two_parts (a ∷ b ∷ []) = some (a, b)
two_parts _ = none

abbrev pub concat {ℓ} : {A : Type ℓ} → List (List A) → List A
concat [] = []
concat (x ∷ xs) = x ++ concat xs

module _ (r : Redis) where
  open r use {Reply, Conn, values, strings, int}

  unfoldable pub do_redis_cmd : List Bytes → Run Conn (Option Reply)
  do_redis_cmd args c = some (r.do_cmd args c)

  abbrev values_of_reply : Option Reply → Option (List Reply)
  values_of_reply none = none
  values_of_reply (some reply) = values reply

  abbrev keys_of : Reply → List Reply
  keys_of reply = elim (values reply) [ none ↦ [] | some ks ↦ ks ]

  abbrev pub scan_args : ℤ → Bytes → ℤ → List Bytes
  scan_args iter pattern count =
      codes "SCAN" ∷ int_arg iter ∷ codes "MATCH" ∷ pattern ∷ codes "COUNT" ∷ int_arg count ∷ []

  -- The cursor and the keys of one round; `none` for an error.
  unfoldable pub scan_page : ℤ → Bytes → ℤ → Run Conn (Option (ℤ × List Reply))
  unfolding do_redis_cmd
  scan_page iter pattern count = do
    reply ← do_redis_cmd (scan_args iter pattern count)
    pure (elim (values_of_reply reply) [
      | none ↦ none
      | some arr ↦ elim (two_parts arr) [ none ↦ none | some (a, b) ↦ some (int a, keys_of b) ]
    ])

  -- The end of a round: `rest` is the rounds behind it.
  abbrev pub scan_next :
      (ℤ → List Reply → Run Conn (Option (List Reply)))
      → List Reply
      → Option (ℤ × List Reply)
      → Run Conn (Option (List Reply))
  scan_next rest keys none = pure none
  scan_next rest keys (some (iter, page)) = elim (eq_ℤ iter (pos 0)) [
    | true ↦ pure (some (keys ++ page))
    | false ↦ rest iter (keys ++ page)
  ]

  -- The loop, from a cursor and with the keys so far. The result `none` is an error.
  unfoldable pub scan_loop : ℕ → Bytes → ℤ → ℤ → List Reply → Run Conn (Option (List Reply))
  scan_loop zero pattern count iter keys = panic
  scan_loop (suc fuel) pattern count iter keys =
      scan_page iter pattern count >>= scan_next (scan_loop fuel pattern count) keys

  unfoldable pub scan_keys : ℕ → Bytes → ℤ → Run Conn (Option (List Reply))
  scan_keys fuel pattern count =
      if bytes_eq pattern [] then pure none else scan_loop fuel pattern count (pos 0) []

  unfoldable pub get_keys_count : ℕ → Bytes → ℤ → Run Conn (Option ℕ)
  get_keys_count fuel pattern count = do
    keys ← scan_keys fuel pattern count
    pure (elim keys [ none ↦ none | some ks ↦ some (length ks) ])

  abbrev strings_of : Option (List Reply) → Option (List Bytes)
  strings_of none = none
  strings_of (some keys) = strings keys

  abbrev pub with_db : Bytes → List Bytes → List DbKeyPair
  with_db db = map (λ name. record { db = db; key = name })

  abbrev found_keys : Bytes → Option (List Bytes) → List DbKeyPair
  found_keys db none = []
  found_keys db (some names) = with_db db names

  -- The expanded keys so far. The flag is `err != nil`: SELECT failed.
  unfoldable pub expand_keys :
      ℕ → ℤ → List DbKeyPair → List DbKeyPair → Run Conn (List DbKeyPair × Bool)
  expand_keys fuel count [] expanded = pure (expanded, false)
  expand_keys fuel count (k ∷ ks) expanded =
      if is_glob k.key
      then (do
        selected ← do_redis_cmd (codes "SELECT" ∷ k.db ∷ [])
        case_option selected (pure (expanded, true)) (λ _. do
          keys ← scan_keys fuel k.key count
          expand_keys fuel count ks (expanded ++ found_keys k.db (strings_of keys))))
      else expand_keys fuel count ks (expanded ++ k ∷ [])

  unfoldable pub get_keys_from_patterns : ℕ → List DbKeyPair → ℤ → Run Conn (List DbKeyPair × Bool)
  unfolding expand_keys
  get_keys_from_patterns fuel keys count = expand_keys fuel count keys []
