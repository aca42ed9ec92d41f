-- ===== src/Keys/ScanLaws.antt =====
-- The loop over the pages of SCAN collects every page and ends.
use redis_exporter.Base.{
  ℕ, zero, suc, ◌≡◌, ◌≢◌, ◌≤◌, ◌∙◌, true, false, Option, some, List, [], ◌∷◌, ◌++◌, append_assoc,
  append-nil, Bytes, bytes_eq-nil_ne, ℤ, pos, eq_ℤ, length, arith, All,
}
use redis_exporter.Redis.{Redis}
use redis_exporter.Keys.Parse.{DbKeyPair}
use redis_exporter.Keys.Scan.{
  is_glob, concat, scan_page, scan_next, scan_loop, scan_keys, expand_keys, get_keys_from_patterns,
}

module _ (r : Redis) (pattern : Bytes) (count : ℤ) where
  open r use {Reply, Conn}

  -- From this cursor and connection the server answers with these pages, the last with cursor 0, and
  -- leaves the last connection.
  pub data Pages : ℤ → Conn → List (List Reply) → Conn → Type 0 where
    last :
        {iter : ℤ} {c : Conn} (page : List Reply) {c' : Conn} (cursor : ℤ)
        → eq_ℤ cursor (pos 0) ≡ true
        → scan_page r iter pattern count c ≡ some (some (cursor, page), c')
        → Pages iter c (page ∷ []) c'
    more :
        {iter : ℤ} {c : Conn} (page : List Reply) {c' : Conn} (cursor : ℤ)
        {pages : List (List Reply)} {c'' : Conn}
        → eq_ℤ cursor (pos 0) ≡ false
        → scan_page r iter pattern count c ≡ some (some (cursor, page), c')
        → Pages cursor c' pages c''
        → Pages iter c (page ∷ pages) c''

  scan_loop_step :
      (fuel : ℕ) (iter : ℤ) (keys : List Reply) (c : Conn) (x : Option (ℤ × List Reply)) (c' : Conn)
      → scan_page r iter pattern count c ≡ some (x, c')
      → scan_loop r (suc fuel) pattern count iter keys c
        ≡ scan_next r (scan_loop r fuel pattern count) keys x c'
  unfolding scan_loop
  scan_loop_step fuel iter keys c x c' e = cc

  scan_loop-Pages :
      {iter : ℤ} {c c' : Conn} {pages : List (List Reply)} (fuel : ℕ) (keys : List Reply)
      → Pages iter c pages c'
      → length pages ≤ fuel
      → scan_loop r fuel pattern count iter keys c ≡ some (some (keys ++ concat pages), c')
  scan_loop-Pages zero keys (last page cursor z e) h = absurd (omega arith)
  scan_loop-Pages zero keys (more page cursor z e p) h = absurd (omega arith)
  scan_loop-Pages (suc fuel) keys (last page cursor z e) h =
      scan_loop_step fuel _ keys _ _ _ e ∙ rw (z, scan_next) (rw append-nil)
  scan_loop-Pages {iter = iter} {c = c} {c' = c'} (suc fuel) keys
        (more page {c' = mid} cursor {pages = pages} z e p) h =
      scan_loop_step fuel _ keys _ _ _ e
      ∙ rw (z, scan_next)
          (scan_loop-Pages {iter = cursor} {c = mid} {c' = c'} {pages = pages} fuel (keys ++ page) p
              (omega arith)
            ∙ rw append_assoc)

  -- If, for a pattern that is not empty, the server answers with pages that end with cursor 0,
  -- scanKeys ends and returns all their keys, in order, after as many rounds as there are pages.
  pub scan_keys-Pages :
      {c c' : Conn} {pages : List (List Reply)} (fuel : ℕ)
      → pattern ≢ []
      → Pages (pos 0) c pages c'
      → length pages ≤ fuel
      → scan_keys r fuel pattern count c ≡ some (some (concat pages), c')
  unfolding scan_keys
  scan_keys-Pages fuel there p h = rw (bytes_eq-nil_ne pattern there) (scan_loop-Pages fuel [] p h)

module _ (r : Redis) where
  open r use {Reply, Conn}

  expand_keys-plain :
      (fuel : ℕ) (count : ℤ) (keys expanded : List DbKeyPair) (c : Conn)
      → All (λ k. is_glob k.key ≡ false) keys
      → expand_keys r fuel count keys expanded c ≡ some ((expanded ++ keys, false), c)
  unfolding expand_keys
  expand_keys-plain fuel count [] expanded c h = rw append-nil
  expand_keys-plain fuel count (k ∷ ks) expanded c (h, hs) =
      rw h (expand_keys-plain fuel count ks (expanded ++ k ∷ []) c hs ∙ rw append_assoc)

  -- Keys without a pattern character are passed on as they are, and no command is sent for them.
  get_keys_from_patterns-plain :
      (fuel : ℕ) (keys : List DbKeyPair) (count : ℤ) (c : Conn)
      → All (λ k. is_glob k.key ≡ false) keys
      → get_keys_from_patterns r fuel keys count c ≡ some ((keys, false), c)
  unfolding get_keys_from_patterns
  get_keys_from_patterns-plain fuel keys count c h = expand_keys-plain fuel count keys [] c h
