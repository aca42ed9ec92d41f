-- ===== src/KeyGroups/Pages.antt =====
-- What the pages of the Lua script add up to, group by group.
use redis_exporter.Base.{
  ℕ, zero, suc, ◌≤◌, ◌≡◌, refl, sym, ap, ◌∙◌, true, false, Option, some, List, [], ◌∷◌, ◌++◌,
  append-nil, Bytes, ℤ, pos, eq_ℤ, length, Assoc, lookup, All, arith,
}
use redis_exporter.Run.{case_option}
use redis_exporter.Redis.{Redis}
use redis_exporter.Keys.Scan.{concat}
use redis_exporter.KeyGroups.Gather.{
  KeyGroupMetrics, add_group, add_groups, groups_of, script_page, page_done, page_next, gather_loop,
  gather_key_group_metrics,
}
use redis_exporter.KeyGroups.GroupSums.{
  count_of, memory_of, count_named, memory_named, IsWords, add_groups_sums,
}

module _ (r : Redis) (batch_size : ℤ) (key_groups : List Bytes) where
  open r use {Reply, Conn}

  -- From this cursor and connection the script answers with these pages of groups, the last with
  -- cursor 0, and leaves the last connection.
  pub data ScriptPages : ℤ → Conn → List (List KeyGroupMetrics) → Conn → Type 0 where
    last_page :
        {iter : ℤ} {c : Conn} (page : List Reply) (gs : List KeyGroupMetrics) {c' : Conn}
        (cursor : ℤ)
        → eq_ℤ cursor (pos 0) ≡ true
        → groups_of r page ≡ some gs
        → script_page r iter batch_size key_groups c ≡ some (some (cursor, page), c')
        → ScriptPages iter c (gs ∷ []) c'
    more_pages :
        {iter : ℤ} {c : Conn} (page : List Reply) (gs : List KeyGroupMetrics) {c' : Conn}
        (cursor : ℤ) {pages : List (List KeyGroupMetrics)} {c'' : Conn}
        → eq_ℤ cursor (pos 0) ≡ false
        → groups_of r page ≡ some gs
        → script_page r iter batch_size key_groups c ≡ some (some (cursor, page), c')
        → ScriptPages cursor c' pages c''
        → ScriptPages iter c (gs ∷ pages) c''

  add_groups-append :
      (gs hs : List KeyGroupMetrics) (groups : Assoc KeyGroupMetrics)
      → add_groups (gs ++ hs) groups ≡ add_groups hs (add_groups gs groups)
  unfolding add_groups
  add_groups-append [] hs groups = refl
  add_groups-append (g ∷ gs) hs groups = add_groups-append gs hs (add_group g groups)

  gather_loop_step :
      (fuel : ℕ) (iter : ℤ) (groups : Assoc KeyGroupMetrics) (c : Conn)
      (x : Option (ℤ × List Reply)) (c' : Conn)
      → script_page r iter batch_size key_groups c ≡ some (x, c')
      → gather_loop r (suc fuel) batch_size key_groups iter groups c
        ≡ page_next r (gather_loop r fuel batch_size key_groups) groups x c'
  unfolding gather_loop
  gather_loop_step fuel iter groups c x c' e = cc

  gather_loop-ScriptPages :
      {iter : ℤ} {c c' : Conn} {pages : List (List KeyGroupMetrics)} (fuel : ℕ)
      (groups : Assoc KeyGroupMetrics)
      → ScriptPages iter c pages c'
      → length pages ≤ fuel
      → gather_loop r fuel batch_size key_groups iter groups c
        ≡ some (some (add_groups (concat pages) groups), c')
  unfolding case_option
  gather_loop-ScriptPages zero groups (last_page page gs cursor z g e) h = absurd (omega arith)
  gather_loop-ScriptPages zero groups (more_pages page gs cursor z g e p) h = absurd (omega arith)
  gather_loop-ScriptPages (suc fuel) groups (last_page page gs cursor z g e) h =
      gather_loop_step fuel _ groups _ _ _ e
      ∙ rw (g, case_option) (rw (z, page_done) (rw append-nil))
  gather_loop-ScriptPages {iter = iter} {c = c} {c' = c'} (suc fuel) groups
        (more_pages page gs {c' = mid} cursor {pages = pages} z g e p) h =
      gather_loop_step fuel _ groups _ _ _ e
      ∙ rw (g, case_option)
          (rw (z, page_done)
            (gather_loop-ScriptPages {iter = cursor} {c = mid} {c' = c'} {pages = pages} fuel
                (add_groups gs groups) p (omega arith)
              ∙ ap (λ m. some (some m, c')) (sym (add_groups-append gs (concat pages) groups))))

  -- If the script answers with pages of groups that end with cursor 0, gatherKeyGroupMetrics returns a
  -- map, after as many rounds as there are pages. The map holds for each name the count and the
  -- memory that the groups of all pages with that name add up to, modulo 2 ^ 64, and 0 or no group
  -- for a name that no page has. The numbers of the pages are bit patterns of an int64.
  pub gather_key_group_metrics-ScriptPages :
      {c c' : Conn} {pages : List (List KeyGroupMetrics)} (fuel : ℕ)
      → ScriptPages (pos 0) c pages c'
      → length pages ≤ fuel
      → All IsWords (concat pages)
      → (groups : Assoc KeyGroupMetrics) × (gather_key_group_metrics r fuel batch_size key_groups c
          ≡ some (some groups, c'))
        × ((name : Bytes)
            → (count_of (lookup name groups) ≡ count_named name (concat pages) 0)
              × (memory_of (lookup name groups) ≡ memory_named name (concat pages) 0))
  unfolding gather_key_group_metrics lookup
  gather_key_group_metrics-ScriptPages {pages = pages} fuel p h small = (
    add_groups (concat pages) [],
    gather_loop-ScriptPages fuel [] p h,
    λ name. add_groups_sums name (concat pages) [] small,
  )
