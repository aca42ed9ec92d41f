-- ===== src/Http/DiscoverLaws.antt =====
-- Every node of the cluster is a target of /discover-cluster-nodes.
use redis_exporter.Base.{
  ℕ, ◌≡◌, ◌≢◌, ◌⊎◌, inl, inr, refl, ap, ◌∙◌, true, false, Option, none, some, List, [], ◌∷◌, ◌++◌,
  map, All, All-append, All-mono, Bytes, codes, has_prefix, has_prefix-append, has_prefix-rest,
  Bool-cases, arith,
}
use redis_exporter.Text.Split.{split, join, Lacks, split-join}
use redis_exporter.Options.{Exporter}
use redis_exporter.Redis.{Redis}
use redis_exporter.Keys.Single.{if_some}
use redis_exporter.Keys.Scan.{do_redis_cmd}
use redis_exporter.Connect.Options.{Urls}
use redis_exporter.Connect.Dial.{Dialer}
use redis_exporter.Collectors.Nodes.{parse_cluster_node_string, nodes_of_lines, get_cluster_nodes}
use redis_exporter.Collectors.NodesLaws.{
  IsVisible, NodeLine, IsNodeLine, print_node, parse_cluster_node_string-print, address-IsVisible,
}
use redis_exporter.Http.Handlers.{no_nodes, targets, target_of, discover_nodes}

abbrev pub node_name : NodeLine → Bytes
node_name n = n.ip ++ b':' ∷ n.port

-- A node whose line has no line feed.
abbrev pub IsLine : NodeLine → Type 0
IsLine n = IsNodeLine n × Lacks 10 n.rest

visible-Lacks : (s : Bytes) → All IsVisible s → Lacks 10 s
visible-Lacks = All-mono IsVisible (λ c. c ≢ 10) (λ c v. ground arith)

print_node-Lacks : (n : NodeLine) → IsLine n → Lacks 10 (print_node n)
print_node-Lacks n (h, one_line) = All-append P n.id _ (visible-Lacks n.id h.has_id.1) (
  ground arith,
  All-append P (n.ip ++ b':' ∷ _) (b' ' ∷ n.rest)
      (visible-Lacks (n.ip ++ b':' ∷ _) (address-IsVisible n h)) (ground arith, one_line),
)
  where
    P : ℕ → Type 0
    P c = c ≢ 10

-- The lines of the nodes, each with a line feed.
abbrev pub print_lines : List NodeLine → List Bytes
print_lines [] = [] ∷ []
print_lines (n ∷ ns) = print_node n ∷ print_lines ns

print_lines-Lacks : (ns : List NodeLine) → All IsLine ns → All (Lacks 10) (print_lines ns)
print_lines-Lacks [] h = (tt, tt)
print_lines-Lacks (n ∷ ns) (h, hs) = (print_node-Lacks n h, print_lines-Lacks ns hs)

split_lines :
    (ns : List NodeLine) → All IsLine ns → split 10 (join 10 (print_lines ns)) ≡ print_lines ns
split_lines [] h = split-join 10 [] [] (tt, tt)
split_lines (n ∷ ns) h =
    split-join 10 (print_node n) (print_lines ns) (print_lines-Lacks (n ∷ ns) h)

read_line :
    (line node : Bytes) (lines : List Bytes)
    → parse_cluster_node_string line ≡ some node
    → nodes_of_lines (line ∷ lines) ≡ node ∷ nodes_of_lines lines
unfolding nodes_of_lines
read_line line node lines h = rw (h, nodes_of_lines) refl

nodes_of_print :
    (ns : List NodeLine) → All IsLine ns → nodes_of_lines (print_lines ns) ≡ map node_name ns
nodes_of_print [] h = unfold nodes_of_lines parse_cluster_node_string in refl
nodes_of_print (n ∷ ns) (h, hs) =
    read_line (print_node n) (node_name n) (print_lines ns) (parse_cluster_node_string-print n h.0)
    ∙ ap (λ rest. node_name n ∷ rest) (nodes_of_print ns hs)

-- The scheme of a target, for the address of the exporter: that of TLS exactly where the address has
-- it.
abbrev pub IsScheme : Bytes → Bytes → Type 0
IsScheme redis_addr scheme =
    (((rest : Bytes) × (redis_addr ≡ codes "rediss://" ++ rest)) × (scheme ≡ codes "rediss://"))
    ⊎ (((rest : Bytes) → redis_addr ≢ codes "rediss://" ++ rest) × (scheme ≡ codes "redis://"))

map-same : {A B : Type 0} (f g : A → B) (xs : List A) → ((a : A) → f a ≡ g a) → map f xs ≡ map g xs
map-same f g [] h = refl
map-same f g (x ∷ xs) h = cc (h x, map-same f g xs h)

module _ {Tls : Type 0} (urls : Urls) (r : Redis) (dialer : Dialer Tls r.Conn) (tls : Option Tls)
    (e : Exporter) where
  tls_prefix :
      (rest : Bytes)
      → e.redis_addr ≡ codes "rediss://" ++ rest
      → has_prefix (codes "rediss://") e.redis_addr ≡ true
  tls_prefix rest same =
      ap (has_prefix (codes "rediss://")) same ∙ has_prefix-append (codes "rediss://") rest

  no_tls_prefix :
      ((rest : Bytes) → e.redis_addr ≢ codes "rediss://" ++ rest)
      → has_prefix (codes "rediss://") e.redis_addr ≡ false
  no_tls_prefix other = elim (Bool-cases (has_prefix (codes "rediss://") e.redis_addr)) [
    | inl found ↦
        let (rest, same) = has_prefix-rest (codes "rediss://") e.redis_addr found in
        absurd (other rest same)
    | inr missing ↦ missing
  ]

  target_of_scheme :
      (scheme node : Bytes)
      → IsScheme e.redis_addr scheme
      → target_of urls r dialer tls e node ≡ scheme ++ node
  target_of_scheme scheme node (inl ((rest, same), is_tls)) =
      rw (tls_prefix rest same) (rw (is_tls) refl)
  target_of_scheme scheme node (inr (other, is_plain)) =
      rw (no_tls_prefix other) (rw (is_plain) refl)

  found_nodes :
      (ns : List NodeLine) (c : r.Conn)
      → All IsLine ns
      → if_some (r.do_cmd (codes "CLUSTER" ∷ codes "NODES" ∷ []) c).0 r.string
        ≡ some (join 10 (print_lines ns))
      → discover_nodes urls r dialer tls e c
        ≡ some (targets (map (target_of urls r dialer tls e) (map node_name ns)))
  unfolding discover_nodes get_cluster_nodes do_redis_cmd
  found_nodes ns c h answer =
      ap
        (λ output. some (elim (if_some output (λ text. some (nodes_of_lines (split 10 text)))) [
          | none ↦ no_nodes
          | some nodes ↦ targets (map (target_of urls r dialer tls e) nodes)
        ]))
        answer
      ∙ ap (λ nodes. some (targets (map (target_of urls r dialer tls e) nodes)))
          (ap nodes_of_lines (split_lines ns h) ∙ nodes_of_print ns h)

  -- Where CLUSTER NODES answers with the lines of nodes, each with an address `ip:port@cport` and
  -- perhaps a host name, the targets of discovery are these addresses in order, one for each node,
  -- with the scheme of TLS exactly where the exporter's own address has it.
  pub discover_nodes-print :
      (scheme : Bytes) (ns : List NodeLine) (c : r.Conn)
      → IsScheme e.redis_addr scheme
      → All IsLine ns
      → if_some (r.do_cmd (codes "CLUSTER" ∷ codes "NODES" ∷ []) c).0 r.string
        ≡ some (join 10 (print_lines ns))
      → discover_nodes urls r dialer tls e c
        ≡ some (targets (map (λ node. scheme ++ node) (map node_name ns)))
  discover_nodes-print scheme ns c is_scheme h answer =
      found_nodes ns c h answer
      ∙ ap (λ nodes. some (targets nodes))
          (map-same (target_of urls r dialer tls e) (λ node. scheme ++ node) (map node_name ns)
            (λ node. target_of_scheme scheme node is_scheme))
