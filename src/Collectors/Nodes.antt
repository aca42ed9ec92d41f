-- ===== src/Collectors/Nodes.antt =====
-- getClusterNodes and parseClusterNodeString (exporter/nodes.go): the addresses of the nodes of a
-- cluster, over `^(?P<ip>.+):(?P<port>\d+)@(?P<cport>\d+)(?:,(?P<hostname>.+))?`.
use redis_exporter.Base.{
  ℕ, zero, suc, Bool, false, Option, none, some, List, [], ◌∷◌, ◌++◌, Bytes, codes, if◌then◌else◌,
  ◌==◌,
}
use redis_exporter.Text.Split.{split}
use redis_exporter.Text.Trim.{space_width}
use redis_exporter.Text.Number.{is_digit}
use redis_exporter.Run.{Run, ◌>>=◌, pure}
use redis_exporter.Redis.{Redis}
use redis_exporter.Keys.Single.{if_some}
use redis_exporter.Keys.Scan.{do_redis_cmd}

-- A word, unless it is empty.
abbrev pub emit : Bytes → List Bytes → List Bytes
emit [] words = words
emit (c ∷ w) words = (c ∷ w) ∷ words

-- strings.Fields from here on: how many bytes of a white space character are still to be skipped, and
-- the word so far.
unfoldable pub fields_from : ℕ → Bytes → Bytes → List Bytes
unfolding space_width
fields_from skip word [] = emit word []
fields_from (suc skip) word (c ∷ s) = fields_from skip word s
fields_from zero word (c ∷ s) = elim (space_width (c ∷ s)) [
  | zero ↦ fields_from zero (word ++ c ∷ []) s
  | suc more ↦ emit word (fields_from more [] s)
]

unfoldable pub fields : Bytes → List Bytes
unfolding fields_from
fields s = fields_from 0 [] s

-- The digits at the front, and what follows them.
unfoldable pub span_digits : Bytes → Bytes × Bytes
span_digits [] = ([], [])
span_digits (c ∷ s) =
    let rest = span_digits s in if is_digit c then (c ∷ rest.0, rest.1) else ([], c ∷ s)

-- `@\d+` at the front.
abbrev pub has_cport : Bytes → Bool
has_cport [] = false
has_cport (c ∷ []) = false
has_cport (c ∷ d ∷ s) = if c == b'@' then is_digit d else false

abbrev pub port_of : Bytes × Bytes → Option Bytes
port_of ([], rest) = none
port_of (d ∷ digits, rest) = if has_cport rest then some (d ∷ digits) else none

-- `:(\d+)@\d+` at the front: the port.
unfoldable pub port_at : Bytes → Option Bytes
unfolding span_digits
port_at [] = none
port_at (c ∷ s) = let port = port_of (span_digits s) in if c == b':' then port else none

-- The address and the port. `.+` is greedy: the last colon that a port follows.
unfoldable pub node_address : Bytes → Option (Bytes × Bytes)
unfolding port_at
node_address [] = none
node_address (c ∷ s) = elim (node_address s) [
  | some (ip, port) ↦ some (c ∷ ip, port)
  | none ↦ elim (port_at s) [ none ↦ none | some port ↦ some (c ∷ [], port) ]
]

abbrev pub second_field : List Bytes → Option Bytes
second_field (a ∷ b ∷ fs) = some b
second_field _ = none

unfoldable pub parse_cluster_node_string : Bytes → Option Bytes
unfolding fields node_address
parse_cluster_node_string node =
    if_some (second_field (fields node))
      (λ field. if_some (node_address field) (λ address. some (address.0 ++ b':' ∷ address.1)))

-- The nodes of the lines that can be parsed.
unfoldable pub nodes_of_lines : List Bytes → List Bytes
unfolding parse_cluster_node_string
nodes_of_lines [] = []
nodes_of_lines (line ∷ lines) = elim (parse_cluster_node_string line) [
  | none ↦ nodes_of_lines lines
  | some node ↦ node ∷ nodes_of_lines lines
]

-- `none` is the error of CLUSTER NODES.
unfoldable pub get_cluster_nodes : (r : Redis) → Run r.Conn (Option (List Bytes))
unfolding nodes_of_lines do_redis_cmd
get_cluster_nodes r = do
  reply ← do_redis_cmd r (codes "CLUSTER" ∷ codes "NODES" ∷ [])
  pure (if_some (if_some reply r.string) (λ output. some (nodes_of_lines (split 10 output))))
