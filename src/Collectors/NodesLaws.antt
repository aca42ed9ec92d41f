-- ===== src/Collectors/NodesLaws.antt =====
-- A line of CLUSTER NODES, as Redis prints it, is read back.
use redis_exporter.Base.{
  ℕ, ◌≤◌, ◌≡◌, ◌≢◌, refl, ap, ◌∙◌, false, none, some, List, [], ◌∷◌, ◌++◌, All, All-append,
  All-mono, Bytes, arith, append_assoc, append-nil,
}
use redis_exporter.Text.Split.{Lacks}
use redis_exporter.Text.Trim.{space_width}
use redis_exporter.Text.Number.{is_digit, IsDigit}
use redis_exporter.Keys.Single.{if_some}
use redis_exporter.Collectors.Nodes.{
  emit, fields, fields_from, span_digits, port_of, port_at, node_address, second_field,
  parse_cluster_node_string,
}

-- Printable ASCII without the space.
abbrev pub IsVisible : ℕ → Type 0
IsVisible c = (33 ≤ c) × (c ≤ 126)

space_width-visible : (c : ℕ) (s : Bytes) → IsVisible c → space_width (c ∷ s) ≡ 0
unfolding space_width
space_width-visible c [] h = ground arith
space_width-visible c (b ∷ []) h = ground arith
space_width-visible c (b ∷ d ∷ s) h = ground arith

space_width-space : (s : Bytes) → space_width (b' ' ∷ s) ≡ 1
unfolding space_width
space_width-space [] = refl
space_width-space (b ∷ []) = refl
space_width-space (b ∷ d ∷ s) = refl

-- A word of visible bytes, up to the space behind it.
fields_from-word :
    (p s word : Bytes)
    → All IsVisible p
    → fields_from 0 word (p ++ b' ' ∷ s) ≡ emit (word ++ p) (fields_from 0 [] s)
unfolding fields_from
fields_from-word [] s word h = rw (space_width-space s, fields_from) (rw (append-nil word) refl)
fields_from-word (c ∷ p) s word (visible, h) =
    rw (space_width-visible c (p ++ b' ' ∷ s) visible, fields_from)
      (fields_from-word p s (word ++ c ∷ []) h ∙ rw (append_assoc word (c ∷ []) p) refl)

emit_word : (p : Bytes) (words : List Bytes) → p ≢ [] → emit p words ≡ p ∷ words
emit_word [] words h = absurd (h refl)
emit_word (c ∷ p) words h = refl

fields_two :
    (a b s : Bytes)
    → a ≢ []
    → b ≢ []
    → All IsVisible a
    → All IsVisible b
    → second_field (fields (a ++ b' ' ∷ (b ++ b' ' ∷ s))) ≡ some b
unfolding fields
fields_two a b s na nb ha hb = ap second_field (
    fields_from-word a (b ++ b' ' ∷ s) [] ha
    ∙ emit_word a _ na
    ∙ ap (λ words. a ∷ words) (fields_from-word b s [] hb ∙ emit_word b _ nb))

span_digits-append :
    (ds : Bytes) (c : ℕ) (s : Bytes)
    → All IsDigit ds
    → is_digit c ≡ false
    → span_digits (ds ++ c ∷ s) ≡ (ds, c ∷ s)
unfolding span_digits
span_digits-append [] c s h n = ground arith
span_digits-append (d ∷ ds) c s (h, hs) n = ground (arith, span_digits-append ds c s hs n)

-- The ports of a node: the port, `@`, and the port of the cluster bus.
port_at-print :
    (port cport rest : Bytes)
    → port ≢ []
    → cport ≢ []
    → All IsDigit port
    → All IsDigit cport
    → port_at (b':' ∷ (port ++ b'@' ∷ (cport ++ rest))) ≡ some port
unfolding port_at
port_at-print [] cport rest np nc hp hc = absurd (np refl)
port_at-print port [] rest np nc hp hc = absurd (nc refl)
port_at-print (d ∷ port) (c ∷ cport) rest np nc hp hc =
    rw (span_digits-append (d ∷ port) b'@' (c ∷ (cport ++ rest)) hp refl, port_of) (ground arith)

-- Without a colon behind the first byte there is no address.
node_address-none : (c : ℕ) (s : Bytes) → Lacks b':' s → node_address (c ∷ s) ≡ none
unfolding node_address port_at
node_address-none c [] h = refl
node_address-none c (d ∷ s) (n, h) = ground (arith, node_address-none d s h)

node_address-print :
    (ip q port : Bytes)
    → ip ≢ []
    → Lacks b':' q
    → port_at (b':' ∷ q) ≡ some port
    → node_address (ip ++ b':' ∷ q) ≡ some (ip, port)
unfolding node_address
node_address-print [] q port n h found = absurd (n refl)
node_address-print (c ∷ []) q port n h found = ground (arith, node_address-none b':' q h)
node_address-print (c ∷ d ∷ ip) q port n h found =
    ground (arith, node_address-print (d ∷ ip) q port (λ e. cc) h found)

-- A node, as Redis prints it: `behind` is empty or a comma and a host name, and `rest` the other
-- fields of the line.
pub record NodeLine : Type 0 where
  pub id : Bytes
  pub ip : Bytes
  pub port : Bytes
  pub cport : Bytes
  pub behind : Bytes
  pub rest : Bytes

abbrev pub ports : NodeLine → Bytes
ports n = n.port ++ b'@' ∷ (n.cport ++ n.behind)

abbrev pub print_node : NodeLine → Bytes
print_node n = n.id ++ b' ' ∷ ((n.ip ++ b':' ∷ ports n) ++ b' ' ∷ n.rest)

-- Visible bytes in the id and the address, which may hold colons; digits in the ports; no colon
-- behind the ports.
pub record IsNodeLine (n : NodeLine) : Type 0 where
  pub has_id : (n.id ≢ []) × All IsVisible n.id
  pub has_ip : (n.ip ≢ []) × All IsVisible n.ip
  pub has_port : (n.port ≢ []) × All IsDigit n.port
  pub has_cport : (n.cport ≢ []) × All IsDigit n.cport
  pub no_colon : All IsVisible n.behind × Lacks b':' n.behind

digits-IsVisible : (s : Bytes) → All IsDigit s → All IsVisible s
digits-IsVisible = All-mono IsDigit IsVisible (λ c d. omega arith)

digits_no_colon : (s : Bytes) → All IsDigit s → Lacks b':' s
digits_no_colon = All-mono IsDigit (λ c. c ≢ b':') (λ c d. ground arith)

ports-Lacks : (n : NodeLine) → IsNodeLine n → Lacks b':' (ports n)
ports-Lacks n h = All-append NoColon n.port _ (digits_no_colon n.port h.has_port.1) (
  ground arith,
  All-append NoColon n.cport n.behind (digits_no_colon n.cport h.has_cport.1) h.no_colon.1,
)
  where
    NoColon : ℕ → Type 0
    NoColon c = c ≢ b':'

pub address-IsVisible : (n : NodeLine) → IsNodeLine n → All IsVisible (n.ip ++ b':' ∷ ports n)
address-IsVisible n h = All-append IsVisible n.ip _ h.has_ip.1 (
  omega arith,
  All-append IsVisible n.port _ (digits-IsVisible n.port h.has_port.1) (
    omega arith,
    All-append IsVisible n.cport n.behind (digits-IsVisible n.cport h.has_cport.1) h.no_colon.0,
  ),
)

append_ne : (a b : Bytes) → a ≢ [] → a ++ b ≢ []
append_ne [] b h = absurd (h refl)
append_ne (c ∷ a) b h = λ e. cc

-- A line of CLUSTER NODES with an address `ip:port@cport`, where the address may hold colons and a
-- host name without one may follow, is read as `ip:port`.
pub parse_cluster_node_string-print :
    (n : NodeLine)
    → IsNodeLine n
    → parse_cluster_node_string (print_node n) ≡ some (n.ip ++ b':' ∷ n.port)
unfolding parse_cluster_node_string
parse_cluster_node_string-print n h =
    rw
      (
        fields_two n.id (n.ip ++ b':' ∷ ports n) n.rest h.has_id.0
            (append_ne n.ip (b':' ∷ ports n) h.has_ip.0) h.has_id.1 (address-IsVisible n h),
        if_some,
      )
      (rw
        (
          node_address-print n.ip (ports n) n.port h.has_ip.0 (ports-Lacks n h) (
              port_at-print n.port n.cport n.behind h.has_port.0 h.has_cport.0 h.has_port.1
                h.has_cport.1),
          if_some,
        )
        refl)
