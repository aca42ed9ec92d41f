-- ===== src/Clients/Parse.antt =====
-- parseClientListString and durationFieldToTimestamp. `now` is time.Now().Unix().
use redis_exporter.Base.{
  ℕ, ◌≡◌, refl, Bool, not, ◌||◌, Option, none, some, List, [], ◌∷◌, Bytes, codes, if◌then◌else◌,
  bytes_eq, strip_prefix, ℤ, pos, negsuc, ◌==◌,
}
use redis_exporter.Base.Chain.{◌>>=◌, ◌>>◌, guard}
use redis_exporter.Text.Split.{split, join}
use redis_exporter.Text.Number.{parse_int, is_digit}
use redis_exporter.KeyGroups.Word.{to_word, of_word, sub_word}

pub record ClientInfo : Type 0 where
  pub id : Bytes
  pub name : Bytes
  pub user : Bytes
  pub flags : Bytes
  pub db : Bytes
  pub host : Bytes
  pub port : Bytes
  pub resp : Bytes
  pub created_at : ℤ
  pub idle_since : ℤ
  pub sub : ℤ
  pub psub : ℤ
  pub ssub : ℤ
  pub watch : ℤ
  pub qbuf : ℤ
  pub qbuf_free : ℤ
  pub obl : ℤ
  pub oll : ℤ
  pub o_mem : ℤ
  pub tot_mem : ℤ

-- `ssub` and `watch` are marked as missing.
abbrev pub empty_client : ClientInfo
empty_client = record {
  id = [];
  name = [];
  user = [];
  flags = [];
  db = [];
  host = [];
  port = [];
  resp = [];
  created_at = pos 0;
  idle_since = pos 0;
  sub = pos 0;
  psub = pos 0;
  ssub = negsuc 0;
  watch = negsuc 0;
  qbuf = pos 0;
  qbuf_free = pos 0;
  obl = pos 0;
  oll = pos 0;
  o_mem = pos 0;
  tot_mem = pos 0;
}

-- The regular expression ^id=\d+ addr=\S+
abbrev is_blank : ℕ → Bool
is_blank c = c == 9 || c == 10 || c == 12 || c == 13 || c == 32

-- The text behind a non-empty run of digits.
unfoldable pub behind_digits : Bytes → Option Bytes
behind_digits [] = none
behind_digits (c ∷ []) = if is_digit c then some [] else none
behind_digits (c ∷ d ∷ s) =
    let rest = behind_digits (d ∷ s) in
    if not (is_digit c) then none else if is_digit d then rest else some (d ∷ s)

abbrev starts_with_graph : Bytes → Option (Unit {0})
starts_with_graph [] = none
starts_with_graph (c ∷ s) = guard (not (is_blank c))

unfoldable pub matches_client : Bytes → Option (Unit {0})
unfolding behind_digits strip_prefix
matches_client s = do
  digits ← strip_prefix (codes "id=") s
  behind ← behind_digits digits
  addr ← strip_prefix (codes " addr=") behind
  starts_with_graph addr

-- The int64 `now - parsed`, which wraps around.
unfoldable pub duration_field_to_timestamp : ℤ → Bytes → Option ℤ
unfolding to_word of_word sub_word
duration_field_to_timestamp now field =
    if (parse_int field).failed
    then none
    else some (of_word (sub_word (to_word now) (to_word (parse_int field).value)))

-- All but the last part, and the last part, of two parts at least.
unfoldable pub last_of : Bytes → List Bytes → List Bytes × Bytes
last_of p [] = ([], p)
last_of p (q ∷ ps) = (p ∷ (last_of q ps).0, (last_of q ps).1)

unfoldable pub host_and_port : List Bytes → Option (List Bytes × Bytes)
unfolding last_of
host_and_port (p ∷ q ∷ ps) = some (last_of p (q ∷ ps))
host_and_port _ = none

unfoldable pub set_address : Bytes → ClientInfo → Option ClientInfo
unfolding host_and_port split join
set_address value client = do
  (host, port) ← host_and_port (split b':' value)
  some (record client { host = join b':' host; port = port })

-- `x, _ = strconv.ParseInt(v, 10, 64)`
abbrev number : Bytes → ℤ
number value = (parse_int value).value

-- The fields that hold a number.
unfoldable pub set_number : Bytes → Bytes → ClientInfo → ClientInfo
set_number key value client =
    if bytes_eq key (codes "sub")
    then record client { sub = number value }
    else if bytes_eq key (codes "psub")
    then record client { psub = number value }
    else if bytes_eq key (codes "ssub")
    then record client { ssub = number value }
    else if bytes_eq key (codes "watch")
    then record client { watch = number value }
    else if bytes_eq key (codes "qbuf")
    then record client { qbuf = number value }
    else if bytes_eq key (codes "qbuf-free")
    then record client { qbuf_free = number value }
    else if bytes_eq key (codes "obl")
    then record client { obl = number value }
    else if bytes_eq key (codes "oll")
    then record client { oll = number value }
    else if bytes_eq key (codes "omem")
    then record client { o_mem = number value }
    else if bytes_eq key (codes "tot-mem")
    then record client { tot_mem = number value }
    else client

-- The `switch`: `none` where the field cannot be parsed.
unfoldable pub set_field : ℤ → Bytes → Bytes → ClientInfo → Option ClientInfo
unfolding set_number set_address duration_field_to_timestamp
set_field now key value client =
    if bytes_eq key (codes "id")
    then some (record client { id = value })
    else if bytes_eq key (codes "name")
    then some (record client { name = value })
    else if bytes_eq key (codes "user")
    then some (record client { user = value })
    else if bytes_eq key (codes "age")
    then (duration_field_to_timestamp now value >>= λ t. some (record client { created_at = t }))
    else if bytes_eq key (codes "idle")
    then (duration_field_to_timestamp now value >>= λ t. some (record client { idle_since = t }))
    else if bytes_eq key (codes "flags")
    then some (record client { flags = value })
    else if bytes_eq key (codes "db")
    then some (record client { db = value })
    else if bytes_eq key (codes "addr")
    then set_address value client
    else if bytes_eq key (codes "resp")
    then some (record client { resp = value })
    else some (set_number key value client)

abbrev set_parts : ℤ → List Bytes → ClientInfo → Option ClientInfo
unfolding set_field
set_parts now (key ∷ value ∷ []) client = set_field now key value client
set_parts now _ client = none

unfoldable pub parse_fields : ℤ → List Bytes → ClientInfo → Option ClientInfo
unfolding set_parts split
parse_fields now [] client = some client
parse_fields now (field ∷ fields) client =
    set_parts now (split b'=' field) client >>= λ changed. parse_fields now fields changed

unfoldable pub parse_client_list_string : ℤ → Bytes → Option ClientInfo
unfolding matches_client parse_fields split
parse_client_list_string now client_info =
    matches_client client_info >> parse_fields now (split b' ' client_info) empty_client

example_client :
    parse_client_list_string (pos 1000) (
      codes
        "id=14 addr=fd40:1481:21:6379 fd=9 name= age=5 idle=0 flags=N db=0 ssub=3 qbuf-free=32742 user=default resp=3")
    ≡ some (record empty_client {
      id = codes "14";
      host = codes "fd40:1481:21";
      port = codes "6379";
      created_at = pos 995;
      idle_since = pos 1000;
      flags = codes "N";
      db = codes "0";
      ssub = pos 3;
      qbuf_free = pos 32742;
      user = codes "default";
      resp = codes "3";
    })
unfolding parse_client_list_string bytes_eq parse_int
example_client = refl
