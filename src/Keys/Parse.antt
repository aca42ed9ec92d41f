-- ===== src/Keys/Parse.antt =====
-- parseKeyArg: `db1=key,key2,…` as pairs of a database and a key.
use redis_exporter.Base.{
  ◌≡◌, refl, Bool, ◌||◌, Option, none, some, List, [], ◌∷◌, ◌++◌, Bytes, codes, if◌then◌else◌,
  bytes_eq, pos, ltb_ℤ,
}
use redis_exporter.Text.Split.{split}
use redis_exporter.Text.Trim.{trim_space}
use redis_exporter.Text.Query.{query_unescape, remove_db}
use redis_exporter.Text.Number.{parse_int}

pub record DbKeyPair : Type 0 where
  pub db : Bytes
  pub key : Bytes

-- The errors of parseKeyArg: more than one `=`, an escape that is none, a database that is no
-- number or is negative.
pub data KeyArgError : Type 0 where
  invalid_argument invalid_escape invalid_database : KeyArgError

-- What one item of the list gives: nothing, a pair, or an error.
pub data Item : Type 0 where
  skip : Item
  pair : DbKeyPair → Item
  fail : KeyArgError → Item

abbrev is_empty : Bytes → Bool
is_empty s = bytes_eq s []

unfoldable pub check_pair : Bytes → Option Bytes → Item
check_pair db none = fail invalid_escape
check_pair db (some key) =
    let number = parse_int db in
    if is_empty db || is_empty key
    then skip
    else if number.failed || ltb_ℤ number.value (pos 0)
    then fail invalid_database
    else pair (record { db = db; key = key })

-- The `switch` on the number of fragments.
unfoldable pub parse_frags : List Bytes → Item
unfolding check_pair
parse_frags (k ∷ []) = check_pair (codes "0") (query_unescape (trim_space k))
parse_frags (d ∷ k ∷ []) = check_pair (remove_db (trim_space d)) (query_unescape (trim_space k))
parse_frags _ = fail invalid_argument

unfoldable pub parse_item : Bytes → Item
unfolding parse_frags
parse_item k = if is_empty k then skip else parse_frags (split b'=' k)

-- One round of the loop: `rest` is the rounds behind it.
unfoldable pub next_item :
    Item
    → (List DbKeyPair → List DbKeyPair × Option KeyArgError)
    → List DbKeyPair
    → List DbKeyPair × Option KeyArgError
next_item skip rest keys = rest keys
next_item (pair p) rest keys = rest (keys ++ p ∷ [])
next_item (fail e) rest keys = (keys, some e)

-- The keys so far, and the error that ended the loop.
unfoldable pub parse_items : List Bytes → List DbKeyPair → List DbKeyPair × Option KeyArgError
parse_items [] keys = (keys, none)
parse_items (k ∷ ks) keys = next_item (parse_item k) (parse_items ks) keys

unfoldable pub parse_key_arg : Bytes → List DbKeyPair × Option KeyArgError
parse_key_arg keys_arg_string =
    if is_empty keys_arg_string then ([], none) else parse_items (split b',' keys_arg_string) []

two_keys : parse_key_arg (codes "db1=a%2Cb,,c") ≡ (
  record { db = codes "1"; key = codes "a,b" } ∷ record { db = codes "0"; key = codes "c" } ∷ [],
  none,
)
unfolding parse_key_arg parse_items next_item parse_item split trim_space query_unescape remove_db
    parse_int bytes_eq
two_keys = refl
