-- ===== src/Info/Fields.antt =====
-- The regular expressions of exporter/info.go, as matchers: reMasterHost, reMasterPort,
-- reMasterLinkStatus, reMasterDirect and reSlave. All are anchored at the start and open at the end.
use redis_exporter.Base.{
  ◌≡◌, refl, Bool, true, false, ◌||◌, Option, none, some, [], ◌∷◌, reverse, Bytes, codes, ◌++◌, sym,
  ap, ◌∙◌, has_prefix-rest, strip_prefix, has_prefix, if◌then◌else◌,
}
use mathlib.Core.List.{reverse-append, reverse-reverse}
use redis_exporter.Text.Number.{is_digit}

-- `[0-9]+` at the front: the text behind it. (All the digits: what follows it in these expressions
-- begins with no digit.)
unfoldable pub skip_digits : Bytes → Option Bytes
skip_digits [] = none
skip_digits (c ∷ s) =
    let rest = skip_digits s in
    if is_digit c then elim rest [ none ↦ some s | some t ↦ some t ] else none

abbrev matches_at : Bytes → Option Bytes → Bool
matches_at p none = false
matches_at p (some s) = has_prefix p s

-- `_[0-9]+` at the front.
abbrev skip_index : Bytes → Option Bytes
skip_index s = elim (strip_prefix (codes "_") s) [ none ↦ none | some t ↦ skip_digits t ]

-- `^master(_[0-9]+)?` and `suffix` behind it.
unfoldable pub is_master_field : Bytes → Bytes → Bool
unfolding strip_prefix has_prefix skip_digits
is_master_field suffix key = elim (strip_prefix (codes "master") key) [
  | none ↦ false
  | some rest ↦ has_prefix suffix rest || matches_at suffix (skip_index rest)
]

unfoldable pub is_master_host : Bytes → Bool
unfolding is_master_field
is_master_host = is_master_field (codes "_host")

unfoldable pub is_master_port : Bytes → Bool
unfolding is_master_field
is_master_port = is_master_field (codes "_port")

unfoldable pub is_master_link_status : Bytes → Bool
unfolding is_master_field
is_master_link_status = is_master_field (codes "_link_status")

unfoldable pub is_master_direct : Bytes → Bool
unfolding is_master_field has_prefix
is_master_direct key =
    is_master_field (codes "_last_io_seconds_ago") key
    || is_master_field (codes "_sync_in_progress") key
    || has_prefix (codes "slave_repl_offset") key

-- `^slave\d+`
unfoldable pub is_slave : Bytes → Bool
unfolding strip_prefix skip_digits
is_slave key = elim (strip_prefix (codes "slave") key) [
  | none ↦ false
  | some rest ↦ elim (skip_digits rest) [ none ↦ false | some t ↦ true ]
]

-- strings.HasSuffix(s, p)
unfoldable pub has_suffix : Bytes → Bytes → Bool
unfolding has_prefix
has_suffix p s = has_prefix (reverse p) (reverse s)

-- What stands in front of a suffix.
pub has_suffix-rest : (p s : Bytes) → has_suffix p s ≡ true → (front : Bytes) × (s ≡ front ++ p)
unfolding has_suffix
has_suffix-rest p s h =
    let (rest, e) = has_prefix-rest (reverse p) (reverse s) h in
    (
      reverse rest,
      sym (reverse-reverse s)
          ∙ ap reverse e
          ∙ reverse-append (reverse p) rest
          ∙ ap (λ t. reverse rest ++ t) (reverse-reverse p),
    )

matchers :
    (is_master_host (codes "master_12_host") ≡ true)
    × (is_master_host (codes "master_host") ≡ true)
    × (is_master_port (codes "master__port") ≡ false)
    × (is_slave (codes "slave0") ≡ true)
    × (is_slave (codes "slave_repl_offset") ≡ false)
    × (is_master_direct (codes "master_1_sync_in_progress") ≡ true)
    × (has_suffix (codes "ago") (codes "seconds_ago") ≡ true)
unfolding is_master_host is_master_port is_slave is_master_direct has_suffix
matchers = (refl, refl, refl, refl, refl, refl, refl)
