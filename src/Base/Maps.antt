-- ===== src/Base/Maps.antt =====
-- Go's `map[string]V` as an association list without repeated keys. A new key goes to the end: a
-- range over the map visits the keys in some order, and this is one of them.
use mathlib.Core.Path.{◌≡◌, refl}
use mathlib.Core.Bool.{Bool, true, false}
use mathlib.Core.List.{List, [], ◌∷◌}
use mathlib.Core.Option.{Option, none, some}
use native.Mathlib.Omega.{arith}
use redis_exporter.Base.Tests.{if◌then◌else◌}
use redis_exporter.Base.Strings.{Bytes, bytes_eq, bytes_eq_iff}

abbrev pub Assoc {ℓ} : Type ℓ → Type ℓ
Assoc V = List (Bytes × V)

module _ {ℓ} {V : Type ℓ} where
  unfoldable pub lookup : Bytes → Assoc V → Option V
  lookup k [] = none
  lookup k ((j, v) ∷ m) = if bytes_eq j k then some v else lookup k m

  unfoldable pub insert : Bytes → V → Assoc V → Assoc V
  insert k v [] = (k, v) ∷ []
  insert k v ((j, w) ∷ m) = if bytes_eq j k then (k, v) ∷ m else (j, w) ∷ insert k v m

  pub lookup-insert :
      (k j : Bytes) (v : V) (m : Assoc V)
      → lookup j (insert k v m) ≡ (if bytes_eq k j then some v else lookup j m)
  unfolding lookup insert
  lookup-insert k j v [] = refl
  lookup-insert k j v ((i, w) ∷ m) =
      ground (arith, bytes_eq_iff k j, bytes_eq_iff i k, bytes_eq_iff i j, lookup-insert k j v m)

-- m[k] of a `map[string]string`, which is "" for a key that is not there.
abbrev pub string_at : Assoc Bytes → Bytes → Bytes
string_at m k = elim (lookup k m) [ none ↦ [] | some v ↦ v ]

-- Whether the key is there.
abbrev pub has_key {ℓ} : {V : Type ℓ} → Bytes → Assoc V → Bool
has_key k m = elim (lookup k m) [ none ↦ false | some v ↦ true ]
