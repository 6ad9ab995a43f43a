-- ===== src/Base/Maps.antt =====
-- A `Map` with string keys: its entries in insertion order, one for each key.
use mathlib.Core.Path.{◌≡◌, refl}
use mathlib.Core.List.{List, [], ◌∷◌}
use mathlib.Core.Option.{Option, none, some}
use native.Mathlib.Omega.{arith}
use infra_billing.Base.Tests.{if◌then◌else◌, Bool-cases}
use mathlib.Core.Logic.{inl, inr}
use infra_billing.Base.Texts.{Str, str_eq, str_eq_iff}

abbrev pub Map {ℓ} : Type ℓ → Type ℓ
Map V = List (Str × V)

module _ {ℓ} {V : Type ℓ} where
  -- `m.get(k)`.
  unfoldable pub map_get : Str → Map V → Option V
  map_get k [] = none
  map_get k ((j, v) ∷ m) = let rest = map_get k m in if str_eq j k then some v else rest

  -- `m.set(k, v)`: an old key keeps its place, a new one goes to the end.
  unfoldable pub map_set : Str → V → Map V → Map V
  map_set k v [] = (k, v) ∷ []
  map_set k v ((j, w) ∷ m) =
      let rest = (j, w) ∷ map_set k v m in if str_eq j k then (j, v) ∷ m else rest

  pub map_get-map_set :
      (k j : Str) (v : V) (m : Map V)
      → map_get j (map_set k v m) ≡ (if str_eq k j then some v else map_get j m)
  unfolding map_get map_set
  map_get-map_set k j v [] = refl
  map_get-map_set k j v ((i, w) ∷ m) =
      ground (arith, str_eq_iff k j, str_eq_iff i k, str_eq_iff i j, map_get-map_set k j v m)

  -- Each key stands in the map once.
  abbrev pub IsUnique : Map V → Type ℓ
  IsUnique [] = Unit
  IsUnique ((k, v) ∷ m) = (map_get k m ≡ none) × IsUnique m

  pub map_set-IsUnique : (k : Str) (v : V) (m : Map V) → IsUnique m → IsUnique (map_set k v m)
  unfolding map_set map_get
  map_set-IsUnique k v [] h = (refl, tt)
  map_set-IsUnique k v ((j, w) ∷ m) h = elim (Bool-cases (str_eq j k)) [
    | inl e ↦ rw e h
    | inr e ↦ rw e (
      rw (map_get-map_set k j v m) (ground (arith, str_eq_iff k j, str_eq_iff j k, h.0)),
      map_set-IsUnique k v m h.1,
    )
  ]
