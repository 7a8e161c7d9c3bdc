-- ===== src/Prelude/Mapping.antt =====
-- Python's `dict` with string keys, and the one-row-per-key tables of the database.
use Prim.Native.String.{String}
use mathlib.Core.Path.{◌≡◌, refl}
use mathlib.Core.Bool.{Bool}
use mathlib.Core.List.{List, [], ◌∷◌, map}
use mathlib.Core.Option.{Option, none, some}
use native.Mathlib.Omega.{arith}
use text.Mathlib.Text.{◌==◌}
use text.Mathlib.TextEquality.{eq_iff}
use text.Mathlib.TextPositions.{eq_refl}
use sysible_controller.Prelude.Tests.{if◌then◌else◌, is_some}

abbrev pub Dict {ℓ} : Type ℓ → Type ℓ
Dict V = List (String × V)

module _ {ℓ} {V : Type ℓ} where
  -- `d.get(key)`
  unfoldable pub lookup : String → Dict V → Option V
  lookup key [] = none
  lookup key ((k, v) ∷ rows) = if key == k then some v else lookup key rows

  -- `d[key] = value`: an existing key keeps its place, a new one goes to the end
  unfoldable pub insert : String → V → Dict V → Dict V
  insert key value [] = (key, value) ∷ []
  insert key value ((k, v) ∷ rows) =
      if key == k then (key, value) ∷ rows else (k, v) ∷ insert key value rows

  -- `d.pop(key, None)`, `del d[key]`
  unfoldable pub erase : String → Dict V → Dict V
  erase key [] = []
  erase key ((k, v) ∷ rows) = let rest = erase key rows in if key == k then rest else (k, v) ∷ rest

  abbrev pub keys : Dict V → List String
  keys rows = map (λ (row : String × V). row.0) rows

  -- `key in d`
  abbrev pub contains_key : String → Dict V → Bool
  contains_key key rows = is_some (lookup key rows)

  pub lookup-insert :
      (k j : String) (v : V) (d : Dict V)
      → lookup j (insert k v d) ≡ (if j == k then some v else lookup j d)
  unfolding lookup insert
  lookup-insert k j v [] = refl
  lookup-insert k j v ((i, w) ∷ d) =
      ground (arith, eq_iff j k, eq_iff k i, eq_iff j i, lookup-insert k j v d)

  pub lookup-erase :
      (k j : String) (d : Dict V) → lookup j (erase k d) ≡ (if j == k then none else lookup j d)
  unfolding lookup erase
  lookup-erase k j [] = ground arith
  lookup-erase k j ((i, w) ∷ d) =
      ground (arith, eq_iff j k, eq_iff k i, eq_iff j i, lookup-erase k j d)

  pub lookup-insert_self : (k : String) (v : V) (d : Dict V) → lookup k (insert k v d) ≡ some v
  lookup-insert_self k v d = simp (lookup-insert, eq_refl)

pub ruleset dict_laws = (lookup-insert, lookup-erase, eq_refl)
