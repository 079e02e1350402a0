-- ===== src/Common/Dict.antt =====
-- A Go map with string keys, as an association list. `insert` writes through an existing key, so
-- that a row keeps its place; the model never depends on the order of the pairs unless a function
-- takes the order of iteration as an argument.
use mathlib.Core.Path.{◌≡◌, refl}
use mathlib.Core.Logic.{◌≢◌}
use mathlib.Core.Option.{Option, none, some}
use mathlib.Core.Option
use mathlib.Core.List.{List, [], ◌∷◌}
use native.Mathlib.Omega.{arith}
use Prim.Native.String.{String}
use text.Mathlib.TextEquality.{eq_iff}
use text.Mathlib.TextPositions.{eq_refl}
use hermes_ai_devops.Common.Tests.{if◌then◌else◌, ◌==◌, string_eq, str-ne}

abbrev pub Dict {ℓ} : Type ℓ → Type ℓ
Dict V = List (String × V)

module _ {ℓ} {V : Type ℓ} where
  unfoldable pub lookup : String → Dict V → Option V
  lookup key [] = none
  lookup key ((found, value) ∷ dict) = if found == key then some value else lookup key dict

  unfoldable pub insert : String → V → Dict V → Dict V
  insert key value [] = (key, value) ∷ []
  insert key value ((found, old) ∷ dict) =
      if found == key then (key, value) ∷ dict else (found, old) ∷ insert key value dict

  -- m[k] of a map whose zero value is `d`.
  unfoldable pub get_or : String → Dict V → V → V
  get_or key dict d = Option.get_or (lookup key dict) d

  abbrev pub keys : Dict V → List String
  keys [] = []
  keys ((found, value) ∷ dict) = found ∷ keys dict

  abbrev pub values : Dict V → List V
  values [] = []
  values ((found, value) ∷ dict) = value ∷ values dict

  -- A loop over the map that rewrites each value by itself.
  abbrev pub map_entries : (String → V → V) → Dict V → Dict V
  map_entries f [] = []
  map_entries f ((found, value) ∷ dict) = (found, f found value) ∷ map_entries f dict

  pub lookup-insert :
      (key found : String) (value : V) (dict : Dict V)
      → lookup found (insert key value dict)
        ≡ (if key == found then some value else lookup found dict)
  unfolding lookup insert
  lookup-insert key found value [] = refl
  lookup-insert key found value ((i, old) ∷ dict) =
      ground
        (arith, eq_iff key found, eq_iff i key, eq_iff i found, lookup-insert key found value dict)

  pub lookup-insert_self :
      (key : String) (value : V) (dict : Dict V) → lookup key (insert key value dict) ≡ some value
  lookup-insert_self key value dict = simp (lookup-insert, eq_refl)

  pub lookup-insert_ne :
      (key found : String) (value : V) (dict : Dict V)
      → key ≢ found
      → lookup found (insert key value dict) ≡ lookup found dict
  lookup-insert_ne key found value dict h =
      rw (lookup-insert key found value dict, str-ne key found h)

  pub lookup-map_entries :
      (f : String → V → V) (key : String) (dict : Dict V)
      → lookup key (map_entries f dict) ≡ Option.map (f key) (lookup key dict)
  unfolding lookup
  lookup-map_entries f key [] = refl
  lookup-map_entries f key ((found, value) ∷ dict) =
      ground (arith, eq_iff found key, lookup-map_entries f key dict)
