-- ===== src/Prelude/Maps.antt =====
-- Go maps as association lists: the keys are byte strings, or packet IDs.
use Prim.Native.Nat.{ℕ}
use mathlib.Core.Path.{◌≡◌, refl}
use mathlib.Core.Option.{Option, none, some}
use mathlib.Core.List.{List, [], ◌∷◌}
use native.Mathlib.Omega.{arith}
use life_stream_go_mqtt_brok.Prelude.Tests.{if◌then◌else◌, bytes_eq, bytes_eq_iff}

abbrev pub Map {κ ℓ} : Type κ → Type ℓ → Type (κ ⊔ ℓ)
Map K V = List (K × V)

module _ {V : Type 0} where
  unfoldable pub lookup : List ℕ → Map (List ℕ) V → Option V
  lookup k [] = none
  lookup k ((j, v) ∷ m) = if bytes_eq j k then some v else lookup k m

  unfoldable pub insert : List ℕ → V → Map (List ℕ) V → Map (List ℕ) V
  insert k v [] = (k, v) ∷ []
  insert k v ((j, w) ∷ m) = if bytes_eq j k then (k, v) ∷ m else (j, w) ∷ insert k v m

  unfoldable pub delete : List ℕ → Map (List ℕ) V → Map (List ℕ) V
  delete k [] = []
  delete k ((j, w) ∷ m) = let rest = delete k m in if bytes_eq j k then rest else (j, w) ∷ rest

  pub lookup-insert :
      (k j : List ℕ) (v : V) (entries : Map (List ℕ) V)
      → lookup j (insert k v entries) ≡ (if bytes_eq k j then some v else lookup j entries)
  unfolding lookup insert
  lookup-insert k j v [] = refl
  lookup-insert k j v ((i, w) ∷ entries) =
      ground
        (arith, bytes_eq_iff k j, bytes_eq_iff i k, bytes_eq_iff i j, lookup-insert k j v entries)

  pub lookup-delete :
      (k j : List ℕ) (entries : Map (List ℕ) V)
      → lookup j (delete k entries) ≡ (if bytes_eq k j then none else lookup j entries)
  unfolding lookup delete
  lookup-delete k j [] = ground arith
  lookup-delete k j ((i, w) ∷ entries) =
      ground
        (arith, lookup-delete k j entries, bytes_eq_iff i k, bytes_eq_iff i j, bytes_eq_iff k j)
