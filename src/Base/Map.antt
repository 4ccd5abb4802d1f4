-- ===== src/Base/Map.antt =====
-- A Go map with text keys, as an association list: the first entry of a key counts.
use mathlib.Core.Option
use eibc_client.Base.{
  ◌≡◌, refl, List, [], ◌∷◌, Option, none, some, String, str_eq, eq_iff, arith, if◌then◌else◌,
}

abbrev pub Map {ℓ} : Type ℓ → Type ℓ
Map V = List (String × V)

module _ {ℓ} {V : Type ℓ} where
  -- `m[k]`, with the second result of `v, ok := m[k]`
  abbrev pub lookup : String → Map V → Option V
  lookup k [] = none
  lookup k ((j, v) ∷ m) = if str_eq j k then some v else lookup k m

  -- `m[k] = v`
  abbrev pub insert : String → V → Map V → Map V
  insert k v [] = (k, v) ∷ []
  insert k v ((j, w) ∷ m) = if str_eq j k then (k, v) ∷ m else (j, w) ∷ insert k v m

  -- `delete(m, k)`
  abbrev pub erase : String → Map V → Map V
  erase k [] = []
  erase k ((j, w) ∷ m) = let rest = erase k m in if str_eq j k then rest else (j, w) ∷ rest

  -- a change through the pointer that `m[k]` holds; nothing for a missing key
  abbrev pub adjust : String → (V → V) → Map V → Map V
  adjust k f [] = []
  adjust k f ((j, v) ∷ m) = if str_eq j k then (j, f v) ∷ m else (j, v) ∷ adjust k f m

  pub lookup-adjust :
      (k j : String) (f : V → V) (m : Map V)
      → lookup j (adjust k f m) ≡ (if str_eq k j then Option.map f (lookup j m) else lookup j m)
  lookup-adjust k j f [] = ground arith
  lookup-adjust k j f ((i, w) ∷ m) =
      ground (arith, eq_iff k j, eq_iff i k, eq_iff i j, lookup-adjust k j f m)

  pub lookup-insert :
      (k j : String) (v : V) (m : Map V)
      → lookup j (insert k v m) ≡ (if str_eq k j then some v else lookup j m)
  lookup-insert k j v [] = refl
  lookup-insert k j v ((i, w) ∷ m) =
      ground (arith, eq_iff k j, eq_iff i k, eq_iff i j, lookup-insert k j v m)

  pub lookup-erase :
      (k j : String) (m : Map V) → lookup j (erase k m) ≡ (if str_eq k j then none else lookup j m)
  lookup-erase k j [] = ground arith
  lookup-erase k j ((i, w) ∷ m) =
      ground (arith, eq_iff k j, eq_iff i k, eq_iff i j, lookup-erase k j m)
