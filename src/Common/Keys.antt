-- ===== src/Common/Keys.antt =====
-- Go's `map[string]V` as an association list. The order of the entries stands for the unspecified
-- order in which Go ranges over a map.
use mathlib.Core.Logic.{inl, inr}
use mathlib.Core.Path.{◌≡◌, refl, subst}
use mathlib.Core.List.{List, [], ◌∷◌}
use mathlib.Core.Option.{Option, none, some, some-injective}
use native.Mathlib.Omega.{arith}
use torrnado.Common.Tests.{if◌then◌else◌, Bool-cases}
use torrnado.Common.Lists.{All}
use torrnado.Common.Text.{Text, text_eq, text_eq_iff}

module _ {ℓ} {V : Type ℓ} where
  unfoldable pub lookup : Text → List (Text × V) → Option V
  lookup k [] = none
  lookup k ((j, v) ∷ m) = if text_eq j k then some v else lookup k m

  -- `m[k] = v`
  unfoldable pub insert : Text → V → List (Text × V) → List (Text × V)
  insert k v [] = (k, v) ∷ []
  insert k v ((j, w) ∷ m) = if text_eq j k then (k, v) ∷ m else (j, w) ∷ insert k v m

  -- `delete(m, k)`
  unfoldable pub erase : Text → List (Text × V) → List (Text × V)
  erase k [] = []
  erase k ((j, w) ∷ m) = let rest = erase k m in if text_eq j k then rest else (j, w) ∷ rest

  -- A write through the pointer that `m[k]` holds: nothing happens where there is none.
  unfoldable pub update : Text → (V → V) → List (Text × V) → List (Text × V)
  update k f [] = []
  update k f ((j, w) ∷ m) = if text_eq j k then (j, f w) ∷ update k f m else (j, w) ∷ update k f m

  -- The same write through every pointer of the map.
  unfoldable pub update_all : (V → V) → List (Text × V) → List (Text × V)
  update_all f [] = []
  update_all f ((j, w) ∷ m) = (j, f w) ∷ update_all f m

  pub lookup-insert :
      (k j : Text) (v : V) (m : List (Text × V))
      → lookup j (insert k v m) ≡ (if text_eq k j then some v else lookup j m)
  unfolding lookup insert
  lookup-insert k j v [] = refl
  lookup-insert k j v ((i, w) ∷ m) =
      ground (arith, text_eq_iff k j, text_eq_iff i k, text_eq_iff i j, lookup-insert k j v m)

  pub lookup-erase :
      (k j : Text) (m : List (Text × V))
      → lookup j (erase k m) ≡ (if text_eq k j then none else lookup j m)
  unfolding lookup erase
  lookup-erase k j [] = ground arith
  lookup-erase k j ((i, w) ∷ m) =
      ground (arith, text_eq_iff k j, text_eq_iff i k, text_eq_iff i j, lookup-erase k j m)

  abbrev pub map_option : (V → V) → Option V → Option V
  map_option f none = none
  map_option f (some v) = some (f v)

  pub lookup-update :
      (k j : Text) (f : V → V) (m : List (Text × V))
      → lookup j (update k f m) ≡ (if text_eq k j then map_option f (lookup j m) else lookup j m)
  unfolding lookup update
  lookup-update k j f [] = ground arith
  lookup-update k j f ((i, w) ∷ m) =
      ground (arith, text_eq_iff k j, text_eq_iff i k, text_eq_iff i j, lookup-update k j f m)

  pub lookup-update_all :
      (j : Text) (f : V → V) (m : List (Text × V))
      → lookup j (update_all f m) ≡ map_option f (lookup j m)
  unfolding lookup update_all
  lookup-update_all j f [] = refl
  lookup-update_all j f ((i, w) ∷ m) = ground (arith, lookup-update_all j f m)

  -- A predicate of the values, through each operation.
  abbrev pub Values {κ} : (V → Type κ) → List (Text × V) → Type κ
  Values P = All (λ kv. P kv.1)

  pub Values-insert {κ} :
      (P : V → Type κ) (k : Text) (v : V) (m : List (Text × V))
      → P v
      → Values P m
      → Values P (insert k v m)
  unfolding insert
  Values-insert P k v [] p h = (p, tt)
  Values-insert P k v ((j, w) ∷ m) p (q, h) = elim (Bool-cases (text_eq j k)) [
    | inl e ↦ rw e (p, h)
    | inr e ↦ rw e (q, Values-insert P k v m p h)
  ]

  pub Values-erase {κ} :
      (P : V → Type κ) (k : Text) (m : List (Text × V)) → Values P m → Values P (erase k m)
  unfolding erase
  Values-erase P k [] h = tt
  Values-erase P k ((j, w) ∷ m) (q, h) = elim (Bool-cases (text_eq j k)) [
    | inl e ↦ rw e (Values-erase P k m h)
    | inr e ↦ rw e (q, Values-erase P k m h)
  ]

  pub Values-lookup {κ} :
      (P : V → Type κ) (k : Text) {v : V} (m : List (Text × V))
      → Values P m
      → lookup k m ≡ some v
      → P v
  unfolding lookup
  Values-lookup P k [] h e = cc
  Values-lookup P k {v} ((j, w) ∷ m) (q, h) e = elim (Bool-cases (text_eq j k)) [
    | inl b ↦ subst P (some-injective w v (rw b at e)) q
    | inr b ↦ Values-lookup P k m h (rw b at e)
  ]
