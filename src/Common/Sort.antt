-- ===== src/Common/Sort.antt =====
-- Go's `sort.SliceStable`: an element moves in front of another only where it must.
use Prim.Native.Nat.{ℕ, ◌≤◌}
use mathlib.Core.Path.{◌≡◌, refl, ap, ◌∙◌}
use mathlib.Core.Logic.{inl, inr}
use mathlib.Core.Bool.{Bool}
use mathlib.Core.List.{List, [], ◌∷◌}
use native.Mathlib.Omega.{arith}
use torrnado.Common.Tests.{if◌then◌else◌, ltb, ◌==◌, Bool-cases}
use torrnado.Common.Lists.{All, filter}

module _ {ℓ} {A : Type ℓ} where
  -- `before a b` is the slice's `less`. The element inserted stood in front of the list's, so it
  -- stays in front of those that are not before it.
  unfoldable pub insert_stable : (A → A → Bool) → A → List A → List A
  insert_stable before x [] = x ∷ []
  insert_stable before x (y ∷ ys) = if before y x then y ∷ insert_stable before x ys else x ∷ y ∷ ys

  unfoldable pub sort_stable : (A → A → Bool) → List A → List A
  unfolding insert_stable
  sort_stable before [] = []
  sort_stable before (x ∷ xs) = insert_stable before x (sort_stable before xs)

  -- Predicates of every element, and of every two.
  All-insert_stable {κ} :
      (P : A → Type κ) (before : A → A → Bool) (x : A) (xs : List A)
      → P x
      → All P xs
      → All P (insert_stable before x xs)
  unfolding insert_stable
  All-insert_stable P before x [] p h = (p, tt)
  All-insert_stable P before x (y ∷ ys) p (q, h) = elim (Bool-cases (before y x)) [
    | inl b ↦ rw b (q, All-insert_stable P before x ys p h)
    | inr b ↦ rw b (p, (q, h))
  ]

  pub All-sort_stable {κ} :
      (P : A → Type κ) (before : A → A → Bool) (xs : List A)
      → All P xs
      → All P (sort_stable before xs)
  unfolding sort_stable
  All-sort_stable P before [] h = tt
  All-sort_stable P before (x ∷ xs) (p, h) =
      All-insert_stable P before x (sort_stable before xs) p (All-sort_stable P before xs h)

  -- Each element stands in this relation to every later one.
  abbrev pub Pairs {κ} : (A → A → Type κ) → List A → Type κ
  Pairs R [] = Unit
  Pairs R (x ∷ xs) = All (R x) xs × Pairs R xs

  Pairs-insert_stable {κ} :
      (R : A → A → Type κ)
      → ((a b : A) → R a b → R b a)
      → (before : A → A → Bool) (x : A) (xs : List A) → All (R x) xs
      → Pairs R xs
      → Pairs R (insert_stable before x xs)
  unfolding insert_stable
  Pairs-insert_stable R swap before x [] p h = (tt, tt)
  Pairs-insert_stable R swap before x (y ∷ ys) (p, q) (r, h) = elim (Bool-cases (before y x)) [
    | inl b ↦ rw b (
      All-insert_stable (R y) before x ys (swap x y p) r,
      Pairs-insert_stable R swap before x ys q h,
    )
    | inr b ↦ rw b ((p, q), (r, h))
  ]

  -- A symmetric relation does not see the order.
  pub Pairs-sort_stable {κ} :
      (R : A → A → Type κ)
      → ((a b : A) → R a b → R b a)
      → (before : A → A → Bool) (xs : List A) → Pairs R xs
      → Pairs R (sort_stable before xs)
  unfolding sort_stable
  Pairs-sort_stable R swap before [] h = tt
  Pairs-sort_stable R swap before (x ∷ xs) (p, h) =
      Pairs-insert_stable R swap before x (sort_stable before xs)
        (All-sort_stable (R x) before xs p) (Pairs-sort_stable R swap before xs h)

-- Sorting by a number, the greatest first.
module _ {ℓ} {A : Type ℓ} (key : A → ℕ) where
  abbrev pub by_greater : A → A → Bool
  by_greater a b = ltb (key b) (key a)

  abbrev pub IsDescending : List A → Type 0
  IsDescending = Pairs (λ a b. key b ≤ key a)

  below_weaken : (k l : ℕ) (xs : List A) → k ≤ l → All (λ b. key b ≤ k) xs → All (λ b. key b ≤ l) xs
  below_weaken k l [] h p = tt
  below_weaken k l (x ∷ xs) h (p, q) = (omega arith, below_weaken k l xs h q)

  insert_stable-IsDescending :
      (x : A) (xs : List A) → IsDescending xs → IsDescending (insert_stable by_greater x xs)
  unfolding insert_stable
  insert_stable-IsDescending x [] h = (tt, tt)
  insert_stable-IsDescending x (y ∷ ys) (p, h) = elim (Bool-cases (ltb (key x) (key y))) [
    | inl b ↦ rw b (
      All-insert_stable (λ z. key z ≤ key y) by_greater x ys (ground arith) p,
      insert_stable-IsDescending x ys h,
    )
    | inr b ↦
        let le : key y ≤ key x = ground arith in
        rw b ((le, below_weaken (key y) (key x) ys le p), (p, h))
  ]

  pub sort_stable-IsDescending : (xs : List A) → IsDescending (sort_stable by_greater xs)
  unfolding sort_stable
  sort_stable-IsDescending [] = tt
  sort_stable-IsDescending (x ∷ xs) =
      insert_stable-IsDescending x (sort_stable by_greater xs) (sort_stable-IsDescending xs)

  filter-insert_stable :
      (k : ℕ) (x : A) (xs : List A)
      → filter (λ a. key a == k) (insert_stable by_greater x xs) ≡ filter (λ a. key a == k) (x ∷ xs)
  unfolding insert_stable
  filter-insert_stable k x [] = refl
  filter-insert_stable k x (y ∷ ys) = ground (arith, filter-insert_stable k x ys)

  -- Elements with the same number keep their order, and none is lost or made.
  pub filter-sort_stable :
      (k : ℕ) (xs : List A)
      → filter (λ a. key a == k) (sort_stable by_greater xs) ≡ filter (λ a. key a == k) xs
  unfolding sort_stable
  filter-sort_stable k [] = refl
  filter-sort_stable k (x ∷ xs) =
      filter-insert_stable k x (sort_stable by_greater xs) ∙ ground (arith, filter-sort_stable k xs)

  insert_stable_front :
      (x : A) (xs : List A) → All (λ z. key z ≤ key x) xs → insert_stable by_greater x xs ≡ x ∷ xs
  unfolding insert_stable
  insert_stable_front x [] h = refl
  insert_stable_front x (y ∷ ys) (p, h) = ground arith

  All-filter {κ} : (P : A → Type κ) (p : A → Bool) (xs : List A) → All P xs → All P (filter p xs)
  All-filter P p [] h = tt
  All-filter P p (x ∷ xs) (q, h) = elim (Bool-cases (p x)) [
    | inl b ↦ rw b (q, All-filter P p xs h)
    | inr b ↦ rw b (All-filter P p xs h)
  ]

  filter-insert_stable_any :
      (p : A → Bool) (x : A) (xs : List A)
      → IsDescending xs
      → filter p (insert_stable by_greater x xs)
        ≡ (if p x then insert_stable by_greater x (filter p xs) else filter p xs)
  unfolding insert_stable
  filter-insert_stable_any p x [] h = refl
  filter-insert_stable_any p x (y ∷ ys) (q, h) = elim (Bool-cases (ltb (key x) (key y))) [
    | inl b ↦ rw b (ground (arith, filter-insert_stable_any p x ys h))
    | inr b ↦
        let below =
          All-filter (λ z. key z ≤ key x) p ys (below_weaken (key y) (key x) ys (ground arith) q) in
        let front = insert_stable_front x (filter p ys) below in rw b (ground (arith, front))
  ]

  -- Sorting and picking out may be done in either order.
  pub filter-sort_stable_any :
      (p : A → Bool) (xs : List A)
      → filter p (sort_stable by_greater xs) ≡ sort_stable by_greater (filter p xs)
  unfolding sort_stable
  filter-sort_stable_any p [] = refl
  filter-sort_stable_any p (x ∷ xs) =
      filter-insert_stable_any p x (sort_stable by_greater xs) (sort_stable-IsDescending xs)
      ∙ elim (Bool-cases (p x)) [
        | inl b ↦ rw b (ap (insert_stable by_greater x) (filter-sort_stable_any p xs))
        | inr b ↦ rw b (filter-sort_stable_any p xs)
      ]
