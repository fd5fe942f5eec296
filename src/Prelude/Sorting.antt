-- ===== src/Prelude/Sorting.antt =====
-- `ORDER BY ... LIMIT ...`: insertion sort, which keeps the order of rows with equal keys, and the
-- first n rows.
use Prim.Native.Nat.{ℕ, zero, suc, ◌≤◌}
use mathlib.Core.Bool.{Bool}
use mathlib.Core.Logic.{inl, inr}
use mathlib.Core.List.{map, List, [], ◌∷◌, Memᴰ}
use native.Mathlib.Omega.{arith}
use mathlib.Core.Path.{◌≡◌, refl, ap, ◌∙◌}
use client_capmesh.Prelude.Tests.{if◌then◌else◌, Bool-cases}
use client_capmesh.Prelude.Lists.{length, Memᴰ-cons_cases}

module _ {ℓ} {A : Type ℓ} where
  abbrev pub take : ℕ → List A → List A
  take zero xs = []
  take (suc n) [] = []
  take (suc n) (x ∷ xs) = x ∷ take n xs

  pub length-take : (n : ℕ) (xs : List A) → length (take n xs) ≤ n
  length-take zero xs = omega arith
  length-take (suc n) [] = omega arith
  length-take (suc n) (x ∷ xs) = let rest = length-take n xs in omega arith

  pub Memᴰ-of-take : (n : ℕ) (xs : List A) {x : A} → Memᴰ x (take n xs) → Memᴰ x xs
  Memᴰ-of-take zero xs m = elim m [ ]
  Memᴰ-of-take (suc n) [] m = elim m [ ]
  Memᴰ-of-take (suc n) (y ∷ xs) (Memᴰ.head e) = Memᴰ.head e
  Memᴰ-of-take (suc n) (y ∷ xs) (Memᴰ.tail m) = Memᴰ.tail (Memᴰ-of-take n xs m)

  module _ (le : A → A → Bool) where
    abbrev pub insert_by : A → List A → List A
    insert_by x [] = x ∷ []
    insert_by x (y ∷ ys) = let rest = insert_by x ys in if le x y then x ∷ y ∷ ys else y ∷ rest

    -- Rows are put in from the last to the first, each before the rows with its key.
    abbrev pub order_by : List A → List A
    order_by [] = []
    order_by (x ∷ xs) = insert_by x (order_by xs)

    Memᴰ-of-insert_by : (x : A) (ys : List A) {z : A} → Memᴰ z (insert_by x ys) → Memᴰ z (x ∷ ys)
    Memᴰ-of-insert_by x [] m = m
    Memᴰ-of-insert_by x (y ∷ ys) {z} m = elim (Bool-cases (le x y)) [
      | inl e ↦ rw e at m
      | inr e ↦
          let m' : Memᴰ z (y ∷ insert_by x ys) = rw e at m in
          elim (Memᴰ-cons_cases m') [
            | inl same ↦ Memᴰ.tail (Memᴰ.head same)
            | inr later ↦ elim (Memᴰ-cons_cases (Memᴰ-of-insert_by x ys later)) [
              | inl same ↦ Memᴰ.head same
              | inr rest ↦ Memᴰ.tail (Memᴰ.tail rest)
            ]
          ]
    ]

    Memᴰ-insert_by : (x : A) (ys : List A) {z : A} → Memᴰ z (x ∷ ys) → Memᴰ z (insert_by x ys)
    Memᴰ-insert_by x [] m = m
    Memᴰ-insert_by x (y ∷ ys) {z} m = elim (Bool-cases (le x y)) [
      | inl e ↦ rw e m
      | inr e ↦
          let m' : Memᴰ z (y ∷ insert_by x ys) = elim (Memᴰ-cons_cases m) [
            | inl same ↦ Memᴰ.tail (Memᴰ-insert_by x ys (Memᴰ.head same))
            | inr later ↦ elim (Memᴰ-cons_cases later) [
              | inl same ↦ Memᴰ.head same
              | inr rest ↦ Memᴰ.tail (Memᴰ-insert_by x ys (Memᴰ.tail rest))
            ]
          ] in
          rw e m'
    ]

    pub Memᴰ-of-order_by : (xs : List A) {z : A} → Memᴰ z (order_by xs) → Memᴰ z xs
    Memᴰ-of-order_by [] m = m
    Memᴰ-of-order_by (x ∷ xs) m = elim (Memᴰ-cons_cases (Memᴰ-of-insert_by x (order_by xs) m)) [
      | inl same ↦ Memᴰ.head same
      | inr later ↦ Memᴰ.tail (Memᴰ-of-order_by xs later)
    ]

    pub Memᴰ-order_by : (xs : List A) {z : A} → Memᴰ z xs → Memᴰ z (order_by xs)
    Memᴰ-order_by [] m = m
    Memᴰ-order_by (x ∷ xs) m = Memᴰ-insert_by x (order_by xs) (elim (Memᴰ-cons_cases m) [
      | inl same ↦ Memᴰ.head same
      | inr later ↦ Memᴰ.tail (Memᴰ-order_by xs later)
    ])

    length-insert_by : (x : A) (ys : List A) → length (insert_by x ys) ≡ suc (length ys)
    length-insert_by x [] = refl
    length-insert_by x (y ∷ ys) = elim (Bool-cases (le x y)) [
      | inl e ↦ rw e
      | inr e ↦ rw e (ap suc (length-insert_by x ys))
    ]

    pub length-order_by : (xs : List A) → length (order_by xs) ≡ length xs
    length-order_by [] = refl
    length-order_by (x ∷ xs) = length-insert_by x (order_by xs) ∙ ap suc (length-order_by xs)

    insert_by-map :
        (f : A → A)
        → ((x y : A) → le (f x) (f y) ≡ le x y)
        → (x : A) (ys : List A) → insert_by (f x) (map f ys) ≡ map f (insert_by x ys)
    insert_by-map f k x [] = refl
    insert_by-map f k x (y ∷ ys) = elim (Bool-cases (le x y)) [
      | inl e ↦ rw (k, e)
      | inr e ↦ rw (k, e) (ap (λ zs. f y ∷ zs) (insert_by-map f k x ys))
    ]

    -- An edit that keeps the order of rows keeps their places.
    pub order_by-map :
        (f : A → A)
        → ((x y : A) → le (f x) (f y) ≡ le x y)
        → (xs : List A) → order_by (map f xs) ≡ map f (order_by xs)
    order_by-map f k [] = refl
    order_by-map f k (x ∷ xs) =
        ap (insert_by (f x)) (order_by-map f k xs) ∙ insert_by-map f k x (order_by xs)
