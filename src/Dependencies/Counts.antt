-- ===== src/Dependencies/Counts.antt =====
-- Counting and membership in the lists of nodes that `topological_sort`
-- (capmesh/dependency_graph.py) works on.
use client_capmesh.Dependencies.Kahn.{all_nodes, sorted, add_to, Edges}
use client_capmesh.Prelude.{
  String, [], refl, List, elem, select, ℕ, Bool, insert_by, ◌++◌, ◌≡◌, ◌∷◌, true, str_le, false,
  ◌&&◌, ◌==◌, if◌then◌else◌, not, arith, ◌||◌, suc, eq_comm, Bool-cases, inl, ap, eq_iff, inr,
}

unfoldable pub count : String → List String → ℕ
count n [] = 0
count n (x ∷ xs) = let rest = count n xs in if x == n then suc rest else rest

-- no node twice
unfoldable pub is_distinct : List String → Bool
is_distinct [] = true
is_distinct (x ∷ xs) = not (elem x xs) && is_distinct xs

count-insert_by :
    (n x : String) (ys : List String) → count n (insert_by str_le x ys) ≡ count n (x ∷ ys)
unfolding count
count-insert_by n x [] = refl
count-insert_by n x (y ∷ ys) = ground (arith, count-insert_by n x ys)

pub count-sorted : (n : String) (xs : List String) → count n (sorted xs) ≡ count n xs
unfolding count
count-sorted n [] = refl
count-sorted n (x ∷ xs) = ground (arith, count-insert_by n x (sorted xs), count-sorted n xs)

elem-insert_by :
    (n x : String) (ys : List String) → elem n (insert_by str_le x ys) ≡ elem n (x ∷ ys)
unfolding elem
elem-insert_by n x [] = refl
elem-insert_by n x (y ∷ ys) = ground (arith, elem-insert_by n x ys)

pub elem-sorted : (n : String) (xs : List String) → elem n (sorted xs) ≡ elem n xs
unfolding elem
elem-sorted n [] = refl
elem-sorted n (x ∷ xs) = ground (arith, elem-insert_by n x (sorted xs), elem-sorted n xs)

is_distinct-insert_by :
    (x : String) (ys : List String)
    → is_distinct (insert_by str_le x ys) ≡ (not (elem x ys) && is_distinct ys)
unfolding elem is_distinct
is_distinct-insert_by x [] = refl
is_distinct-insert_by x (y ∷ ys) =
    ground (arith, elem-insert_by y x ys, is_distinct-insert_by x ys, eq_comm x y)

pub is_distinct-sorted : (xs : List String) → is_distinct (sorted xs) ≡ is_distinct xs
unfolding is_distinct
is_distinct-sorted [] = refl
is_distinct-sorted (x ∷ xs) =
    ground (arith, is_distinct-insert_by x (sorted xs), elem-sorted x xs, is_distinct-sorted xs)

pub elem-snoc : (n m : String) (q : List String) → elem n (q ++ (m ∷ [])) ≡ (elem n q || m == n)
unfolding elem
elem-snoc n m [] = ground arith
elem-snoc n m (x ∷ q) = ground (arith, elem-snoc n m q)

pub is_distinct-snoc :
    (m : String) (q : List String)
    → elem m q ≡ false
    → is_distinct q ≡ true
    → is_distinct (q ++ (m ∷ [])) ≡ true
unfolding elem is_distinct
is_distinct-snoc m [] new d = refl
is_distinct-snoc m (x ∷ q) new d =
    ground (arith, elem-snoc x m q, is_distinct-snoc m q (ground arith) (ground arith), eq_comm x m)

pub elem-select :
    (p : String → Bool) (n : String) (xs : List String) → elem n (select p xs) ≡ (p n && elem n xs)
unfolding elem select
elem-select p n [] = ground arith
elem-select p n (x ∷ xs) = elim (Bool-cases (x == n)) [
  | inl e ↦ ground (arith, elem-select p n xs, e, ap p ((eq_iff x n).0 e))
  | inr e ↦ ground (arith, elem-select p n xs, e)
]

pub is_distinct-select :
    (p : String → Bool) (xs : List String)
    → is_distinct xs ≡ true
    → is_distinct (select p xs) ≡ true
unfolding is_distinct select
is_distinct-select p [] d = refl
is_distinct-select p (x ∷ xs) d =
    ground (arith, elem-select p x xs, is_distinct-select p xs (ground arith))

pub elem-add_to : (n x : String) (xs : List String) → elem n (add_to x xs) ≡ (x == n || elem n xs)
unfolding elem
elem-add_to n x xs = elim (Bool-cases (x == n)) [
  | inl e ↦ ground (arith, e, ap (λ m. elem m xs) ((eq_iff x n).0 e))
  | inr e ↦ ground (arith, e)
]

pub is_distinct-add_to :
    (x : String) (xs : List String) → is_distinct xs ≡ true → is_distinct (add_to x xs) ≡ true
unfolding is_distinct
is_distinct-add_to x xs d = ground arith

pub is_distinct-all_nodes : (es : Edges) → is_distinct (all_nodes es) ≡ true
unfolding all_nodes is_distinct
is_distinct-all_nodes [] = refl
is_distinct-all_nodes (e ∷ es) =
    is_distinct-add_to e.0 (add_to e.1 (all_nodes es))
      (is_distinct-add_to e.1 (all_nodes es) (is_distinct-all_nodes es))
