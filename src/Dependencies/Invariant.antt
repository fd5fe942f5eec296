-- ===== src/Dependencies/Invariant.antt =====
-- What the loops of `topological_sort` (capmesh/dependency_graph.py) keep true.
use client_capmesh.Dependencies.Counts.{
  count, is_distinct, elem-snoc, is_distinct-snoc, elem-add_to, count-sorted,
}
use client_capmesh.Dependencies.Kahn.{
  Edges, in_degree, relax, successors, decrement, push, all_nodes, sorted, add_to,
}
use client_capmesh.Prelude.{
  String, [], refl, elem, List, ◌≡◌, ℕ, ◌∷◌, false, if◌then◌else◌, arith, ◌+◌, ◌-◌, ◌||◌, ◌==◌,
  Bool-cases, leb, true, ◌&&◌, inl, eqb, not, ap, suc, eq_iff, ◌∙◌, eq_comm, inr, eq_refl,
}

-- the number of dependencies of a node that are not yet taken
unfoldable pub pending : Edges → (seen : List String) → String → ℕ
pending [] seen n = 0
pending (e ∷ es) seen n =
    let rest = pending es seen n in if e.0 == n && not (elem e.1 seen) then suc rest else rest

pub pending-start : (es : Edges) (n : String) → in_degree es n ≡ pending es [] n
unfolding in_degree pending elem
pending-start [] n = refl
pending-start (e ∷ es) n = ground (arith, pending-start es n)

-- Taking a node lowers the numbers of its successors.
pub pending-take :
    (es : Edges) (seen : List String) (x n : String)
    → elem x seen ≡ false
    → pending es (x ∷ seen) n + count n (successors es x) ≡ pending es seen n
unfolding pending elem successors count
pending-take [] seen x n new = refl
pending-take (e ∷ es) seen x n new = elim (Bool-cases (e.1 == x)) [
  | inl h ↦
      let own : elem e.1 seen ≡ false = ap (λ m. elem m seen) ((eq_iff e.1 x).0 h) ∙ new in
      ground (arith, pending-take es seen x n new, h, own, eq_comm e.1 x)
  | inr h ↦ ground (arith, pending-take es seen x n new, h, eq_comm e.1 x)
]

-- the degree of a node after the loop over the neighbours
pub relax-degree :
    (ns : List String) (degree : String → ℕ) (queue : List String) (n : String)
    → (relax ns degree queue).0 n ≡ degree n - count n ns
unfolding relax count
relax-degree [] degree queue n = ground arith
relax-degree (m ∷ ns) degree queue n =
    ground (arith, relax-degree ns (decrement m degree) (push m degree queue) n)

-- a node is in the queue after it if it was there, or if its degree came to 0
pub relax-queue :
    (ns : List String) (degree : String → ℕ) (queue : List String) (n : String)
    → elem n (relax ns degree queue).1
      ≡ (elem n queue || (leb 1 (degree n) && leb (degree n) (count n ns)))
unfolding relax count
relax-queue [] degree queue n = ground arith
relax-queue (m ∷ ns) degree queue n =
    let rest = relax-queue ns (decrement m degree) (push m degree queue) n in
    let pushed : elem n (push m degree queue) ≡ (elem n queue || eqb (degree m) 1 && m == n) =
      ground (arith, elem-snoc n m queue) in
    elim (Bool-cases (m == n)) [
      | inl e ↦ ground (arith, rest, pushed, e, ap degree ((eq_iff m n).0 e))
      | inr e ↦ ground (arith, rest, pushed, e)
    ]

-- a push puts a node whose degree comes to 0
push-zero :
    (m : String) (degree : String → ℕ) (queue : List String)
    → ((n : String) → elem n queue ≡ true → degree n ≡ 0)
    → (n : String) → elem n (push m degree queue) ≡ true
    → decrement m degree n ≡ 0
push-zero m degree queue zeros n h = elim (Bool-cases (elem n queue)) [
  | inl e ↦ ground (arith, zeros n e)
  | inr e ↦ elim (Bool-cases (m == n)) [
    | inl same ↦ ground (arith, h, e, elem-snoc n m queue, same, ap degree ((eq_iff m n).0 same))
    | inr other ↦ absurd (ground (arith, h, e, other, elem-snoc n m queue))
  ]
]

push-distinct :
    (m : String) (degree : String → ℕ) (queue : List String)
    → is_distinct queue ≡ true
    → ((n : String) → elem n queue ≡ true → degree n ≡ 0)
    → is_distinct (push m degree queue) ≡ true
push-distinct m degree queue d zeros = elim (Bool-cases (elem m queue)) [
  | inl e ↦ ground (arith, d, zeros m e)
  | inr e ↦ ground (arith, d, is_distinct-snoc m queue e d)
]

-- no node comes twice
pub relax-distinct :
    (ns : List String) (degree : String → ℕ) (queue : List String)
    → is_distinct queue ≡ true
    → ((n : String) → elem n queue ≡ true → degree n ≡ 0)
    → is_distinct (relax ns degree queue).1 ≡ true
unfolding relax
relax-distinct [] degree queue d zeros = d
relax-distinct (m ∷ ns) degree queue d zeros =
    relax-distinct ns (decrement m degree) (push m degree queue)
      (push-distinct m degree queue d zeros) (λ n h. push-zero m degree queue zeros n h)

-- what depends on a node is a node
count-known :
    (es : Edges) (x n : String)
    → leb 1 (count n (successors es x)) ≡ true
    → elem n (all_nodes es) ≡ true
unfolding successors count all_nodes elem
count-known [] x n h = absurd (ground (arith, h))
count-known (e ∷ es) x n h = elim (Bool-cases (e.0 == n)) [
  | inl own ↦ ground (arith, own, elem-add_to n e.0 (add_to e.1 (all_nodes es)))
  | inr other ↦
      let rest : leb 1 (count n (successors es x)) ≡ true = ground (arith, h, other) in
      ground (
        arith,
        count-known es x n rest,
        elem-add_to n e.0 (add_to e.1 (all_nodes es)),
        elem-add_to n e.1 (all_nodes es),
      )
]

-- what holds before each turn of the loop over the queue; `seen` has the nodes taken so far
pub record Holds (es : Edges) (seen : List String) (degree : String → ℕ) (queue : List String)
    : Type 0 where
  pub degrees : (n : String) → degree n ≡ pending es seen n
  pub taken : (n : String) → elem n seen ≡ true → degree n ≡ 0
  pub waiting : (n : String) → elem n queue ≡ true → degree n ≡ 0
  pub apart : (n : String) → elem n queue ≡ true → elem n seen ≡ false
  pub distinct : is_distinct queue ≡ true
  pub known : (n : String) → elem n queue ≡ true → elem n (all_nodes es) ≡ true
  pub settled :
      (n : String)
      → elem n (all_nodes es) ≡ true
      → degree n ≡ 0
      → (elem n seen || elem n queue) ≡ true

pub Holds-take :
    (es : Edges) (seen : List String) (degree : String → ℕ) (x : String) (queue : List String)
    → Holds es seen degree (x ∷ queue)
    → Holds es
        (x ∷ seen)
        (relax (sorted (successors es x)) degree queue).0
        (relax (sorted (successors es x)) degree queue).1
unfolding elem is_distinct
Holds-take es seen degree x queue h =
    let ns = sorted (successors es x) in
    let first : elem x (x ∷ queue) ≡ true = ground (arith, eq_refl x) in
    let new : elem x seen ≡ false = h.apart x first in
    let zero_x : degree x ≡ 0 = h.waiting x first in
    let own : elem x queue ≡ false = ground (arith, h.distinct) in
    let zeros : (n : String) → elem n queue ≡ true → degree n ≡ 0 =
      λ n e. h.waiting n (ground (arith, e)) in
    let degree' : (n : String)
        → (relax ns degree queue).0 n ≡ degree n - count n (successors es x) =
      λ n.
        relax-degree ns degree queue n
        ∙ ap (λ k. degree n - k) (count-sorted n (successors es x)) in
    let queue' : (n : String)
        → elem n (relax ns degree queue).1
          ≡ (elem n queue || (leb 1 (degree n) && leb (degree n) (count n (successors es x)))) =
      λ n.
        relax-queue ns degree queue n
        ∙ ap (λ k. elem n queue || (leb 1 (degree n) && leb (degree n) k))
            (count-sorted n (successors es x)) in
    record {
      degrees = λ n. ground (arith, degree' n, h.degrees n, pending-take es seen x n new);
      taken = λ n e. elim (Bool-cases (x == n)) [
        | inl same ↦ ground (arith, degree' n, zero_x, ap degree ((eq_iff x n).0 same))
        | inr other ↦ ground (arith, degree' n, h.taken n (ground (arith, e, other)))
      ];
      waiting = λ n e. elim (Bool-cases (elem n queue)) [
        | inl there ↦ ground (arith, degree' n, zeros n there)
        | inr pushed ↦ ground (arith, degree' n, queue' n, e, pushed)
      ];
      apart = λ n e.
          let unseen : elem n seen ≡ false = elim (Bool-cases (elem n queue)) [
            | inl there ↦ h.apart n (ground (arith, there))
            | inr pushed ↦ elim (Bool-cases (elem n seen)) [
              | inr unseen ↦ unseen
              | inl is_seen ↦ absurd (ground (arith, queue' n, e, pushed, h.taken n is_seen))
            ]
          ] in
          elim (Bool-cases (x == n)) [
            | inr other ↦ ground (arith, other, unseen)
            | inl same ↦
                let is_x = (eq_iff x n).0 same in
                absurd (
                  ground
                    (arith, queue' n, e, zero_x, own, ap degree is_x, ap (λ m. elem m queue) is_x))
          ];
      distinct = relax-distinct ns degree queue (ground (arith, h.distinct)) zeros;
      known = λ n e. elim (Bool-cases (elem n queue)) [
        | inl there ↦ h.known n (ground (arith, there))
        | inr pushed ↦ count-known es x n (ground (arith, queue' n, e, pushed))
      ];
      settled = λ n k z. elim (Bool-cases (leb 1 (degree n))) [
        | inl more ↦ ground (arith, queue' n, degree' n, z, more)
        | inr none_left ↦ ground (arith, queue' n, h.settled n k (ground (arith, none_left)))
      ];
    }
