-- ===== src/Dependencies/Orders.antt =====
-- What an order of deployment is, for `topological_sort` of capmesh/dependency_graph.py, and how many
-- nodes are left.
use client_capmesh.Dependencies.Invariant.{pending}
use client_capmesh.Dependencies.Kahn.{Edges, all_nodes}
use client_capmesh.Prelude.{
  String, [], refl, List, elem, Bool, ◌≡◌, ℕ, ◌∷◌, true, all, if◌then◌else◌, length, ◌≤◌, ◌==◌,
  ◌&&◌, ◌||◌, arith, suc, ap, false, not, ◌<◌, Bool-cases, inl, eq_iff, ◌∙◌, eq_comm, inr,
}

-- all that a node depends on is among the nodes given
unfoldable pub is_ready : Edges → (before : List String) → String → Bool
is_ready [] before n = true
is_ready (e ∷ es) before n =
    let rest = is_ready es before n in if e.0 == n && not (elem e.1 before) then false else rest

-- Each node comes after all that it depends on.
unfoldable pub is_deployment_order : Edges → (before nodes : List String) → Bool
unfolding is_ready
is_deployment_order es before [] = true
is_deployment_order es before (n ∷ nodes) =
    is_ready es before n && is_deployment_order es (n ∷ before) nodes

-- A node that is not among those given depends on a node that is not among them.
unfoldable pub is_exhausted : Edges → List String → Bool
unfolding is_ready
is_exhausted es nodes = all (λ n. elem n nodes || not (is_ready es nodes n)) (all_nodes es)

-- every node of a list is a node of the table
unfoldable pub is_included : (xs ys : List String) → Bool
is_included xs ys = all (λ n. elem n ys) xs

pub ready-pending :
    (es : Edges) (seen : List String) (n : String)
    → pending es seen n ≡ 0
    → is_ready es seen n ≡ true
unfolding is_ready pending
ready-pending [] seen n h = refl
ready-pending (e ∷ es) seen n h =
    let rest : pending es seen n ≡ 0 = ground (arith, h) in
    ground (arith, h, ready-pending es seen n rest)

pub pending-ready :
    (es : Edges) (seen : List String) (n : String)
    → is_ready es seen n ≡ true
    → pending es seen n ≡ 0
unfolding is_ready pending
pending-ready [] seen n h = refl
pending-ready (e ∷ es) seen n h =
    let rest : is_ready es seen n ≡ true = ground (arith, h) in
    ground (arith, h, pending-ready es seen n rest)

-- the number of nodes that are not in a list
unfoldable pub room : (nodes seen : List String) → ℕ
room [] seen = 0
room (n ∷ nodes) seen = let rest = room nodes seen in if elem n seen then rest else suc rest

pub room-start : (nodes : List String) → room nodes [] ≡ length nodes
unfolding room elem
room-start [] = refl
room-start (n ∷ nodes) = ap suc (room-start nodes)

room-le :
    (nodes : List String) (x : String) (seen : List String)
    → room nodes (x ∷ seen) ≤ room nodes seen
unfolding room elem
room-le [] x seen = omega arith
room-le (n ∷ nodes) x seen = ground (arith, room-le nodes x seen)

pub room-take :
    (nodes : List String) (x : String) (seen : List String)
    → elem x nodes ≡ true
    → elem x seen ≡ false
    → room nodes (x ∷ seen) < room nodes seen
unfolding room elem
room-take [] x seen there new = absurd (ground (arith, there))
room-take (n ∷ nodes) x seen there new = elim (Bool-cases (n == x)) [
  | inl e ↦
      let same : elem n seen ≡ false = ap (λ m. elem m seen) ((eq_iff n x).0 e) ∙ new in
      ground (arith, room-le nodes x seen, e, same, eq_comm n x)
  | inr e ↦
      let rest = room-take nodes x seen (ground (arith, there, e)) new in
      ground (arith, rest, e, eq_comm n x)
]
