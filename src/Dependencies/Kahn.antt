-- ===== src/Dependencies/Kahn.antt =====
-- capmesh/dependency_graph.py: `topological_sort`, Kahn's algorithm. A row is the pair of a capability
-- and what it depends on; the dict `in_degree` is a function, since it has 0 where it has no key.
use client_capmesh.Dependencies.Table.{Dependency}
use client_capmesh.Prelude.{
  zero, String, List, ℕ, ◌∷◌, if◌then◌else◌, order_by, Option, ◌==◌, elem, str_le, some, length,
  suc, ◌-◌, none, select, eqb, ◌++◌, [],
}

abbrev pub Edges : Type 0
Edges = List (String × String)

-- SELECT capability_uri, depends_on_uri WHERE tenant_id = ?
unfoldable pub edges : (tenant_id : String) → List Dependency → Edges
edges tenant_id [] = []
edges tenant_id (d ∷ rows) =
    let rest = edges tenant_id rows in
    if d.tenant_id == tenant_id then (d.capability_uri, d.depends_on_uri) ∷ rest else rest

-- the number of dependencies of a node
unfoldable pub in_degree : Edges → String → ℕ
in_degree [] n = 0
in_degree (e ∷ es) n = let rest = in_degree es n in if e.0 == n then suc rest else rest

-- graph[x], what depends on a node
unfoldable pub successors : Edges → String → List String
successors [] x = []
successors (e ∷ es) x = let rest = successors es x in if e.1 == x then e.0 ∷ rest else rest

-- set.add
abbrev pub add_to : String → List String → List String
add_to x xs = if elem x xs then xs else x ∷ xs

unfoldable pub all_nodes : Edges → List String
all_nodes [] = []
all_nodes (e ∷ es) = add_to e.0 (add_to e.1 (all_nodes es))

-- sorted(xs)
abbrev pub sorted : List String → List String
sorted = order_by str_le

-- in_degree[n] -= 1. A number that is 1 is 0 after it; one that is 0 becomes negative in the code and
-- does not reach 0 again, here it stays 0.
abbrev pub decrement : String → (String → ℕ) → String → ℕ
decrement n degree m = if n == m then degree m - 1 else degree m

-- the push, which asks whether the number is now 0
abbrev pub push : String → (String → ℕ) → List String → List String
push n degree queue = if eqb (degree n) 1 then queue ++ (n ∷ []) else queue

-- the loop over the neighbours
unfoldable pub relax : List String → (String → ℕ) → List String → (String → ℕ) × List String
relax [] degree queue = (degree, queue)
relax (n ∷ ns) degree queue = relax ns (decrement n degree) (push n degree queue)

-- The loop over the queue gives the nodes in the order in which they are taken from it; none where
-- the fuel is out and the queue is not empty.
unfoldable pub take_nodes : ℕ → Edges → (String → ℕ) → List String → Option (List String)
take_nodes fuel es degree [] = some []
take_nodes zero es degree (x ∷ queue) = none
take_nodes (suc fuel) es degree (x ∷ queue) =
    let next = relax (sorted (successors es x)) degree queue in
    elim (take_nodes fuel es next.0 next.1) [ none ↦ none | some rest ↦ some (x ∷ rest) ]

unfoldable pub topological_sort : (tenant_id : String) → List Dependency → Option (List String)
topological_sort tenant_id rows =
    let es = edges tenant_id rows in
    take_nodes (length (all_nodes es)) es (in_degree es)
      (sorted (select (λ n. eqb (in_degree es n) 0) (all_nodes es)))
