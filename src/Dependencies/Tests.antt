-- ===== src/Dependencies/Tests.antt =====
-- A table of dependencies that is sorted, and the theorems at concrete inputs.
use client_capmesh.Dependencies.Deployment.{topological_sort-order}
use client_capmesh.Dependencies.Acyclic.{topological_sort_complete}
use client_capmesh.Dependencies.Orders.{is_included, is_deployment_order, is_exhausted}
use client_capmesh.Dependencies.Counts.{is_distinct}
use client_capmesh.Dependencies.Kahn.{
  topological_sort, edges, all_nodes, take_nodes, in_degree, relax, successors,
}
use client_capmesh.Dependencies.Table.{
  Dependency, add_dependency, remove_dependency, remove-add_dependency,
}
use client_capmesh.Prelude.{
  String, [], refl, List, ℕ, any, none, ◌∷◌, ◌≡◌, if◌then◌else◌, Memᴰ, some, ◌==◌, ◌<◌, true, ap,
  arith, select, elem,
}

abbrev row : (capability_uri depends_on_uri : String) → Dependency
row capability_uri depends_on_uri = record {
  tenant_id = "asg";
  capability_uri = capability_uri;
  depends_on_uri = depends_on_uri;
  version_constraint = "*";
  required_type = none;
}

-- app needs lib and log, lib needs log
abbrev chain : List Dependency
chain = row "app" "lib" ∷ row "app" "log" ∷ row "lib" "log" ∷ []

topological_sort_sorts : topological_sort "asg" chain ≡ some ("log" ∷ "lib" ∷ "app" ∷ [])
unfolding topological_sort take_nodes select all_nodes edges elem in_degree relax successors
topological_sort_sorts = refl

-- a and b need each other, c needs a, a needs z: only z is sorted
topological_sort_stops :
    topological_sort "asg" (row "a" "b" ∷ row "b" "a" ∷ row "c" "a" ∷ row "a" "z" ∷ [])
    ≡ some ("z" ∷ [])
unfolding topological_sort take_nodes select all_nodes edges elem in_degree relax successors
topological_sort_stops = refl

-- The sort of the chain is an order of deployment.
topological_sort-order_example :
    (nodes : List String) × (topological_sort "asg" chain ≡ some nodes)
    × (is_distinct nodes ≡ true)
    × (is_included nodes (all_nodes (edges "asg" chain)) ≡ true)
    × (is_deployment_order (edges "asg" chain) [] nodes ≡ true)
    × (is_exhausted (edges "asg" chain) nodes ≡ true)
topological_sort-order_example = topological_sort-order "asg" chain

abbrev rank : String → ℕ
rank n = if n == "app" then 2 else if n == "lib" then 1 else 0

falls : (n d : String) → Memᴰ (n, d) (edges "asg" chain) → rank d < rank n
unfolding edges
falls n d (Memᴰ.head e) = rw (ap (λ p. p.0) e, ap (λ p. p.1) e) (omega arith)
falls n d (Memᴰ.tail (Memᴰ.head e)) = rw (ap (λ p. p.0) e, ap (λ p. p.1) e) (omega arith)
falls n d (Memᴰ.tail (Memᴰ.tail (Memᴰ.head e))) =
    rw (ap (λ p. p.0) e, ap (λ p. p.1) e) (omega arith)
falls n d (Memᴰ.tail (Memᴰ.tail (Memᴰ.tail m))) = elim m [ ]

-- It has all three nodes.
topological_sort_complete_example :
    (nodes : List String) × (topological_sort "asg" chain ≡ some nodes)
    × (is_included (all_nodes (edges "asg" chain)) nodes ≡ true)
topological_sort_complete_example = topological_sort_complete "asg" chain rank falls

-- A dependency of app on net is added and removed.
remove-add_dependency_example :
    remove_dependency (row "app" "net") (add_dependency (row "app" "net") chain).1 ≡ (true, chain)
unfolding any add_dependency
remove-add_dependency_example = remove-add_dependency (row "app" "net") chain refl refl
