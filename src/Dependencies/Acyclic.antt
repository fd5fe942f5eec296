-- ===== src/Dependencies/Acyclic.antt =====
-- `topological_sort` (capmesh/dependency_graph.py) on a table without cycles.
use client_capmesh.Dependencies.Deployment.{topological_sort-order}
use client_capmesh.Dependencies.Counts.{elem-add_to}
use client_capmesh.Dependencies.Table.{Dependency}
use client_capmesh.Dependencies.Kahn.{all_nodes, Edges, edges, topological_sort, add_to}
use client_capmesh.Dependencies.Orders.{is_ready, is_included, is_exhausted}
use client_capmesh.Prelude.{
  String, [], zero, elem, List, Memᴰ, ℕ, ◌≡◌, ◌<◌, false, true, arith, ◌∷◌, Bool-cases, suc, some,
  ◌==◌, inl, ◌&&◌, eq_iff, inr, all-of, not, ap, all-Memᴰ, elem-Memᴰ, sym, ◌||◌, Memᴰ-of-elem,
}

-- a node that is not ready depends on one that is not there
waits-for :
    (es : Edges) (before : List String) (n : String)
    → is_ready es before n ≡ false
    → (d : String) × Memᴰ (n, d) es × (elem d before ≡ false)
unfolding is_ready
waits-for [] before n h = absurd (ground (arith, h))
waits-for (e ∷ es) before n h = elim (Bool-cases (e.0 == n && not (elem e.1 before))) [
  | inl here ↦
      let own : e.0 ≡ n = ground (arith, here, eq_iff e.0 n) in
      (e.1, Memᴰ.head (ap (λ m. (m, e.1)) (sym own)), ground (arith, here))
  | inr other ↦
      let (d, m, out) = waits-for es before n (ground (arith, h, other)) in (d, Memᴰ.tail m, out)
]

-- what a node depends on is a node
depended-known : (es : Edges) {n d : String} → Memᴰ (n, d) es → elem d (all_nodes es) ≡ true
unfolding all_nodes elem
depended-known [] m = elim m [ ]
depended-known (e ∷ es) {n} {d} (Memᴰ.head same) = ground (
  arith,
  elem-add_to d e.0 (add_to e.1 (all_nodes es)),
  elem-add_to d e.1 (all_nodes es),
  (eq_iff e.1 d).1 (ap (λ p. p.1) (sym same)),
)
depended-known (e ∷ es) {n} {d} (Memᴰ.tail m) = ground (
  arith,
  elem-add_to d e.0 (add_to e.1 (all_nodes es)),
  elem-add_to d e.1 (all_nodes es),
  depended-known es {n = n} {d = d} m,
)

module _ (es : Edges) (rank : String → ℕ)
    (falls : (n d : String) → Memᴰ (n, d) es → rank d < rank n) (nodes : List String)
    (exhausted : is_exhausted es nodes ≡ true) where
  all_taken :
      (bound : ℕ) (n : String) → rank n < bound → elem n (all_nodes es) ≡ true → elem n nodes ≡ true
  unfolding is_exhausted
  all_taken zero n below there = absurd (omega (arith, below))
  all_taken (suc bound) n below there = elim (Bool-cases (elem n nodes)) [
    | inl taken ↦ taken
    | inr left_out ↦
        let here =
          all-Memᴰ (λ n. elem n nodes || not (is_ready es nodes n)) (all_nodes es) {x = n} exhausted
            (Memᴰ-of-elem n (all_nodes es) there) in
        let (d, m, out) = waits-for es nodes n (ground (arith, here, left_out)) in
        let taken =
          all_taken bound d (omega (arith, falls n d m, below)) (depended-known es {n = n} m) in
        absurd (ground (arith, taken, out))
  ]

-- If the nodes of the tenant can be numbered so that each has a larger number than what it depends
-- on, that is, if the table has no cycle, then the sort leaves out no node.
pub topological_sort_complete :
    (tenant_id : String)
    → (rows : List Dependency) → (rank : String → ℕ)
    → ((n d : String) → Memᴰ (n, d) (edges tenant_id rows) → rank d < rank n)
    → (nodes : List String) × (topological_sort tenant_id rows ≡ some nodes)
      × (is_included (all_nodes (edges tenant_id rows)) nodes ≡ true)
unfolding is_included
topological_sort_complete tenant_id rows rank falls =
    let es = edges tenant_id rows in
    let (nodes, e, _, _, _, exhausted) = topological_sort-order tenant_id rows in
    (
      nodes,
      e,
      all-of (λ n. elem n nodes) (all_nodes es)
          (λ n m.
            all_taken es rank falls nodes exhausted (suc (rank n)) n (omega arith)
              (elem-Memᴰ (all_nodes es) m)),
    )
