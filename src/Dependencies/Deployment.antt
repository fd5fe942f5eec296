-- ===== src/Dependencies/Deployment.antt =====
-- What `topological_sort` (capmesh/dependency_graph.py) returns.
use client_capmesh.Dependencies.Table.{Dependency}
use client_capmesh.Dependencies.Orders.{
  is_ready, is_deployment_order, is_exhausted, is_included, room, room-take, ready-pending,
  room-start, pending-ready,
}
use client_capmesh.Dependencies.Counts.{
  is_distinct, elem-sorted, elem-select, is_distinct-sorted, is_distinct-select,
  is_distinct-all_nodes,
}
use client_capmesh.Dependencies.Invariant.{Holds, Holds-take, pending-start}
use client_capmesh.Dependencies.Kahn.{
  Edges, all_nodes, take_nodes, relax, sorted, successors, in_degree, topological_sort, edges,
}
use client_capmesh.Prelude.{
  zero, String, [], refl, List, elem, Bool, ◌≡◌, ℕ, ◌∷◌, true, all, length, ◌≤◌, ◌==◌, ◌&&◌, ◌||◌,
  arith, suc, ap, false, not, Bool-cases, inl, eq_iff, ◌∙◌, inr, some, eq_refl, sym, select, all-of,
  eqb, elem-Memᴰ,
}

-- the nodes taken so far, the last one first
unfoldable rev_onto : (nodes seen : List String) → List String
rev_onto [] seen = seen
rev_onto (x ∷ nodes) seen = rev_onto nodes (x ∷ seen)

elem-rev_onto :
    (nodes seen : List String) (n : String)
    → elem n (rev_onto nodes seen) ≡ (elem n nodes || elem n seen)
unfolding rev_onto elem
elem-rev_onto [] seen n = refl
elem-rev_onto (x ∷ nodes) seen n = ground (arith, elem-rev_onto nodes (x ∷ seen) n)

is_ready-same :
    (es : Edges) (xs ys : List String) (n : String)
    → ((d : String) → elem d xs ≡ elem d ys)
    → is_ready es xs n ≡ is_ready es ys n
unfolding is_ready
is_ready-same [] xs ys n same = refl
is_ready-same (e ∷ es) xs ys n same = ground (arith, same e.1, is_ready-same es xs ys n same)

-- what the loop over the queue gives, if `seen` has been taken before
record IsRun (es : Edges) (seen nodes : List String) : Type 0 where
  order : is_deployment_order es seen nodes ≡ true
  distinct : is_distinct nodes ≡ true
  apart : (n : String) → elem n nodes ≡ true → elem n seen ≡ false
  known : is_included nodes (all_nodes es) ≡ true
  degree : String → ℕ
  final : Holds es (rev_onto nodes seen) degree []

take_nodes-ends :
    (fuel : ℕ) (es : Edges) (seen : List String) (degree : String → ℕ) (queue : List String)
    → Holds es seen degree queue
    → room (all_nodes es) seen ≤ fuel
    → (nodes : List String) × (take_nodes fuel es degree queue ≡ some nodes) × IsRun es seen nodes
unfolding take_nodes is_deployment_order is_distinct elem rev_onto is_included all
take_nodes-ends fuel es seen degree [] h enough = (
  [],
  refl,
  record {
    order = refl;
    distinct = refl;
    apart = λ n e. absurd (ground (arith, e));
    known = refl;
    degree = degree;
    final = h;
  },
)
take_nodes-ends zero es seen degree (x ∷ queue) h enough =
    let first : elem x (x ∷ queue) ≡ true = ground (arith, eq_refl x) in
    let less = room-take (all_nodes es) x seen (h.known x first) (h.apart x first) in
    absurd (omega (arith, less, enough))
take_nodes-ends (suc fuel) es seen degree (x ∷ queue) h enough =
    let first : elem x (x ∷ queue) ≡ true = ground (arith, eq_refl x) in
    let less = room-take (all_nodes es) x seen (h.known x first) (h.apart x first) in
    let next = relax (sorted (successors es x)) degree queue in
    let (rest, e, run) =
      take_nodes-ends fuel es (x ∷ seen) next.0 next.1 (Holds-take es seen degree x queue h)
        (omega (arith, less, enough)) in
    let ready : is_ready es seen x ≡ true =
      ready-pending es seen x (sym (h.degrees x) ∙ h.waiting x first) in
    (
      x ∷ rest,
      rw (take_nodes, e) refl,
      record {
        order = ground (arith, ready, run.order);
        distinct = elim (Bool-cases (elem x rest)) [
          | inl there ↦ absurd (ground (arith, run.apart x there, eq_refl x))
          | inr new ↦ ground (arith, new, run.distinct)
        ];
        apart = λ n there. elim (Bool-cases (x == n)) [
          | inl same ↦ ap (λ m. elem m seen) (sym ((eq_iff x n).0 same)) ∙ h.apart x first
          | inr other ↦ ground (arith, run.apart n (ground (arith, there, other)), other)
        ];
        known = ground (arith, h.known x first, run.known);
        degree = run.degree;
        final = run.final;
      },
    )

-- what holds before the first turn
start-Holds :
    (es : Edges)
    → Holds es [] (in_degree es) (sorted (select (λ n. eqb (in_degree es n) 0) (all_nodes es)))
unfolding elem
start-Holds es =
    let zero_degree : String → Bool = λ n. eqb (in_degree es n) 0 in
    let there : (n : String)
        → elem n (sorted (select zero_degree (all_nodes es)))
          ≡ (zero_degree n && elem n (all_nodes es)) =
      λ n.
        elem-sorted n (select zero_degree (all_nodes es))
        ∙ elem-select zero_degree n (all_nodes es) in
    record {
      degrees = λ n. pending-start es n;
      taken = λ n e. absurd (ground (arith, e));
      waiting = λ n e. ground (arith, there n, e);
      apart = λ n e. refl;
      distinct =
          is_distinct-sorted (select zero_degree (all_nodes es))
          ∙ is_distinct-select zero_degree (all_nodes es) (is_distinct-all_nodes es);
      known = λ n e. ground (arith, there n, e);
      settled = λ n k z. ground (arith, there n, k, z);
    }

final-exhausted :
    (es : Edges) (nodes : List String) → IsRun es [] nodes → is_exhausted es nodes ≡ true
unfolding is_exhausted elem
final-exhausted es nodes run =
    all-of (λ n. elem n nodes || not (is_ready es nodes n)) (all_nodes es)
      (λ n m.
        let all_taken = rev_onto nodes [] in
        let same : (d : String) → elem d all_taken ≡ elem d nodes =
          λ d. elem-rev_onto nodes [] d ∙ ground arith in
        elim (Bool-cases (elem n nodes)) [
          | inl there ↦ ground (arith, there)
          | inr left_out ↦ elim (Bool-cases (is_ready es nodes n)) [
            | inr waits ↦ ground (arith, waits)
            | inl ready ↦
                let ready_then = is_ready-same es all_taken nodes n same ∙ ready in
                let zero_degree = run.final.degrees n ∙ pending-ready es all_taken n ready_then in
                absurd (
                  ground (
                    arith,
                    left_out,
                    same n,
                    run.final.settled n (elem-Memᴰ (all_nodes es) m) zero_degree,
                  ))
          ]
        ])

-- The sort ends, and gives an order of deployment: nodes of the tenant's table, each once, and each
-- after all that it depends on. It leaves out only nodes that depend on a node left out.
pub topological_sort-order :
    (tenant_id : String)
    → (rows : List Dependency)
    → (nodes : List String) × (topological_sort tenant_id rows ≡ some nodes)
      × (is_distinct nodes ≡ true)
      × (is_included nodes (all_nodes (edges tenant_id rows)) ≡ true)
      × (is_deployment_order (edges tenant_id rows) [] nodes ≡ true)
      × (is_exhausted (edges tenant_id rows) nodes ≡ true)
unfolding topological_sort
topological_sort-order tenant_id rows =
    let es = edges tenant_id rows in
    let (nodes, e, run) =
      take_nodes-ends (length (all_nodes es)) es [] (in_degree es)
        (sorted (select (λ n. eqb (in_degree es n) 0) (all_nodes es))) (start-Holds es)
        (omega (arith, room-start (all_nodes es))) in
    (nodes, e, run.distinct, run.known, run.order, final-exhausted es nodes run)
