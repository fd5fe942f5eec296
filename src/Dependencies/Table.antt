-- ===== src/Dependencies/Table.antt =====
-- capmesh/dependency_graph.py: `add_dependency` and `remove_dependency`. The key of a row is left out.
use client_capmesh.Prelude.{
  String, Option, Bool, List, ◌==◌, if◌then◌else◌, Result, any, ◌&&◌, update, err, select, ◌≡◌,
  ◌++◌, value_error, not, false, ◌∷◌, ok, [], true, arith, eq_refl,
}

pub record Dependency : Type 0 where
  pub tenant_id : String
  pub capability_uri : String
  pub depends_on_uri : String
  pub version_constraint : String
  pub required_type : Option String

-- UNIQUE(tenant_id, capability_uri, depends_on_uri)
abbrev pub same_key : Dependency → Dependency → Bool
same_key new d =
    d.tenant_id == new.tenant_id
    && (d.capability_uri == new.capability_uri && d.depends_on_uri == new.depends_on_uri)

-- ON CONFLICT DO UPDATE
unfoldable pub upsert : Dependency → List Dependency → List Dependency
upsert new rows =
    if any (same_key new) rows
    then update (same_key new)
        (λ (d : Dependency). record d {
          version_constraint = new.version_constraint;
          required_type = new.required_type;
        })
        rows
    else rows ++ (new ∷ [])

-- The result that the code returns has the fields of the row.
unfoldable pub add_dependency : Dependency → List Dependency → Result Dependency × List Dependency
add_dependency new rows =
    if new.capability_uri == new.depends_on_uri
    then (err value_error, rows)
    else (ok new, upsert new rows)

-- DELETE, and whether a row was deleted
unfoldable pub remove_dependency : Dependency → List Dependency → Bool × List Dependency
remove_dependency old rows =
    (any (same_key old) rows, select (λ (d : Dependency). not (same_key old d)) rows)

remove-snoc :
    (p : Dependency → Bool)
    → (new : Dependency) → (rows : List Dependency) → any p rows ≡ false
    → p new ≡ true
    → (any p (rows ++ (new ∷ [])) ≡ true) × (select (λ d. not (p d)) (rows ++ (new ∷ [])) ≡ rows)
unfolding any select
remove-snoc p new [] fresh own = (ground (arith, own), ground (arith, own))
remove-snoc p new (d ∷ rows) fresh own =
    let (a, s) = remove-snoc p new rows (ground arith) own in (ground (arith, a), ground (arith, s))

-- A dependency that was not there and is added without an error is removed again by its key, and
-- the table is what it was.
pub remove-add_dependency :
    (new : Dependency)
    → (rows : List Dependency) → any (same_key new) rows ≡ false
    → (add_dependency new rows).0 ≡ ok new
    → remove_dependency new (add_dependency new rows).1 ≡ (true, rows)
unfolding add_dependency remove_dependency upsert
remove-add_dependency new rows fresh done =
    let own : same_key new new ≡ true =
      ground
        (arith, eq_refl new.tenant_id, eq_refl new.capability_uri, eq_refl new.depends_on_uri) in
    let (a, s) = remove-snoc (same_key new) new rows fresh own in ground (arith, a, s, fresh, done)
