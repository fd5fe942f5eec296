-- ===== src/Sharing/Revocation.antt =====
-- What `revoke_share` (capmesh/stores.py) ends.
use client_capmesh.Access.{evaluate_access}
use client_capmesh.Sharing.Shares.{delete_rights, revoke_share, is_share, withdraw, about}
use client_capmesh.Model.{Env, Principal, Share, Relationship, World, Capability}
use client_capmesh.Prelude.{
  String, [], refl, any, select, Bool, List, ◌≡◌, ◌==◌, not, false, Memᴰ, ok, ◌&&◌, ◌∷◌, find,
  ◌+++◌, arith, some, true, Option-cases, Memᴰ-of-find, inl, eq_iff, inr, ap, ◌∙◌, any-update_off,
}

module _ (env : Env) (principal : Principal) where
  -- the relationships that a share stands for
  abbrev pub of_share : Share → (right : String) → Relationship → Bool
  of_share s right r =
      r.tenant_id == principal.tenant_id
      && (r.object == s.capability_uri
          && (r.relation == right
              && (r.user == (s.subject_type +++ (":" +++ s.subject_id)) && r.source == "share")))

  -- a DELETE takes the rows of its condition, and keeps others away that are gone
  any-select-not :
      (p : Relationship → Bool) (rows : List Relationship)
      → any p (select (λ r. not (p r)) rows) ≡ false
  unfolding any select
  any-select-not p [] = refl
  any-select-not p (r ∷ rows) = ground (arith, any-select-not p rows)

  any-select_still :
      (p q : Relationship → Bool) (rows : List Relationship)
      → any p rows ≡ false
      → any p (select q rows) ≡ false
  unfolding any select
  any-select_still p q [] h = refl
  any-select_still p q (r ∷ rows) h = ground (arith, h, any-select_still p q rows)

  any-delete_rights :
      (p : Relationship → Bool) (s : Share) (rights : List String) (rows : List Relationship)
      → any p rows ≡ false
      → any p (delete_rights env principal s rights rows) ≡ false
  unfolding delete_rights
  any-delete_rights p s [] rows h = h
  any-delete_rights p s (r ∷ rights) rows h =
      any-delete_rights p s rights _ (any-select_still p (λ t. not (of_share s r t)) rows h)

  delete_rights-ends :
      (s : Share) (rights : List String) (rows : List Relationship) {right : String}
      → Memᴰ right rights
      → any (of_share s right) (delete_rights env principal s rights rows) ≡ false
  unfolding delete_rights
  delete_rights-ends s [] rows m = elim m [ ]
  delete_rights-ends s (r ∷ rights) rows {right} (Memᴰ.head e) =
      rw e (any-delete_rights (of_share s r) s rights _ (any-select-not (of_share s r) rows))
  delete_rights-ends s (r ∷ rights) rows (Memᴰ.tail m) = delete_rights-ends s rights _ m

  -- a revocation that is done makes the writes of `withdraw`
  revoke_share-withdraws :
      (share_id : String) (w : World) {out : String}
      → (revoke_share env principal share_id w).0 ≡ ok out
      → {s : Share}
      → find (λ (s : Share). s.id == share_id && s.tenant_id == principal.tenant_id) w.shares
        ≡ some s
      → (c : Capability) × (revoke_share env principal share_id w ≡ (
        ok share_id,
        withdraw env principal s (evaluate_access env w (about principal c "share") true).1,
      ))
  unfolding revoke_share
  revoke_share-withdraws share_id w done {s} found =
      elim (Option-cases (
        find (λ (c : Capability). c.uri == s.capability_uri && c.tenant_id == principal.tenant_id)
          w.capabilities)) [
            | inl e ↦ absurd (ground (arith, found, e))
            | inr (c, e) ↦ (c, ground (arith, found, e))
          ]

  -- After a revocation that is done of a share s in the tenant of the principal, no share with that
  -- key is active, and for each right of s no relationship with the source "share" gives the right to
  -- the subject of s.
  pub revoke_share-ends :
      (share_id : String)
      → (w : World) → {out : String} → (revoke_share env principal share_id w).0 ≡ ok out
      → {s : Share}
      → find (λ (s : Share). s.id == share_id && s.tenant_id == principal.tenant_id) w.shares
        ≡ some s
      → {right : String} → Memᴰ right s.rights
      → (any
            (λ (t : Share). is_share share_id t && t.state == "active")
            (revoke_share env principal share_id w).1.shares
          ≡ false)
        × (any (of_share s right) (revoke_share env principal share_id w).1.relationship_tuples
            ≡ false)
  unfolding withdraw
  revoke_share-ends share_id w done {s} found {right} m =
      let (c, same) = revoke_share-withdraws share_id w done {s = s} found in
      let w' = (evaluate_access env w (about principal c "share") true).1 in
      let (_, here) = Memᴰ-of-find _ w.shares {x = s} found in
      let own : s.id ≡ share_id = ground (arith, here, eq_iff s.id share_id) in
      (
        ap (λ r. any (λ (t : Share). is_share share_id t && t.state == "active") r.1.shares) same
            ∙ any-update_off (λ (t : Share). is_share share_id t && t.state == "active")
                (is_share s.id) _ w'.shares (λ t e. ground arith)
                (λ t e. ground (arith, e, ap (λ z. t.id == z) own)),
        ap (λ r. any (of_share s right) r.1.relationship_tuples) same
            ∙ delete_rights-ends s s.rights w'.relationship_tuples m,
      )
