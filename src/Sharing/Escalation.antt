-- ===== src/Sharing/Escalation.antt =====
-- What a sharer must be allowed for `create_share` (capmesh/stores.py).
use client_capmesh.Access.{Request, evaluate_access, rights}
use client_capmesh.Sharing.Shares.{
  check_rights, create_share, share_rights, ShareRequest, about, shared_rights, shared_uri,
  sharing_tenant, shared,
}
use client_capmesh.Model.{World, Env, Principal, Capability, Share}
use client_capmesh.Prelude.{
  String, [], refl, ◌≡◌, ◌∙◌, ap, List, true, none, ok, sym, Memᴰ, ◌∷◌, arith, find, subset,
  Memᴰ-of-find, ◌==◌, eq_iff, ◌&&◌, subset-Memᴰ, some, Option-cases, inl, inr,
}
use client_capmesh.Access.Audit.{evaluate_access-decisions}

-- the world differs from another in the policy decisions and the cache of organizations alone
abbrev pub IsChecked : World → World → Type 0
IsChecked w w' = w' ≡ record w { policy_decisions = w'.policy_decisions; org_cache = w'.org_cache }

module _ (env : Env) (principal : Principal) where
  access-IsChecked : (q : Request) (w : World) → IsChecked w (evaluate_access env w q true).1
  access-IsChecked q w =
      let e = evaluate_access-decisions env w q true in
      e
      ∙ ap
          (λ (v : World). record w {
            policy_decisions = v.policy_decisions;
            org_cache = (evaluate_access env w q true).1.org_cache;
          })
          (sym e)

  IsChecked-trans : (u v w : World) → IsChecked u v → IsChecked v w → IsChecked u w
  IsChecked-trans u v w h k =
      k
      ∙ ap
          (λ (x : World). record x {
            policy_decisions = w.policy_decisions;
            org_cache = w.org_cache;
          })
          h

  -- the loop ends without an error only if each right was allowed when it was checked
  check_rights-allowed :
      (c : Capability) (rights : List String) (w : World)
      → (check_rights env principal c rights w).0 ≡ none
      → {right : String} → Memᴰ right rights
      → (w' : World) × IsChecked w w'
        × ((evaluate_access env w' (about principal c right) true).0.allowed ≡ true)
  unfolding check_rights
  check_rights-allowed c [] w h m = elim m [ ]
  check_rights-allowed c (r ∷ rights) w h {right} (Memᴰ.head e) =
      let here : (evaluate_access env w (about principal c r) true).0.allowed ≡ true =
        ground arith in
      (w, refl, rw e here)
  check_rights-allowed c (r ∷ rights) w h {right} (Memᴰ.tail m) =
      let next = (evaluate_access env w (about principal c r) true).1 in
      let (w', k, a) = check_rights-allowed c rights next (ground arith) m in
      (w', IsChecked-trans w next w' (access-IsChecked (about principal c r) w) k, a)

  -- the first check of a share that is done
  pub create_share-found :
      (ensure_identity : World → String × World) (share_id : String) (p : ShareRequest) (w : World)
      {out : Share}
      → (create_share env principal ensure_identity share_id p w).0 ≡ ok out
      → (c : Capability) × (find
            (λ (c : Capability).
              c.uri == shared_uri p && c.tenant_id == sharing_tenant env principal)
            w.capabilities
          ≡ some c)
        × ((evaluate_access env w (about principal c "share") true).0.allowed ≡ true)
        × (create_share env principal ensure_identity share_id p w
            ≡ share_rights env principal ensure_identity share_id p c
                (evaluate_access env w (about principal c "share") true).1)
  unfolding create_share
  create_share-found ensure_identity share_id p w done =
      elim (Option-cases (
        find
          (λ (c : Capability). c.uri == shared_uri p && c.tenant_id == sharing_tenant env principal)
          w.capabilities)) [
            | inl e ↦ absurd (ground arith)
            | inr (c, e) ↦ (c, e, ground arith, ground arith)
          ]

  -- the checks of the rights of a share that is done
  pub share_rights-done :
      (ensure_identity : World → String × World) (share_id : String) (p : ShareRequest)
      (c : Capability) (w : World) {out : Share}
      → (share_rights env principal ensure_identity share_id p c w).0 ≡ ok out
      → (subset (shared_rights p) rights ≡ true)
        × ((check_rights env principal c (shared_rights p) w).0 ≡ none)
        × (share_rights env principal ensure_identity share_id p c w
            ≡ shared env principal share_id
                (ensure_identity (check_rights env principal c (shared_rights p) w).1).0
                p
                (ensure_identity (check_rights env principal c (shared_rights p) w).1).1)
  unfolding share_rights
  share_rights-done ensure_identity share_id p c w done = (ground arith, ground arith, ground arith)

  -- A share that is done lists no right that the sharer lacks: the capability was there, and the
  -- sharer was allowed to share it, and allowed each right that the share lists, by a check on the
  -- world up to policy decisions and the cache of organizations. `share_grant` reads a share that
  -- lists `manage` as one of every right; of such a share the theorem says only that the sharer was
  -- allowed `manage`, and not that the sharer was allowed the rights that it does not list.
  pub create_share-allowed :
      (ensure_identity : World → String × World)
      → (share_id : String) → (p : ShareRequest) → (w : World) → {out : Share}
      → (create_share env principal ensure_identity share_id p w).0 ≡ ok out
      → {right : String} → Memᴰ right (shared_rights p)
      → (c : Capability) × Memᴰ c w.capabilities
        × (c.uri ≡ shared_uri p)
        × (c.tenant_id ≡ sharing_tenant env principal)
        × ((evaluate_access env w (about principal c "share") true).0.allowed ≡ true)
        × Memᴰ right rights
        × (w' : World) × IsChecked w w'
        × ((evaluate_access env w' (about principal c right) true).0.allowed ≡ true)
  create_share-allowed ensure_identity share_id p w done {right} m =
      let (c, found, allowed, same) = create_share-found ensure_identity share_id p w done in
      let (mc, here) = Memᴰ-of-find _ w.capabilities {x = c} found in
      let asked = (evaluate_access env w (about principal c "share") true).1 in
      let (known, checked, _) =
        share_rights-done ensure_identity share_id p c asked (ap (λ r. r.0) (sym same) ∙ done) in
      let (w', k, a) = check_rights-allowed c (shared_rights p) asked checked m in
      (
        c,
        mc,
        ground (arith, here, eq_iff c.uri (shared_uri p)),
        ground (arith, here, eq_iff c.tenant_id (sharing_tenant env principal)),
        allowed,
        subset-Memᴰ (shared_rights p) rights known m,
        w',
        IsChecked-trans w asked w' (access-IsChecked (about principal c "share") w) k,
        a,
      )
