-- ===== src/Lifecycle/Deleted.antt =====
-- Sequences of calls of `transition_capability` (capmesh/lifecycle_transitions.py).
use client_capmesh.Lifecycle.Outcome.{
  stored, transition_capability-moved, transition_capability-total,
}
use client_capmesh.Prelude.{
  refl, String, ◌≡◌, sym, ap, ◌∙◌, true, List, [], ◌∷◌, Memᴰ, arith, ◌==◌, elem, update, ok, err,
  inl, inr, eq_iff, Memᴰ-update_cases, ◌≢◌, Result-cases, some, Bool-cases, Memᴰ-update,
  Memᴰ-of-find, and-true_iff, Memᴰ-update_hit,
}
use client_capmesh.Model.{Capability, World}
use client_capmesh.Lifecycle.Transitions.{
  capability_transitions, targets, is_valid_transition, set_lifecycle, transition_capability,
  capability_lifecycle_states,
}

-- the arguments of a call
pub record Request : Type 0 where
  pub now : String
  pub uri : String
  pub target : String
  pub actor : String
  pub tenant_id : String
  pub reason : String

-- the database after a call: one that raises has written nothing
abbrev pub after_call : Request → World → World
after_call q w = elim (transition_capability q.now q.uri q.target q.actor q.tenant_id q.reason w) [
  | ok after ↦ after
  | err e ↦ w
]

abbrev pub after_calls : List Request → World → World
after_calls [] w = w
after_calls (q ∷ qs) w = after_calls qs (after_call q w)

-- UNIQUE (uri)
abbrev pub IsKeyed : List Capability → Type 0
IsKeyed capabilities =
    (c d : Capability) → Memᴰ c capabilities → Memᴰ d capabilities → c.uri ≡ d.uri → c ≡ d

from_deleted :
    (target : String)
    → is_valid_transition "deleted" target capability_transitions ≡ true
    → target ≡ "deleted"
unfolding is_valid_transition targets elem
from_deleted target h = ground (arith, eq_iff "deleted" target)

late_active :
    (current : String)
    → Memᴰ current ("disabled" ∷ "deleted" ∷ "recalled" ∷ "yanked" ∷ [])
    → current ≢ "deleted"
    → is_valid_transition current "active" capability_transitions ≡ true
unfolding is_valid_transition targets elem
late_active current (Memᴰ.head e) live = rw e refl
late_active current (Memᴰ.tail (Memᴰ.head e)) live = absurd (live e)
late_active current (Memᴰ.tail (Memᴰ.tail (Memᴰ.head e))) live = rw e refl
late_active current (Memᴰ.tail (Memᴰ.tail (Memᴰ.tail (Memᴰ.head e)))) live = rw e refl
late_active current (Memᴰ.tail (Memᴰ.tail (Memᴰ.tail (Memᴰ.tail m)))) live = elim m [ ]

to_active :
    (current : String)
    → Memᴰ current capability_lifecycle_states
    → current ≢ "deleted"
    → is_valid_transition current "active" capability_transitions ≡ true
unfolding is_valid_transition targets elem
to_active current (Memᴰ.head e) live = rw e refl
to_active current (Memᴰ.tail (Memᴰ.head e)) live = rw e refl
to_active current (Memᴰ.tail (Memᴰ.tail (Memᴰ.head e))) live = rw e refl
to_active current (Memᴰ.tail (Memᴰ.tail (Memᴰ.tail (Memᴰ.head e)))) live = rw e refl
to_active current (Memᴰ.tail (Memᴰ.tail (Memᴰ.tail (Memᴰ.tail (Memᴰ.head e))))) live = rw e refl
to_active current (Memᴰ.tail (Memᴰ.tail (Memᴰ.tail (Memᴰ.tail (Memᴰ.tail m))))) live =
    late_active current m live

IsKeyed-update :
    (now uri target : String) (capabilities : List Capability)
    → IsKeyed capabilities
    → IsKeyed (update (λ (c : Capability). c.uri == uri) (set_lifecycle now target) capabilities)
IsKeyed-update now uri target capabilities k c d mc md e =
    let (c', mc', hc) =
      Memᴰ-update_cases (λ (c : Capability). c.uri == uri) (set_lifecycle now target) capabilities
        mc in
    let (d', md', hd) =
      Memᴰ-update_cases (λ (c : Capability). c.uri == uri) (set_lifecycle now target) capabilities
        md in
    elim hc [
      | inl (qc, sc) ↦ elim hd [
        | inl (qd, sd) ↦
            sc
            ∙ (ap (set_lifecycle now target)
                  (k c' d' mc' md' (sym (ap (λ x. x.uri) sc) ∙ (e ∙ ap (λ x. x.uri) sd)))
                ∙ sym sd)
        | inr (qd, sd) ↦
            let same = k c' d' mc' md' (sym (ap (λ x. x.uri) sc) ∙ (e ∙ ap (λ x. x.uri) sd)) in
            absurd (ground (arith, qc, qd, ap (λ (x : Capability). x.uri == uri) same))
      ]
      | inr (qc, sc) ↦ elim hd [
        | inl (qd, sd) ↦
            let same = k c' d' mc' md' (sym (ap (λ x. x.uri) sc) ∙ (e ∙ ap (λ x. x.uri) sd)) in
            absurd (ground (arith, qc, qd, ap (λ (x : Capability). x.uri == uri) same))
        | inr (qd, sd) ↦
            sc ∙ (k c' d' mc' md' (sym (ap (λ x. x.uri) sc) ∙ (e ∙ ap (λ x. x.uri) sd)) ∙ sym sd)
      ]
    ]

-- a deleted row, and the uniqueness of uris, through one call
deleted_step :
    (q : Request) (w : World) {c : Capability}
    → IsKeyed w.capabilities
    → Memᴰ c w.capabilities
    → c.lifecycle ≡ "deleted"
    → IsKeyed (after_call q w).capabilities
      × (time : String) × Memᴰ (record c { updated_at = time }) (after_call q w).capabilities
deleted_step q w {c} k m d =
    elim (Result-cases
      (transition_capability q.now q.uri q.target q.actor q.tenant_id q.reason w)) [
        | inr (e, raised) ↦ rw (after_call, raised) (k, c.updated_at, m)
        | inl (after, returned) ↦
            let t =
              transition_capability-moved q.now q.uri q.target q.actor q.tenant_id q.reason w after
                returned in
            let at_uri = λ (c : Capability). c.uri == q.uri in
            let move = set_lifecycle q.now q.target in
            let keyed : IsKeyed after.capabilities =
              rw t.only (IsKeyed-update q.now q.uri q.target w.capabilities k) in
            let moved : (time : String) × Memᴰ (record c { updated_at = time }) after.capabilities =
              rw t.only (elim (Bool-cases (at_uri c)) [
                | inr other ↦ (c.updated_at, Memᴰ-update at_uri move w.capabilities m other)
                | inl same ↦
                    let (mr, fits) = Memᴰ-of-find _ w.capabilities t.found in
                    let row_uri = (eq_iff _ _).0 ((and-true_iff _ _).0 fits).0 in
                    let row_is : t.row ≡ c = k t.row c mr m (row_uri ∙ sym ((eq_iff _ _).0 same)) in
                    let was : t.row.lifecycle ≡ "deleted" = rw row_is d in
                    let target_is : q.target ≡ "deleted" =
                      from_deleted q.target (rw was at t.valid) in
                    let stays : move c ≡ record c { updated_at = q.now } =
                      ap (λ l. set_lifecycle q.now l c) (target_is ∙ sym d) in
                    (q.now, rw (← stays) (Memᴰ-update_hit at_uri move w.capabilities m same))
              ]) in
            let (time, there) = moved in rw (after_call, returned) (keyed, time, there)
      ]

-- A deleted capability stays in the table as it is, in every column but `updated_at`, through every
-- sequence of calls of `transition_capability`, those that raise included, if no two rows have the
-- same uri.
pub deleted_stays :
    (qs : List Request) (w : World) (c : Capability)
    → IsKeyed w.capabilities
    → Memᴰ c w.capabilities
    → c.lifecycle ≡ "deleted"
    → (time : String) × Memᴰ (record c { updated_at = time }) (after_calls qs w).capabilities
deleted_stays [] w c k m d = (c.updated_at, m)
deleted_stays (q ∷ qs) w c k m d =
    let (k', time, m') = deleted_step q w k m d in
    deleted_stays qs (after_call q w) (record c { updated_at = time }) k' m' d

-- Every other lifecycle can be left for `active`: `transition_capability` to it returns on every
-- stored capability whose lifecycle is a known one and not `deleted`.
pub revivable :
    (now uri actor tenant_id reason : String) (w : World) (row : Capability)
    → stored uri tenant_id w ≡ some row
    → Memᴰ row.lifecycle capability_lifecycle_states
    → row.lifecycle ≢ "deleted"
    → (after : World) × (transition_capability now uri "active" actor tenant_id reason w ≡ ok after)
unfolding elem
revivable now uri actor tenant_id reason w row found known live =
    transition_capability-total now uri "active" actor tenant_id reason w row found
      (Memᴰ.tail (Memᴰ.head refl)) (to_active row.lifecycle known live)
