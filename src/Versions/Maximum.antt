-- ===== src/Versions/Maximum.antt =====
-- The function `max` that `resolve_version_conflict` (capmesh/semver_policy.py) calls with a key.
use client_capmesh.Versions.Conflict.{max_of, later_of}
use client_capmesh.Versions.Signs.{Sign, is_less, fits, flip, is_same, is_more}
use client_capmesh.Prelude.{
  String, ◌≡◌, true, false, Memᴰ, List, [], ◌∷◌, inl, inr, refl, arith, ap, Bool-cases,
  Memᴰ-cons_cases,
}

not_less_trans :
    (s t r : Sign) → fits s t r ≡ true → is_less s ≡ false → is_less t ≡ false → is_less r ≡ false
unfolding fits is_less is_same is_more
not_less_trans s t r h hs ht = ground arith

not_less_self : (s : Sign) → s ≡ flip s → is_less s ≡ false
unfolding flip is_less
not_less_self s h = ground (arith, ap is_less h)

not_less_flip : (s : Sign) → is_less s ≡ true → is_less (flip s) ≡ false
unfolding flip is_less
not_less_flip s h = ground arith

module _ (cmp : String → String → Sign) (flips : (a b : String) → cmp b a ≡ flip (cmp a b))
    (ordered : (a b c : String) → fits (cmp a b) (cmp b c) (cmp a c) ≡ true) where
  pub self-not_less : (a : String) → is_less (cmp a a) ≡ false
  self-not_less a = not_less_self (cmp a a) (flips a a)

  chain-not_less :
      (a b c : String)
      → is_less (cmp a b) ≡ false
      → is_less (cmp b c) ≡ false
      → is_less (cmp a c) ≡ false
  chain-not_less a b c = not_less_trans (cmp a b) (cmp b c) (cmp a c) (ordered a b c)

  -- the later of two is before neither
  later_of-not_less :
      (x y : String)
      → (is_less (cmp (later_of cmp x y) x) ≡ false) × (is_less (cmp (later_of cmp x y) y) ≡ false)
  later_of-not_less x y = elim (Bool-cases (is_less (cmp x y))) [
    | inl e ↦ rw e (rw (flips x y) (not_less_flip (cmp x y) e), self-not_less y)
    | inr e ↦ rw e (self-not_less x, e)
  ]

  -- a maximum is before none of the list
  pub max_of-not_less :
      (x : String) (ys : List String) {z : String}
      → Memᴰ z (x ∷ ys)
      → is_less (cmp (max_of cmp x ys) z) ≡ false
  unfolding max_of
  max_of-not_less x [] {z} m = elim (Memᴰ-cons_cases m) [
    | inl e ↦ rw e (self-not_less x)
    | inr later ↦ elim later [ ]
  ]
  max_of-not_less x (y ∷ ys) {z} m =
      let b = later_of cmp x y in
      let (over_x, over_y) = later_of-not_less x y in
      let over_b = max_of-not_less b ys {z = b} (Memᴰ.head refl) in
      let greatest = max_of cmp b ys in
      elim (Memᴰ-cons_cases m) [
        | inl e ↦ rw e (chain-not_less greatest b x over_b over_x)
        | inr later ↦ elim (Memᴰ-cons_cases later) [
          | inl e ↦ rw e (chain-not_less greatest b y over_b over_y)
          | inr rest ↦ max_of-not_less b ys (Memᴰ.tail rest)
        ]
      ]
