-- ===== src/Prelude/Updates.antt =====
-- What an UPDATE, and a row added at the end, do to what a query finds.

use mathlib.Core.Path.{◌≡◌, refl, ap}
use mathlib.Core.Bool.{Bool, true, false, ◌||◌}
use mathlib.Core.Logic.{◌⊎◌, inl, inr}
use mathlib.Core.Option.{some}
use mathlib.Core.List.{List, [], ◌∷◌, ◌++◌, Memᴰ, map}
use native.Mathlib.Omega.{arith}
use client_capmesh.Prelude.Tests.{Bool-cases}
use client_capmesh.Prelude.Lists.{find, select, update, Memᴰ-cons_cases, any}

module _ {ℓ} {A : Type ℓ} where
  pub select-update_none :
      (p : A → Bool) (f : A → A) (xs : List A)
      → ((x : A) → p (f x) ≡ false)
      → select p (update p f xs) ≡ []
  unfolding select update
  select-update_none p f [] h = refl
  select-update_none p f (x ∷ xs) h = ground (arith, h x, select-update_none p f xs h)

  -- An UPDATE that keeps what a query tests changes the row that the query finds, if it is meant...
  pub find-update :
      (p q : A → Bool) (f : A → A) (xs : List A) {x : A}
      → ((y : A) → p (f y) ≡ p y)
      → ((y : A) → p y ≡ true → q y ≡ true)
      → find p xs ≡ some x
      → find p (update q f xs) ≡ some (f x)
  unfolding find update
  find-update p q f [] k pq h = absurd (ground arith)
  find-update p q f (y ∷ xs) {x} k pq h = elim (Bool-cases (p y)) [
    | inl e ↦
        let same : y ≡ x = ground arith in
        let now : p (f y) ≡ true = ground (arith, k y) in rw (pq y e, now, same)
    | inr e ↦
        let rest = find-update p q f xs {x = x} k pq (ground arith) in
        let now : p (f y) ≡ false = ground (arith, k y) in
        elim (Bool-cases (q y)) [ inl t ↦ rw (t, now) rest | inr t ↦ rw (t, e) rest ]
  ]

  -- ... and else leaves it.
  pub find-update_other :
      (p q : A → Bool) (f : A → A) (xs : List A)
      → ((y : A) → p (f y) ≡ p y)
      → ((y : A) → p y ≡ true → q y ≡ false)
      → find p (update q f xs) ≡ find p xs
  unfolding find update
  find-update_other p q f [] k pq = refl
  find-update_other p q f (y ∷ xs) k pq = elim (Bool-cases (p y)) [
    | inl e ↦ rw (pq y e, e)
    | inr e ↦
        let rest = find-update_other p q f xs k pq in
        let now : p (f y) ≡ false = ground (arith, k y) in
        elim (Bool-cases (q y)) [ inl t ↦ rw (t, now, e) rest | inr t ↦ rw (t, e) rest ]
  ]

  -- A row after an UPDATE is a row before it, changed if the condition holds.
  pub Memᴰ-update_cases :
      (q : A → Bool) (f : A → A) (xs : List A) {x : A}
      → Memᴰ x (update q f xs)
      → (y : A) × Memᴰ y xs × (((q y ≡ true) × (x ≡ f y)) ⊎ ((q y ≡ false) × (x ≡ y)))
  unfolding update
  Memᴰ-update_cases q f [] m = elim m [ ]
  Memᴰ-update_cases q f (y ∷ xs) {x} m = elim (Memᴰ-cons_cases m) [
    | inl same ↦ (
      y,
      Memᴰ.head refl,
      elim (Bool-cases (q y)) [
        | inl e ↦ inl (e, ground (arith, same))
        | inr e ↦ inr (e, ground (arith, same))
      ],
    )
    | inr later ↦ let (z, mz, h) = Memᴰ-update_cases q f xs later in (z, Memᴰ.tail mz, h)
  ]

  -- A row that an UPDATE does not name stays.
  pub Memᴰ-update :
      (q : A → Bool) (f : A → A) (xs : List A) {x : A}
      → Memᴰ x xs
      → q x ≡ false
      → Memᴰ x (update q f xs)
  unfolding update
  Memᴰ-update q f [] m h = elim m [ ]
  Memᴰ-update q f (y ∷ xs) {x} (Memᴰ.head e) h =
      let here : q y ≡ false = rw (← e) h in rw here (Memᴰ.head e)
  Memᴰ-update q f (y ∷ xs) (Memᴰ.tail m) h = Memᴰ.tail (Memᴰ-update q f xs m h)

  -- A row that an UPDATE names is changed.
  pub Memᴰ-update_hit :
      (q : A → Bool) (f : A → A) (xs : List A) {x : A}
      → Memᴰ x xs
      → q x ≡ true
      → Memᴰ (f x) (update q f xs)
  unfolding update
  Memᴰ-update_hit q f [] m h = elim m [ ]
  Memᴰ-update_hit q f (y ∷ xs) {x} (Memᴰ.head e) h =
      let here : q y ≡ true = rw (← e) h in rw here (Memᴰ.head (ap f e))
  Memᴰ-update_hit q f (y ∷ xs) (Memᴰ.tail m) h = Memᴰ.tail (Memᴰ-update_hit q f xs m h)

  -- What a query finds does not change with rows added at the end...
  pub find-snoc :
      (p : A → Bool) (xs : List A) (y : A) {x : A}
      → find p xs ≡ some x
      → find p (xs ++ (y ∷ [])) ≡ some x
  unfolding find
  find-snoc p [] y h = absurd (ground arith)
  find-snoc p (z ∷ xs) y {x} h = elim (Bool-cases (p z)) [
    | inl e ↦ rw e (ground (arith, e, h))
    | inr e ↦ rw e (find-snoc p xs y {x = x} (ground (arith, e, h)))
  ]

  -- ... and it finds an added row that is the first of its kind.
  pub find-snoc_new :
      (p : A → Bool) (xs : List A) (y : A)
      → ((x : A) → Memᴰ x xs → p x ≡ false)
      → p y ≡ true
      → find p (xs ++ (y ∷ [])) ≡ some y
  unfolding find
  find-snoc_new p [] y none_yet h = rw h
  find-snoc_new p (z ∷ xs) y none_yet h =
      rw (none_yet z (Memᴰ.head refl)) (find-snoc_new p xs y (λ x m. none_yet x (Memᴰ.tail m)) h)

  pub Memᴰ-snoc : (x : A) (xs : List A) → Memᴰ x (xs ++ (x ∷ []))
  Memᴰ-snoc x [] = Memᴰ.head refl
  Memᴰ-snoc x (y ∷ xs) = Memᴰ.tail (Memᴰ-snoc x xs)

  pub Memᴰ-snoc_of : {x : A} (y : A) (xs : List A) → Memᴰ x xs → Memᴰ x (xs ++ (y ∷ []))
  Memᴰ-snoc_of y [] m = elim m [ ]
  Memᴰ-snoc_of y (z ∷ xs) (Memᴰ.head e) = Memᴰ.head e
  Memᴰ-snoc_of y (z ∷ xs) (Memᴰ.tail m) = Memᴰ.tail (Memᴰ-snoc_of y xs m)

  pub Memᴰ-snoc_cases : {x y : A} (xs : List A) → Memᴰ x (xs ++ (y ∷ [])) → (x ≡ y) ⊎ Memᴰ x xs
  Memᴰ-snoc_cases [] m = Memᴰ-cons_cases m
  Memᴰ-snoc_cases (z ∷ xs) (Memᴰ.head e) = inr (Memᴰ.head e)
  Memᴰ-snoc_cases (z ∷ xs) (Memᴰ.tail m) = elim (Memᴰ-snoc_cases xs m) [
    | inl e ↦ inl e
    | inr n ↦ inr (Memᴰ.tail n)
  ]

  -- What a row is tested by, an UPDATE that keeps it keeps for the table.
  pub any-update :
      (p q : A → Bool) (f : A → A) (xs : List A)
      → ((y : A) → p (f y) ≡ p y)
      → any p (update q f xs) ≡ any p xs
  unfolding any update
  any-update p q f [] k = refl
  any-update p q f (y ∷ xs) k = ground (arith, k y, any-update p q f xs k)

  -- An UPDATE of a key: the row that was found under the old key is found under the new one, if no
  -- row had it.
  pub find-rekey :
      (p q : A → Bool) (f : A → A) (xs : List A) {x : A}
      → ((y : A) → q y ≡ true → p (f y) ≡ true)
      → any p xs ≡ false
      → find q xs ≡ some x
      → find p (update q f xs) ≡ some (f x)
  unfolding any find update
  find-rekey p q f [] k fresh h = absurd (ground arith)
  find-rekey p q f (y ∷ xs) {x} k fresh h = elim (Bool-cases (q y)) [
    | inl e ↦ let same : y ≡ x = ground arith in rw (e, k y e, same)
    | inr e ↦
        let rest = find-rekey p q f xs {x = x} k (ground arith) (ground arith) in
        let other : p y ≡ false = ground arith in rw (e, other) rest
  ]

  -- After an UPDATE of a key no row has the old one.
  pub any-update_none :
      (q : A → Bool) (f : A → A) (xs : List A)
      → ((y : A) → q (f y) ≡ false)
      → any q (update q f xs) ≡ false
  unfolding any update
  any-update_none q f [] h = refl
  any-update_none q f (y ∷ xs) h = ground (arith, h y, any-update_none q f xs h)

  pub any-snoc : (p : A → Bool) (xs : List A) (y : A) → any p (xs ++ (y ∷ [])) ≡ (any p xs || p y)
  unfolding any
  any-snoc p [] y = ground arith
  any-snoc p (x ∷ xs) y = ground (arith, any-snoc p xs y)

  pub any-implied :
      (p q : A → Bool) (xs : List A)
      → ((x : A) → p x ≡ true → q x ≡ true)
      → any p xs ≡ true
      → any q xs ≡ true
  unfolding any
  any-implied p q [] k h = absurd (ground (arith, h))
  any-implied p q (x ∷ xs) k h = elim (Bool-cases (p x)) [
    | inl e ↦ ground (arith, k x e)
    | inr e ↦ ground (arith, any-implied p q xs k (ground (arith, h, e)))
  ]

  -- An UPDATE after which no changed row, and no row that it leaves, meets a condition.
  pub any-update_off :
      (p q : A → Bool) (f : A → A) (xs : List A)
      → ((y : A) → q y ≡ true → p (f y) ≡ false)
      → ((y : A) → q y ≡ false → p y ≡ false)
      → any p (update q f xs) ≡ false
  unfolding any update
  any-update_off p q f [] k l = refl
  any-update_off p q f (y ∷ xs) k l = elim (Bool-cases (q y)) [
    | inl e ↦ ground (arith, e, k y e, any-update_off p q f xs k l)
    | inr e ↦ ground (arith, e, l y e, any-update_off p q f xs k l)
  ]

-- An UPDATE of other columns keeps a column.
module _ {ℓ κ} {A : Type ℓ} {B : Type κ} where
  pub map-update :
      (g : A → B) (q : A → Bool) (f : A → A) (xs : List A)
      → ((x : A) → g (f x) ≡ g x)
      → map g (update q f xs) ≡ map g xs
  unfolding update
  map-update g q f [] h = refl
  map-update g q f (x ∷ xs) h = elim (Bool-cases (q x)) [
    | inl e ↦ rw (e, h x, map-update g q f xs h) refl
    | inr e ↦ rw (e, map-update g q f xs h) refl
  ]
