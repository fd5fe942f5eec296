-- ===== src/Prelude/Lists.antt =====
-- Tables as lists of rows: the searches and updates of the SQL that the program runs.
use Prim.Native.Nat.{ℕ, suc}
use mathlib.Core.Path.{◌≡◌, refl, sym, ap, ◌∙◌}
use mathlib.Core.Bool.{Bool, true, false, ◌&&◌, ◌||◌}
use mathlib.Core.Logic.{◌⊎◌, inl, inr}
use mathlib.Core.Option.{Option, none, some}
use mathlib.Core.List.{List, [], ◌∷◌, map, Memᴰ}
use native.Mathlib.Omega.{arith}
use client_capmesh.Prelude.Tests.{if◌then◌else◌, Bool-cases, or_cases}

module _ {ℓ} {A : Type ℓ} where
  abbrev pub length : List A → ℕ
  length [] = 0
  length (x ∷ xs) = suc (length xs)

  -- SELECT 1 ... WHERE p LIMIT 1
  unfoldable pub any : (A → Bool) → List A → Bool
  any p [] = false
  any p (x ∷ xs) = p x || any p xs

  unfoldable pub all : (A → Bool) → List A → Bool
  all p [] = true
  all p (x ∷ xs) = p x && all p xs

  -- SELECT ... WHERE p, first row
  unfoldable pub find : (A → Bool) → List A → Option A
  find p [] = none
  find p (x ∷ xs) = if p x then some x else find p xs

  -- SELECT ... WHERE p
  unfoldable pub select : (A → Bool) → List A → List A
  select p [] = []
  select p (x ∷ xs) = let rest = select p xs in if p x then x ∷ rest else rest

  -- UPDATE ... SET f WHERE p
  unfoldable pub update : (A → Bool) → (A → A) → List A → List A
  update p f [] = []
  update p f (x ∷ xs) = (if p x then f x else x) ∷ update p f xs

  pub any-Memᴰ : (p : A → Bool) (xs : List A) {x : A} → Memᴰ x xs → p x ≡ true → any p xs ≡ true
  unfolding any
  any-Memᴰ p [] m h = elim m [ ]
  any-Memᴰ p (y ∷ xs) {x} (Memᴰ.head e) h = let here : p y ≡ true = rw (← e) h in rw here
  any-Memᴰ p (y ∷ xs) (Memᴰ.tail m) h = ground (arith, any-Memᴰ p xs m h)

  pub Memᴰ-of-any :
      (p : A → Bool) (xs : List A) → any p xs ≡ true → (x : A) × Memᴰ x xs × (p x ≡ true)
  unfolding any
  Memᴰ-of-any p [] h = absurd (ground arith)
  Memᴰ-of-any p (x ∷ xs) h = elim (or_cases (p x) (any p xs) h) [
    | inl e ↦ (x, Memᴰ.head refl, e)
    | inr m ↦ let (y, my, hy) = Memᴰ-of-any p xs m in (y, Memᴰ.tail my, hy)
  ]

  -- A row that `find` returns is in the table and meets the condition.
  pub Memᴰ-of-find :
      (p : A → Bool) (xs : List A) {x : A} → find p xs ≡ some x → Memᴰ x xs × (p x ≡ true)
  unfolding find
  Memᴰ-of-find p [] h = absurd (ground arith)
  Memᴰ-of-find p (y ∷ xs) {x} h = elim (Bool-cases (p y)) [
    | inl e ↦ let same : y ≡ x = ground arith in (Memᴰ.head (sym same), rw (← same) e)
    | inr e ↦ let (m, hx) = Memᴰ-of-find p xs {x = x} (ground arith) in (Memᴰ.tail m, hx)
  ]

  pub Memᴰ-cons_cases : {x y : A} {xs : List A} → Memᴰ x (y ∷ xs) → (x ≡ y) ⊎ Memᴰ x xs
  Memᴰ-cons_cases (Memᴰ.head e) = inl e
  Memᴰ-cons_cases (Memᴰ.tail m) = inr m

  pub Memᴰ-find :
      (p : A → Bool) (xs : List A) {x : A} → Memᴰ x xs → p x ≡ true → (y : A) × (find p xs ≡ some y)
  unfolding find
  Memᴰ-find p [] m h = elim m [ ]
  Memᴰ-find p (y ∷ xs) {x} m h = elim (Bool-cases (p y)) [
    | inl e ↦ (y, rw e)
    | inr e ↦ elim (Memᴰ-cons_cases m) [
      | inl same ↦ let here : p y ≡ true = rw (← same) h in absurd (ground (arith, here, e))
      | inr later ↦ let (z, found) = Memᴰ-find p xs later h in (z, rw e found)
    ]
  ]

  pub Memᴰ-of-select :
      (p : A → Bool) (xs : List A) {x : A} → Memᴰ x (select p xs) → Memᴰ x xs × (p x ≡ true)
  unfolding select
  Memᴰ-of-select p [] m = elim m [ ]
  Memᴰ-of-select p (y ∷ xs) {x} m = elim (Bool-cases (p y)) [
    | inr e ↦
        let m' : Memᴰ x (select p xs) = rw e at m in
        let (mx, h) = Memᴰ-of-select p xs m' in (Memᴰ.tail mx, h)
    | inl e ↦
        let m' : Memᴰ x (y ∷ select p xs) = rw e at m in
        elim (Memᴰ-cons_cases m') [
          | inl same ↦ (Memᴰ.head same, rw same e)
          | inr later ↦ let (mx, h) = Memᴰ-of-select p xs later in (Memᴰ.tail mx, h)
        ]
  ]

  pub any-false_Memᴰ :
      (p : A → Bool) (xs : List A) {x : A} → any p xs ≡ false → Memᴰ x xs → p x ≡ false
  any-false_Memᴰ p xs {x} h m = elim (Bool-cases (p x)) [
    | inr e ↦ e
    | inl e ↦ absurd (ground (arith, h, any-Memᴰ p xs m e))
  ]

  pub Memᴰ-select :
      (p : A → Bool) (xs : List A) {x : A} → Memᴰ x xs → p x ≡ true → Memᴰ x (select p xs)
  unfolding select
  Memᴰ-select p [] m h = elim m [ ]
  Memᴰ-select p (y ∷ xs) {x} (Memᴰ.head e) h =
      let here : p y ≡ true = rw (← e) h in rw here (Memᴰ.head e)
  Memᴰ-select p (y ∷ xs) (Memᴰ.tail m) h = elim (Bool-cases (p y)) [
    | inl e ↦ rw e (Memᴰ.tail (Memᴰ-select p xs m h))
    | inr e ↦ rw e (Memᴰ-select p xs m h)
  ]

  pub all-of : (p : A → Bool) (xs : List A) → ((x : A) → Memᴰ x xs → p x ≡ true) → all p xs ≡ true
  unfolding all
  all-of p [] h = refl
  all-of p (x ∷ xs) h = ground (arith, h x (Memᴰ.head refl), all-of p xs (λ y m. h y (Memᴰ.tail m)))

  pub all-Memᴰ : (p : A → Bool) (xs : List A) {x : A} → all p xs ≡ true → Memᴰ x xs → p x ≡ true
  unfolding all
  all-Memᴰ p [] h m = elim m [ ]
  all-Memᴰ p (y ∷ xs) {x} h (Memᴰ.head e) = ap p e ∙ ground (arith, h)
  all-Memᴰ p (y ∷ xs) h (Memᴰ.tail m) = all-Memᴰ p xs (ground (arith, h)) m

pub Memᴰ-map {ℓ κ} :
    {A : Type ℓ} {B : Type κ} (f : A → B) (xs : List A) {x : A} → Memᴰ x xs → Memᴰ (f x) (map f xs)
Memᴰ-map f [] m = elim m [ ]
Memᴰ-map f (y ∷ xs) (Memᴰ.head e) = Memᴰ.head (ap f e)
Memᴰ-map f (y ∷ xs) (Memᴰ.tail m) = Memᴰ.tail (Memᴰ-map f xs m)

pub length-map {ℓ κ} :
    {A : Type ℓ} {B : Type κ} (f : A → B) (xs : List A) → length (map f xs) ≡ length xs
length-map f [] = refl
length-map f (x ∷ xs) = ap suc (length-map f xs)
