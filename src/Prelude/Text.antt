-- ===== src/Prelude/Text.antt =====
-- Python strings: equality, the order by code points, truth values, and membership in a set of
-- strings that is kept as a list.
use Prim.Native.Nat.{compare as compare_ℕ, Ordering}
use Prim.Native.Char.{code}
use Prim.Native.String.{String, ◌++◌, compare}
use mathlib.Core.Path.{◌≡◌, sym, ap, ◌∙◌}
use mathlib.Core.Logic.{◌↔◌, ◌≢◌, inl, inr}
use mathlib.Core.Bool.{Bool, true, false, ◌||◌}
use mathlib.Core.Option.{Option, none, some}
use mathlib.Core.List.{List, [], ◌∷◌, Memᴰ}
use native.Mathlib.Omega.{arith}
use text.Mathlib.TextLemmas.{nil-append, cons-append}
use client_capmesh.Prelude.Tests.{if◌then◌else◌, or_cases, Bool-cases}
use text.Mathlib.Text.{◌==◌ as str_eq, is_lt, is_le}
use text.Mathlib.TextEquality.{eq_iff as text_eq_iff}
use text.Mathlib.TextPositions.{eq_refl as text_eq_refl}

infix 50 ◌==◌
abbrev pub ◌==◌ : String → String → Bool
◌==◌ = str_eq

-- `s + t` and f-strings
infixr 65 ◌+++◌
abbrev pub ◌+++◌ : String → String → String
◌+++◌ = ◌++◌

-- Python compares strings by code points.
abbrev pub str_lt : String → String → Bool
str_lt a b = is_lt (compare a b)

abbrev pub str_le : String → String → Bool
str_le a b = is_le (compare a b)

pub eq_iff : (s t : String) → ((s == t) ≡ true) ↔ (s ≡ t)
eq_iff = text_eq_iff

pub eq_refl : (s : String) → (s == s) ≡ true
eq_refl = text_eq_refl

pub eq_comm : (s t : String) → (s == t) ≡ (t == s)
eq_comm s t = elim (Bool-cases (s == t)) [
  | inl e ↦ e ∙ sym ((eq_iff t s).1 (sym ((eq_iff s t).0 e)))
  | inr e ↦ elim (Bool-cases (t == s)) [
    | inl f ↦ absurd (ground (arith, e, (eq_iff s t).1 (sym ((eq_iff t s).0 f))))
    | inr f ↦ e ∙ sym f
  ]
]

-- `bool(s)`: a string is true unless it is empty.
abbrev pub truthy : String → Bool
truthy String.[] = false
truthy (String.◌∷◌ c s) = true

-- `bool(s)` for a column or an attribute that may be None
abbrev pub present : Option String → Bool
present none = false
present (some s) = truthy s

-- `s or d`
abbrev pub or_else : String → String → String
or_else s d = if truthy s then s else d

-- `s or d`, where s may be None
abbrev pub or_default : Option String → String → String
or_default none d = d
or_default (some s) d = or_else s d

-- `o == s`, where o may be None
abbrev pub is_some_eq : Option String → String → Bool
is_some_eq none s = false
is_some_eq (some t) s = t == s

-- `o == p`, where both may be None
abbrev pub opt_eq : Option String → Option String → Bool
opt_eq none none = true
opt_eq none (some t) = false
opt_eq (some s) none = false
opt_eq (some s) (some t) = s == t

-- `s in xs`
unfoldable pub elem : String → List String → Bool
elem s [] = false
elem s (x ∷ xs) = x == s || elem s xs

-- whether the two sets have a common element
unfoldable pub meets : List String → List String → Bool
meets [] ys = false
meets (x ∷ xs) ys = elem x ys || meets xs ys

-- `set(xs) <= set(ys)`
unfoldable pub subset : List String → List String → Bool
subset [] ys = true
subset (x ∷ xs) ys = if elem x ys then subset xs ys else false

-- `ref.partition(":")`, without the separator
unfoldable pub partition : String → String × String
partition String.[] = ("", "")
partition (String.◌∷◌ c s) =
    let rest = partition s in
    elim (compare_ℕ (code c) b':') [ Ordering.eq ↦ ("", s) | _ ↦ (String.◌∷◌ c rest.0, rest.1) ]

pub is_some_eq-some : (o : Option String) (s : String) → is_some_eq o s ≡ true → o ≡ some s
is_some_eq-some none s h = absurd (ground arith)
is_some_eq-some (some t) s h = ap some ((eq_iff t s).0 h)

pub elem-Memᴰ : {s : String} (xs : List String) → Memᴰ s xs → elem s xs ≡ true
unfolding elem
elem-Memᴰ [] m = elim m [ ]
elem-Memᴰ {s} (x ∷ xs) (Memᴰ.head e) = ground (arith, eq_iff x s)
elem-Memᴰ {s} (x ∷ xs) (Memᴰ.tail m) = ground (arith, elem-Memᴰ xs m)

pub Memᴰ-of-elem : (s : String) (xs : List String) → elem s xs ≡ true → Memᴰ s xs
unfolding elem
Memᴰ-of-elem s [] h = absurd (ground arith)
Memᴰ-of-elem s (x ∷ xs) h = elim (or_cases (x == s) (elem s xs) h) [
  | inl e ↦ Memᴰ.head (sym ((eq_iff x s).0 e))
  | inr m ↦ Memᴰ.tail (Memᴰ-of-elem s xs m)
]

pub subset-Memᴰ : (xs ys : List String) {x : String} → subset xs ys ≡ true → Memᴰ x xs → Memᴰ x ys
unfolding subset
subset-Memᴰ [] ys h m = elim m [ ]
subset-Memᴰ (x ∷ xs) ys h (Memᴰ.head e) = rw e (Memᴰ-of-elem x ys (ground arith))
subset-Memᴰ (x ∷ xs) ys h (Memᴰ.tail m) = subset-Memᴰ xs ys (ground arith) m

-- no colon in the text
abbrev pub IsPlain : String → Type 0
IsPlain String.[] = Unit
IsPlain (String.◌∷◌ c s) = (code c ≢ b':') × IsPlain s

-- A reference `type:id` is taken apart into the type and the id.
pub partition-append : (t s : String) → IsPlain t → partition (t +++ (":" +++ s)) ≡ (t, s)
unfolding partition
partition-append String.[] s h = rw (nil-append, cons-append, nil-append)
partition-append (String.◌∷◌ c t) s h = rw cons-append (ground (arith, partition-append t s h.1))
