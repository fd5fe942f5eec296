-- ===== src/Versions/Winner.antt =====
-- Which version `resolve_version_conflict` (capmesh/semver_policy.py) chooses.
use client_capmesh.Dependencies.Kahn.{sorted}
use client_capmesh.Dependencies.Counts.{elem-add_to, elem-sorted}
use client_capmesh.Versions.Conflict.{
  max_of, compare_candidates, winner_of, compare_flags, later_of, is_valid, compare_texts,
  resolve_unique, to_set, resolve_version_conflict,
}
use client_capmesh.Versions.Signs.{Sign, and_then, is_less}
use client_capmesh.Versions.Maximum.{max_of-not_less, self-not_less}
use client_capmesh.Versions.Semver.{parse_semver}
use client_capmesh.Versions.Candidates.{
  parsed_le, candidates-version_le, texts-text_le, compare_candidates-flip, compare_candidates-fits,
  compare_texts-flip, compare_texts-fits,
}
use client_capmesh.Prelude.{
  Option-cases, false, String, [], refl, any, List, ◌≡◌, Memᴰ, ◌⊎◌, ◌∷◌, ◌||◌, Bool-cases,
  Memᴰ-cons_cases, arith, inl, inr, ◌∙◌, any-false_Memᴰ, elem, true, sym, some, Memᴰ-of-elem,
  elem-Memᴰ,
}

later_of-member :
    (cmp : String → String → Sign) (x y : String) → (later_of cmp x y ≡ x) ⊎ (later_of cmp x y ≡ y)
later_of-member cmp x y = elim (Bool-cases (is_less (cmp x y))) [
  | inl e ↦ inr (rw e refl)
  | inr e ↦ inl (rw e refl)
]

max_of-member :
    (cmp : String → String → Sign) (x : String) (ys : List String) → Memᴰ (max_of cmp x ys) (x ∷ ys)
unfolding max_of
max_of-member cmp x [] = Memᴰ.head refl
max_of-member cmp x (y ∷ ys) = elim (Memᴰ-cons_cases (max_of-member cmp (later_of cmp x y) ys)) [
  | inr later ↦ Memᴰ.tail (Memᴰ.tail later)
  | inl same ↦ elim (later_of-member cmp x y) [
    | inl e ↦ Memᴰ.head (same ∙ e)
    | inr e ↦ Memᴰ.tail (Memᴰ.head (same ∙ e))
  ]
]

-- a valid version beats one that is not
later_of-valid :
    (x y : String) → is_valid (later_of compare_candidates x y) ≡ (is_valid x || is_valid y)
unfolding compare_candidates compare_flags and_then is_less
later_of-valid x y = ground arith

max_of-valid :
    (x : String) (ys : List String)
    → is_valid (max_of compare_candidates x ys) ≡ any is_valid (x ∷ ys)
unfolding max_of any
max_of-valid x [] = ground arith
max_of-valid x (y ∷ ys) =
    ground (arith, max_of-valid (later_of compare_candidates x y) ys, later_of-valid x y)

winner_of-member : (x : String) (ys : List String) → Memᴰ (winner_of x ys) (x ∷ ys)
unfolding winner_of
winner_of-member x ys = elim (Bool-cases (any is_valid (x ∷ ys))) [
  | inl e ↦ rw e (max_of-member compare_candidates x ys)
  | inr e ↦ rw e (max_of-member compare_texts x ys)
]

valid-parsed_le :
    (x w : String)
    → is_valid w ≡ true
    → is_less (compare_candidates w x) ≡ false
    → parsed_le x w (parse_semver x) (parse_semver w) ≡ true
unfolding is_valid parsed_le
valid-parsed_le x w valid h = elim (Option-cases (parse_semver w)) [
  | inl e ↦ absurd (ground (arith, e, valid))
  | inr (b, ew) ↦ elim (Option-cases (parse_semver x)) [
    | inl ex ↦ rw (ex, ew) refl
    | inr (a, ex) ↦ rw (ex, ew) (candidates-version_le x w {a = a} {b = b} ex ew h)
  ]
]

invalid-parsed_le :
    (x w : String)
    → is_valid x ≡ false
    → is_valid w ≡ false
    → is_less (compare_texts w x) ≡ false
    → parsed_le x w (parse_semver x) (parse_semver w) ≡ true
unfolding is_valid parsed_le
invalid-parsed_le x w hx hw h = elim (Option-cases (parse_semver w)) [
  | inr (b, ew) ↦ absurd (ground (arith, ew, hw))
  | inl ew ↦ elim (Option-cases (parse_semver x)) [
    | inr (a, ex) ↦ absurd (ground (arith, ex, hx))
    | inl ex ↦ rw (ex, ew) (texts-text_le x w h)
  ]
]

-- the winner is after each of the versions
winner_of-parsed_le :
    (v : String) (ys : List String) {x : String}
    → Memᴰ x (v ∷ ys)
    → parsed_le x (winner_of v ys) (parse_semver x) (parse_semver (winner_of v ys)) ≡ true
unfolding winner_of
winner_of-parsed_le v ys {x} m = elim (Bool-cases (any is_valid (v ∷ ys))) [
  | inl e ↦ rw e (
      valid-parsed_le x (max_of compare_candidates v ys) (max_of-valid v ys ∙ e)
        (max_of-not_less compare_candidates compare_candidates-flip compare_candidates-fits v ys m))
  | inr e ↦ rw e (
      invalid-parsed_le x (max_of compare_texts v ys) (any-false_Memᴰ is_valid (v ∷ ys) e m)
        (any-false_Memᴰ is_valid (v ∷ ys) e (max_of-member compare_texts v ys))
        (max_of-not_less compare_texts compare_texts-flip compare_texts-fits v ys m))
]

self-parsed_le : (v : String) → parsed_le v v (parse_semver v) (parse_semver v) ≡ true
self-parsed_le v = elim (Bool-cases (is_valid v)) [
  | inl e ↦
      valid-parsed_le v v e
        (self-not_less compare_candidates compare_candidates-flip compare_candidates-fits v)
  | inr e ↦
      invalid-parsed_le v v e e
        (self-not_less compare_texts compare_texts-flip compare_texts-fits v)
]

resolve_unique-winner :
    (unique : List String) (x : String)
    → Memᴰ x unique
    → (v : String) × ((resolve_unique unique).winner ≡ some v)
      × Memᴰ v unique
      × (parsed_le x v (parse_semver x) (parse_semver v) ≡ true)
unfolding resolve_unique
resolve_unique-winner [] x m = elim m [ ]
resolve_unique-winner (v ∷ []) x m = elim (Memᴰ-cons_cases m) [
  | inl e ↦ (v, refl, Memᴰ.head refl, rw e (self-parsed_le v))
  | inr later ↦ elim later [ ]
]
resolve_unique-winner (v ∷ w ∷ vs) x m =
    (winner_of v (w ∷ vs), refl, winner_of-member v (w ∷ vs), winner_of-parsed_le v (w ∷ vs) m)

-- the set has the texts of the list
elem-to_set : (n : String) (vs : List String) → elem n (to_set vs) ≡ elem n vs
unfolding to_set elem
elem-to_set n [] = refl
elem-to_set n (v ∷ vs) = ground (arith, elem-add_to n v (to_set vs), elem-to_set n vs)

-- Of one or more versions, the resolution chooses one that comes after every version or is equal to
-- it: by major, minor and patch number, then a release after its prereleases, then prereleases by
-- the order of their texts. A text that is no version comes before every version, and such texts
-- go by the order of texts.
pub resolve_version_conflict-winner :
    (versions : List String) (x : String)
    → Memᴰ x versions
    → (winner : String) × ((resolve_version_conflict versions).winner ≡ some winner)
      × Memᴰ winner versions
      × (parsed_le x winner (parse_semver x) (parse_semver winner) ≡ true)
unfolding resolve_version_conflict
resolve_version_conflict-winner versions x m =
    let unique = sorted (to_set versions) in
    let same_names : (n : String) → elem n unique ≡ elem n versions =
      λ n. elem-sorted n (to_set versions) ∙ elem-to_set n versions in
    let listed = Memᴰ-of-elem x unique (same_names x ∙ elem-Memᴰ versions m) in
    let (winner, e, kept, last) = resolve_unique-winner unique x listed in
    (
      winner,
      e,
      Memᴰ-of-elem winner versions (sym (same_names winner) ∙ elem-Memᴰ unique kept),
      last,
    )
