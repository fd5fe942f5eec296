-- ===== src/Versions/Semver.antt =====
-- capmesh/semver_policy.py: `parse_semver` and `compare_semver`, on code points; digits and letters are
-- those of ASCII.
use client_capmesh.Versions.Signs.{Sign, same, less, more, and_then}
use client_capmesh.Prelude.{
  String, Bool, false, Option, none, some, List, [], ℕ, strip, leb, ◌||◌, ◌∷◌, codes, if◌then◌else◌,
  ◌&&◌, ◌*◌, eqb, ltb, all, ◌+◌, ◌-◌,
}

pub record Version : Type 0 where
  pub major : ℕ
  pub minor : ℕ
  pub patch : ℕ
  pub prerelease : Option (List ℕ)
  pub build : Option (List ℕ)

abbrev pub is_digit : ℕ → Bool
is_digit c = leb b'0' c && leb c b'9'

-- [0-9A-Za-z.-]
abbrev pub is_label : ℕ → Bool
is_label c =
    is_digit c
    || (leb b'A' c && leb c b'Z' || (leb b'a' c && leb c b'z' || (eqb c b'.' || eqb c b'-')))

-- the longest start whose code points pass a test, and the rest
unfoldable pub span : (ℕ → Bool) → List ℕ → List ℕ × List ℕ
span p [] = ([], [])
span p (c ∷ s) = let rest = span p s in if p c then (c ∷ rest.0, rest.1) else ([], c ∷ s)

-- int(ds), for digits
unfoldable pub number : (so_far : ℕ) → List ℕ → ℕ
number so_far [] = so_far
number so_far (c ∷ s) = number (10 * so_far + (c - b'0')) s

-- \d+
unfoldable pub parse_number : List ℕ → Option (ℕ × List ℕ)
parse_number s =
    let (ds, rest) = span is_digit s in
    elim ds [ [] ↦ none | e ∷ es ↦ some (number 0 (e ∷ es), rest) ]

-- \.
unfoldable pub parse_dot : List ℕ → Option (List ℕ)
parse_dot [] = none
parse_dot (c ∷ s) = if eqb c b'.' then some s else none

-- an optional part that begins with a mark; none where the mark has no label after it
unfoldable pub parse_label : (mark : ℕ) → List ℕ → Option (Option (List ℕ) × List ℕ)
parse_label mark [] = some (none, [])
parse_label mark (c ∷ s) =
    if eqb c mark
    then (let (ds, rest) = span is_label s in
        elim ds as (λ _. Option (Option (List ℕ) × List ℕ)) [
          | [] ↦ none
          | e ∷ es ↦ some (some (e ∷ es), rest)
        ])
    else some (none, c ∷ s)

-- what follows the three numbers, up to the end
unfoldable pub parse_labels : (major minor patch : ℕ) → List ℕ → Option Version
parse_labels major minor patch s = elim (parse_label b'-' s) [
  | none ↦ none
  | some (pre, s') ↦ elim (parse_label b'+' s') [
    | some (build, []) ↦
        some
          (record { major = major; minor = minor; patch = patch; prerelease = pre; build = build })
    | _ ↦ none
  ]
]

-- lstrip("v")
unfoldable pub drop_v : List ℕ → List ℕ
drop_v [] = []
drop_v (c ∷ s) = let rest = drop_v s in if eqb c b'v' then rest else c ∷ s

-- _SEMVER_RE
unfoldable pub match_semver : List ℕ → Option Version
match_semver s = elim (parse_number s) [
  | none ↦ none
  | some (major, s1) ↦ elim (parse_dot s1) [
    | none ↦ none
    | some s2 ↦ elim (parse_number s2) [
      | none ↦ none
      | some (minor, s3) ↦ elim (parse_dot s3) [
        | none ↦ none
        | some s4 ↦ elim (parse_number s4) [
          | none ↦ none
          | some (patch, s5) ↦ parse_labels major minor patch s5
        ]
      ]
    ]
  ]
]

unfoldable pub parse_semver : String → Option Version
parse_semver version = match_semver (drop_v (strip (codes version)))

unfoldable pub compare_numbers : ℕ → ℕ → Sign
compare_numbers a b = if ltb a b then less else if ltb b a then more else same

-- the order of texts
unfoldable pub compare_codes : List ℕ → List ℕ → Sign
compare_codes [] [] = same
compare_codes [] (d ∷ t) = less
compare_codes (c ∷ s) [] = more
compare_codes (c ∷ s) (d ∷ t) = and_then (compare_numbers c d) (compare_codes s t)

-- p.split(".")
unfoldable pub split_dots : List ℕ → List (List ℕ)
split_dots [] = [] ∷ []
split_dots (c ∷ s) =
    let rest = split_dots s in
    if eqb c b'.' then [] ∷ rest else elim rest [ [] ↦ (c ∷ []) ∷ [] | p ∷ ps ↦ (c ∷ p) ∷ ps ]

-- p.isdigit()
unfoldable pub is_numeric : List ℕ → Bool
is_numeric [] = false
is_numeric (c ∷ s) = all is_digit (c ∷ s)

unfoldable pub compare_identifiers : List ℕ → List ℕ → Sign
compare_identifiers p q =
    if is_numeric p && is_numeric q
    then compare_numbers (number 0 p) (number 0 q)
    else if is_numeric p
    then less
    else if is_numeric q
    then more
    else compare_codes p q

-- the loop over the identifiers, and the comparison of their numbers after it
unfoldable pub compare_labels : List (List ℕ) → List (List ℕ) → Sign
compare_labels [] [] = same
compare_labels [] (q ∷ qs) = less
compare_labels (p ∷ ps) [] = more
compare_labels (p ∷ ps) (q ∷ qs) = and_then (compare_identifiers p q) (compare_labels ps qs)

unfoldable pub compare_prereleases : Option (List ℕ) → Option (List ℕ) → Sign
compare_prereleases none none = same
compare_prereleases none (some q) = more
compare_prereleases (some p) none = less
compare_prereleases (some p) (some q) = compare_labels (split_dots p) (split_dots q)

unfoldable pub compare_versions : Version → Version → Sign
compare_versions a b = and_then (compare_numbers a.major b.major) (
    and_then (compare_numbers a.minor b.minor)
      (and_then (compare_numbers a.patch b.patch) (compare_prereleases a.prerelease b.prerelease)))

-- The comparison with what was parsed; texts that are no versions are compared as texts.
unfoldable pub compare_parsed : (a b : String) → (pa pb : Option Version) → Sign
compare_parsed a b none none = compare_codes (codes a) (codes b)
compare_parsed a b none (some vb) = more
compare_parsed a b (some va) none = less
compare_parsed a b (some va) (some vb) = compare_versions va vb

unfoldable pub compare_semver : String → String → Sign
compare_semver a b = compare_parsed a b (parse_semver a) (parse_semver b)
