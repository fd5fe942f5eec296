-- ===== src/Versions/Order.antt =====
-- The comparisons of capmesh/semver_policy.py are orders.
use client_capmesh.Versions.Signs.{
  flip, fits, is_less, is_same, is_more, fits-and_then, flip-and_then, Sign, and_then, more,
}
use client_capmesh.Versions.Semver.{
  compare_numbers, compare_codes, compare_identifiers, compare_labels, number, compare_prereleases,
  compare_versions, compare_parsed, compare_semver, Version, parse_semver, split_dots,
}
use client_capmesh.Prelude.{
  String, [], refl, true, ℕ, List, ◌≡◌, arith, ◌∷◌, sym, Option, none, some, codes,
}

-- swapped arguments give the opposite result
pub compare_numbers-flip : (a b : ℕ) → compare_numbers b a ≡ flip (compare_numbers a b)
unfolding compare_numbers flip
compare_numbers-flip a b = ground arith

pub compare_numbers-fits :
    (a b c : ℕ) → fits (compare_numbers a b) (compare_numbers b c) (compare_numbers a c) ≡ true
unfolding compare_numbers fits is_less is_same is_more
compare_numbers-fits a b c = ground arith

pub compare_codes-flip : (s t : List ℕ) → compare_codes t s ≡ flip (compare_codes s t)
unfolding compare_codes flip
compare_codes-flip [] [] = refl
compare_codes-flip [] (d ∷ t) = refl
compare_codes-flip (c ∷ s) [] = refl
compare_codes-flip (c ∷ s) (d ∷ t) =
    rw (compare_numbers-flip c d, compare_codes-flip s t)
      (sym (flip-and_then (compare_numbers c d) (compare_codes s t)))

pub compare_codes-fits :
    (s t u : List ℕ) → fits (compare_codes s t) (compare_codes t u) (compare_codes s u) ≡ true
unfolding compare_codes fits is_less is_same is_more
compare_codes-fits [] [] [] = refl
compare_codes-fits [] [] (e ∷ u) = refl
compare_codes-fits [] (d ∷ t) [] = refl
compare_codes-fits [] (d ∷ t) (e ∷ u) = ground arith
compare_codes-fits (c ∷ s) [] [] = refl
compare_codes-fits (c ∷ s) [] (e ∷ u) = refl
compare_codes-fits (c ∷ s) (d ∷ t) [] = ground arith
compare_codes-fits (c ∷ s) (d ∷ t) (e ∷ u) =
    fits-and_then (compare_numbers c d) (compare_numbers d e) (compare_numbers c e)
      (compare_codes s t) (compare_codes t u) (compare_codes s u) (compare_numbers-fits c d e)
      (compare_codes-fits s t u)

compare_identifiers-flip : (p q : List ℕ) → compare_identifiers q p ≡ flip (compare_identifiers p q)
unfolding compare_identifiers flip
compare_identifiers-flip p q =
    ground (arith, compare_numbers-flip (number 0 p) (number 0 q), compare_codes-flip p q)

compare_identifiers-fits :
    (p q r : List ℕ)
    → fits (compare_identifiers p q) (compare_identifiers q r) (compare_identifiers p r) ≡ true
unfolding compare_identifiers fits is_less is_same is_more
compare_identifiers-fits p q r =
    ground
      (arith, compare_numbers-fits (number 0 p) (number 0 q) (number 0 r), compare_codes-fits p q r)

compare_labels-flip : (ps qs : List (List ℕ)) → compare_labels qs ps ≡ flip (compare_labels ps qs)
unfolding compare_labels flip
compare_labels-flip [] [] = refl
compare_labels-flip [] (q ∷ qs) = refl
compare_labels-flip (p ∷ ps) [] = refl
compare_labels-flip (p ∷ ps) (q ∷ qs) =
    rw (compare_identifiers-flip p q, compare_labels-flip ps qs)
      (sym (flip-and_then (compare_identifiers p q) (compare_labels ps qs)))

compare_labels-fits :
    (ps qs rs : List (List ℕ))
    → fits (compare_labels ps qs) (compare_labels qs rs) (compare_labels ps rs) ≡ true
unfolding compare_labels fits is_less is_same is_more
compare_labels-fits [] [] [] = refl
compare_labels-fits [] [] (r ∷ rs) = refl
compare_labels-fits [] (q ∷ qs) [] = refl
compare_labels-fits [] (q ∷ qs) (r ∷ rs) = ground arith
compare_labels-fits (p ∷ ps) [] [] = refl
compare_labels-fits (p ∷ ps) [] (r ∷ rs) = refl
compare_labels-fits (p ∷ ps) (q ∷ qs) [] = ground arith
compare_labels-fits (p ∷ ps) (q ∷ qs) (r ∷ rs) =
    fits-and_then (compare_identifiers p q) (compare_identifiers q r) (compare_identifiers p r)
      (compare_labels ps qs) (compare_labels qs rs) (compare_labels ps rs)
      (compare_identifiers-fits p q r) (compare_labels-fits ps qs rs)

compare_prereleases-flip :
    (p q : Option (List ℕ)) → compare_prereleases q p ≡ flip (compare_prereleases p q)
unfolding compare_prereleases flip
compare_prereleases-flip none none = refl
compare_prereleases-flip none (some q) = refl
compare_prereleases-flip (some p) none = refl
compare_prereleases-flip (some p) (some q) = compare_labels-flip (split_dots p) (split_dots q)

compare_prereleases-fits :
    (p q r : Option (List ℕ))
    → fits (compare_prereleases p q) (compare_prereleases q r) (compare_prereleases p r) ≡ true
unfolding compare_prereleases fits is_less is_same is_more
compare_prereleases-fits none none none = refl
compare_prereleases-fits none none (some r) = refl
compare_prereleases-fits none (some q) none = refl
compare_prereleases-fits none (some q) (some r) = ground arith
compare_prereleases-fits (some p) none none = refl
compare_prereleases-fits (some p) none (some r) = refl
compare_prereleases-fits (some p) (some q) none = ground arith
compare_prereleases-fits (some p) (some q) (some r) =
    compare_labels-fits (split_dots p) (split_dots q) (split_dots r)

-- the columns after one that flips
pub flip-after :
    (s t : Sign) {s' t' : Sign} → s' ≡ flip s → t' ≡ flip t → and_then s' t' ≡ flip (and_then s t)
flip-after s t h k = rw (h, k) (sym (flip-and_then s t))

compare_versions-flip : (a b : Version) → compare_versions b a ≡ flip (compare_versions a b)
unfolding compare_versions
compare_versions-flip a b =
    flip-after (compare_numbers a.major b.major) _ (compare_numbers-flip a.major b.major) (
      flip-after (compare_numbers a.minor b.minor) _ (compare_numbers-flip a.minor b.minor) (
        flip-after (compare_numbers a.patch b.patch) (compare_prereleases a.prerelease b.prerelease)
          (compare_numbers-flip a.patch b.patch)
          (compare_prereleases-flip a.prerelease b.prerelease)))

compare_versions-fits :
    (a b c : Version)
    → fits (compare_versions a b) (compare_versions b c) (compare_versions a c) ≡ true
unfolding compare_versions
compare_versions-fits a b c =
    fits-and_then _ _ _ _ _ _ (compare_numbers-fits a.major b.major c.major) (
      fits-and_then _ _ _ _ _ _ (compare_numbers-fits a.minor b.minor c.minor) (
        fits-and_then _ _ _ _ _ _ (compare_numbers-fits a.patch b.patch c.patch)
          (compare_prereleases-fits a.prerelease b.prerelease c.prerelease)))

compare_parsed-flip :
    (a b : String) (pa pb : Option Version)
    → compare_parsed b a pb pa ≡ flip (compare_parsed a b pa pb)
unfolding compare_parsed flip
compare_parsed-flip a b none none = compare_codes-flip (codes a) (codes b)
compare_parsed-flip a b none (some vb) = refl
compare_parsed-flip a b (some va) none = refl
compare_parsed-flip a b (some va) (some vb) = compare_versions-flip va vb

compare_parsed-fits :
    (a b c : String) (pa pb pc : Option Version)
    → fits (compare_parsed a b pa pb) (compare_parsed b c pb pc) (compare_parsed a c pa pc) ≡ true
unfolding compare_parsed fits is_less is_same is_more
compare_parsed-fits a b c none none none = compare_codes-fits (codes a) (codes b) (codes c)
compare_parsed-fits a b c none none (some vc) = ground arith
compare_parsed-fits a b c none (some vb) none = refl
compare_parsed-fits a b c none (some vb) (some vc) = ground arith
compare_parsed-fits a b c (some va) none none = ground arith
compare_parsed-fits a b c (some va) none (some vc) = refl
compare_parsed-fits a b c (some va) (some vb) none = ground arith
compare_parsed-fits a b c (some va) (some vb) (some vc) = compare_versions-fits va vb vc

-- `compare_semver` is a total preorder on texts, versions or not: with the arguments swapped it gives
-- the opposite sign, and of three texts a, b and c the results for a and b and for b and c determine
-- that for a and c wherever an order does (less and less is less, equal and less is less, and so on).
pub compare_semver-preorder :
    (a b c : String)
    → (compare_semver b a ≡ flip (compare_semver a b))
      × (fits (compare_semver a b) (compare_semver b c) (compare_semver a c) ≡ true)
unfolding compare_semver
compare_semver-preorder a b c = (
  compare_parsed-flip a b (parse_semver a) (parse_semver b),
  compare_parsed-fits a b c (parse_semver a) (parse_semver b) (parse_semver c),
)

-- A text that is no version is greater than every version.
pub compare_semver-invalid :
    (a b : String)
    → {vb : Version} → parse_semver a ≡ none
    → parse_semver b ≡ some vb
    → compare_semver a b ≡ more
unfolding compare_semver compare_parsed
compare_semver-invalid a b ea eb = rw (ea, eb) refl
