-- ===== src/Versions/Candidates.antt =====
-- The key by which `resolve_version_conflict` (capmesh/semver_policy.py) orders versions, and what it
-- means for the versions.
use client_capmesh.Versions.Conflict.{
  compare_candidates, compare_flags, compare_keys, compare_texts, Key, sort_key, is_valid,
}
use client_capmesh.Versions.Semver.{Version, parse_semver, compare_numbers, compare_codes}
use client_capmesh.Versions.Signs.{is_less, fits, flip, is_same, is_more, and_then, fits-and_then}
use client_capmesh.Versions.Order.{
  compare_numbers-flip, compare_numbers-fits, compare_codes-flip, compare_codes-fits, flip-after,
}
use client_capmesh.Prelude.{
  String, Bool, ◌≡◌, true, false, List, [], ◌∷◌, refl, arith, ℕ, Option, none, some, ltb, eqb, ◌&&◌,
  ◌||◌, codes,
}

-- text order, by the first place where the texts differ
unfoldable pub text_le : List ℕ → List ℕ → Bool
text_le [] t = true
text_le (c ∷ s) [] = false
text_le (c ∷ s) (d ∷ t) = ltb c d || eqb c d && text_le s t

-- a release is after its prereleases, and prereleases go by their texts
unfoldable pub label_le : Option (List ℕ) → Option (List ℕ) → Bool
label_le p none = true
label_le none (some q) = false
label_le (some p) (some q) = text_le p q

unfoldable pub version_le : Version → Version → Bool
version_le a b =
    ltb a.major b.major
    || eqb a.major b.major
      && (ltb a.minor b.minor
          || eqb a.minor b.minor
            && (ltb a.patch b.patch || eqb a.patch b.patch && label_le a.prerelease b.prerelease))

-- versions by their numbers, other texts before them and by the order of texts
unfoldable pub parsed_le : (x y : String) → Option Version → Option Version → Bool
parsed_le x y none none = text_le (codes x) (codes y)
parsed_le x y none (some b) = true
parsed_le x y (some a) none = false
parsed_le x y (some a) (some b) = version_le a b

compare_flags-flip : (p q : Bool) → compare_flags q p ≡ flip (compare_flags p q)
unfolding compare_flags flip
compare_flags-flip p q = ground arith

compare_flags-fits :
    (p q r : Bool) → fits (compare_flags p q) (compare_flags q r) (compare_flags p r) ≡ true
unfolding compare_flags fits is_less is_same is_more
compare_flags-fits p q r = ground arith

compare_keys-flip : (a b : Key) → compare_keys b a ≡ flip (compare_keys a b)
unfolding compare_keys
compare_keys-flip a b =
    flip-after (compare_numbers a.major b.major) _ (compare_numbers-flip a.major b.major) (
      flip-after (compare_numbers a.minor b.minor) _ (compare_numbers-flip a.minor b.minor) (
        flip-after (compare_numbers a.patch b.patch) _ (compare_numbers-flip a.patch b.patch) (
          flip-after (compare_flags a.is_release b.is_release) (compare_codes a.text b.text)
            (compare_flags-flip a.is_release b.is_release) (compare_codes-flip a.text b.text))))

compare_keys-fits :
    (a b c : Key) → fits (compare_keys a b) (compare_keys b c) (compare_keys a c) ≡ true
unfolding compare_keys
compare_keys-fits a b c = fits-and_then _ _ _ _ _ _ (compare_numbers-fits a.major b.major c.major) (
    fits-and_then _ _ _ _ _ _ (compare_numbers-fits a.minor b.minor c.minor) (
      fits-and_then _ _ _ _ _ _ (compare_numbers-fits a.patch b.patch c.patch) (
        fits-and_then _ _ _ _ _ _ (compare_flags-fits a.is_release b.is_release c.is_release)
          (compare_codes-fits a.text b.text c.text))))

pub compare_candidates-flip :
    (a b : String) → compare_candidates b a ≡ flip (compare_candidates a b)
unfolding compare_candidates
compare_candidates-flip a b =
    flip-after (compare_flags (is_valid a) (is_valid b)) (compare_keys (sort_key a) (sort_key b))
      (compare_flags-flip (is_valid a) (is_valid b)) (compare_keys-flip (sort_key a) (sort_key b))

pub compare_candidates-fits :
    (a b c : String)
    → fits (compare_candidates a b) (compare_candidates b c) (compare_candidates a c) ≡ true
unfolding compare_candidates
compare_candidates-fits a b c =
    fits-and_then _ _ _ _ _ _ (compare_flags-fits (is_valid a) (is_valid b) (is_valid c))
      (compare_keys-fits (sort_key a) (sort_key b) (sort_key c))

pub compare_texts-flip : (a b : String) → compare_texts b a ≡ flip (compare_texts a b)
unfolding compare_texts
compare_texts-flip a b = compare_codes-flip (codes a) (codes b)

pub compare_texts-fits :
    (a b c : String) → fits (compare_texts a b) (compare_texts b c) (compare_texts a c) ≡ true
unfolding compare_texts
compare_texts-fits a b c = compare_codes-fits (codes a) (codes b) (codes c)

codes-text_le : (s t : List ℕ) → is_less (compare_codes t s) ≡ false → text_le s t ≡ true
unfolding compare_codes compare_numbers and_then is_less text_le
codes-text_le [] t h = refl
codes-text_le (c ∷ s) [] h = ground arith
codes-text_le (c ∷ s) (d ∷ t) h = ground (arith, codes-text_le s t)

-- the last two columns of a key
labels-label_le :
    (p q : Option (List ℕ))
    → is_less (
        and_then
          (compare_flags
            (elim q [ none ↦ true | some s ↦ false ])
            (elim p [ none ↦ true | some s ↦ false ]))
          (compare_codes (elim q [ none ↦ [] | some s ↦ s ]) (elim p [ none ↦ [] | some s ↦ s ])))
      ≡ false
    → label_le p q ≡ true
unfolding compare_flags and_then is_less label_le
labels-label_le none none h = refl
labels-label_le (some p) none h = refl
labels-label_le none (some q) h = ground arith
labels-label_le (some p) (some q) h = codes-text_le p q h

pub candidates-version_le :
    (x y : String) {a b : Version}
    → parse_semver x ≡ some a
    → parse_semver y ≡ some b
    → is_less (compare_candidates y x) ≡ false
    → version_le a b ≡ true
unfolding compare_candidates is_valid sort_key compare_keys compare_numbers and_then is_less
    version_le compare_flags
candidates-version_le x y {a} {b} ex ey h =
    ground (arith, ex, ey, labels-label_le a.prerelease b.prerelease)

pub texts-text_le :
    (x y : String) → is_less (compare_texts y x) ≡ false → text_le (codes x) (codes y) ≡ true
unfolding compare_texts
texts-text_le x y = codes-text_le (codes x) (codes y)
