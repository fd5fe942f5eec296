-- ===== src/Versions/Conflict.antt =====
-- capmesh/semver_policy.py: `resolve_version_conflict`.
use client_capmesh.Dependencies.Kahn.{sorted, add_to}
use client_capmesh.Versions.Signs.{Sign, and_then, is_less, same, less, more}
use client_capmesh.Versions.Semver.{parse_semver, compare_codes, compare_numbers}
use client_capmesh.Prelude.{
  String, [], true, Option, Bool, ℕ, List, if◌then◌else◌, ◌∷◌, none, false, codes, any, some, all,
  select, not,
}

-- the dict of a resolution; `invalid_versions` is empty where the code leaves the key out
pub record Resolution : Type 0 where
  pub winner : Option String
  pub conflict : Bool
  pub all_valid : Bool
  pub versions : List String
  pub invalid_versions : List String

-- parse_semver(v) is not None
unfoldable pub is_valid : String → Bool
is_valid v = elim (parse_semver v) [ none ↦ false | some p ↦ true ]

-- False < True
unfoldable pub compare_flags : Bool → Bool → Sign
compare_flags false false = same
compare_flags false true = less
compare_flags true false = more
compare_flags true true = same

-- `_semver_sort_key`
pub record Key : Type 0 where
  pub major : ℕ
  pub minor : ℕ
  pub patch : ℕ
  pub is_release : Bool
  pub text : List ℕ

unfoldable pub sort_key : String → Key
sort_key v = elim (parse_semver v) [
  | none ↦ record { major = 0; minor = 0; patch = 0; is_release = false; text = [] }
  | some p ↦ record {
    major = p.major;
    minor = p.minor;
    patch = p.patch;
    is_release = elim p.prerelease [ none ↦ true | some s ↦ false ];
    text = elim p.prerelease [ none ↦ [] | some s ↦ s ];
  }
]

unfoldable pub compare_keys : Key → Key → Sign
compare_keys a b = and_then (compare_numbers a.major b.major) (
    and_then (compare_numbers a.minor b.minor) (
      and_then (compare_numbers a.patch b.patch)
        (and_then (compare_flags a.is_release b.is_release) (compare_codes a.text b.text))))

-- key=lambda v: (parse_semver(v) is not None, _semver_sort_key(v))
unfoldable pub compare_candidates : String → String → Sign
compare_candidates a b =
    and_then (compare_flags (is_valid a) (is_valid b)) (compare_keys (sort_key a) (sort_key b))

-- the order of texts, as max(unique) has it
unfoldable pub compare_texts : String → String → Sign
compare_texts a b = compare_codes (codes a) (codes b)

-- the later of two, and the earlier one in the list of two that are equal
abbrev pub later_of : (String → String → Sign) → String → String → String
later_of cmp best y = if is_less (cmp best y) then y else best

-- max(...) of a list that begins with `best`
unfoldable pub max_of : (String → String → Sign) → (best : String) → List String → String
max_of cmp best [] = best
max_of cmp best (y ∷ ys) = max_of cmp (later_of cmp best y) ys

-- set(versions)
unfoldable pub to_set : List String → List String
to_set [] = []
to_set (v ∷ vs) = add_to v (to_set vs)

-- the winner among two or more
unfoldable pub winner_of : (first : String) → (rest : List String) → String
winner_of first rest =
    if any is_valid (first ∷ rest)
    then max_of compare_candidates first rest
    else max_of compare_texts first rest

-- the resolution for `unique`
unfoldable pub resolve_unique : List String → Resolution
resolve_unique [] = record {
  winner = none;
  conflict = false;
  all_valid = true;
  versions = [];
  invalid_versions = [];
}
resolve_unique (v ∷ []) = record {
  winner = some v;
  conflict = false;
  all_valid = is_valid v;
  versions = v ∷ [];
  invalid_versions = [];
}
resolve_unique (v ∷ w ∷ vs) = record {
  winner = some (winner_of v (w ∷ vs));
  conflict = true;
  all_valid = all is_valid (v ∷ w ∷ vs);
  versions = v ∷ w ∷ vs;
  invalid_versions = select (λ x. not (is_valid x)) (v ∷ w ∷ vs);
}

unfoldable pub resolve_version_conflict : List String → Resolution
resolve_version_conflict versions = resolve_unique (sorted (to_set versions))
