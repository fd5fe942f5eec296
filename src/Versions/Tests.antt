-- ===== src/Versions/Tests.antt =====
-- Versions that are parsed and compared, and the theorem at a concrete input.
use client_capmesh.Versions.Candidates.{parsed_le}
use client_capmesh.Versions.Winner.{resolve_version_conflict-winner}
use client_capmesh.Versions.Conflict.{
  resolve_version_conflict, is_valid, compare_candidates, compare_flags, sort_key, compare_keys,
  max_of, to_set, winner_of, resolve_unique,
}
use client_capmesh.Versions.Order.{compare_semver-preorder}
use client_capmesh.Versions.Signs.{less, flip, same, fits, more, and_then, is_less}
use client_capmesh.Versions.Semver.{
  compare_semver, parse_semver, compare_parsed, match_semver, parse_number, span, drop_v, parse_dot,
  parse_labels, parse_label, compare_versions, compare_numbers, number, compare_prereleases,
  compare_labels, split_dots, compare_codes, compare_identifiers, is_numeric,
}
use client_capmesh.Prelude.{
  refl, ◌≡◌, true, none, strip, drop_spaces, is_space, all, String, ◌∷◌, [], some, Memᴰ, any, elem,
}

-- a release candidate, whose numbers are compared as numbers, comes before the release
compared :
    (compare_semver "1.0.0-rc.9" "1.0.0-rc.10" ≡ less)
    × (compare_semver "v1.0.0" "1.0.0+build.7" ≡ same)
    × (compare_semver "1.0.0" "1.0.0-rc.10" ≡ more)
    × (compare_semver "latest" "99.0.0" ≡ more)
    × (parse_semver "1.0" ≡ none)
unfolding compare_semver compare_parsed parse_semver match_semver parse_number span drop_v strip
    parse_dot parse_labels parse_label compare_versions and_then compare_numbers number
    compare_prereleases compare_labels split_dots drop_spaces is_space all compare_codes
    compare_identifiers is_numeric
compared = (refl, refl, refl, refl, refl)

-- Three versions in order.
compare_semver-preorder_example :
    (compare_semver "1.0.0-rc.10" "1.0.0-rc.9" ≡ flip (compare_semver "1.0.0-rc.9" "1.0.0-rc.10"))
    × (fits
          (compare_semver "1.0.0-rc.9" "1.0.0-rc.10")
          (compare_semver "1.0.0-rc.10" "1.0.0")
          (compare_semver "1.0.0-rc.9" "1.0.0")
        ≡ true)
compare_semver-preorder_example = compare_semver-preorder "1.0.0-rc.9" "1.0.0-rc.10" "1.0.0"

-- The later version is chosen, before the earlier one and a text that is none.
resolve_version_conflict-winner_example :
    (winner : String) × ((resolve_version_conflict ("latest" ∷ "1.0.0" ∷ "1.2.0" ∷ [])).winner
      ≡ some winner)
    × Memᴰ winner ("latest" ∷ "1.0.0" ∷ "1.2.0" ∷ [])
    × (parsed_le "1.0.0" winner (parse_semver "1.0.0") (parse_semver winner) ≡ true)
resolve_version_conflict-winner_example =
    resolve_version_conflict-winner ("latest" ∷ "1.0.0" ∷ "1.2.0" ∷ []) "1.0.0"
      (Memᴰ.tail (Memᴰ.head refl))

-- The resolution compares prereleases as texts, unlike `compare_semver`.
resolved : (resolve_version_conflict ("1.0.0-rc.10" ∷ "1.0.0-rc.9" ∷ [])).winner ≡ some "1.0.0-rc.9"
unfolding compare_candidates compare_flags is_valid sort_key compare_keys max_of to_set winner_of
    resolve_unique resolve_version_conflict any elem is_less parse_semver match_semver parse_number
    span drop_v strip parse_dot parse_labels parse_label and_then compare_numbers number drop_spaces
    is_space compare_codes
resolved = refl
