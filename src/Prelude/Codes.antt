-- ===== src/Prelude/Codes.antt =====
-- Strings as lists of code points, for code that looks into them: `strip`, `lower`, `in`. Case and
-- white space are those of ASCII, which the program's status words are written in.
use Prim.Native.Nat.{ℕ, ◌+◌}
use Prim.Native.Char.{code}
use Prim.Native.String.{String}
use mathlib.Core.Bool.{Bool, true, false, ◌&&◌, ◌||◌}
use mathlib.Core.List.{List, [], ◌∷◌, map, reverse}
use client_capmesh.Prelude.Tests.{leb, eqb, if◌then◌else◌}

abbrev pub codes : String → List ℕ
codes String.[] = []
codes (String.◌∷◌ c s) = code c ∷ codes s

unfoldable pub is_space : ℕ → Bool
is_space c = eqb c 32 || (leb 9 c && leb c 13 || leb 28 c && leb c 31)

unfoldable pub drop_spaces : List ℕ → List ℕ
drop_spaces [] = []
drop_spaces (c ∷ s) = let rest = drop_spaces s in if is_space c then rest else c ∷ s

-- s.strip()
unfoldable pub strip : List ℕ → List ℕ
unfolding is_space drop_spaces
strip s = reverse (drop_spaces (reverse (drop_spaces s)))

unfoldable pub lower_code : ℕ → ℕ
lower_code c = if leb b'A' c && leb c b'Z' then c + 32 else c

-- s.lower()
unfoldable pub lower : List ℕ → List ℕ
unfolding lower_code
lower = map lower_code

unfoldable pub codes_eq : List ℕ → List ℕ → Bool
codes_eq [] [] = true
codes_eq [] (d ∷ t) = false
codes_eq (c ∷ s) [] = false
codes_eq (c ∷ s) (d ∷ t) = eqb c d && codes_eq s t

unfoldable pub has_prefix : List ℕ → List ℕ → Bool
has_prefix [] s = true
has_prefix (c ∷ p) [] = false
has_prefix (c ∷ p) (d ∷ s) = eqb c d && has_prefix p s

-- p in s
unfoldable pub contains : List ℕ → List ℕ → Bool
unfolding has_prefix
contains p [] = has_prefix p []
contains p (c ∷ s) = has_prefix p (c ∷ s) || contains p s
