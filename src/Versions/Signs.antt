-- ===== src/Versions/Signs.antt =====
-- The results -1, 0 and 1 of a comparison.
use client_capmesh.Prelude.{Bool, true, false, refl, ◌≡◌, arith}

pub data Sign : Type 0 where
  less same more : Sign

-- the result with the arguments swapped
unfoldable pub flip : Sign → Sign
flip less = more
flip same = same
flip more = less

-- the first result, or the second where the first is 0
unfoldable pub and_then : Sign → Sign → Sign
and_then less s = less
and_then same s = s
and_then more s = more

unfoldable pub is_less : Sign → Bool
is_less less = true
is_less same = false
is_less more = false

unfoldable pub is_same : Sign → Bool
is_same less = false
is_same same = true
is_same more = false

unfoldable pub is_more : Sign → Bool
is_more less = false
is_more same = false
is_more more = true

-- Of the results for a and b, b and c, a and c: the third is the one that follows from the others, if
-- one does.
unfoldable pub fits : Sign → Sign → Sign → Bool
fits less less r = is_less r
fits less same r = is_less r
fits less more r = true
fits same less r = is_less r
fits same same r = is_same r
fits same more r = is_more r
fits more less r = true
fits more same r = is_more r
fits more more r = is_more r

pub flip-and_then : (s t : Sign) → flip (and_then s t) ≡ and_then (flip s) (flip t)
unfolding flip and_then
flip-and_then less t = refl
flip-and_then same t = refl
flip-and_then more t = refl

-- a lexicographic comparison fits if its two parts do
pub fits-and_then :
    (s t r s' t' r' : Sign)
    → fits s t r ≡ true
    → fits s' t' r' ≡ true
    → fits (and_then s s') (and_then t t') (and_then r r') ≡ true
unfolding fits and_then is_less is_same is_more
fits-and_then s t r s' t' r' h k = ground (arith, h, k)
