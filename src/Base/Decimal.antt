-- ===== src/Base/Decimal.antt =====
-- Go's `strconv.Itoa` and `strconv.Atoi`, `strings.Split` and `strings.Join`, over bytes.
use Prim.Native.Nat.{ℕ, zero, suc, ◌+◌, ◌-◌, ◌*◌, ◌/◌, ◌%◌, ◌^◌}
use mathlib.Core.Bool.{Bool, true, false, ◌&&◌}
use mathlib.Core.Option.{Option, none, some}
use mathlib.Core.List.{List, [], ◌∷◌, ◌++◌}
use mathlib.Core.Path.{◌≡◌, refl}
use l_3_4_gateway_api_poc.Base.Tests.{ltb, leb, ◌==◌, if◌then◌else◌}
use l_3_4_gateway_api_poc.Base.Texts.{Text, codes}
use l_3_4_gateway_api_poc.Base.Int.{ℤ, pos, negsuc}

-- The decimal digits of `n` before `out`; a number has at most `n + 1` digits.
unfoldable pub digits_from : ℕ → ℕ → Text → Text
digits_from zero n out = out
digits_from (suc fuel) n out =
    let rest = digits_from fuel (n / 10) ((48 + n % 10) ∷ out) in
    if ltb n 10 then (48 + n) ∷ out else rest

unfoldable pub digits : ℕ → Text
unfolding digits_from
digits n = digits_from (suc n) n []

unfoldable pub itoa : ℤ → Text
unfolding digits
itoa (pos n) = digits n
itoa (negsuc n) = b'-' ∷ digits (suc n)

unfoldable pub scan_digits : Text → ℕ → Option ℕ
scan_digits [] n = some n
scan_digits (c ∷ s) n =
    if leb b'0' c && leb c b'9' then scan_digits s (n * 10 + (c - b'0')) else none

unfoldable pub magnitude : Text → Option ℕ
unfolding scan_digits
magnitude [] = none
magnitude (c ∷ s) = scan_digits (c ∷ s) 0

-- The sign is applied, and a number out of the range of `int` is refused.
abbrev pub signed : Bool → ℕ → Option ℤ
signed true n =
    if n == 0 then some (pos 0) else if leb n (2 ^ 63) then some (negsuc (n - 1)) else none
signed false n = if ltb n (2 ^ 63) then some (pos n) else none

abbrev pub then_signed : Bool → Option ℕ → Option ℤ
then_signed negative none = none
then_signed negative (some n) = signed negative n

unfoldable pub atoi : Text → Option ℤ
unfolding magnitude
atoi [] = none
atoi (c ∷ s) =
    if c == b'-'
    then then_signed true (magnitude s)
    else if c == b'+'
    then then_signed false (magnitude s)
    else then_signed false (magnitude (c ∷ s))

-- `strings.Split` by one byte: never empty.
unfoldable pub split : ℕ → Text → List Text
split sep [] = [] ∷ []
split sep (c ∷ s) =
    let rest = split sep s in
    if c == sep
    then [] ∷ rest
    else elim rest [ [] ↦ (c ∷ []) ∷ [] | part ∷ parts ↦ (c ∷ part) ∷ parts ]

-- `strings.Join` by one byte.
unfoldable pub join : ℕ → List Text → Text
join sep [] = []
join sep (part ∷ []) = part
join sep (part ∷ next ∷ parts) = part ++ sep ∷ join sep (next ∷ parts)

itoa_5000 : itoa (pos 5000) ≡ codes "5000"
unfolding itoa
itoa_5000 = refl

atoi_samples :
    (atoi (codes "-12") ≡ some (negsuc 11))
    × (atoi (codes "9223372036854775808") ≡ none)
    × (atoi (codes "4x") ≡ none)
unfolding atoi
atoi_samples = (refl, refl, refl)

split_sample : split b':' (codes "0:3") ≡ codes "0" ∷ codes "3" ∷ []
unfolding split
split_sample = refl
