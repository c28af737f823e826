-- ===== src/Base/Numerals.antt =====
-- What `itoa` writes `atoi` reads back.
use Prim.Native.Nat.{ℕ, zero, suc, ◌+◌, ◌/◌, ◌%◌, ◌^◌, ◌≤◌, ◌<◌}
use mathlib.Core.Path.{◌≡◌}
use mathlib.Core.Bool.{Bool, true, false}
use mathlib.Core.Option.{Option, none, some}
use mathlib.Core.List.{[], ◌∷◌}
use native.Mathlib.Omega.{arith}
use native.Mathlib.Decide.{dec_lt}
use l_3_4_gateway_api_poc.Base.Texts.{Text}
use l_3_4_gateway_api_poc.Base.Int.{ℤ, pos, negsuc}
use l_3_4_gateway_api_poc.Base.Decimal.{
  digits_from, digits, itoa, scan_digits, magnitude, signed, then_signed, atoi,
}

-- The values of Go's type `int`.
abbrev pub IsInt : ℤ → Type 0
IsInt (pos n) = n < 2 ^ 63
IsInt (negsuc n) = n < 2 ^ 63

scan-digits_from :
    (fuel n : ℕ) (out : Text)
    → n < fuel
    → scan_digits (digits_from fuel n out) 0 ≡ scan_digits out n
unfolding digits_from scan_digits
scan-digits_from zero n out h = absurd (omega arith)
scan-digits_from (suc fuel) n out h = elim (dec_lt n 10) [
  | yes small ↦ ground arith
  | no big ↦
      let ih = scan-digits_from fuel (n / 10) ((48 + n % 10) ∷ out) (omega arith) in
      ground (arith, ih)
]

-- The first byte of a number is a digit.
abbrev StartsWithDigit : Text → Type 0
StartsWithDigit s = (c : ℕ) × (rest : Text) × (s ≡ c ∷ rest) × (48 ≤ c) × (c ≤ 57)

digits_from-StartsWithDigit :
    (fuel n : ℕ) (out : Text) → n < fuel → StartsWithDigit (digits_from fuel n out)
unfolding digits_from
digits_from-StartsWithDigit zero n out h = absurd (omega arith)
digits_from-StartsWithDigit (suc fuel) n out h = elim (dec_lt n 10) [
  | yes small ↦ (48 + n, out, ground arith, omega arith, omega arith)
  | no big ↦
      let (c, rest, e, l, u) =
        digits_from-StartsWithDigit fuel (n / 10) ((48 + n % 10) ∷ out) (omega arith) in
      (c, rest, ground (arith, e), l, u)
]

magnitude-digits : (n : ℕ) → magnitude (digits n) ≡ some n
unfolding magnitude digits scan_digits
magnitude-digits n =
    let (c, rest, e, l, u) = digits_from-StartsWithDigit (suc n) n [] (omega arith) in
    let all = scan-digits_from (suc n) n [] (omega arith) in rw (e, magnitude) (rw e at all)

atoi-digits : (n : ℕ) → n < 2 ^ 63 → atoi (digits n) ≡ some (pos n)
unfolding atoi digits
atoi-digits n small =
    let (c, rest, e, l, u) = digits_from-StartsWithDigit (suc n) n [] (omega arith) in
    let back = magnitude-digits n in rw e (ground (arith, rw e at back))

-- `atoi` reads back what `itoa` writes of an `int`.
pub atoi-itoa : (z : ℤ) → IsInt z → atoi (itoa z) ≡ some z
unfolding itoa atoi
atoi-itoa (pos n) h = atoi-digits n h
atoi-itoa (negsuc n) h = let back = magnitude-digits (suc n) in ground (arith, back)

signed-IsInt : (negative : Bool) (n : ℕ) (z : ℤ) → signed negative n ≡ some z → IsInt z
signed-IsInt true n (pos k) h = ground arith
signed-IsInt true n (negsuc k) h = ground arith
signed-IsInt false n (pos k) h = ground arith
signed-IsInt false n (negsuc k) h = ground arith

then_signed-IsInt :
    (negative : Bool) (r : Option ℕ) (z : ℤ) → then_signed negative r ≡ some z → IsInt z
then_signed-IsInt negative none z h = absurd (cc)
then_signed-IsInt negative (some n) z h = signed-IsInt negative n z h

-- What `atoi` reads is an `int`.
pub atoi-IsInt : (s : Text) (z : ℤ) → atoi s ≡ some z → IsInt z
unfolding atoi
atoi-IsInt [] z h = absurd (cc)
atoi-IsInt (c ∷ s) z h = ground (
  arith,
  then_signed-IsInt true (magnitude s) z,
  then_signed-IsInt false (magnitude s) z,
  then_signed-IsInt false (magnitude (c ∷ s)) z,
)
