-- ===== src/Base/Int.antt =====
-- Go's `int` as an integer: `negsuc n` is -(n + 1). Sums wrap around at 64 bits.
use Prim.Native.Nat.{ℕ, ◌+◌, ◌-◌, ◌%◌, ◌^◌, ◌<◌}
use mathlib.Core.Path.{◌≡◌}
use native.Mathlib.Decide.{ℕ_discrete}
use native.Mathlib.Omega.{arith}
use l_3_4_gateway_api_poc.Base.Tests.{ltb, if◌then◌else◌}

pub data ℤ : Type 0 where
  pos : ℕ → ℤ
  negsuc : ℕ → ℤ

unfoldable pub int_discrete : Discrete ℤ
unfolding ℕ_discrete
int_discrete (pos a) (pos b) = elim (ℕ_discrete a b) [ yes p ↦ yes (cc) | no p ↦ no (λ e. p (cc)) ]
int_discrete (negsuc a) (negsuc b) = elim (ℕ_discrete a b) [
  | yes p ↦ yes (cc)
  | no p ↦ no (λ e. p (cc))
]
int_discrete (pos a) (negsuc b) = no (λ e. cc)
int_discrete (negsuc a) (pos b) = no (λ e. cc)

-- The bit pattern of an `int`, and the `int` of a bit pattern.
abbrev pub to_bits : ℤ → ℕ
to_bits (pos n) = n % 2 ^ 64
to_bits (negsuc n) = 2 ^ 64 - 1 - n % 2 ^ 64

abbrev pub of_bits : ℕ → ℤ
of_bits r = if ltb r (2 ^ 63) then pos r else negsuc (2 ^ 64 - 1 - r)

-- a + b
abbrev pub int_add : ℤ → ℤ → ℤ
int_add a b = of_bits ((to_bits a + to_bits b) % 2 ^ 64)

abbrev pub max_int : ℕ
max_int = 2 ^ 63 - 1

-- A sum of natural numbers that fits is exact.
pub int_add_pos : (a b : ℕ) → a + b < 2 ^ 63 → int_add (pos a) (pos b) ≡ pos (a + b)
int_add_pos a b h = ground arith
