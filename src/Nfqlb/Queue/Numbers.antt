-- ===== src/Nfqlb/Queue/Numbers.antt =====
-- The 16-bit numbers that `New` makes of the bounds of the queues.
use l_3_4_gateway_api_poc.Base.{
  arith, ℕ, ◌+◌, ◌-◌, ◌≤◌, ◌<◌, ◌^◌, ◌≡◌, refl, ◌↔◌, ◌%◌, pos, int_add_pos,
}
use l_3_4_gateway_api_poc.Nfqlb.Queue.{queue_numbers, to_uint16, int_sub}

int_sub_pos :
    (start end : ℕ) → start ≤ end → end < 2 ^ 63 → int_sub (pos end) (pos start) ≡ pos (end - start)
int_sub_pos start end le fits = ground arith

to_uint16_pos : (n : ℕ) → n < 2 ^ 64 → to_uint16 (pos n) ≡ n % 2 ^ 16
to_uint16_pos n h = omega arith

numbers :
    (start end : ℕ)
    → start ≤ end
    → end + 1 < 2 ^ 63
    → queue_numbers (pos start) (pos end) ≡ (start % 2 ^ 16, (end - start + 1) % 2 ^ 16)
unfolding queue_numbers
numbers start end le fits =
    rw
      (
        int_sub_pos start end le (omega arith),
        int_add_pos (end - start) 1 (omega arith),
        to_uint16_pos start (omega arith),
        to_uint16_pos (end - start + 1) (omega arith),
      )
      refl

fits_iff : (n : ℕ) → (n % 2 ^ 16 ≡ n) ↔ (n < 2 ^ 16)
fits_iff n = ((λ e. omega arith), λ l. omega arith)

-- For bounds of queues that are in order and not negative, of which the last has a successor that
-- is an int, the 16-bit numbers that New makes are the first queue and how many there are exactly
-- if both are below 65536.
pub queue_numbers-pos :
    (start end : ℕ)
    → start ≤ end
    → end + 1 < 2 ^ 63
    → (queue_numbers (pos start) (pos end) ≡ (start, end - start + 1))
      ↔ ((start < 2 ^ 16) × (end - start + 1 < 2 ^ 16))
queue_numbers-pos start end le fits = rw (numbers start end le fits) (
  (λ e. ((fits_iff start).0 (λ i. (e i).0), (fits_iff (end - start + 1)).0 (λ i. (e i).1))),
  λ p. λ i. ((fits_iff start).1 p.0 i, (fits_iff (end - start + 1)).1 p.1 i),
)
