-- ===== src/Net/Next.antt =====
-- `NextIP` is one more than the number that the bytes spell.
use native.Mathlib.Nat.{mod-eq_of_lt, mod_self}
use l_3_4_gateway_api_poc.Base.{
  ℕ, ◌+◌, ◌*◌, ◌%◌, ◌<◌, ◌≡◌, refl, true, false, [], ◌∷◌, arith, length, All, Bool-cases, sym, ◌∙◌,
  ℕ_discrete, ◌⊎◌, inl, inr,
}
use l_3_4_gateway_api_poc.Net.{Ip, next_from, next_ip}

abbrev pub IsByte : ℕ → Type 0
IsByte b = b < 256

abbrev pub IsBytes : Ip → Type 0
IsBytes = All IsByte

-- 256 to the number of bytes.
abbrev pub place : Ip → ℕ
place [] = 1
place (b ∷ ip) = 256 * place ip

-- The number that bytes spell, the first one most significant.
abbrev pub value : Ip → ℕ
value [] = 0
value (b ∷ ip) = b * place ip + value ip

length-next_from : (ip : Ip) → length (next_from ip).0 ≡ length ip
unfolding next_from
length-next_from [] = refl
length-next_from (b ∷ ip) = ground (arith, length-next_from ip)

place_of_length : (xs ys : Ip) → length xs ≡ length ys → place xs ≡ place ys
place_of_length [] [] h = refl
place_of_length [] (y ∷ ys) h = absurd (omega arith)
place_of_length (x ∷ xs) [] h = absurd (omega arith)
place_of_length (x ∷ xs) (y ∷ ys) h = omega (arith, place_of_length xs ys (omega arith))

value-lt-place : (ip : Ip) → IsBytes ip → value ip < place ip
value-lt-place [] h = omega arith
value-lt-place (b ∷ ip) (hb, h) = grind (arith, value-lt-place ip h)

next_from-IsBytes : (ip : Ip) → IsBytes ip → IsBytes (next_from ip).0
unfolding next_from
next_from-IsBytes [] h = tt
next_from-IsBytes (b ∷ ip) (hb, h) = elim (Bool-cases (next_from ip).1) [
  | inl e ↦ rw (e, next_from) (omega arith, next_from-IsBytes ip h)
  | inr e ↦ rw (e, next_from) (hb, next_from-IsBytes ip h)
]

-- Either the loop stopped, and the value grew by one, or every byte wrapped around.
abbrev Carried : Ip → Type 0
Carried ip =
    (((next_from ip).1 ≡ false) × (value (next_from ip).0 ≡ value ip + 1))
    ⊎ (((next_from ip).1 ≡ true) × (value (next_from ip).0 ≡ 0) × (value ip + 1 ≡ place ip))

next_from-Carried : (ip : Ip) → IsBytes ip → Carried ip
unfolding next_from
next_from-Carried [] h = inr (refl, refl, refl)
next_from-Carried (b ∷ ip) (hb, h) =
    let same = place_of_length (next_from ip).0 ip (length-next_from ip) in
    elim (next_from-Carried ip h) [
      | inl (stop, grew) ↦ inl (rw stop, rw (stop, same, grew) (omega arith))
      | inr (on, wrapped, full) ↦ elim (ℕ_discrete b 255) [
        | yes e ↦ inr (rw (on, e), rw (on, same, wrapped, e) (omega arith), rw e (omega arith))
        | no ne ↦
            let small : (b + 1) % 256 ≡ b + 1 = omega arith in
            inl (rw (on, small) (ground arith), rw (on, same, wrapped, small) (omega arith))
      ]
    ]

next_ip-value_mod : (ip : Ip) → IsBytes ip → value (next_from ip).0 ≡ (value ip + 1) % place ip
next_ip-value_mod ip h =
    let same = place_of_length (next_from ip).0 ip (length-next_from ip) in
    let small = value-lt-place (next_from ip).0 (next_from-IsBytes ip h) in
    elim (next_from-Carried ip h) [
      | inl (stop, grew) ↦ grew ∙ sym (mod-eq_of_lt (rw (← grew) (rw (← same) small)))
      | inr (on, wrapped, full) ↦ wrapped ∙ sym (rw full (mod_self (place ip)))
    ]

-- On bytes NextIP gives as many bytes, which spell the number after that of its argument; the last
-- address is followed by the one of zeros only.
pub next_ip-value :
    (ip : Ip)
    → IsBytes ip
    → (length (next_ip ip) ≡ length ip)
      × IsBytes (next_ip ip)
      × (value (next_ip ip) ≡ (value ip + 1) % place ip)
unfolding next_ip
next_ip-value ip h = (length-next_from ip, next_from-IsBytes ip h, next_ip-value_mod ip h)
