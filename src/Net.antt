-- ===== src/Net.antt =====
-- Addresses as Go's `net` package holds them, and pkg/networking/ip.go.
pub mod Next
pub mod Tests
use Prim.Native.Nat.{bit_or}
use l_3_4_gateway_api_poc.Base.{
  ℕ, zero, suc, ◌+◌, ◌-◌, ◌*◌, ◌%◌, ◌≡◌, refl, Bool, true, false, ◌&&◌, Option, none, some, List,
  [], ◌∷◌, Text, text_discrete, ite, leb, ◌==◌, if◌then◌else◌, length,
}

-- `net.IP`: the bytes of an address, the first one most significant; no bytes for `nil`.
abbrev pub Ip : Type 0
Ip = List ℕ

-- `net.IPNet`
pub record IpNet : Type 0 where
  pub ip : Ip
  pub mask : List ℕ

-- The text forms of addresses, which the program only hands on: `net.ParseIP`, `net.ParseCIDR`
-- and the `String` methods of `net.IP` and `net.IPNet`.
pub record Addresses : Type 0 where
  pub parse_ip : Text → Option Ip
  pub parse_cidr : Text → Option (Ip × IpNet)
  pub ip_string : Ip → Text
  pub net_string : IpNet → Text

-- `ip.To4()`: four bytes stay, and of sixteen the last four if the first twelve are those of
-- `::ffff:0:0/96`.
unfoldable pub to4 : Ip → Option Ip
to4 (a ∷ b ∷ c ∷ d ∷ []) = some (a ∷ b ∷ c ∷ d ∷ [])
to4 (a0 ∷ a1 ∷ a2 ∷ a3 ∷ a4 ∷ a5 ∷ a6 ∷ a7 ∷ a8 ∷ a9 ∷ f0 ∷ f1 ∷ a ∷ b ∷ c ∷ d ∷ []) =
    let zeros = a0 + a1 + a2 + a3 + a4 + a5 + a6 + a7 + a8 + a9 in
    if zeros == 0 && (f0 == 255 && f1 == 255) then some (a ∷ b ∷ c ∷ d ∷ []) else none
to4 _ = none

abbrev pub is_v4 : Ip → Bool
is_v4 ip = elim (to4 ip) [ none ↦ false | some _ ↦ true ]

-- `ip.Equal(x)`: an IPv4 address and the same address in IPv6 form are equal.
abbrev pub canonical : Ip → Ip
canonical ip = elim (to4 ip) [ none ↦ ip | some four ↦ four ]

unfoldable pub same_ip : Ip → Ip → Bool
same_ip a b = ite (text_discrete (canonical a) (canonical b)) true false

-- The leading ones of a byte, if zeros follow.
unfoldable pub leading_ones : ℕ → ℕ → Option ℕ
leading_ones zero v = some 0
leading_ones (suc n) v =
    let rest = leading_ones n (v * 2 % 256) in
    if leb 128 v
    then elim rest [ none ↦ none | some k ↦ some (suc k) ]
    else if v == 0
    then some 0
    else none

unfoldable pub all_zero : List ℕ → Bool
all_zero [] = true
all_zero (v ∷ m) = v == 0 && all_zero m

unfoldable pub mask_ones : List ℕ → Option ℕ
unfolding leading_ones all_zero
mask_ones [] = some 0
mask_ones (v ∷ m) =
    let rest = mask_ones m in
    if v == 255
    then elim rest [ none ↦ none | some k ↦ some (8 + k) ]
    else if all_zero m
    then leading_ones 8 v
    else none

-- `mask.Size()`: the ones and the bits, or 0 and 0 if a one follows a zero.
unfoldable pub mask_size : List ℕ → ℕ × ℕ
unfolding mask_ones
mask_size m = elim (mask_ones m) [ none ↦ (0, 0) | some k ↦ (k, 8 * length m) ]

-- `BroadcastFromIPNet`; a mask that is too short is an index out of range, `none`.
unfoldable pub broadcast : List ℕ → List ℕ → Option Ip
broadcast [] mask = some []
broadcast (b ∷ ip) [] = none
broadcast (b ∷ ip) (m ∷ mask) = elim (broadcast ip mask) [
  | none ↦ none
  | some rest ↦ some (bit_or b (255 - m) ∷ rest)
]

unfoldable pub broadcast_from_ip_net : IpNet → Option Ip
unfolding broadcast
broadcast_from_ip_net net = broadcast net.ip net.mask

-- The loop of `NextIP`, which starts at the last byte: the bytes, and whether it goes on.
unfoldable pub next_from : Ip → Ip × Bool
next_from [] = ([], true)
next_from (b ∷ ip) =
    let (rest, on) = next_from ip in
    if on then (((b + 1) % 256) ∷ rest, (b + 1) % 256 == 0) else (b ∷ rest, false)

unfoldable pub next_ip : Ip → Ip
unfolding next_from
next_ip ip = (next_from ip).0

next_carries : next_ip (10 ∷ 0 ∷ 255 ∷ 255 ∷ []) ≡ 10 ∷ 1 ∷ 0 ∷ 0 ∷ []
unfolding next_ip
next_carries = refl

mask_24 : mask_size (255 ∷ 255 ∷ 255 ∷ 0 ∷ []) ≡ (24, 32)
unfolding mask_size
mask_24 = refl
