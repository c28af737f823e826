-- ===== src/Nfqlb/Utils.antt =====
-- pkg/nfqlb/utils.go: the queue range, and the "any" tests on address and port ranges.
use l_3_4_gateway_api_poc.Base.{
  ℕ, ◌≡◌, refl, Bool, true, false, Option, none, some, List, [], ◌∷◌, Text, codes, text_discrete,
  ℕ_discrete, ℤ, pos, int_discrete, atoi, split, ite, ltb, if◌then◌else◌, length,
}

abbrev pub queue_range : ℕ
queue_range = 2

abbrev pub max_port_range : Text
max_port_range = codes "0-65535"

-- `none` is `errQueueFormat`.
abbrev pub end_of : ℤ → List Text → Option (ℤ × ℤ)
end_of start [] = some (start, start)
end_of start (last ∷ _) = elim (atoi last) [ none ↦ none | some stop ↦ some (start, stop) ]

abbrev pub start_of : List Text → Option (ℤ × ℤ)
start_of [] = none
start_of (first ∷ rest) = elim (atoi first) [ none ↦ none | some start ↦ end_of start rest ]

unfoldable pub get_queue : Text → Option (ℤ × ℤ)
get_queue queue =
    let nfqueues = split b':' queue in
    if ltb queue_range (length nfqueues) then none else start_of nfqueues

-- The mask of one range, `strings.Split(ip, "/")[1]`, is 0.
abbrev pub zero_mask : List Text → Bool
zero_mask [] = false
zero_mask (_ ∷ []) = false
zero_mask (_ ∷ mask ∷ _) = elim (atoi mask) [
  | none ↦ false
  | some m ↦ ite (int_discrete m (pos 0)) true false
]

unfoldable pub any_ip_range : List Text → Bool
any_ip_range [] = true
any_ip_range (ip ∷ ips) = if zero_mask (split b'/' ip) then any_ip_range ips else false

unfoldable pub any_port_range : List Text → Bool
any_port_range [] = false
any_port_range (port ∷ ports) = ite (text_discrete port max_port_range) true (any_port_range ports)

default_queue : get_queue (codes "0:3") ≡ some (pos 0, pos 3)
unfolding get_queue atoi split
default_queue = refl

bad_queues : (get_queue (codes "0:3:4") ≡ none) × (get_queue (codes "a") ≡ none)
unfolding get_queue atoi split
bad_queues = (refl, refl)

any_ranges : any_ip_range (codes "0.0.0.0/0" ∷ codes "::/0" ∷ []) ≡ true
unfolding any_ip_range atoi split int_discrete ℕ_discrete
any_ranges = refl
