-- ===== src/Net/Tests.antt =====
-- Runs of pkg/networking/ip.go on small inputs.
use l_3_4_gateway_api_poc.Base.{◌≡◌, ◌+◌, ◌%◌, [], ◌∷◌, length, arith}
use l_3_4_gateway_api_poc.Net.{Ip, next_ip}
use l_3_4_gateway_api_poc.Net.Next.{IsBytes, place, value, next_ip-value}

next_ip-value_example :
    let ip : Ip = 10 ∷ 0 ∷ 255 ∷ 255 ∷ [] in
    (length (next_ip ip) ≡ length ip)
    × IsBytes (next_ip ip)
    × (value (next_ip ip) ≡ (value ip + 1) % place ip)
next_ip-value_example =
    next_ip-value (10 ∷ 0 ∷ 255 ∷ 255 ∷ [])
      (omega arith, (omega arith, (omega arith, (omega arith, tt))))
