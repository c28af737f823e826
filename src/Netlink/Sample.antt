-- ===== src/Netlink/Sample.antt =====
-- A kernel that keeps the rules, the routes and the addresses of one table and one link as lists
-- without duplicates.
use l_3_4_gateway_api_poc.Base.{
  ◌≡◌, refl, ◌↔◌, ◌⊎◌, Bool, true, false, Option, none, some, List, [], ◌∷◌, text_discrete, ℤ, has,
  has-In, has_not-In, In-has, remove, In-remove, remove-In, remove-Distinct, remove_gone, In,
  Distinct, length, ◌==◌, if◌then◌else◌,
}
use l_3_4_gateway_api_poc.Net.{Ip, IpNet, Addresses, is_v4}
use l_3_4_gateway_api_poc.Netlink.{Netlink, Kernel}

unfoldable pub net_discrete : Discrete IpNet
unfolding text_discrete
net_discrete a b = elim (text_discrete a.ip b.ip) [
  | yes p ↦ elim (text_discrete a.mask b.mask) [
    | yes q ↦ yes (λ i. record { ip = p i; mask = q i })
    | no q ↦ no (λ e. q (λ i. (e i).mask))
  ]
  | no p ↦ no (λ e. p (λ i. (e i).ip))
]

-- A list without duplicates
abbrev pub Bag : Type 0 → Type 0
Bag A = (xs : List A) × Distinct xs

module _ {A : Type 0} (dec : Discrete A) where
  unfoldable put_if : (x : A) (b : Bag A) (known : Bool) → has dec x b.0 ≡ known → Bool × Bag A
  put_if x (xs, d) true h = (false, (xs, d))
  put_if x (xs, d) false h = (true, (x ∷ xs, (has_not-In dec x xs h, d)))

  unfoldable pub put : A → Bag A → Bool × Bag A
  unfolding put_if
  put x b = put_if x b (has dec x b.0) refl

  unfoldable pub take_out : A → Bag A → Bool × Bag A
  unfolding has remove
  take_out x (xs, d) = (has dec x xs, (remove dec x xs, remove-Distinct dec x xs d))

  put_if-In :
      (x : A) (b : Bag A) (known : Bool) (h : has dec x b.0 ≡ known)
      → ¬ In x b.0
      → ((put_if x b known h).0 ≡ true)
        × ((y : A) → In y (put_if x b known h).1.0 ↔ ((y ≡ x) ⊎ In y b.0))
  unfolding put_if
  put_if-In x (xs, d) true h n = absurd (n (has-In dec x xs h))
  put_if-In x (xs, d) false h n = (refl, λ y. ((λ i. i), λ i. i))

  pub put-In :
      (x : A) (b : Bag A)
      → ¬ In x b.0
      → ((put x b).0 ≡ true) × ((y : A) → In y (put x b).1.0 ↔ ((y ≡ x) ⊎ In y b.0))
  unfolding put
  put-In x b n = put_if-In x b (has dec x b.0) refl n

  put_if-fresh :
      (x : A) (b : Bag A) (known : Bool) (h : has dec x b.0 ≡ known)
      → (put_if x b known h).0 ≡ true
      → ¬ In x b.0
  unfolding put_if
  put_if-fresh x (xs, d) true h e = absurd (cc)
  put_if-fresh x (xs, d) false h e = has_not-In dec x xs h

  pub put-fresh : (x : A) (b : Bag A) → (put x b).0 ≡ true → ¬ In x b.0
  unfolding put
  put-fresh x b e = put_if-fresh x b (has dec x b.0) refl e

  pub take_out-In :
      (x : A) (b : Bag A)
      → In x b.0
      → ((take_out x b).0 ≡ true) × ((y : A) → In y (take_out x b).1.0 ↔ (In y b.0 × (¬ (y ≡ x))))
  unfolding take_out
  take_out-In x (xs, d) m = (
    In-has dec x xs m,
    λ y. (
      (λ i. (remove-In dec x y xs i, λ e. remove_gone dec x xs d (rw (e) at i))),
      λ p. In-remove dec x y xs p.0 p.1,
    ),
  )

-- The rules, the routes by their source, and the addresses
pub record State : Type 0 where
  pub rules : Bag IpNet
  pub routes : Bag Ip
  pub addrs : Bag IpNet

abbrev pub put_addr : Option IpNet → Bag IpNet → Bool × Bag IpNet
put_addr none b = (false, b)
put_addr (some net) b = put net_discrete net b

abbrev pub take_addr : Option IpNet → Bag IpNet → Bool × Bag IpNet
take_addr none b = (false, b)
take_addr (some net) b = take_out net_discrete net b

abbrev pub sample_netlink : Netlink
sample_netlink = record {
  World = State;
  Rule = IpNet;
  Route = Ip;
  new_rule = λ f. f.src;
  new_route = λ f. f.src;
  rule_src = λ r. some r;
  rule_list = λ t w. some w.rules.0;
  rule_add = λ r w. let (ok, b) = put net_discrete r w.rules in (ok, record w { rules = b });
  rule_del = λ r w. let (ok, b) = take_out net_discrete r w.rules in (ok, record w { rules = b });
  route_list = λ t w. some w.routes.0;
  route_add = λ r w. let (ok, b) = put text_discrete r w.routes in (ok, record w { routes = b });
  route_del =
      λ r w. let (ok, b) = take_out text_discrete r w.routes in (ok, record w { routes = b });
  Link = Unit;
  link_by_name = λ t w. some tt;
  addr_add = λ i net w. let (ok, b) = put_addr net w.addrs in (ok, record w { addrs = b });
  addr_del = λ i net w. let (ok, b) = take_addr net w.addrs in (ok, record w { addrs = b });
}

abbrev pub sample_kernel : (t : ℤ) → Kernel sample_netlink t
sample_kernel t = record {
  rules = λ w. w.rules.0;
  listed = λ w. refl;
  rules-Distinct = λ w. w.rules.1;
  deleted = λ r w m. take_out-In net_discrete r w.rules m;
  added = λ f w e n. put-In net_discrete f.src w.rules n;
  source = λ f. refl;
}

-- Addresses whose text is their four bytes, or sixteen.
abbrev pub sample_addresses : Addresses
sample_addresses = record {
  parse_ip = λ t. if is_v4 t then some t else if length t == 16 then some t else none;
  parse_cidr = λ t.
      if is_v4 t
      then some (t, record { ip = t; mask = [] })
      else if length t == 16
      then some (t, record { ip = t; mask = [] })
      else none;
  ip_string = λ ip. ip;
  net_string = λ net. net.ip;
}
