-- ===== src/Nfqlb/Queue/Packets.antt =====
-- What the expressions of a rule do with a packet, and which packets the rules of both chains hand
-- to the queues.
use l_3_4_gateway_api_poc.Base.{
  ℕ, zero, suc, ◌≡◌, refl, ◌↔◌, ◌⊎◌, inl, inr, Bool, true, Bool-cases, Option, Option-cases, none,
  some, List, [], ◌∷◌, Text, text_discrete, ite, if_pos, if_neg, ◌==◌, if◌then◌else◌,
}
use l_3_4_gateway_api_poc.Nfqlb.Nftables.{
  NftSet, NftRule, MetaKey, meta_key_nfproto, meta_key_l4proto, Expr, meta, cmp_eq, payload,
  set_lookup, counter, queue,
}
use l_3_4_gateway_api_poc.Nfqlb.Queue.{
  NetfilterQueue, ipv4_exprs, ipv6_exprs, local_ipv4_exprs, local_ipv6_exprs, to_queue,
}

-- The bytes of a packet that the expressions read.
pub record Packet : Type 0 where
  pub nfproto : ℕ
  pub l4proto : ℕ
  pub network_header : List ℕ

unfoldable pub take_bytes : ℕ → List ℕ → Option (List ℕ)
take_bytes zero bytes = some []
take_bytes (suc n) [] = none
take_bytes (suc n) (b ∷ bytes) = elim (take_bytes n bytes) [
  | none ↦ none
  | some taken ↦ some (b ∷ taken)
]

-- So many bytes from an offset on, if they are there.
unfoldable pub load : ℕ → ℕ → List ℕ → Option (List ℕ)
unfolding take_bytes
load zero len bytes = take_bytes len bytes
load (suc offset) len [] = none
load (suc offset) len (b ∷ bytes) = load offset len bytes

abbrev pub Registers : Type 0
Registers = ℕ → List ℕ

abbrev pub set_register : ℕ → List ℕ → Registers → Registers
set_register r bytes regs i = if i == r then bytes else regs i

abbrev pub proto_of : MetaKey → Packet → ℕ
proto_of meta_key_nfproto p = p.nfproto
proto_of meta_key_l4proto p = p.l4proto

-- The first queue, how many there are, and whether packets fan out; `passed` goes on.
pub data Verdict : Type 0 where
  passed : Verdict
  queued : ℕ → ℕ → Bool → Verdict

-- What the expressions of a rule do with a packet, where `sets` tells the elements of the sets.
unfoldable pub evaluate : (Text → List ℕ → Bool) → Packet → List Expr → Registers → Verdict
unfolding load
evaluate sets p [] regs = passed
evaluate sets p (meta key r ∷ es) regs =
    evaluate sets p es (set_register r (proto_of key p ∷ []) regs)
evaluate sets p (cmp_eq r bytes ∷ es) regs =
    ite (text_discrete (regs r) bytes) (evaluate sets p es regs) passed
evaluate sets p (payload r offset len ∷ es) regs = elim (load offset len p.network_header) [
  | none ↦ passed
  | some bytes ↦ evaluate sets p es (set_register r bytes regs)
]
evaluate sets p (set_lookup r name ∷ es) regs =
    if sets name (regs r) then evaluate sets p es regs else passed
evaluate sets p (counter bytes packets ∷ es) regs = evaluate sets p es regs
evaluate sets p (queue num total flag ∷ es) regs = queued num total flag

-- The verdict of the rules of a chain, in their order.
unfoldable pub verdict : (Text → List ℕ → Bool) → Packet → List NftRule → Verdict
unfolding evaluate
verdict sets p [] = passed
verdict sets p (rule ∷ rules) =
    let rest = verdict sets p rules in
    elim (evaluate sets p rule.exprs (λ r. [])) [
      | passed ↦ rest
      | queued num total flag ↦ queued num total flag
    ]

-- The header has a destination address at an offset, and it is in a set.
abbrev pub Destined : (Text → List ℕ → Bool) → Packet → ℕ → ℕ → Text → Type 0
Destined sets p offset len set =
    (address : List ℕ) × (load offset len p.network_header ≡ some address)
    × (sets set address ≡ true)

module _ (sets : Text → List ℕ → Bool) (p : Packet) (nfq : NetfilterQueue) where
  abbrev to_queues : Verdict
  to_queues = queued nfq.nftqueue_num nfq.nftqueue_total nfq.nftqueue_flag

  -- A verdict hands the packet to the queues exactly on a condition, and else goes on.
  abbrev Decides : Verdict → Type 0 → Type 0
  Decides v C = ((v ≡ to_queues) × C) ⊎ ((v ≡ passed) × (¬ C))

  payload-Decides :
      (regs : Registers) (offset len : ℕ) (set : Text)
      → Decides
          (evaluate sets p (payload 1 offset len ∷ set_lookup 1 set ∷ to_queue nfq) regs)
          (Destined sets p offset len set)
  unfolding evaluate
  payload-Decides regs offset len set = elim (Option-cases (load offset len p.network_header)) [
    | inl e ↦ rw (evaluate, e) (inr (refl, λ (address, l, _). absurd (cc)))
    | inr (bytes, e) ↦ elim (Bool-cases (sets set bytes)) [
      | inl h ↦ rw (evaluate, e, h) (inl (refl, (bytes, refl, h)))
      | inr h ↦
          rw (evaluate, e, h)
            (inr (refl, λ (address, l, g). let same : bytes ≡ address = cc in absurd (cc)))
    ]
  ]

  meta-Decides :
      (key : MetaKey) (v : ℕ) (es : List Expr) (regs : Registers) (C : Type 0)
      → Decides (evaluate sets p es (set_register 1 (proto_of key p ∷ []) regs)) C
      → Decides
          (evaluate sets p (meta key 1 ∷ cmp_eq 1 (v ∷ []) ∷ es) regs)
          ((proto_of key p ≡ v) × C)
  unfolding evaluate
  meta-Decides key v es regs C h = elim (text_discrete (proto_of key p ∷ []) (v ∷ [])) [
    | yes e ↦
        rw
          (if_pos (text_discrete (proto_of key p ∷ []) (v ∷ [])) e
            (evaluate sets p es (set_register 1 (proto_of key p ∷ []) regs)) passed)
          (elim h [ inl (q, c) ↦ inl (q, (cc, c)) | inr (q, n) ↦ inr (q, λ c. n c.1) ])
    | no ne ↦
        rw
          (if_neg (text_discrete (proto_of key p ∷ []) (v ∷ [])) ne
            (evaluate sets p es (set_register 1 (proto_of key p ∷ []) regs)) passed)
          (inr (refl, λ c. ne (cc)))
  ]

  -- Two rules, the second one asked where the first one goes on.
  verdict-Decides :
      (r4 r6 : NftRule) (C4 C6 : Type 0)
      → Decides (evaluate sets p r4.exprs (λ r. [])) C4
      → Decides (evaluate sets p r6.exprs (λ r. [])) C6
      → Decides (verdict sets p (r4 ∷ r6 ∷ [])) (C4 ⊎ C6)
  unfolding verdict
  verdict-Decides r4 r6 C4 C6 (inl (q, c)) d6 = rw (verdict, q) (inl (refl, inl c))
  verdict-Decides r4 r6 C4 C6 (inr (q, n)) (inl (q6, c)) = rw (verdict, q, q6) (inl (refl, inr c))
  verdict-Decides r4 r6 C4 C6 (inr (q, n)) (inr (q6, n6)) =
      rw (verdict, q, q6) (inr (refl, elim [ inl c ↦ n c | inr c ↦ n6 c ]))

  Decides-iff : (v : Verdict) (C : Type 0) → Decides v C → (v ≡ to_queues) ↔ C
  Decides-iff v C (inl (q, c)) = ((λ e. c), λ d. q)
  Decides-iff v C (inr (q, n)) = ((λ e. absurd (cc)), λ c. absurd (n c))

  -- What the rules of the prerouting chain decide, and those of the output chain.
  pub verdict-Destined :
      (r4 r6 : NftRule) (set4 set6 : NftSet)
      → r4.exprs ≡ ipv4_exprs nfq set4
      → r6.exprs ≡ ipv6_exprs nfq set6
      → (verdict sets p (r4 ∷ r6 ∷ []) ≡ to_queues) ↔ (
          ((p.nfproto ≡ 2) × Destined sets p 16 4 set4.name)
          ⊎ ((p.nfproto ≡ 10) × Destined sets p 24 16 set6.name))
  unfolding ipv4_exprs ipv6_exprs
  verdict-Destined r4 r6 set4 set6 e4 e6 = Decides-iff _ _ (
      verdict-Decides r4 r6 _ _
        (rw (e4) (meta-Decides meta_key_nfproto 2 _ _ _ (payload-Decides _ 16 4 set4.name)))
        (rw (e6) (meta-Decides meta_key_nfproto 10 _ _ _ (payload-Decides _ 24 16 set6.name))))

  pub verdict-Destined_local :
      (r4 r6 : NftRule) (set4 set6 : NftSet)
      → r4.exprs ≡ local_ipv4_exprs nfq set4
      → r6.exprs ≡ local_ipv6_exprs nfq set6
      → (verdict sets p (r4 ∷ r6 ∷ []) ≡ to_queues) ↔ (
          ((p.nfproto ≡ 2) × ((p.l4proto ≡ 1) × Destined sets p 16 4 set4.name))
          ⊎ ((p.nfproto ≡ 10) × ((p.l4proto ≡ 58) × Destined sets p 24 16 set6.name)))
  unfolding local_ipv4_exprs local_ipv6_exprs
  verdict-Destined_local r4 r6 set4 set6 e4 e6 = Decides-iff _ _ (
      verdict-Decides r4 r6 ((p.nfproto ≡ 2) × ((p.l4proto ≡ 1) × Destined sets p 16 4 set4.name))
        ((p.nfproto ≡ 10) × ((p.l4proto ≡ 58) × Destined sets p 24 16 set6.name))
        (rw (e4) (
          meta-Decides meta_key_nfproto 2 _ _ _
            (meta-Decides meta_key_l4proto 1 _ _ _ (payload-Decides _ 16 4 set4.name))))
        (rw (e6) (
          meta-Decides meta_key_nfproto 10 _ _ _
            (meta-Decides meta_key_l4proto 58 _ _ _ (payload-Decides _ 24 16 set6.name)))))
