-- ===== src/Router/Vips.antt =====
-- The addresses that `getVIPs` hands to bird.
use l_3_4_gateway_api_poc.Base.{
  ◌≡◌, refl, sym, ap, ◌∙◌, subst, ◌↔◌, ◌⊎◌, inl, inr, Bool-cases, Option-cases, some, List, [], ◌∷◌,
  Text, text_discrete, has, has-In, has_not-In, In, Distinct,
}
use l_3_4_gateway_api_poc.Net.{Ip, Addresses}
use l_3_4_gateway_api_poc.Router.{vip_of, get_vips_from, get_vips}

module _ (a : Addresses) where
  open a use {parse_ip}

  -- A text that an address of the list has as its network of one address.
  abbrev pub Announced : Text → List Text → Type 0
  Announced vip [] = ⊥
  Announced vip (address ∷ addresses) =
      ((ip : Ip) × (parse_ip address ≡ some ip) × (vip ≡ vip_of a ip)) ⊎ Announced vip addresses

  get_vips_from-In :
      (vip : Text) (addresses seen : List Text)
      → In vip (get_vips_from a addresses seen) ↔ (Announced vip addresses × (¬ In vip seen))
  unfolding get_vips_from
  get_vips_from-In vip [] seen = ((λ i. absurd i), λ p. p.0)
  get_vips_from-In vip (address ∷ addresses) seen = elim (Option-cases (parse_ip address)) [
    | inl e ↦
        let (to, from) = get_vips_from-In vip addresses seen in
        rw (e, get_vips_from)
          (
            (λ i. (inr (to i).0, (to i).1)),
            λ p. elim p.0 [ inl (ip, f, q) ↦ absurd (cc) | inr n ↦ from (n, p.1) ],
          )
    | inr (ip, e) ↦ elim (Bool-cases (has text_discrete (vip_of a ip) seen)) [
      | inl h ↦
          let (to, from) = get_vips_from-In vip addresses seen in
          rw (e, get_vips_from, h)
            (
              (λ i. (inr (to i).0, (to i).1)),
              λ p. elim p.0 [
                | inl (other, f, q) ↦
                    let i : ip ≡ other = cc in
                    absurd (
                      p.1 (
                        subst (λ z. In z seen) (sym (q ∙ ap (vip_of a) (sym i)))
                          (has-In text_discrete (vip_of a ip) seen h)))
                | inr n ↦ from (n, p.1)
              ],
            )
      | inr h ↦
          let (to, from) = get_vips_from-In vip addresses (vip_of a ip ∷ seen) in
          rw (e, get_vips_from, h)
            (
              elim [
                | inl q ↦ (
                  inl (ip, refl, q),
                  λ j. has_not-In text_discrete (vip_of a ip) seen h (subst (λ z. In z seen) q j),
                )
                | inr i ↦ (inr (to i).0, λ j. (to i).1 (inr j))
              ],
              λ p. elim (text_discrete vip (vip_of a ip)) [
                | yes s ↦ inl s
                | no ne ↦ inr (
                    from (
                      elim p.0 [
                        | inl (other, f, q) ↦
                            let i : ip ≡ other = cc in absurd (ne (q ∙ ap (vip_of a) (sym i)))
                        | inr n ↦ n
                      ],
                      elim [ inl s ↦ ne s | inr j ↦ p.1 j ],
                    ))
              ],
            )
    ]
  ]

  get_vips_from-Distinct : (addresses seen : List Text) → Distinct (get_vips_from a addresses seen)
  unfolding get_vips_from
  get_vips_from-Distinct [] seen = tt
  get_vips_from-Distinct (address ∷ addresses) seen = elim (Option-cases (parse_ip address)) [
    | inl e ↦ rw (e, get_vips_from) (get_vips_from-Distinct addresses seen)
    | inr (ip, e) ↦ elim (Bool-cases (has text_discrete (vip_of a ip) seen)) [
      | inl h ↦ rw (e, get_vips_from, h) (get_vips_from-Distinct addresses seen)
      | inr h ↦
          rw (e, get_vips_from, h)
            (
              (λ i.
                  ((get_vips_from-In (vip_of a ip) addresses (vip_of a ip ∷ seen)).0 i).1
                    (inl refl)),
              get_vips_from-Distinct addresses (vip_of a ip ∷ seen),
            )
    ]
  ]

  -- getVIPs gives no address twice, and gives exactly the addresses of the status that parse, as
  -- networks of one address.
  pub get_vips-Announced :
      (addresses : List Text)
      → Distinct (get_vips a addresses)
        × ((vip : Text) → In vip (get_vips a addresses) ↔ Announced vip addresses)
  unfolding get_vips
  get_vips-Announced addresses = (
    get_vips_from-Distinct addresses [],
    λ vip.
        let (to, from) = get_vips_from-In vip addresses [] in
        ((λ i. (to i).0), λ n. from (n, λ e. e)),
  )
