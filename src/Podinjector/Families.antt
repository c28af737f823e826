-- ===== src/Podinjector/Families.antt =====
-- The addresses that the pods are given are those that the router announces.
use l_3_4_gateway_api_poc.Base.{
  ◌↔◌, ◌⊎◌, inl, inr, Bool, true, false, if◌then◌else◌, Bool-cases, Option-cases, List, [], ◌∷◌,
  Text, text_discrete, has, In,
}
use l_3_4_gateway_api_poc.Net.{Addresses, is_v4}
use l_3_4_gateway_api_poc.Router as router
use l_3_4_gateway_api_poc.Podinjector.{get_vips_from, get_vips}

-- An element that is put in front of one of two lists.
place-In :
    (first : Bool) (x y : Text) (all v4 v6 : List Text)
    → In x all ↔ (In x v4 ⊎ In x v6)
    → In x (y ∷ all) ↔ (
        In x (if◌then◌else◌ {A = List Text × List Text} first (y ∷ v4, v6) (v4, y ∷ v6)).0
        ⊎ In x (if◌then◌else◌ {A = List Text × List Text} first (y ∷ v4, v6) (v4, y ∷ v6)).1)
place-In true x y all v4 v6 (to, from) = (
  elim [ inl e ↦ inl (inl e) | inr m ↦ elim (to m) [ inl i ↦ inl (inr i) | inr i ↦ inr i ] ],
  elim [ inl (inl e) ↦ inl e | inl (inr i) ↦ inr (from (inl i)) | inr i ↦ inr (from (inr i)) ],
)
place-In false x y all v4 v6 (to, from) = (
  elim [ inl e ↦ inr (inl e) | inr m ↦ elim (to m) [ inl i ↦ inl i | inr i ↦ inr (inr i) ] ],
  elim [ inl i ↦ inr (from (inl i)) | inr (inl e) ↦ inl e | inr (inr i) ↦ inr (from (inr i)) ],
)

module _ (a : Addresses) where
  open a use {parse_ip, ip_string}

  get_vips_from-router :
      (vip : Text) (addresses seen : List Text)
      → In vip (router.get_vips_from a addresses seen)
        ↔ (In vip (get_vips_from a addresses seen).0 ⊎ In vip (get_vips_from a addresses seen).1)
  unfolding get_vips_from router.get_vips_from
  get_vips_from-router vip [] seen = ((λ e. absurd e), elim [ inl e ↦ absurd e | inr e ↦ absurd e ])
  get_vips_from-router vip (address ∷ addresses) seen = elim (Option-cases (parse_ip address)) [
    | inl e ↦ rw (get_vips_from, router.get_vips_from, e) (get_vips_from-router vip addresses seen)
    | inr (ip, e) ↦ elim (Bool-cases (has text_discrete (router.vip_of a ip) seen)) [
      | inl h ↦
          rw (get_vips_from, router.get_vips_from, e, h) (get_vips_from-router vip addresses seen)
      | inr h ↦
          let (to, from) = get_vips_from-router vip addresses (router.vip_of a ip ∷ seen) in
          rw (get_vips_from, router.get_vips_from, e, h)
            (place-In (is_v4 ip) vip (router.vip_of a ip) _ _ _ (to, from))
    ]
  ]

  -- The addresses that the pod injector gives a pod, of both families together, are exactly those
  -- that the router hands to bird for the same gateway.
  pub get_vips-router :
      (addresses : List Text) (vip : Text)
      → In vip (router.get_vips a addresses)
        ↔ (In vip (get_vips a addresses).0 ⊎ In vip (get_vips a addresses).1)
  unfolding get_vips router.get_vips
  get_vips-router addresses vip = get_vips_from-router vip addresses []
