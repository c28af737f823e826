-- ===== src/Cni/RoundTrip.antt =====
-- `cmdDel` after `cmdAdd`, and a second `cmdAdd`, for both plug-ins.
use l_3_4_gateway_api_poc.Base.{
  ◌≡◌, refl, sym, ap, ◌∙◌, subst, inl, inr, true, Bool-cases, Option-cases, Option, none, some,
  Text,
}
use l_3_4_gateway_api_poc.Cni.{CmdArgs, Host}
use l_3_4_gateway_api_poc.Cni.Laws.{Lawful}
use l_3_4_gateway_api_poc.Cni.Store.{store}
use l_3_4_gateway_api_poc.Cni.Stored.{
  Holds, Empty, store-Holds, store_again, get-Holds, delete_stored-Empty, get_filename-stat,
}
use l_3_4_gateway_api_poc.Cni.Command.{
  CommandError, wrong_conf, no_netns, not_entered, in_netns, not_stored, do_in, add_with, del_with,
}

module _ (h : Host) {E : Type 0} where
  open h use {World, Netns, get_ns, netlink, enters, inside, set_inside}

  do_in-none :
      (n : Netns) (step : netlink.World → Option E × netlink.World) (w : World)
      → (do_in h n step w).0 ≡ none
      → (enters n w ≡ true)
        × ((step (inside n w)).0 ≡ none)
        × ((do_in h n step w).1 ≡ set_inside n (step (inside n w)).1 w)
  unfolding do_in
  do_in-none n step w e = elim (Bool-cases (enters n w)) [
    | inr c ↦
        let e1 : Path (Option (CommandError E)) (some not_entered) none = rw (do_in, c) at e in
        absurd (cc)
    | inl c ↦ elim (Option-cases (step (inside n w)).0) [
      | inl o ↦ (c, o, rw (do_in, c) refl)
      | inr (x, o) ↦
          let e1 : Path (Option (CommandError E)) (some (in_netns x)) none =
            rw (do_in, c, o) at e in
          absurd (cc)
    ]
  ]

  do_in_works :
      (n : Netns) (step : netlink.World → Option E × netlink.World) (w : World)
      → enters n w ≡ true
      → (step (inside n w)).0 ≡ none
      → ((do_in h n step w).0 ≡ none)
        × ((do_in h n step w).1 ≡ set_inside n (step (inside n w)).1 w)
  unfolding do_in
  do_in_works n step w c o = (rw (do_in, c, o) refl, rw (do_in, c) refl)

  module _ {C : Type 0} (load_conf : Text → Option C) (version : C → Text)
      (add del : C → netlink.World → Option E × netlink.World) (args : CmdArgs) where
    abbrev adds : World → Option (CommandError E) × World
    adds = add_with h load_conf version add args

    abbrev dels : World → Option (CommandError E) × World
    dels = del_with h load_conf version del args

    add_steps :
        (w : World)
        → (adds w).0 ≡ none
        → (conf : C) × (n : Netns) × (load_conf args.stdin_data ≡ some conf)
          × (get_ns args.netns w ≡ some n)
          × ((do_in h n (add conf) w).0 ≡ none)
          × ((store h args (do_in h n (add conf) w).1).0 ≡ none)
          × ((adds w).1 ≡ (store h args (do_in h n (add conf) w).1).1)
    unfolding add_with
    add_steps w e = elim (Option-cases (load_conf args.stdin_data)) [
      | inl c ↦
          let e1 : Path (Option (CommandError E)) (some wrong_conf) none = rw (add_with, c) at e in
          absurd (cc)
      | inr (conf, c) ↦ elim (Option-cases (get_ns args.netns w)) [
        | inl g ↦
            let e1 : Path (Option (CommandError E)) (some no_netns) none =
              rw (add_with, c, g) at e in
            absurd (cc)
        | inr (n, g) ↦ elim (Option-cases (do_in h n (add conf) w).0) [
          | inr (x, d) ↦
              let e1 : Path (Option (CommandError E)) (some x) none = rw (add_with, c, g, d) at e in
              absurd (cc)
          | inl d ↦ elim (Option-cases (store h args (do_in h n (add conf) w).1).0) [
            | inr (x, s) ↦
                let e1 : Path (Option (CommandError E)) (some (not_stored x)) none =
                  rw (add_with, c, g, d, s) at e in
                absurd (cc)
            | inl s ↦ (conf, n, c, g, d, s, rw (add_with, c, g, d, s) refl)
          ]
        ]
      ]
    ]

    module _ (l : Lawful h) where
      Holds-set :
          (n : Netns) (s : netlink.World) (v : World)
          → Holds h l args v
          → Holds h l args (set_inside n s v)
      Holds-set n s v (f, name, held) = (
        f,
        get_filename-stat h l args v (set_inside n s v) (l.set-stat args.netns n s v) ∙ name,
        l.set-contents _ n s v ∙ held,
      )

      dels_works :
          (conf : C) (n : Netns) (v : World)
          → Holds h l args v
          → load_conf args.stdin_data ≡ some conf
          → get_ns args.netns v ≡ some n
          → enters n v ≡ true
          → (del conf (inside n v)).0 ≡ none
          → ((dels v).0 ≡ none)
            × Empty h l args (dels v).1
            × (inside n (dels v).1 ≡ (del conf (inside n v)).1)
      unfolding del_with
      dels_works conf n v holds c g t o =
          let (works, moved) = do_in_works n (del conf) v t o in
          let after = (del conf (inside n v)).1 in
          let x = (do_in h n (del conf) v).1 in
          let holds_x = subst (Holds h l args) (sym moved) (Holds-set n after v holds) in
          let (ok, empty, same) = delete_stored-Empty h l args x holds_x in
          rw (del_with, get-Holds h l args v holds, c, g, works, ok)
            (refl, empty, same.same_inside n ∙ ap (inside n) moved ∙ l.set-inside n after v)

      -- Where what `cmdDel` does undoes what `cmdAdd` did, it has no error after it.
      pub dels-adds :
          (w : World)
          → (adds w).0 ≡ none
          → ((conf : C) (s : netlink.World)
              → load_conf args.stdin_data ≡ some conf
              → (add conf s).0 ≡ none
              → (del conf (add conf s).1).0 ≡ none)
          → ((dels (adds w).1).0 ≡ none)
            × Empty h l args (dels (adds w).1).1
            × ((conf : C) × (n : Netns) × (load_conf args.stdin_data ≡ some conf)
                × (get_ns args.netns w ≡ some n)
                × ((add conf (inside n w)).0 ≡ none)
                × (inside n (dels (adds w).1).1 ≡ (del conf (add conf (inside n w)).1).1))
      dels-adds w e undoes =
          let (conf, n, c, g, d, s, last) = add_steps w e in
          let (entered, added, moved) = do_in-none n (add conf) w d in
          let after = (add conf (inside n w)).1 in
          let u = (do_in h n (add conf) w).1 in
          let v = (store h args u).1 in
          let (holds, same) = store-Holds h l args u s in
          let g_v : get_ns args.netns v ≡ some n =
            same.same_get_ns args.netns
            ∙ ap (get_ns args.netns) moved
            ∙ l.set-get_ns args.netns n after w
            ∙ g in
          let t_v : enters n v ≡ true =
            same.same_enters n ∙ ap (enters n) moved ∙ l.set-enters n n after w ∙ entered in
          let i_v : inside n v ≡ after =
            same.same_inside n ∙ ap (inside n) moved ∙ l.set-inside n after w in
          let o_v : (del conf (inside n v)).0 ≡ none =
            ap (λ z. (del conf z).0) i_v ∙ undoes conf (inside n w) c added in
          let (ok, empty, in_n) = dels_works conf n v holds c g_v t_v o_v in
          rw (last) (ok, empty, (conf, n, c, g, added, in_n ∙ ap (λ z. (del conf z).1) i_v))

      -- A `cmdAdd` of a request that has been added has an error.
      pub adds_again : (w : World) → (adds w).0 ≡ none → ¬ ((adds (adds w).1).0 ≡ none)
      adds_again w e again =
          let (conf, n, c, g, d, s, last) = add_steps w e in
          let u = (do_in h n (add conf) w).1 in
          let v = (store h args u).1 in
          let (holds, same) = store-Holds h l args u s in
          let e2 : (adds v).0 ≡ none = ap (λ z. (adds z).0) (sym last) ∙ again in
          let (conf2, n2, c2, g2, d2, s2, last2) = add_steps v e2 in
          let (entered, added, moved) = do_in-none n2 (add conf2) v d2 in
          store_again h l args _ (subst (Holds h l args) (sym moved) (Holds-set n2 _ v holds)) s2
