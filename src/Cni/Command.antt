-- ===== src/Cni/Command.antt =====
-- `cmdAdd` and `cmdDel` of both plug-ins, which are the same but for the configuration `C` that
-- they load, its version, and what they do in the namespace.
use l_3_4_gateway_api_poc.Base.{Option, none, some, Text, if◌then◌else◌}
use l_3_4_gateway_api_poc.Cni.{CmdArgs, Host}
use l_3_4_gateway_api_poc.Cni.Store.{StoreError, store, get, delete_stored}

-- The error of a step in a namespace, `E`, or that the namespace cannot be entered.
pub data CommandError (E : Type 0) : Type 0 where
  wrong_conf no_netns not_entered not_printed : CommandError E
  in_netns : E → CommandError E
  not_stored not_deleted : StoreError → CommandError E

module _ (h : Host) {E : Type 0} where
  open h use {World, Netns, get_ns, netlink, enters, inside, set_inside, print_result}

  -- `netns.Do`
  unfoldable pub do_in :
      Netns → (netlink.World → Option E × netlink.World) → World → Option (CommandError E) × World
  do_in netns step w =
      let (e, s) = step (inside netns w) in
      if enters netns w
      then (elim e [ none ↦ none | some x ↦ some (in_netns x) ], set_inside netns s w)
      else (some not_entered, w)

  module _ {C : Type 0} (load_conf : Text → Option C) (version : C → Text)
      (step : C → netlink.World → Option E × netlink.World) where
    unfoldable pub add_with : CmdArgs → World → Option (CommandError E) × World
    unfolding do_in store
    add_with args w = elim (load_conf args.stdin_data) [
      | none ↦ (some wrong_conf, w)
      | some conf ↦ elim (get_ns args.netns w) [
        | none ↦ (some no_netns, w)
        | some netns ↦
            let (changed, w1) = do_in netns (step conf) w in
            let (stored, w2) = store h args w1 in
            elim changed [
              | some e ↦ (some e, w1)
              | none ↦ elim stored [
                | some e ↦ (some (not_stored e), w2)
                | none ↦
                    (if print_result (version conf) args w2 then none else some not_printed, w2)
              ]
            ]
      ]
    ]

    unfoldable pub del_with : CmdArgs → World → Option (CommandError E) × World
    unfolding do_in get delete_stored
    del_with args w = elim (get h args w) [
      | none ↦ (none, w)
      | some stdin_data ↦ elim (load_conf stdin_data) [
        | none ↦ (some wrong_conf, w)
        | some conf ↦ elim (get_ns args.netns w) [
          | none ↦ (some no_netns, w)
          | some netns ↦
              let (changed, w1) = do_in netns (step conf) w in
              let (deleted, w2) = delete_stored h args w1 in
              elim changed [
                | some e ↦ (some e, w1)
                | none ↦ (elim deleted [ none ↦ none | some e ↦ some (not_deleted e) ], w2)
              ]
        ]
      ]
    ]
