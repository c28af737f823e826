-- ===== src/Nfqlb/Targets.antt =====
-- The targets of a service: `AddTarget`, `DeleteTarget` of pkg/nfqlb/nfqlb.go.
pub mod Laws
use l_3_4_gateway_api_poc.Base.{
  ℕ, Option, none, some, List, [], ◌∷◌, ◌++◌, Text, codes, ℤ, pos, int_discrete, itoa, lookup,
  insert, delete,
}
use l_3_4_gateway_api_poc.Nfqlb.Errors.{Errors, activate_failed, deactivate_failed}
use l_3_4_gateway_api_poc.Nfqlb.Platform.{Platform}
use l_3_4_gateway_api_poc.Nfqlb.Routing.{create_policy_routes, delete_policy_routes}
use l_3_4_gateway_api_poc.Nfqlb.Service.{Service, fwmark_of}

unfoldable pub activate_args : Service → ℤ → List Text
activate_args s identifier =
    codes "activate"
    ∷ (codes "--index=" ++ itoa identifier)
    ∷ (codes "--shm=" ++ s.name)
    ∷ itoa (fwmark_of s identifier)
    ∷ []

unfoldable pub deactivate_args : Service → ℤ → List Text
deactivate_args s identifier =
    codes "deactivate" ∷ (codes "--index=" ++ itoa identifier) ∷ (codes "--shm=" ++ s.name) ∷ []

-- `path` is `s.nfqlbPath`.
module _ (p : Platform) (path : Text) where
  open p use {World, run_command}

  -- What `AddTarget` does where the identifier is new.
  unfoldable pub activate_target : Service → List Text → ℤ → World → Service × Errors × World
  unfolding activate_args
  activate_target s ips identifier w =
      let (result, w1) = run_command path (activate_args s identifier) w in
      elim result [
        | none ↦ (s, activate_failed ∷ [], w1)
        | some _ ↦ (
          record s { targets = insert int_discrete identifier ips s.targets },
          [],
          create_policy_routes p (fwmark_of s identifier) ips w1,
        )
      ]

  unfoldable pub add_target : Service → List Text → ℤ → World → Service × Errors × World
  unfolding activate_target
  add_target s ips identifier w = elim (lookup int_discrete identifier s.targets) [
    | some _ ↦ (s, [], w)
    | none ↦ activate_target s ips identifier w
  ]

  -- What `deleteTargetNoLock` does where the identifier is there.
  unfoldable pub deactivate_target : Service → List Text → ℤ → World → Service × Errors × World
  unfolding deactivate_args
  deactivate_target s ips identifier w =
      let s1 = record s { targets = delete int_discrete identifier s.targets } in
      let (result, w1) = run_command path (deactivate_args s identifier) w in
      elim result [
        | none ↦ (s1, deactivate_failed ∷ [], w1)
        | some _ ↦ (s1, [], delete_policy_routes p (fwmark_of s identifier) ips w1)
      ]

  unfoldable pub delete_target_no_lock : Service → List Text → ℤ → World → Service × Errors × World
  unfolding deactivate_target
  delete_target_no_lock s ips identifier w = elim (lookup int_discrete identifier s.targets) [
    | none ↦ (s, [], w)
    | some _ ↦ deactivate_target s ips identifier w
  ]

  unfoldable pub delete_target : Service → List Text → ℤ → World → Service × Errors × World
  unfolding delete_target_no_lock
  delete_target s ips identifier w = delete_target_no_lock s ips identifier w
