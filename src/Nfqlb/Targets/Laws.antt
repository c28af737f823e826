-- ===== src/Nfqlb/Targets/Laws.antt =====
-- What the calls on targets do to the map of targets.
use l_3_4_gateway_api_poc.Base.{
  ◌≡◌, ◌≢◌, refl, Option, none, some, List, [], Text, ℤ, int_discrete, lookup, lookup-insert,
  lookup-delete, ite, if_pos, arith, ◌∙◌,
}
use l_3_4_gateway_api_poc.Nfqlb.Platform.{Platform}
use l_3_4_gateway_api_poc.Nfqlb.Service.{Service}
use l_3_4_gateway_api_poc.Nfqlb.Targets.{
  add_target, delete_target, delete_target_no_lock, activate_target, deactivate_target,
}

abbrev pub or_else : Option (List Text) → List Text → List Text
or_else none ips = ips
or_else (some old) ips = old

module _ (p : Platform) (path : Text) (s : Service) (ips : List Text) (i : ℤ) where
  open p use {World}

  -- Adding a target without an error keeps the addresses of an identifier that was there, gives the
  -- new addresses to one that was not, and changes no other identifier.
  pub add_target-lookup :
      (w : World) (j : ℤ)
      → (add_target p path s ips i w).1 ≡ []
      → lookup int_discrete j (add_target p path s ips i w).0.targets
        ≡ ite
            (int_discrete j i)
            (some (or_else (lookup int_discrete i s.targets) ips))
            (lookup int_discrete j s.targets)
  unfolding add_target activate_target
  add_target-lookup w j h = ground (arith, lookup-insert int_discrete i j ips s.targets)

  -- Where adding a target reports an error, the service is as it was.
  pub add_target_failed :
      (w : World) → (add_target p path s ips i w).1 ≢ [] → (add_target p path s ips i w).0 ≡ s
  unfolding add_target activate_target
  add_target_failed w h = ground arith

  -- Deleting a target removes its identifier and changes no other, whether the command fails or
  -- not.
  pub delete_target-lookup :
      (w : World) (j : ℤ)
      → lookup int_discrete j (delete_target p path s ips i w).0.targets
        ≡ ite (int_discrete j i) none (lookup int_discrete j s.targets)
  unfolding delete_target deactivate_target
  delete_target-lookup w j = ground (arith, lookup-delete int_discrete i j s.targets)

  delete_target-absent :
      (t : Service) (w : World)
      → lookup int_discrete i t.targets ≡ none
      → delete_target p path t ips i w ≡ (t, [], w)
  unfolding delete_target
  delete_target-absent t w e = rw (e, delete_target, delete_target_no_lock) refl

  -- A second deletion of a target runs no command and reports no error, also where the first one
  -- failed: a failed deactivation is not tried again.
  pub delete_target_twice :
      (w w1 : World)
      → let s1 = (delete_target p path s ips i w).0 in
        delete_target p path s1 ips i w1 ≡ (s1, [], w1)
  delete_target_twice w w1 =
      let gone : lookup int_discrete i (delete_target p path s ips i w).0.targets ≡ none =
        delete_target-lookup w i ∙ if_pos (int_discrete i i) refl _ _ in
      delete_target-absent (delete_target p path s ips i w).0 w1 gone
