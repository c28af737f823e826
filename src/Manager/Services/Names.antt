-- ===== src/Manager/Services/Names.antt =====
-- `SetServices` leaves the services of the names that it is given.
use l_3_4_gateway_api_poc.Base.{
  exists, exists-cons, exists-delete, exists-insert, exists_none, exists_some, ◌≡◌, refl, sym, ◌∙◌,
  Bool, true, false, not, ◌&&◌, ◌||◌, List, [], ◌∷◌, Text, text_discrete, lookup, insert, delete,
  has, All, insert-All, arith, ite, if_pos, if_neg, Bool-cases, Option-cases, inl, inr,
}
use l_3_4_gateway_api_poc.Manager.{
  Manager, LoadBalancerInstance, ManagerError, delete_service_failed,
}
use l_3_4_gateway_api_poc.Manager.Services.{
  new_services, delete_services, add_services, set_services,
}

exists-new_services :
    (names : List Text) (m : List (Text × Text)) (x : Text)
    → exists x (new_services names m) ≡ has text_discrete x names || exists x m
unfolding new_services has exists lookup
exists-new_services [] m x = refl
exists-new_services (y ∷ ys) m x =
    let rest = exists-new_services ys (insert text_discrete y y m) x in
    let put = exists-insert x y y m in
    elim (text_discrete x y) [
      | yes e ↦ ground (arith, rest, put)
      | no ne ↦ ground (arith, rest, put)
    ]

-- The key of an entry is the name in it.
abbrev IsOwnKey : Text × Text → Type 0
IsOwnKey e = e.0 ≡ e.1

new_services-IsOwnKey :
    (names : List Text) (m : List (Text × Text))
    → All IsOwnKey m
    → All IsOwnKey (new_services names m)
unfolding new_services
new_services-IsOwnKey [] m h = h
new_services-IsOwnKey (y ∷ ys) m h =
    new_services-IsOwnKey ys _ (insert-All text_discrete IsOwnKey y y m refl h)

module _ (lb : LoadBalancerInstance) where
  open lb use {World, ServiceInstance, get_name, add_service, delete_service}

  -- A service stands under its own name.
  abbrev pub IsNamed : Text × ServiceInstance → Type 0
  IsNamed e = get_name e.1 ≡ e.0

  abbrev named : Text → List (Text × ServiceInstance) → Bool
  named x [] = false
  named x ((_, s) ∷ services) = ite (text_discrete x (get_name s)) true (named x services)

  exists_named :
      (x : Text) (services : List (Text × ServiceInstance))
      → All IsNamed services
      → exists x services ≡ true
      → named x services ≡ true
  unfolding lookup exists
  exists_named x [] h e = absurd (ground arith)
  exists_named x ((k, s) ∷ services) (n, h) e = elim (text_discrete x k) [
    | yes p ↦ ground (arith, n)
    | no np ↦ ground (arith, exists_named x services h)
  ]

  -- Without an error the loop that deletes has deleted what is not new.
  delete_services-exists :
      (new : List (Text × Text)) (old : List (Text × ServiceInstance)) (m : Manager ServiceInstance)
      (errors : List ManagerError) (w : World) (x : Text)
      → (delete_services lb new old m errors w).1 ≡ []
      → (errors ≡ [])
        × (exists x (delete_services lb new old m errors w).0.services
            ≡ (exists x m.services && (not (named x old) || exists x new)))
  unfolding delete_services
  delete_services-exists new [] m errors w x h = (h, ground arith)
  delete_services-exists new ((k, s) ∷ old) m errors w x h =
      elim (Bool-cases (exists (get_name s) new)) [
        | inl there ↦
            let (none_yet, ih) =
              delete_services-exists new old m errors w x (rw (there, delete_services) at h) in
            rw (there, delete_services)
              (
                none_yet,
                (elim (text_discrete x (get_name s)) [
                  | yes e ↦
                      let new_x : exists x new ≡ true = rw e there in ground (arith, ih, new_x)
                  | no ne ↦ ground (arith, ih)
                ]),
              )
        | inr gone ↦ elim (Bool-cases (delete_service (get_name s) w).0) [
          | inl deleted ↦
              let less = record m {
                services = delete text_discrete (get_name s) m.services;
                endpoints = delete text_discrete (get_name s) m.endpoints;
              } in
              let (none_yet, ih) =
                delete_services-exists new old less errors (delete_service (get_name s) w).1 x
                  (rw (deleted, delete_services) at (rw (gone, delete_services) at h)) in
              let cut = exists-delete x (get_name s) m.services in
              rw (gone, delete_services)
                (rw (deleted, delete_services)
                  (
                    none_yet,
                    (elim (text_discrete x (get_name s)) [
                      | yes e ↦
                          let old_x : exists x new ≡ false = rw e gone in
                          ground (arith, ih, cut, old_x)
                      | no ne ↦ ground (arith, ih, cut)
                    ]),
                  ))
          | inr failed ↦
              let (none_yet, ih) =
                delete_services-exists new old m (delete_service_failed ∷ errors)
                  (delete_service (get_name s) w).1 x
                  (rw (failed, delete_services) at (rw (gone, delete_services) at h)) in
              absurd (ground arith)
        ]
      ]

  add_services-exists :
      (new : List (Text × Text)) (m : Manager ServiceInstance) (w : World) (x : Text)
      → All IsOwnKey new
      → (add_services lb new m w).0 ≡ true
      → exists x (add_services lb new m w).1.services ≡ (exists x m.services || exists x new)
  unfolding add_services
  add_services-exists [] m w x o h = ground (arith, exists_none Text x)
  add_services-exists ((k, name) ∷ new) m w x (o1, o) h =
      elim (Option-cases (lookup text_discrete name m.services)) [
        | inr (s, e) ↦
            let ih = add_services-exists new m w x o (rw (e, add_services) at h) in
            let there = exists_some name s m.services e in
            let cons = exists-cons x k name new in
            rw (e, add_services)
              (elim (text_discrete x k) [
                | yes p ↦
                    let same : exists x m.services ≡ true = rw (p, o1) there in
                    ground (arith, ih, cons, same)
                | no np ↦ ground (arith, ih, cons)
              ])
        | inl e ↦ elim (Option-cases (add_service name w).0) [
          | inl failed ↦ absurd (ground arith)
          | inr (s, added) ↦
              let more = record m {
                services = insert text_discrete name s m.services;
                endpoints = insert text_discrete name [] m.endpoints;
              } in
              let ih =
                add_services-exists new more (add_service name w).1 x o
                  (rw (added, add_services) at (rw (e, add_services) at h)) in
              let cons = exists-cons x k name new in
              let put = exists-insert x name s m.services in
              rw (e, add_services)
                (rw (added, add_services)
                  (elim (text_discrete x k) [
                    | yes p ↦
                        let same =
                          if_pos (text_discrete x name) (p ∙ o1) true (exists x m.services) in
                        ground (arith, ih, cons, put, same)
                    | no np ↦
                        let other =
                          if_neg (text_discrete x name) (λ q. np (q ∙ sym o1)) true
                            (exists x m.services) in
                        ground (arith, ih, cons, put, other)
                  ]))
        ]
      ]

  -- If SetServices reports no error, a service exists afterwards exactly if its name is among those
  -- given, where the services stood under their own names before.
  pub set_services-exists :
      (names : List Text) (m : Manager ServiceInstance) (w : World) (x : Text)
      → All IsNamed m.services
      → (set_services lb names m w).1 ≡ []
      → exists x (set_services lb names m w).0.services ≡ has text_discrete x names
  unfolding set_services
  set_services-exists names m w x own h =
      let new = new_services names [] in
      let old = delete_services lb new m.services m [] w in
      elim (Bool-cases (add_services lb new old.0 old.2).0) [
        | inl added ↦
            let no_error : old.1 ≡ [] = rw (added, set_services) at h in
            let (_, left) = delete_services-exists new m.services m [] w x no_error in
            let all =
              add_services-exists new old.0 old.2 x (new_services-IsOwnKey names [] tt) added in
            let wanted = exists-new_services names [] x in
            let here = exists_named x m.services own in
            rw (added, set_services) (ground (arith, left, all, wanted, here, exists_none Text x))
        | inr failed ↦ absurd (ground arith)
      ]
