-- ===== src/Bird/Locking.antt =====
-- The mutex of bird over calls of `Run` and `Configure`, one after the other.
use l_3_4_gateway_api_poc.Base.{
  ◌≡◌, refl, ◌↔◌, true, false, Option, none, some, List, [], ◌∷◌, Text,
}
use l_3_4_gateway_api_poc.Bird.Gateway.{Gateway}
use l_3_4_gateway_api_poc.Bird.Process.{
  Host, Bird, bird_running, start_run, configure, configure_locked,
}

pub data Call : Type 0 where
  run : Call
  configure_with : List Text → List Gateway → Call

-- A call after another; `none` if one of them waits for the mutex for ever.
unfoldable pub perform :
    (h : Host) → List Call → Bird → h.netlink.World → Option (Bird × h.netlink.World)
unfolding start_run configure
perform h [] b w = some (b, w)
perform h (run ∷ cs) b w = elim (start_run h b w) [
  | none ↦ none
  | some ((e, b1), w1) ↦ perform h cs b1 w1
]
perform h (configure_with vips gateways ∷ cs) b w = elim (configure h b vips gateways w) [
  | none ↦ none
  | some ((e, b1), w1) ↦ perform h cs b1 w1
]

-- A call comes behind a call of `Run`.
abbrev pub BehindRun : List Call → Type 0
BehindRun [] = ⊥
BehindRun (run ∷ []) = ⊥
BehindRun (run ∷ _ ∷ cs) = Unit
BehindRun (configure_with vips gateways ∷ cs) = BehindRun cs

module _ (h : Host) where
  perform-locked :
      (c : Call) (cs : List Call) (b : Bird) (w : h.netlink.World)
      → b.mu ≡ true
      → perform h (c ∷ cs) b w ≡ none
  unfolding perform start_run configure
  perform-locked run cs b w e = rw (e) refl
  perform-locked (configure_with vips gateways) cs b w e = rw (e) refl

  start_run-running :
      (b : Bird) (w : h.netlink.World)
      → b.running ≡ true
      → b.mu ≡ false
      → start_run h b w ≡ some ((bird_running, record b { mu = true }), w)
  unfolding start_run
  start_run-running b w r e = rw (e, r) refl

  configure_free :
      (b : Bird) (vips : List Text) (gateways : List Gateway) (w : h.netlink.World)
      → b.mu ≡ false
      → configure h b vips gateways w
        ≡ some (
          ((configure_locked h b vips gateways w).0, record b { mu = false }),
          (configure_locked h b vips gateways w).1,
        )
  unfolding configure
  configure_free b vips gateways w e = rw (e) refl

  -- On a bird that is running with its mutex free, a sequence of calls of Run and Configure waits
  -- for the mutex for ever exactly if a call comes behind a call of Run.
  pub perform-none :
      (cs : List Call) (b : Bird) (w : h.netlink.World)
      → b.running ≡ true
      → b.mu ≡ false
      → (perform h cs b w ≡ none) ↔ BehindRun cs
  unfolding perform
  perform-none [] b w r e = ((λ p. cc), λ a. absurd a)
  perform-none (run ∷ []) b w r e =
      rw (start_run-running b w r e, perform) ((λ p. cc), λ a. absurd a)
  perform-none (run ∷ c ∷ cs) b w r e =
      rw (start_run-running b w r e, perform)
        ((λ p. tt), λ a. perform-locked c cs (record b { mu = true }) w refl)
  perform-none (configure_with vips gateways ∷ cs) b w r e =
      rw (configure_free b vips gateways w e, perform)
        (perform-none cs (record b { mu = false }) (configure_locked h b vips gateways w).1 r refl)
