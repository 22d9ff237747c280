-- ===== src/Watcher/Ends.antt =====
-- The end of the loop (src/domainwatcher.cpp).
use libbdvmi.Common.{
  ◌≡◌, Bool, true, false, List, [], ◌∷◌, ◌++◌, arith, Bool-cases, inl, inr, if◌then◌else◌, ℕ,
}
use libbdvmi.Watcher.{HandlerCall, cleanup, Waited, Watcher, round, wait_for_domains}

abbrev pub last_call : {U : Type 0} → List (HandlerCall U) → List (HandlerCall U)
last_call [] = []
last_call (c ∷ cs) = c ∷ []

module _ {U W I : Type 0} (wait : I → ℕ → W → Waited U W) where
  round-ended :
      (sig_stop : Bool) (i : I) (w : Watcher U W)
      → w.ended ≡ false
      → w.has_handler ≡ true
      → let w' = round wait sig_stop i w in
        (w'.has_handler ≡ true)
        × ((if w'.ended then last_call w'.calls else cleanup w'.suspend_introspector_domain ∷ [])
            ≡ cleanup w'.suspend_introspector_domain ∷ [])
  unfolding round
  round-ended sig_stop i w e h = ground arith

  signal-last :
      (after : List (Bool × I)) (i : I) (w : Watcher U W)
      → w.ended ≡ false
      → w.has_handler ≡ true
      → let w' = wait_for_domains wait ((true, i) ∷ after) w in
        (w'.ended ≡ true) × (last_call w'.calls ≡ cleanup w'.suspend_introspector_domain ∷ [])
  unfolding wait_for_domains round
  signal-last after i w e h = ground arith

  -- Once a signal has come the loop ends, whatever the rounds before it met, and the handler's last
  -- call is its cleanup, told whether the introspector's own domain is to be suspended.
  pub wait_for_domains-signal :
      (before after : List (Bool × I)) (i : I) (w : Watcher U W)
      → w.ended ≡ false
      → w.has_handler ≡ true
      → let w' = wait_for_domains wait (before ++ (true, i) ∷ after) w in
        (w'.ended ≡ true) × (last_call w'.calls ≡ cleanup w'.suspend_introspector_domain ∷ [])
  unfolding wait_for_domains
  wait_for_domains-signal [] after i w e h = signal-last after i w e h
  wait_for_domains-signal ((sig_stop, j) ∷ before) after i w e h =
      let w' = round wait sig_stop j w in
      let r = round-ended sig_stop j w e h in
      elim (Bool-cases w'.ended) [
        | inl ended ↦ rw ended (ended, rw ended at (r.1))
        | inr on ↦ rw on (wait_for_domains-signal before after i w' on r.0)
      ]
