-- ===== src/Watcher/Checks.antt =====
-- The loop on a concrete backend (src/domainwatcher.cpp).
use libbdvmi.Common.{ℕ, ◌≡◌, refl, Bool, true, false, [], ◌∷◌, if◌then◌else◌}
use libbdvmi.Watcher.{is_new, cleanup, Waited, Watcher, wait_for_domains}
use libbdvmi.Watcher.Ends.{last_call, wait_for_domains-signal}

-- A backend that tells of guest 1 if it is asked to, and throws otherwise.
abbrev wait : Bool → ℕ → ℕ → Waited ℕ ℕ
wait good ms n = record {
  threw = if good then false else true;
  ready = true;
  domains = is_new 1 n ∷ [];
  stops = false;
  suspends = false;
  backend = n;
}

abbrev idle : Watcher ℕ ℕ
idle = record {
  stopped = false;
  suspend_introspector_domain = false;
  has_handler = true;
  ms = 100;
  backend = 0;
  calls = [];
  ended = false;
}

wait_for_domains-signal_example :
    let w' =
      wait_for_domains wait
        ((false, true) ∷ (false, false) ∷ (true, true) ∷ (false, true) ∷ [])
        idle in
    (w'.ended ≡ true) × (last_call w'.calls ≡ cleanup w'.suspend_introspector_domain ∷ [])
wait_for_domains-signal_example =
    wait_for_domains-signal wait ((false, true) ∷ (false, false) ∷ []) ((false, true) ∷ []) true
      idle refl refl
