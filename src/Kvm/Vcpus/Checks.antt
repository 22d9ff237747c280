-- ===== src/Kvm/Vcpus/Checks.antt =====
-- The flush of what is monitored (src/kvmdriver.cpp) on concrete processors.
use libbdvmi.Common.{
  ℕ, ◌≡◌, refl, ◌≤◌, Bool, true, false, none, some, [], ◌∷◌, arith, contains, find,
}
use libbdvmi.Kvm.Granting.{
  Machine, blank, granting, event_blind, granting-Honest, event_blind-Honest,
}
use libbdvmi.Kvm.Kvmi.{event, cr}
use libbdvmi.Kvm.Control.{new_vcpu_events, flush_events}
use libbdvmi.Kvm.Views.{Views}
use libbdvmi.Kvm.Vcpus.{Vcpus, cpu_count, flush_entry, flush_ctrl_events}
use libbdvmi.Kvm.Vcpus.Registering.{Registered}
use libbdvmi.Kvm.Vcpus.Flush.{flush_ctrl_events-Registered}
use libbdvmi.Kvm.Vcpus.Refused.{flush_entry-refused, flush_ctrl_events-update_vcpu_count}

abbrev no_views : Views
no_views = record {
  eptp_supported = false;
  ve_supported = false;
  untrusted_view = 0;
  visible = [];
  pending_vcpus = [];
  pending_switch_count = 0;
}

-- Two processors for which nothing is registered; event 3 is wanted.
abbrev two : Vcpus
two = record {
  vcpu_count = 2;
  vcpu_events = (0, new_vcpu_events) ∷ (1, new_vcpu_events) ∷ [];
  enabled_events = 3 ∷ [];
  views = no_views;
  cached_view = 0;
}

unregistered : Registered (λ (s : Machine). s.monitored) 16 1 new_vcpu_events blank
unfolding contains
unregistered = record {
  events = λ j. refl;
  crs = λ j. refl;
  msrs = λ j. refl;
  few = λ j a. refl;
  distinct_crs = tt;
  distinct_msrs = tt;
}

three_only : (j : ℕ) → 16 ≤ j → contains j (3 ∷ []) ≡ false
unfolding contains
three_only j a = ground arith

flush_ctrl_events-Registered_example :
    (ok : Bool) × (v' : Vcpus) × (s' : Machine) × (flush_ctrl_events granting 16 1
        (4 ∷ [])
        (5 ∷ [])
        two
        blank
      ≡ some (ok, v', s'))
    × (ok ≡ true → (j : ℕ) → s'.monitored 1 (cr j) ≡ contains j (4 ∷ []))
flush_ctrl_events-Registered_example =
    let r =
      flush_ctrl_events-Registered granting (λ s. s.monitored) (λ s. s.visible) (λ s. s.current)
        granting-Honest 16 1 (4 ∷ []) (5 ∷ []) two new_vcpu_events blank (λ k on t. refl) three_only
        (omega arith) (unfold find in refl) refl unregistered in
    (r.0, r.1, r.2, r.4, λ o. (r.7 o).2)

flush_entry-refused_example :
    (flush_entry event_blind 16 1 (3 ∷ []) [] [] new_vcpu_events blank).2.monitored 1 (event 3)
    ≡ false
unfolding flush_entry contains flush_events
flush_entry-refused_example =
    (flush_entry-refused event_blind (λ s. s.monitored) (λ s. s.visible) (λ s. s.current)
      event_blind-Honest 1 3 (λ on t. refl) 16 (3 ∷ []) [] [] new_vcpu_events blank refl refl
      refl).2

flush_ctrl_events-update_vcpu_count_example :
    flush_ctrl_events granting 16 2 [] [] (cpu_count (some 3) two).1 blank ≡ none
unfolding find
flush_ctrl_events-update_vcpu_count_example =
    (flush_ctrl_events-update_vcpu_count granting 16 2 3 [] [] two blank).1 refl (omega arith)
