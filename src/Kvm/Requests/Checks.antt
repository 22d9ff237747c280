-- ===== src/Kvm/Requests/Checks.antt =====
-- Control registers switched on and off at KVM, on a concrete state.
use libbdvmi.Common.{ℕ, ◌≡◌, ◌≤◌, refl, true, false, some, [], ◌∷◌, arith, contains, find}
use libbdvmi.EventManager.{
  msr, cr, xsetbv, breakpoint, vmcall, descriptor, EventManager, create, enable_cr_events,
  disable_cr_events,
}
use libbdvmi.Kvm.Granting.{Machine, blank, granting, granting-Honest}
use libbdvmi.Kvm.Control.{VcpuEvents, new_vcpu_events}
use libbdvmi.Kvm.Vcpus.{flush_ctrl_events}
use libbdvmi.Kvm.Vcpus.Registering.{Registered}
use libbdvmi.Kvm.Requests.{Ids, Controls, kvm_impl}
use libbdvmi.Kvm.Requests.Flushed.{enable_cr_events-flush, disable_cr_events-flush}

abbrev ids : Ids
ids = record {
  id = λ e. elim e [
    | msr k ↦ 2
    | cr k ↦ 1
    | xsetbv ↦ 3
    | breakpoint ↦ 4
    | vmcall ↦ 5
    | descriptor ↦ 8
  ];
  pf = 6;
  singlestep = 12;
  trap = 7;
}

-- One processor, with a given entry.
abbrev controls : VcpuEvents → Controls
controls e = record {
  vcpus = record {
    vcpu_count = 1;
    vcpu_events = (0, e) ∷ [];
    enabled_events = 6 ∷ [];
    views = record {
      eptp_supported = false;
      ve_supported = false;
      untrusted_view = 0;
      visible = [];
      pending_vcpus = [];
      pending_switch_count = 0;
    };
    cached_view = 0;
  };
  pauses = record { pause_count = 0; pending_pause_events = 0; locked = false; misused = false };
}

abbrev with_cr3 : EventManager
with_cr3 = record create { enabled_crs = 3 ∷ [] }

-- Register 3 is registered with the hypervisor, and nothing is to be flushed.
abbrev clean : VcpuEvents
clean = record { dirty = false; enabled = 6 ∷ 1 ∷ []; enabled_crs = 3 ∷ []; enabled_msrs = [] }

disable_cr_events-flush_example :
    flush_ctrl_events granting 16 0
      (disable_cr_events (kvm_impl true true ids) 3 with_cr3 (controls clean)).1.enabled_crs
      (disable_cr_events (kvm_impl true true ids) 3 with_cr3 (controls clean)).1.enabled_msrs
      (disable_cr_events (kvm_impl true true ids) 3 with_cr3 (controls clean)).2.vcpus
      blank
    ≡ some (
      true,
      (disable_cr_events (kvm_impl true true ids) 3 with_cr3 (controls clean)).2.vcpus,
      blank,
    )
unfolding find contains
disable_cr_events-flush_example =
    (disable_cr_events-flush granting ids true true 16 0 3 with_cr3 (controls clean) clean blank
      refl (omega arith) refl refl).2

abbrev nothing_yet : EventManager
nothing_yet = record with_cr3 { enabled_crs = [] }

unregistered : Registered (λ (s : Machine). s.monitored) 16 0 new_vcpu_events blank
unfolding contains
unregistered = record {
  events = λ j. refl;
  crs = λ j. refl;
  msrs = λ j. refl;
  few = λ j a. refl;
  distinct_crs = tt;
  distinct_msrs = tt;
}

six_only : (j : ℕ) → 16 ≤ j → contains j (6 ∷ []) ≡ false
unfolding contains
six_only j a = ground arith

enable_cr_events-flush_example :
    (enable_cr_events (kvm_impl true true ids) 4 nothing_yet (controls new_vcpu_events)).0 ≡ true
enable_cr_events-flush_example =
    (enable_cr_events-flush granting (λ s. s.monitored) (λ s. s.visible) (λ s. s.current)
      granting-Honest ids 16 0 4 nothing_yet (controls new_vcpu_events) new_vcpu_events blank
      (unfold contains in refl) (λ j on t. refl) six_only (omega arith) (omega arith)
      (unfold find in refl) unregistered).0
