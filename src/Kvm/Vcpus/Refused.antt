-- ===== src/Kvm/Vcpus/Refused.antt =====
-- An event that the hypervisor refuses, and the vector of the processors when their count changes
-- (src/kvmdriver.cpp).
use libbdvmi.Common.{
  ℕ, zero, suc, ◌+◌, ◌<◌, ◌≡◌, ◌≢◌, refl, ◌∙◌, Bool, true, false, none, some, List, arith, contains,
  find,
}
use libbdvmi.Kvm.Kvmi.{Control, event, cr, msr, Kvmi, Honest}
use libbdvmi.Kvm.Control.{VcpuEvents, register_bit, register_changed, flush_events}
use libbdvmi.Kvm.Control.Flush.{flush_set_kept}
use libbdvmi.Kvm.Vcpus.InRange.{find-resize}
use libbdvmi.Kvm.Vcpus.{
  Vcpus, cpu_count, update_vcpu_count, flush_cr_events, flush_msr_events, flush_entry,
  flush_ctrl_events,
}

module _ {S : Type 0} (kvmi : Kvmi S) (monitored : S → ℕ → Control → Bool)
    (visible : S → ℕ → ℕ → Bool) (current : S → ℕ → ℕ) (h : Honest kvmi monitored visible current)
    (vcpu k : ℕ)
    (refused : (on : Bool) (t : S) → (kvmi.register vcpu (event k) on t).0 ≡ false) where
  register_bit_refused :
      (id : ℕ) (have new : List ℕ) (s : S)
      → monitored (register_bit kvmi vcpu id have new s) vcpu (event k) ≡ monitored s vcpu (event k)
  unfolding register_bit
  register_bit_refused id have new s = ground (
    arith,
    refused (contains k new) s,
    h.registers_one vcpu vcpu (event id) (event k) (contains id new) s,
  )

  register_changed_refused :
      (left id : ℕ) (have new : List ℕ) (s : S)
      → monitored (register_changed kvmi vcpu left id have new s) vcpu (event k)
        ≡ monitored s vcpu (event k)
  unfolding register_changed
  register_changed_refused zero id have new s = refl
  register_changed_refused (suc left) id have new s =
      register_changed_refused left (id + 1) have new (register_bit kvmi vcpu id have new s)
      ∙ register_bit_refused id have new s

  -- An event that is wanted but that the hypervisor refuses, and does not monitor: if the flush
  -- of the entry succeeds, the entry is clean and has the event as registered, and the event is
  -- still not monitored.
  pub flush_entry-refused :
      (num : ℕ) (events crs msrs : List ℕ) (e : VcpuEvents) (s : S)
      → contains k events ≡ true
      → monitored s vcpu (event k) ≡ false
      → (flush_entry kvmi num vcpu events crs msrs e s).0 ≡ true
      → let (_, e', s') = flush_entry kvmi num vcpu events crs msrs e s in
        (contains k e'.enabled ≡ true) × (e'.dirty ≡ false) × (monitored s' vcpu (event k) ≡ false)
  unfolding flush_entry flush_cr_events flush_msr_events flush_events
  flush_entry-refused num events crs msrs e s wanted off done =
      let a = flush_events kvmi num vcpu events e s in
      let b = flush_cr_events kvmi num vcpu crs a.0 a.1 in
      let look = λ (t : S). monitored t vcpu (event k) in
      (
        ground arith,
        ground arith,
        ground (
          arith,
          register_changed_refused num 0 e.enabled events s,
          flush_set_kept (λ j on. kvmi.register vcpu (cr j) on) look
              (λ j on t. ground (arith, h.registers_one vcpu vcpu (cr j) (event k) on t)) crs
              e.enabled_crs a.1,
          flush_set_kept (λ j on. kvmi.register vcpu (msr j) on) look
              (λ j on t. ground (arith, h.registers_one vcpu vcpu (msr j) (event k) on t)) msrs
              e.enabled_msrs b.2,
        ),
      )

-- After updateVcpuCount() has got a count, a flush never reads beyond the vector, for whatever
-- processor. After cpuCount() alone has got it, a flush does for a processor below the count that
-- has no entry.
pub flush_ctrl_events-update_vcpu_count :
    {S : Type 0} (kvmi : Kvmi S) (num vcpu count : ℕ) (crs msrs : List ℕ) (v : Vcpus) (s : S)
    → (flush_ctrl_events kvmi num vcpu crs msrs (update_vcpu_count (some count) v).1 s ≢ none)
      × (find vcpu v.vcpu_events ≡ none
          → vcpu < count
          → flush_ctrl_events kvmi num vcpu crs msrs (cpu_count (some count) v).1 s ≡ none)
unfolding flush_ctrl_events cpu_count update_vcpu_count
flush_ctrl_events-update_vcpu_count kvmi num vcpu count crs msrs v s =
    (λ lost. ground (arith, find-resize count 0 vcpu v.vcpu_events), λ missing range. ground arith)
