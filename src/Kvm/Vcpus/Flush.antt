-- ===== src/Kvm/Vcpus/Flush.antt =====
-- After a flush the hypervisor monitors for the processor what is wanted (src/kvmdriver.cpp).
use libbdvmi.Common.{
  ℕ, ◌≤◌, ◌<◌, ◌≡◌, refl, ◌∙◌, Bool, true, false, some, List, arith, leb, contains, find, insert,
  find-insert_self, ap, Bool-cases, inl, inr,
}
use libbdvmi.Kvm.Kvmi.{Control, event, cr, msr, same_control, Kvmi, Honest}
use libbdvmi.Kvm.Control.{VcpuEvents, flush_events}
use libbdvmi.Kvm.Control.Flush.{flush_set-Agrees, flush_set-contains, flush_set_kept}
use libbdvmi.Kvm.Views.{Views, initial_view_setup}
use libbdvmi.Kvm.Vcpus.{Vcpus, flush_cr_events, flush_msr_events, flush_entry, flush_ctrl_events}
use libbdvmi.Kvm.Vcpus.Registering.{Registered, setup-monitored, flush_events-Registered}

module _ {S : Type 0} (kvmi : Kvmi S) (monitored : S → ℕ → Control → Bool)
    (visible : S → ℕ → ℕ → Bool) (current : S → ℕ → ℕ)
    (h : Honest kvmi monitored visible current) where
  module _ (num vcpu : ℕ) where
    flush_cr_events-Registered :
        (wanted : List ℕ) (e : VcpuEvents) (s : S)
        → Registered monitored num vcpu e s
        → let r = flush_cr_events kvmi num vcpu wanted e s in Registered monitored num vcpu r.1 r.2
    unfolding flush_cr_events
    flush_cr_events-Registered wanted e s r =
        let register = λ (k : ℕ) (on : Bool). kvmi.register vcpu (cr k) on in
        let done =
          flush_set-Agrees register (λ t j. monitored t vcpu (cr j))
            (λ k j on t. ground (arith, h.registers_one vcpu vcpu (cr k) (cr j) on t)) wanted
            e.enabled_crs s r.distinct_crs r.crs in
        let kept = λ (d : Control) (p : (k : ℕ) → same_control (cr k) d ≡ false).
          flush_set_kept register (λ t. monitored t vcpu d)
            (λ k on t. ground (arith, p k, h.registers_one vcpu vcpu (cr k) d on t)) wanted
            e.enabled_crs s in
        record {
          events = λ j. kept (event j) (λ k. refl) ∙ r.events j;
          crs = done.1;
          msrs = λ j. kept (msr j) (λ k. refl) ∙ r.msrs j;
          few = r.few;
          distinct_crs = done.0;
          distinct_msrs = r.distinct_msrs;
        }

    flush_msr_events-Registered :
        (wanted : List ℕ) (e : VcpuEvents) (s : S)
        → Registered monitored num vcpu e s
        → let r = flush_msr_events kvmi num vcpu wanted e s in Registered monitored num vcpu r.1 r.2
    unfolding flush_msr_events
    flush_msr_events-Registered wanted e s r =
        let register = λ (k : ℕ) (on : Bool). kvmi.register vcpu (msr k) on in
        let done =
          flush_set-Agrees register (λ t j. monitored t vcpu (msr j))
            (λ k j on t. ground (arith, h.registers_one vcpu vcpu (msr k) (msr j) on t)) wanted
            e.enabled_msrs s r.distinct_msrs r.msrs in
        let kept = λ (d : Control) (p : (k : ℕ) → same_control (msr k) d ≡ false).
          flush_set_kept register (λ t. monitored t vcpu d)
            (λ k on t. ground (arith, p k, h.registers_one vcpu vcpu (msr k) d on t)) wanted
            e.enabled_msrs s in
        record {
          events = λ j. kept (event j) (λ k. refl) ∙ r.events j;
          crs = λ j. kept (cr j) (λ k. refl) ∙ r.crs j;
          msrs = done.1;
          few = r.few;
          distinct_crs = r.distinct_crs;
          distinct_msrs = done.0;
        }

    -- Wherever the flush of an entry stops, the entry says what is monitored.
    flush_entry-Registered :
        (events crs msrs : List ℕ) (e : VcpuEvents) (s : S)
        → ((k : ℕ) (on : Bool) (t : S) → (kvmi.register vcpu (event k) on t).0 ≡ true)
        → ((j : ℕ) → num ≤ j → contains j events ≡ false)
        → Registered monitored num vcpu e s
        → let r = flush_entry kvmi num vcpu events crs msrs e s in
          Registered monitored num vcpu r.1 r.2
    unfolding flush_entry
    flush_entry-Registered events crs msrs e s grants few r =
        let a = flush_events kvmi num vcpu events e s in
        let ra =
          flush_events-Registered kvmi monitored visible current h num vcpu grants events e s few
            r in
        let b = flush_cr_events kvmi num vcpu crs a.0 a.1 in
        let rb = flush_cr_events-Registered crs a.0 a.1 ra in
        let c = flush_msr_events kvmi num vcpu msrs b.1 b.2 in
        let rc = flush_msr_events-Registered msrs b.1 b.2 rb in
        elim (Bool-cases b.0) [
          | inr failed ↦ rw (failed, flush_entry) rb
          | inl yes_b ↦ elim (Bool-cases c.0) [
            | inr failed ↦ rw (yes_b, flush_entry, failed) rc
            | inl yes_c ↦
                rw (yes_b, flush_entry, yes_c)
                  (record {
                    events = rc.events;
                    crs = rc.crs;
                    msrs = rc.msrs;
                    few = rc.few;
                    distinct_crs = rc.distinct_crs;
                    distinct_msrs = rc.distinct_msrs;
                  })
          ]
        ]

    -- A flush that goes through leaves the entry clean, and as it is wanted.
    flush_entry_done :
        (events crs msrs : List ℕ) (e : VcpuEvents) (s : S)
        → (flush_entry kvmi num vcpu events crs msrs e s).0 ≡ true
        → let e' = (flush_entry kvmi num vcpu events crs msrs e s).1 in
          (e'.dirty ≡ false)
          × (e'.enabled ≡ events)
          × ((j : ℕ) → contains j e'.enabled_crs ≡ contains j crs)
          × ((j : ℕ) → contains j e'.enabled_msrs ≡ contains j msrs)
    unfolding flush_entry flush_cr_events flush_msr_events flush_events
    flush_entry_done events crs msrs e s done =
        let a = flush_events kvmi num vcpu events e s in
        let b = flush_cr_events kvmi num vcpu crs a.0 a.1 in
        (
          ground arith,
          ground arith,
          λ j. ground (
            arith,
            flush_set-contains (λ k on. kvmi.register vcpu (cr k) on)
                (λ t i. monitored t vcpu (cr i))
                (λ k i on t. ground (arith, h.registers_one vcpu vcpu (cr k) (cr i) on t)) crs
                e.enabled_crs a.1 j,
          ),
          λ j. ground (
            arith,
            flush_set-contains (λ k on. kvmi.register vcpu (msr k) on)
                (λ t i. monitored t vcpu (msr i))
                (λ k i on t. ground (arith, h.registers_one vcpu vcpu (msr k) (msr i) on t)) msrs
                e.enabled_msrs b.2 j,
          ),
        )

    setup-Registered :
        (cached : ℕ) (vs : Views) (e : VcpuEvents) (s : S)
        → Registered monitored num vcpu e s
        → Registered monitored num vcpu e (initial_view_setup kvmi vcpu cached vs s).3
    setup-Registered cached vs e s r = record {
      events = λ j.
          setup-monitored kvmi monitored visible current h vcpu cached vcpu (event j) vs s
          ∙ r.events j;
      crs = λ j.
          setup-monitored kvmi monitored visible current h vcpu cached vcpu (cr j) vs s ∙ r.crs j;
      msrs = λ j.
          setup-monitored kvmi monitored visible current h vcpu cached vcpu (msr j) vs s ∙ r.msrs j;
      few = r.few;
      distinct_crs = r.distinct_crs;
      distinct_msrs = r.distinct_msrs;
    }

    -- The flush for a processor in range whose entry is dirty, at a hypervisor that grants events: it
    -- ends, whatever fails on the way the entry it leaves says what the hypervisor monitors for the
    -- processor, and if it succeeds that is what is wanted, of events, control registers and MSRs,
    -- and the entry is clean.
    pub flush_ctrl_events-Registered :
        (crs msrs : List ℕ) (v : Vcpus) (e : VcpuEvents) (s : S)
        → ((k : ℕ) (on : Bool) (t : S) → (kvmi.register vcpu (event k) on t).0 ≡ true)
        → ((j : ℕ) → num ≤ j → contains j v.enabled_events ≡ false)
        → vcpu < v.vcpu_count
        → find vcpu v.vcpu_events ≡ some e
        → e.dirty ≡ true
        → Registered monitored num vcpu e s
        → (ok : Bool) × (v' : Vcpus) × (s' : S) × (e' : VcpuEvents) × (flush_ctrl_events kvmi num
              vcpu crs msrs v s
            ≡ some (ok, v', s'))
          × (find vcpu v'.vcpu_events ≡ some e')
          × Registered monitored num vcpu e' s'
          × (ok ≡ true
              → (e'.dirty ≡ false)
                × ((j : ℕ) → monitored s' vcpu (event j) ≡ contains j v.enabled_events)
                × ((j : ℕ) → monitored s' vcpu (cr j) ≡ contains j crs)
                × ((j : ℕ) → monitored s' vcpu (msr j) ≡ contains j msrs))
    unfolding flush_ctrl_events
    flush_ctrl_events-Registered crs msrs v e s grants few range here dirty r =
        let a = initial_view_setup kvmi vcpu v.cached_view v.views s in
        let b = flush_entry kvmi num vcpu v.enabled_events crs msrs e a.3 in
        let v1 : Vcpus = record v { cached_view = a.1; views = a.2 } in
        let v2 : Vcpus = record v1 { vcpu_events = insert vcpu b.1 v1.vcpu_events } in
        let ra = setup-Registered v.cached_view v.views e s r in
        let rb = flush_entry-Registered v.enabled_events crs msrs e a.3 grants few ra in
        let done = flush_entry_done v.enabled_events crs msrs e a.3 in
        let inside : leb v.vcpu_count vcpu ≡ false = ground arith in
        elim (Bool-cases a.0) [
          | inr failed ↦ (
            false,
            v1,
            a.3,
            e,
            rw (inside, here, dirty, failed, flush_ctrl_events),
            here,
            ra,
            λ o. cc,
          )
          | inl set ↦ (
            b.0,
            v2,
            b.2,
            b.1,
            rw (inside, here, dirty, set, flush_ctrl_events),
            find-insert_self vcpu b.1 v.vcpu_events,
            rb,
            λ o. (
              (done o).0,
              λ j. rb.events j ∙ ap (contains j) (done o).1,
              λ j. rb.crs j ∙ (done o).2 j,
              λ j. rb.msrs j ∙ (done o).3 j,
            ),
          )
        ]
