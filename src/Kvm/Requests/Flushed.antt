-- ===== src/Kvm/Requests/Flushed.antt =====
-- What a request to the event manager for KVM comes to at a processor's next event
-- (src/kvmeventmanager.cpp, src/kvmdriver.cpp).
use libbdvmi.Common.{
  ℕ, ◌≤◌, ◌<◌, ◌≡◌, refl, ◌∙◌, Bool, true, false, some, arith, contains, add_id, contains-add_id,
  contains-remove_id, find,
}
use libbdvmi.EventManager
use libbdvmi.EventManager.{
  Event, Request, enable_impl, disable_impl, EventManager, enable_cr_events, disable_cr_events,
}
use libbdvmi.Kvm.Kvmi.{Control, event, cr, Kvmi, Honest}
use libbdvmi.Kvm.Control.{VcpuEvents}
use libbdvmi.Kvm.Pause.{kick_all_vcpus}
use libbdvmi.Kvm.Vcpus.{Vcpus, set_vcpu_events_later, flush_ctrl_events}
use libbdvmi.Kvm.Vcpus.Registering.{Registered}
use libbdvmi.Kvm.Vcpus.Flush.{flush_ctrl_events-Registered}
use libbdvmi.Kvm.Vcpus.InRange.{find-all_dirty}
use libbdvmi.Kvm.Requests.{Ids, Controls, kicked, set_vcpu_events, kvm_impl}

-- Switching a control register on, at a driver whose message goes out: every entry is dirty from then
-- on, with what is registered unchanged, and the event of control registers is wanted.
enable_cr_lem :
    (ids : Ids) (k : ℕ) (m : EventManager) (c : Controls)
    → contains k m.enabled_crs ≡ false
    → let r = enable_cr_events (kvm_impl true true ids) k m c in
      (r.0 ≡ true)
      × (r.1.enabled_crs ≡ add_id k m.enabled_crs)
      × (r.2.vcpus ≡ set_vcpu_events_later (ids.id (EventManager.cr k)) c.vcpus)
unfolding enable_cr_events kvm_impl set_vcpu_events kicked kick_all_vcpus
enable_cr_lem ids k m c new = (ground arith, ground arith, ground arith)

-- Switching a control register off succeeds and takes it off the manager's set. But if the entry
-- of a processor is clean, the flush at the processor's next event succeeds and leaves the
-- entries and the hypervisor as they are.
pub disable_cr_events-flush :
    {S : Type 0} (kvmi : Kvmi S) (ids : Ids) (queued committed : Bool) (num vcpu k : ℕ)
    (m : EventManager) (c : Controls) (e : VcpuEvents) (s : S)
    → contains k m.enabled_crs ≡ true
    → vcpu < c.vcpus.vcpu_count
    → find vcpu c.vcpus.vcpu_events ≡ some e
    → e.dirty ≡ false
    → let (ok, m', c') = disable_cr_events (kvm_impl queued committed ids) k m c in
      (ok ≡ true)
      × (contains k m'.enabled_crs ≡ false)
      × (flush_ctrl_events kvmi num vcpu m'.enabled_crs m'.enabled_msrs c'.vcpus s
          ≡ some (true, c'.vcpus, s))
unfolding disable_cr_events kvm_impl flush_ctrl_events
disable_cr_events-flush kvmi ids queued committed num vcpu k m c e s on range here clean =
    (ground arith, ground (arith, contains-remove_id k k m.enabled_crs), ground arith)

module _ {S : Type 0} (kvmi : Kvmi S) (monitored : S → ℕ → Control → Bool)
    (visible : S → ℕ → ℕ → Bool) (current : S → ℕ → ℕ) (h : Honest kvmi monitored visible current)
    (ids : Ids) (num vcpu : ℕ) where
  -- Switching a control register on, at a driver whose messages go out and a hypervisor that grants
  -- events: it succeeds, and the flush at the next event of a processor ends, whether its entry was
  -- clean or not; if it succeeds, the writes of the register and the event of such writes are
  -- monitored for the processor, and every register that was wanted before still is.
  pub enable_cr_events-flush :
      (k : ℕ) (m : EventManager) (c : Controls) (e : VcpuEvents) (s : S)
      → contains k m.enabled_crs ≡ false
      → ((j : ℕ) (on : Bool) (t : S) → (kvmi.register vcpu (event j) on t).0 ≡ true)
      → ((j : ℕ) → num ≤ j → contains j c.vcpus.enabled_events ≡ false)
      → ids.id (EventManager.cr k) < num
      → vcpu < c.vcpus.vcpu_count
      → find vcpu c.vcpus.vcpu_events ≡ some e
      → Registered monitored num vcpu e s
      → let (done, m', c') = enable_cr_events (kvm_impl true true ids) k m c in
        (done ≡ true)
        × (ok : Bool) × (v' : Vcpus) × (s' : S) × (flush_ctrl_events kvmi num vcpu m'.enabled_crs
              m'.enabled_msrs c'.vcpus s
            ≡ some (ok, v', s'))
        × (ok ≡ true
            → (monitored s' vcpu (cr k) ≡ true)
              × (monitored s' vcpu (event (ids.id (EventManager.cr k))) ≡ true)
              × ((j : ℕ) → contains j m.enabled_crs ≡ true → monitored s' vcpu (cr j) ≡ true))
  unfolding set_vcpu_events_later
  enable_cr_events-flush k m c e s new grants few small range here r =
      let id = ids.id (EventManager.cr k) in
      let (done, wanted, marked) = enable_cr_lem ids k m c new in
      let m' = (enable_cr_events (kvm_impl true true ids) k m c).1 in
      let v = set_vcpu_events_later id c.vcpus in
      let entry : VcpuEvents = record e { dirty = true } in
      let flushed =
        flush_ctrl_events-Registered kvmi monitored visible current h num vcpu m'.enabled_crs
          m'.enabled_msrs v entry s grants
          (λ j a. ground (arith, few j a, contains-add_id id j c.vcpus.enabled_events)) range
          (find-all_dirty vcpu c.vcpus.vcpu_events ∙ rw here refl) refl
          (record {
            events = r.events;
            crs = r.crs;
            msrs = r.msrs;
            few = r.few;
            distinct_crs = r.distinct_crs;
            distinct_msrs = r.distinct_msrs;
          }) in
      let (ok, v', s', e', ends, has, reg, all) = flushed in
      (
        done,
        ok,
        v',
        s',
        rw marked ends,
        λ o. (
          (all o).2 k ∙ ground (arith, wanted, contains-add_id k k m.enabled_crs),
          (all o).1 id ∙ ground (arith, contains-add_id id id c.vcpus.enabled_events),
          λ j before. (all o).2 j ∙ ground (arith, wanted, contains-add_id k j m.enabled_crs),
        ),
      )
