-- ===== src/Kvm/Requests.antt =====
-- What the event manager for KVM asks of its driver to switch an event on or off
-- (src/kvmeventmanager.cpp), and the driver's functions for it (src/kvmdriver.cpp): a backend of
-- EventManager.
pub mod Flushed
mod Checks
use libbdvmi.Common.{ℕ, Bool, true, false, Option, none, some, if◌then◌else◌}
use libbdvmi.EventManager.{
  Event, msr, cr, xsetbv, breakpoint, vmcall, descriptor, Request, enable_impl, disable_impl,
}
use libbdvmi.Kvm.Views.{enable_pending_vcpus_cache}
use libbdvmi.Kvm.Pause.{Pauses, kick_all_vcpus}
use libbdvmi.Kvm.Vcpus.{
  Vcpus, update_vcpu_count, set_vcpu_events_later, clear_vcpu_event, clear_vcpu_events,
}

-- The numbers KVMI_EVENT_* of libkvmi's header.
pub record Ids : Type 0 where
  pub id : Event → ℕ
  pub pf : ℕ
  pub singlestep : ℕ
  pub trap : ℕ

-- The driver's state that a request changes.
pub record Controls : Type 0 where
  pub vcpus : Vcpus
  pub pauses : Pauses

-- `queued` and `committed` are what libkvmi answers to the messages that pause all processors and to
-- their batch.
module _ (queued committed : Bool) where
  unfoldable pub kicked : Vcpus → Controls → Bool × Controls
  kicked v c =
      let r = kick_all_vcpus v.vcpu_count queued committed c.pauses in
      (r.0, record { vcpus = v; pauses = r.1 })

  unfoldable pub set_vcpu_events : ℕ → Controls → Bool × Controls
  unfolding kicked
  set_vcpu_events id c = kicked (set_vcpu_events_later id c.vcpus) c

  unfoldable pub clear_vcpu_events_of : ℕ → Controls → Bool × Controls
  unfolding kicked
  clear_vcpu_events_of id c = kicked (clear_vcpu_event id c.vcpus) c

  unfoldable pub clear_all_vcpu_events : Controls → Bool × Controls
  unfolding kicked
  clear_all_vcpu_events c = kicked (clear_vcpu_events c.vcpus) c

  module _ (ids : Ids) where
    -- The functions enable...EventsImpl and disable...EventsImpl.
    unfoldable pub kvm_impl : Request → Controls → Bool × Controls
    unfolding set_vcpu_events clear_vcpu_events_of
    kvm_impl (enable_impl e) c = set_vcpu_events (ids.id e) c
    kvm_impl (disable_impl (msr k)) c = (true, c)
    kvm_impl (disable_impl (cr k)) c = (true, c)
    kvm_impl (disable_impl xsetbv) c = clear_vcpu_events_of (ids.id xsetbv) c
    kvm_impl (disable_impl breakpoint) c = clear_vcpu_events_of (ids.id breakpoint) c
    kvm_impl (disable_impl vmcall) c = clear_vcpu_events_of (ids.id vmcall) c
    kvm_impl (disable_impl descriptor) c = clear_vcpu_events_of (ids.id descriptor) c

    unfoldable pub init_vcpu_events : Controls → Bool × Controls
    unfolding set_vcpu_events
    init_vcpu_events c =
        let v = set_vcpu_events_later ids.singlestep (set_vcpu_events_later ids.pf c.vcpus) in
        let pending : Vcpus = record v {
          views = enable_pending_vcpus_cache v.vcpu_count v.views;
        } in
        let v' : Vcpus = if v.views.ve_supported then pending else v in
        set_vcpu_events ids.trap (record c { vcpus = v' })

    -- The constructor: `registered` is whether the event of a new processor could be registered, and
    -- `count` the answer for the number of processors; none for its exceptions.
    unfoldable pub create_manager : Bool → Option ℕ → Controls → Option Controls
    unfolding init_vcpu_events
    create_manager registered count c =
        let counted = update_vcpu_count count c.vcpus in
        let r = init_vcpu_events (record c { vcpus = counted.1 }) in
        if registered then if counted.0 then if r.0 then some (r.1) else none else none else none
