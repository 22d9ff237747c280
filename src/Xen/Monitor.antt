-- ===== src/Xen/Monitor.antt =====
-- The virtual functions enable...EventsImpl and disable...EventsImpl of src/xeneventmanager.cpp: the
-- requests of the event manager's base class as hypercalls.
mod Requests
mod Checks
use libbdvmi.Common.{ℕ, Bool, true, false, Option, none, some, ◌==◌, if◌then◌else◌}
use libbdvmi.EventManager.{
  Event, msr, cr, xsetbv, breakpoint, vmcall, descriptor, Request, enable_impl, disable_impl,
  Backend,
}
use libbdvmi.Xen.Events.{ControlRegister, cr0, cr3, cr4, xcr0}

-- The hypercalls of XC that switch monitoring, over a state of Xen; the answer is whether they
-- return 0. The arguments that the code gives as constants in all calls (the domain, sync, onchangeonly,
-- extended) are left out.
pub record XcMonitor (S : Type 0) : Type 0 where
  pub monitor_mov_to_msr : ℕ → Bool → S → Bool × S
  pub monitor_write_ctrlreg : ControlRegister → Bool → ℕ → S → Bool × S
  pub monitor_software_breakpoint : Bool → S → Bool × S
  pub monitor_guest_request : Bool → S → Bool × S
  pub monitor_descriptor_access : Bool → S → Bool × S

-- The index and the bitmask for a control register; X86_CR4_PGE is not reported.
unfoldable pub cr_index : ℕ → Option (ControlRegister × ℕ)
cr_index n =
    if n == 0
    then some (cr0, 0)
    else if n == 4
    then some (cr4, 0x80)
    else if n == 3
    then some (cr3, 0)
    else none

module _ {S : Type 0} (xc : XcMonitor S) (dtr_events_supported : Bool) where
  unfoldable pub set_cr_events : ℕ → Bool → S → Bool × S
  unfolding cr_index
  set_cr_events n enable s = elim (cr_index n) [
    | none ↦ (false, s)
    | some r ↦ xc.monitor_write_ctrlreg r.0 enable r.1 s
  ]

  unfoldable pub set_descriptor_events : Bool → S → Bool × S
  set_descriptor_events enable s =
      if dtr_events_supported then xc.monitor_descriptor_access enable s else (false, s)

  unfoldable pub set_events : Event → Bool → S → Bool × S
  unfolding set_cr_events set_descriptor_events
  set_events (msr n) enable s = xc.monitor_mov_to_msr n enable s
  set_events (cr n) enable s = set_cr_events n enable s
  set_events xsetbv enable s = xc.monitor_write_ctrlreg xcr0 enable 0 s
  set_events breakpoint enable s = xc.monitor_software_breakpoint enable s
  set_events vmcall enable s = xc.monitor_guest_request enable s
  set_events descriptor enable s = set_descriptor_events enable s

  unfoldable pub xen_impl : Backend S
  unfolding set_events
  xen_impl (enable_impl e) s = set_events e true s
  xen_impl (disable_impl e) s = set_events e false s
