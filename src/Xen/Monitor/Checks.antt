-- ===== src/Xen/Monitor/Checks.antt =====
-- The requests of a session to Xen (src/xeneventmanager.cpp) on concrete inputs.
use libbdvmi.Common.{ℕ, ◌+◌, ◌≡◌, refl, true, false, arith, contains}
use libbdvmi.EventManager.{create, cr, descriptor, enable, enable_impl}
use libbdvmi.Xen.Monitor.{
  XcMonitor, xen_impl, set_events, set_cr_events, set_descriptor_events, cr_index,
}
use libbdvmi.Xen.Monitor.Requests.{enable-xen_impl}

-- A Xen that counts the calls, and grants all.
abbrev granting : XcMonitor ℕ
granting = record {
  monitor_mov_to_msr = λ n e s. (true, s + 1);
  monitor_write_ctrlreg = λ r e b s. (true, s + 1);
  monitor_software_breakpoint = λ e s. (true, s + 1);
  monitor_guest_request = λ e s. (true, s + 1);
  monitor_descriptor_access = λ e s. (true, s + 1);
}

cr3_granted : xen_impl granting true (enable_impl (cr 3)) 7 ≡ (true, 8)
unfolding xen_impl set_events set_cr_events set_descriptor_events cr_index
cr3_granted = refl

enable-xen_impl_run :
    (enable (xen_impl granting true) (cr 8) create 7 ≡ (false, create, 7))
    × (enable (xen_impl granting false) descriptor create 7 ≡ (false, create, 7))
unfolding contains create
enable-xen_impl_run =
    enable-xen_impl granting 8 true create 7 (omega arith) (omega arith) (omega arith) refl refl
