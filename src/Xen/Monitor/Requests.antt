-- ===== src/Xen/Monitor/Requests.antt =====
-- The requests of a session to Xen (src/xeneventmanager.cpp).
use libbdvmi.Common.{ℕ, ◌≡◌, ◌≢◌, Bool, false, arith, contains}
use libbdvmi.EventManager.{
  EventManager, cr, descriptor, enable, enable_cr_events, enable_descriptor_events,
}
use libbdvmi.Xen.Monitor.{
  XcMonitor, cr_index, set_cr_events, set_descriptor_events, set_events, xen_impl,
}

-- A session's request for the writes of a control register other than 0, 3 and 4 fails with no
-- hypercall and is not noted by the manager, and so does one for descriptors where Xen does not
-- support them.
pub enable-xen_impl :
    {S : Type 0} (xc : XcMonitor S) (k : ℕ) (supported : Bool) (m : EventManager) (s : S)
    → k ≢ 0
    → k ≢ 3
    → k ≢ 4
    → contains k m.enabled_crs ≡ false
    → m.descriptor_enabled ≡ false
    → (enable (xen_impl xc supported) (cr k) m s ≡ (false, m, s))
      × (enable (xen_impl xc false) descriptor m s ≡ (false, m, s))
unfolding enable enable_cr_events enable_descriptor_events xen_impl set_events set_cr_events
    set_descriptor_events cr_index
enable-xen_impl xc k supported m s n0 n3 n4 off down = (ground arith, ground arith)
