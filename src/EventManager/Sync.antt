-- ===== src/EventManager/Sync.antt =====
-- The flags of src/eventmanager.cpp agree with what the backend monitors.
use libbdvmi.Common.{
  ◌≡◌, Bool, true, false, ◌&&◌, not, List, [], ◌∷◌, arith, ◌==◌, if◌then◌else◌, contains,
  contains-add_id, contains-remove_id,
}
use libbdvmi.EventManager.{
  Event, msr, cr, xsetbv, breakpoint, vmcall, descriptor, Request, enable_impl, disable_impl,
  EventManager, Backend, enable, disable, run, enable_msr_events, disable_msr_events,
  enable_cr_events, disable_cr_events, enable_xsetbv_events, disable_xsetbv_events,
  enable_breakpoint_events, disable_breakpoint_events, enable_vmcall_events, disable_vmcall_events,
  enable_descriptor_events, disable_descriptor_events,
}

-- What the manager takes to be switched on.
abbrev pub is_enabled : Event → EventManager → Bool
is_enabled (msr k) m = contains k m.enabled_msrs
is_enabled (cr k) m = contains k m.enabled_crs
is_enabled xsetbv m = m.xsetbv_enabled
is_enabled breakpoint m = m.breakpoint_enabled
is_enabled vmcall m = m.vmcall_enabled
is_enabled descriptor m = m.descriptor_enabled

abbrev pub same_event : Event → Event → Bool
same_event (msr j) (msr k) = j == k
same_event (cr j) (cr k) = j == k
same_event xsetbv xsetbv = true
same_event breakpoint breakpoint = true
same_event vmcall vmcall = true
same_event descriptor descriptor = true
same_event _ _ = false

-- A backend whose state says which events it monitors, and whose answers tell the truth: a call
-- that succeeds switches its event and no other, a call that fails changes nothing.
pub record Honest {S : Type 0} (impl : Backend S) (monitored : S → Event → Bool) : Type 0 where
  pub enables :
      (e f : Event) (s : S)
      → monitored (impl (enable_impl e) s).1 f
        ≡ (if same_event e f && (impl (enable_impl e) s).0 then true else monitored s f)
  pub disables :
      (e f : Event) (s : S)
      → monitored (impl (disable_impl e) s).1 f
        ≡ (if same_event e f && (impl (disable_impl e) s).0 then false else monitored s f)

module _ {S : Type 0} (impl : Backend S) (monitored : S → Event → Bool)
    (h : Honest impl monitored) where
  abbrev Agrees : EventManager → S → Type 0
  Agrees m s = (f : Event) → is_enabled f m ≡ monitored s f

  enable-is_enabled :
      (e f : Event) (m : EventManager) (s : S)
      → is_enabled f m ≡ monitored s f
      → is_enabled f (enable impl e m s).1 ≡ monitored (enable impl e m s).2 f
  unfolding enable enable_msr_events enable_cr_events enable_xsetbv_events enable_breakpoint_events
      enable_vmcall_events enable_descriptor_events
  enable-is_enabled (msr k) (msr j) m s a =
      ground (arith, h.enables (msr k) (msr j) s, contains-add_id k j m.enabled_msrs)
  enable-is_enabled (cr k) (cr j) m s a =
      ground (arith, h.enables (cr k) (cr j) s, contains-add_id k j m.enabled_crs)
  enable-is_enabled e f m s a = ground (arith, h.enables e f s)

  disable-is_enabled :
      (e f : Event) (m : EventManager) (s : S)
      → is_enabled f m ≡ monitored s f
      → is_enabled f (disable impl e m s).1 ≡ monitored (disable impl e m s).2 f
  unfolding disable disable_msr_events disable_cr_events disable_xsetbv_events
      disable_breakpoint_events disable_vmcall_events disable_descriptor_events
  disable-is_enabled (msr k) (msr j) m s a =
      ground (arith, h.disables (msr k) (msr j) s, contains-remove_id k j m.enabled_msrs)
  disable-is_enabled (cr k) (cr j) m s a =
      ground (arith, h.disables (cr k) (cr j) s, contains-remove_id k j m.enabled_crs)
  disable-is_enabled e f m s a = ground (arith, h.disables e f s)

  -- Along any sequence of requests, granted or refused, the manager's view of what is switched on
  -- stays the backend's, for an honest backend.
  pub run-agrees :
      (rs : List Request) (m : EventManager) (s : S)
      → ((f : Event) → is_enabled f m ≡ monitored s f)
      → (f : Event) → is_enabled f (run impl rs m s).0 ≡ monitored (run impl rs m s).1 f
  unfolding run
  run-agrees [] m s a f = a f
  run-agrees (enable_impl e ∷ rs) m s a f =
      run-agrees rs _ _ (λ g. enable-is_enabled e g m s (a g)) f
  run-agrees (disable_impl e ∷ rs) m s a f =
      run-agrees rs _ _ (λ g. disable-is_enabled e g m s (a g)) f

-- A request to switch on answers true exactly if the event is on afterwards; a request for what is
-- on already succeeds, and neither the manager nor the backend is changed by it.
pub enable_lem :
    {S : Type 0} (impl : Backend S) (e : Event) (m : EventManager) (s : S)
    → ((enable impl e m s).0 ≡ is_enabled e (enable impl e m s).1)
      × (is_enabled e m ≡ true → enable impl e m s ≡ (true, m, s))
unfolding enable enable_msr_events enable_cr_events enable_xsetbv_events enable_breakpoint_events
    enable_vmcall_events enable_descriptor_events
enable_lem impl (msr k) m s = ground (arith, contains-add_id k k m.enabled_msrs)
enable_lem impl (cr k) m s = ground (arith, contains-add_id k k m.enabled_crs)
enable_lem impl e m s = ground arith

-- A request to switch off answers true exactly if the event is off afterwards; a request for what
-- is off already succeeds, and neither the manager nor the backend is changed by it.
pub disable_lem :
    {S : Type 0} (impl : Backend S) (e : Event) (m : EventManager) (s : S)
    → ((disable impl e m s).0 ≡ not (is_enabled e (disable impl e m s).1))
      × (is_enabled e m ≡ false → disable impl e m s ≡ (true, m, s))
unfolding disable disable_msr_events disable_cr_events disable_xsetbv_events
    disable_breakpoint_events disable_vmcall_events disable_descriptor_events
disable_lem impl (msr k) m s = ground (arith, contains-remove_id k k m.enabled_msrs)
disable_lem impl (cr k) m s = ground (arith, contains-remove_id k k m.enabled_crs)
disable_lem impl e m s = ground arith
