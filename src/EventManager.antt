-- ===== src/EventManager.antt =====
-- src/eventmanager.cpp and include/bdvmi/eventmanager.h: which events a monitoring session has
-- switched on, kept so that a backend is asked only for a change. The backend's virtual functions
-- are one function from a request and the backend's own state to its answer and new state.
pub mod Sync
mod Checks
use libbdvmi.Common.{
  ℕ, ◌≡◌, Bool, true, false, not, List, [], ◌∷◌, if◌then◌else◌, contains, add_id, remove_id,
}

-- The kinds of event that a session can switch on and off.
pub data Event : Type 0 where
  msr cr : ℕ → Event
  xsetbv breakpoint vmcall descriptor : Event

-- The calls enable…EventsImpl and disable…EventsImpl.
pub data Request : Type 0 where
  enable_impl disable_impl : Event → Request

pub record EventManager : Type 0 where
  pub enabled_crs : List ℕ
  pub enabled_msrs : List ℕ
  pub breakpoint_enabled : Bool
  pub xsetbv_enabled : Bool
  pub vmcall_enabled : Bool
  pub descriptor_enabled : Bool

unfoldable pub create : EventManager
create = record {
  enabled_crs = [];
  enabled_msrs = [];
  breakpoint_enabled = false;
  xsetbv_enabled = false;
  vmcall_enabled = false;
  descriptor_enabled = false;
}

abbrev pub Backend : Type 0 → Type 0
Backend S = Request → S → Bool × S

module _ {S : Type 0} (impl : Backend S) where
  -- The second result is `oldValue`.
  pub enable_msr_events : ℕ → EventManager → S → Bool × Bool × EventManager × S
  enable_msr_events k m s =
      let old_value = contains k m.enabled_msrs in
      if old_value
      then (true, old_value, m, s)
      else let r = impl (enable_impl (msr k)) s in
        if r.0
        then (true, old_value, record m { enabled_msrs = add_id k m.enabled_msrs }, r.1)
        else (false, old_value, m, r.1)

  pub disable_msr_events : ℕ → EventManager → S → Bool × Bool × EventManager × S
  disable_msr_events k m s =
      let old_value = contains k m.enabled_msrs in
      let r = impl (disable_impl (msr k)) s in
      if old_value
      then if r.0
        then (true, old_value, record m { enabled_msrs = remove_id k m.enabled_msrs }, r.1)
        else (false, old_value, m, r.1)
      else (true, old_value, m, s)

  unfoldable pub enable_cr_events : ℕ → EventManager → S → Bool × EventManager × S
  enable_cr_events k m s =
      if contains k m.enabled_crs
      then (true, m, s)
      else let r = impl (enable_impl (cr k)) s in
        if r.0
        then (true, record m { enabled_crs = add_id k m.enabled_crs }, r.1)
        else (false, m, r.1)

  unfoldable pub disable_cr_events : ℕ → EventManager → S → Bool × EventManager × S
  disable_cr_events k m s =
      let r = impl (disable_impl (cr k)) s in
      if contains k m.enabled_crs
      then if r.0
        then (true, record m { enabled_crs = remove_id k m.enabled_crs }, r.1)
        else (false, m, r.1)
      else (true, m, s)

  pub enable_xsetbv_events : EventManager → S → Bool × EventManager × S
  enable_xsetbv_events m s =
      let r = impl (enable_impl xsetbv) s in
      if m.xsetbv_enabled then (true, m, s) else (r.0, record m { xsetbv_enabled = r.0 }, r.1)

  pub disable_xsetbv_events : EventManager → S → Bool × EventManager × S
  disable_xsetbv_events m s =
      let r = impl (disable_impl xsetbv) s in
      if m.xsetbv_enabled
      then (not (not r.0), record m { xsetbv_enabled = not r.0 }, r.1)
      else (true, m, s)

  pub enable_breakpoint_events : EventManager → S → Bool × EventManager × S
  enable_breakpoint_events m s =
      let r = impl (enable_impl breakpoint) s in
      if m.breakpoint_enabled
      then (true, m, s)
      else (r.0, record m { breakpoint_enabled = r.0 }, r.1)

  pub disable_breakpoint_events : EventManager → S → Bool × EventManager × S
  disable_breakpoint_events m s =
      let r = impl (disable_impl breakpoint) s in
      if m.breakpoint_enabled
      then (not (not r.0), record m { breakpoint_enabled = not r.0 }, r.1)
      else (true, m, s)

  pub enable_vmcall_events : EventManager → S → Bool × EventManager × S
  enable_vmcall_events m s =
      let r = impl (enable_impl vmcall) s in
      if m.vmcall_enabled then (true, m, s) else (r.0, record m { vmcall_enabled = r.0 }, r.1)

  pub disable_vmcall_events : EventManager → S → Bool × EventManager × S
  disable_vmcall_events m s =
      let r = impl (disable_impl vmcall) s in
      if m.vmcall_enabled
      then (not (not r.0), record m { vmcall_enabled = not r.0 }, r.1)
      else (true, m, s)

  unfoldable pub enable_descriptor_events : EventManager → S → Bool × EventManager × S
  enable_descriptor_events m s =
      let r = impl (enable_impl descriptor) s in
      if m.descriptor_enabled
      then (true, m, s)
      else (r.0, record m { descriptor_enabled = r.0 }, r.1)

  pub disable_descriptor_events : EventManager → S → Bool × EventManager × S
  disable_descriptor_events m s =
      let r = impl (disable_impl descriptor) s in
      if m.descriptor_enabled
      then (not (not r.0), record m { descriptor_enabled = not r.0 }, r.1)
      else (true, m, s)

  -- Any of the calls, by its event; the answer, the manager and the backend after it.
  unfoldable pub enable : Event → EventManager → S → Bool × EventManager × S
  enable (msr k) m s = let r = enable_msr_events k m s in (r.0, r.2, r.3)
  enable (cr k) m s = enable_cr_events k m s
  enable xsetbv m s = enable_xsetbv_events m s
  enable breakpoint m s = enable_breakpoint_events m s
  enable vmcall m s = enable_vmcall_events m s
  enable descriptor m s = enable_descriptor_events m s

  pub disable : Event → EventManager → S → Bool × EventManager × S
  disable (msr k) m s = let r = disable_msr_events k m s in (r.0, r.2, r.3)
  disable (cr k) m s = disable_cr_events k m s
  disable xsetbv m s = disable_xsetbv_events m s
  disable breakpoint m s = disable_breakpoint_events m s
  disable vmcall m s = disable_vmcall_events m s
  disable descriptor m s = disable_descriptor_events m s

  -- A session: the requests of a monitoring application in turn.
  pub run : List Request → EventManager → S → EventManager × S
  run [] m s = (m, s)
  run (enable_impl e ∷ rs) m s = let r = enable e m s in run rs r.1 r.2
  run (disable_impl e ∷ rs) m s = let r = disable e m s in run rs r.1 r.2
