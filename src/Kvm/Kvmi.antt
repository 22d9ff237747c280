-- ===== src/Kvm/Kvmi.antt =====
-- What the backend for KVM calls of libkvmi to control a virtual processor. The state of the other
-- side is a parameter; each call answers whether it succeeds, and leaves a state.
use libbdvmi.Common.{ℕ, ◌≡◌, Bool, false, ◌&&◌, ◌==◌, if◌then◌else◌}

-- What can be switched for a virtual processor: an event, the writes of a control register, those of
-- an MSR.
pub data Control : Type 0 where
  event cr msr : ℕ → Control

-- kvmi_control_events, kvmi_control_cr and kvmi_control_msr (the calls registerEvent,
-- registerCREvents and registerMSREvents of src/kvmdriver.cpp), kvmi_control_ept_view and
-- kvmi_switch_ept_view.
pub record Kvmi (S : Type 0) : Type 0 where
  pub register : ℕ → Control → Bool → S → Bool × S
  pub control_ept_view : ℕ → ℕ → Bool → S → Bool × S
  pub switch_ept_view : ℕ → ℕ → S → Bool × S

abbrev pub same_control : Control → Control → Bool
same_control (event j) (event k) = j == k
same_control (cr j) (cr k) = j == k
same_control (msr j) (msr k) = j == k
same_control _ _ = false

-- A call that succeeds does what it is named for and nothing else, and one that fails does nothing.
pub record Honest {S : Type 0} (kvmi : Kvmi S) (monitored : S → ℕ → Control → Bool)
    (visible : S → ℕ → ℕ → Bool) (current : S → ℕ → ℕ) : Type 0 where
  pub registers_one :
      (v w : ℕ) (c d : Control) (on : Bool) (s : S)
      → monitored (kvmi.register v c on s).1 w d ≡ (
          if (v == w) && same_control c d && (kvmi.register v c on s).0
          then on
          else monitored s w d)
  pub shows_one :
      (v w i j : ℕ) (on : Bool) (s : S)
      → visible (kvmi.control_ept_view v i on s).1 w j
        ≡ (if (v == w) && (i == j) && (kvmi.control_ept_view v i on s).0 then on else visible s w j)
  pub switches_one :
      (v w i : ℕ) (s : S)
      → current (kvmi.switch_ept_view v i s).1 w
        ≡ (if (v == w) && (kvmi.switch_ept_view v i s).0 then i else current s w)
  pub show_monitored :
      (v i w : ℕ) (on : Bool) (d : Control) (s : S)
      → monitored (kvmi.control_ept_view v i on s).1 w d ≡ monitored s w d
  pub show_current :
      (v i w : ℕ) (on : Bool) (s : S) → current (kvmi.control_ept_view v i on s).1 w ≡ current s w
  pub switch_monitored :
      (v i w : ℕ) (d : Control) (s : S)
      → monitored (kvmi.switch_ept_view v i s).1 w d ≡ monitored s w d
  pub switch_visible :
      (v i w j : ℕ) (s : S) → visible (kvmi.switch_ept_view v i s).1 w j ≡ visible s w j
