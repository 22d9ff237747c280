-- ===== src/Kvm/Vcpus/Registering.antt =====
-- Whether the entry of a processor says what is monitored for it, and the flush of the events
-- (src/kvmdriver.cpp).
use libbdvmi.Common.{
  ℕ, zero, suc, ◌+◌, ◌≤◌, ◌≡◌, refl, ◌∙◌, Bool, true, false, ◌&&◌, List, arith, ltb, leb, ◌==◌,
  if◌then◌else◌, contains, Distinct,
}
use libbdvmi.Kvm.Kvmi.{Control, event, cr, msr, same_control, Kvmi, Honest}
use libbdvmi.Kvm.Control.{VcpuEvents, xor, register_bit, register_changed, flush_events}
use libbdvmi.Kvm.Views.{Views, initial_view_setup}

-- The entry of a processor says what the hypervisor monitors for it.
pub record Registered {S : Type 0} (monitored : S → ℕ → Control → Bool) (num vcpu : ℕ)
    (e : VcpuEvents) (s : S) : Type 0 where
  pub events : (j : ℕ) → monitored s vcpu (event j) ≡ contains j e.enabled
  pub crs : (j : ℕ) → monitored s vcpu (cr j) ≡ contains j e.enabled_crs
  pub msrs : (j : ℕ) → monitored s vcpu (msr j) ≡ contains j e.enabled_msrs
  pub few : (j : ℕ) → num ≤ j → contains j e.enabled ≡ false
  pub distinct_crs : Distinct e.enabled_crs
  pub distinct_msrs : Distinct e.enabled_msrs

module _ {S : Type 0} (kvmi : Kvmi S) (monitored : S → ℕ → Control → Bool)
    (visible : S → ℕ → ℕ → Bool) (current : S → ℕ → ℕ)
    (h : Honest kvmi monitored visible current) where
  pub setup-monitored :
      (vcpu cached w : ℕ) (d : Control) (vs : Views) (s : S)
      → monitored (initial_view_setup kvmi vcpu cached vs s).3 w d ≡ monitored s w d
  unfolding initial_view_setup
  setup-monitored vcpu cached w d vs s =
      let shown = kvmi.control_ept_view vcpu vs.untrusted_view true s in
      ground (
        arith,
        h.show_monitored vcpu vs.untrusted_view w true d s,
        h.switch_monitored vcpu vs.untrusted_view w d shown.1,
      )

  register_bit_lem :
      (vcpu id w : ℕ) (d : Control) (have new : List ℕ) (s : S)
      → (kvmi.register vcpu (event id) (contains id new) s).0 ≡ true
      → monitored (register_bit kvmi vcpu id have new s) w d ≡ (
          if (vcpu == w) && same_control (event id) d && xor (contains id have) (contains id new)
          then contains id new
          else monitored s w d)
  unfolding register_bit
  register_bit_lem vcpu id w d have new s granted =
      ground (arith, h.registers_one vcpu w (event id) d (contains id new) s)

  -- Where the hypervisor grants every event, the loop brings the bits that it goes through to what is
  -- wanted.
  register_changed-event :
      (left id vcpu j : ℕ) (have new : List ℕ) (s : S)
      → ((k : ℕ) (on : Bool) (t : S) → (kvmi.register vcpu (event k) on t).0 ≡ true)
      → monitored (register_changed kvmi vcpu left id have new s) vcpu (event j) ≡ (
          if leb id j && ltb j (id + left) && xor (contains j have) (contains j new)
          then contains j new
          else monitored s vcpu (event j))
  unfolding register_changed
  register_changed-event zero id vcpu j have new s grants = ground arith
  register_changed-event (suc left) id vcpu j have new s grants =
      register_changed-event left (id + 1) vcpu j have new (register_bit kvmi vcpu id have new s)
        grants
      ∙ rw (register_bit_lem vcpu id vcpu (event j) have new s (grants id (contains id new) s))
          (ground arith)

  register_changed-other :
      (left id vcpu w : ℕ) (d : Control) (have new : List ℕ) (s : S)
      → ((k : ℕ) (on : Bool) (t : S) → (kvmi.register vcpu (event k) on t).0 ≡ true)
      → ((k : ℕ) → ((vcpu == w) && same_control (event k) d) ≡ false)
      → monitored (register_changed kvmi vcpu left id have new s) w d ≡ monitored s w d
  unfolding register_changed
  register_changed-other zero id vcpu w d have new s grants apart = refl
  register_changed-other (suc left) id vcpu w d have new s grants apart =
      register_changed-other left (id + 1) vcpu w d have new (register_bit kvmi vcpu id have new s)
        grants apart
      ∙ register_bit_lem vcpu id w d have new s (grants id (contains id new) s)
      ∙ ground (arith, apart id)

  module _ (num vcpu : ℕ)
      (grants : (k : ℕ) (on : Bool) (t : S) → (kvmi.register vcpu (event k) on t).0 ≡ true) where
    pub flush_events-Registered :
        (wanted : List ℕ) (e : VcpuEvents) (s : S)
        → ((j : ℕ) → num ≤ j → contains j wanted ≡ false)
        → Registered monitored num vcpu e s
        → let r = flush_events kvmi num vcpu wanted e s in Registered monitored num vcpu r.0 r.1
    unfolding flush_events
    flush_events-Registered wanted e s few r =
        let other =
          λ (d : Control) (p : (k : ℕ) → ((vcpu == vcpu) && same_control (event k) d) ≡ false).
            register_changed-other num 0 vcpu vcpu d e.enabled wanted s grants p in
        record {
          events = λ j. ground (
            arith,
            r.events j,
            few j,
            r.few j,
            register_changed-event num 0 vcpu j e.enabled wanted s grants,
          );
          crs = λ j. other (cr j) (λ k. ground arith) ∙ r.crs j;
          msrs = λ j. other (msr j) (λ k. ground arith) ∙ r.msrs j;
          few = few;
          distinct_crs = r.distinct_crs;
          distinct_msrs = r.distinct_msrs;
        }
