-- ===== src/Kvm/Control.antt =====
-- What is monitored for each virtual processor (src/kvmdriver.cpp): the wanted events, control
-- registers and MSRs, and what was registered with the hypervisor, brought together when the
-- processor's next event is handled.
pub mod Flush
use libbdvmi.Common.{
  ℕ, zero, suc, ◌+◌, Bool, true, false, ◌&&◌, not, List, [], ◌∷◌, if◌then◌else◌, contains, add_id,
  remove_id, is_empty,
}
use libbdvmi.Kvm.Kvmi.{Control, event, cr, msr, Kvmi}

-- struct vcpuEvents; a bitset is the set of the bits that are on.
pub record VcpuEvents : Type 0 where
  pub dirty : Bool
  pub enabled : List ℕ
  pub enabled_crs : List ℕ
  pub enabled_msrs : List ℕ

abbrev pub new_vcpu_events : VcpuEvents
new_vcpu_events = record { dirty = true; enabled = []; enabled_crs = []; enabled_msrs = [] }

abbrev pub xor : Bool → Bool → Bool
xor a b = if a then not b else b

module _ {S : Type 0} (kvmi : Kvmi S) where
  -- One round of flushEvents(), for bit `id`. What registerEvent() answers is not looked at.
  unfoldable pub register_bit : ℕ → ℕ → List ℕ → List ℕ → S → S
  register_bit vcpu id current new s =
      if xor (contains id current) (contains id new)
      then (kvmi.register vcpu (event id) (contains id new) s).1
      else s

  -- The loop from bit `id`, with `left` bits to go.
  unfoldable pub register_changed : ℕ → ℕ → ℕ → List ℕ → List ℕ → S → S
  unfolding register_bit
  register_changed vcpu zero id current new s = s
  register_changed vcpu (suc left) id current new s =
      register_changed vcpu left (id + 1) current new (register_bit vcpu id current new s)

  -- `num_events` is KVMI_NUM_EVENTS. Where nothing changed, the loop registers nothing.
  unfoldable pub flush_events : ℕ → ℕ → List ℕ → VcpuEvents → S → VcpuEvents × S
  unfolding register_changed
  flush_events num_events vcpu enabled_events e s = (
    record e { enabled = enabled_events },
    register_changed vcpu num_events 0 e.enabled enabled_events s,
  )

-- The two loops that flushCREvents() and flushMSREvents() have in common; `register` is
-- registerCREvents() or registerMSREvents() for the processor.
module _ {S : Type 0} (register : ℕ → Bool → S → Bool × S) where
  unfoldable pub add_missing : List ℕ → List ℕ → S → Bool × List ℕ × S
  add_missing [] have s = (true, have, s)
  add_missing (k ∷ wanted) have s =
      let r = register k true s in
      elim (contains k have) [
        | true ↦ add_missing wanted have s
        | false ↦ elim r.0 [
          | true ↦ add_missing wanted (add_id k have) r.1
          | false ↦ (false, have, r.1)
        ]
      ]

  -- The second list is what the iterator has not reached yet.
  unfoldable pub drop_stale : List ℕ → List ℕ → S → Bool × List ℕ × S
  drop_stale wanted [] s = (true, [], s)
  drop_stale wanted (k ∷ have) s =
      let r = register k false s in
      let kept = drop_stale wanted have s in
      elim (contains k wanted) [
        | true ↦ (kept.0, k ∷ kept.1, kept.2)
        | false ↦ elim r.0 [ true ↦ drop_stale wanted have r.1 | false ↦ (false, k ∷ have, r.1) ]
      ]

  unfoldable pub flush_set : List ℕ → List ℕ → S → Bool × List ℕ × S
  unfolding add_missing drop_stale
  flush_set wanted have s =
      let a = add_missing wanted have s in if a.0 then drop_stale wanted a.1 a.2 else a
