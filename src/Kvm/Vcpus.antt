-- ===== src/Kvm/Vcpus.antt =====
-- The virtual processors of src/kvmdriver.cpp: their count, the vector of what is registered for each,
-- and what is wanted of all; brought together for a processor when its next event is handled.
pub mod Registering
pub mod Flush
pub mod InRange
pub mod Refused
mod Checks
use libbdvmi.Common.{
  ℕ, zero, suc, ◌+◌, Bool, true, false, Option, none, some, List, [], ◌∷◌, leb, if◌then◌else◌, Map,
  find, insert, add_id, remove_id,
}
use libbdvmi.Kvm.Kvmi.{Control, event, cr, msr, Kvmi}
use libbdvmi.Kvm.Control.{VcpuEvents, new_vcpu_events, flush_events, flush_set}
use libbdvmi.Kvm.Views.{Views, initial_view_setup}

-- `vcpu_events` is the vector, from index to entry; `cached_view` is `regsCache_.view_`.
pub record Vcpus : Type 0 where
  pub vcpu_count : ℕ
  pub vcpu_events : Map VcpuEvents
  pub enabled_events : List ℕ
  pub views : Views
  pub cached_view : ℕ

-- cpuCount(): `answer` is what kvmi_get_vcpu_count gives, none for a failure. The vector stays as it is.
unfoldable pub cpu_count : Option ℕ → Vcpus → Option ℕ × Vcpus
cpu_count none v = (none, v)
cpu_count (some count) v = (some count, record v { vcpu_count = count })

-- `std::vector::resize`, from index `id`: the entries that are there stay, the missing ones are new.
unfoldable pub resize : ℕ → ℕ → Map VcpuEvents → Map VcpuEvents
resize zero id m = []
resize (suc left) id m =
    (id, elim (find id m) [ none ↦ new_vcpu_events | some e ↦ e ]) ∷ resize left (id + 1) m

unfoldable pub update_vcpu_count : Option ℕ → Vcpus → Bool × Vcpus
unfolding cpu_count resize
update_vcpu_count none v = (false, v)
update_vcpu_count (some count) v =
    let v' = (cpu_count (some count) v).1 in
    (true, record v' { vcpu_events = resize v'.vcpu_count 0 v'.vcpu_events })

unfoldable pub all_dirty : Map VcpuEvents → Map VcpuEvents
all_dirty [] = []
all_dirty ((id, e) ∷ m) = (id, record e { dirty = true }) ∷ all_dirty m

-- setVcpuEventsLater(), and what setVcpuEvents() and clearVcpuEvents() do before they have all
-- processors paused.
unfoldable pub set_vcpu_events_later : ℕ → Vcpus → Vcpus
unfolding all_dirty
set_vcpu_events_later id v = record v {
  enabled_events = add_id id v.enabled_events;
  vcpu_events = all_dirty v.vcpu_events;
}

unfoldable pub clear_vcpu_event : ℕ → Vcpus → Vcpus
unfolding all_dirty
clear_vcpu_event id v = record v {
  enabled_events = remove_id id v.enabled_events;
  vcpu_events = all_dirty v.vcpu_events;
}

unfoldable pub clear_vcpu_events : Vcpus → Vcpus
unfolding all_dirty
clear_vcpu_events v = record v { enabled_events = []; vcpu_events = all_dirty v.vcpu_events }

module _ {S : Type 0} (kvmi : Kvmi S) (num_events : ℕ) where
  unfoldable pub flush_cr_events : ℕ → List ℕ → VcpuEvents → S → Bool × VcpuEvents × S
  unfolding flush_set
  flush_cr_events vcpu enabled_crs e s =
      let r = flush_set (λ k on. kvmi.register vcpu (cr k) on) enabled_crs e.enabled_crs s in
      (r.0, record e { enabled_crs = r.1 }, r.2)

  unfoldable pub flush_msr_events : ℕ → List ℕ → VcpuEvents → S → Bool × VcpuEvents × S
  unfolding flush_set
  flush_msr_events vcpu enabled_msrs e s =
      let r = flush_set (λ k on. kvmi.register vcpu (msr k) on) enabled_msrs e.enabled_msrs s in
      (r.0, record e { enabled_msrs = r.1 }, r.2)

  -- The three flushes, one after the other, up to the first that fails; the flag is cleared at the end.
  unfoldable pub flush_entry : ℕ → List ℕ → List ℕ → List ℕ → VcpuEvents → S → Bool × VcpuEvents × S
  unfolding flush_cr_events flush_msr_events
  flush_entry vcpu enabled_events enabled_crs enabled_msrs e s =
      let a = flush_events kvmi num_events vcpu enabled_events e s in
      let b = flush_cr_events vcpu enabled_crs a.0 a.1 in
      let c = flush_msr_events vcpu enabled_msrs b.1 b.2 in
      if b.0 then if c.0 then (true, record (c.1) { dirty = false }, c.2) else c else b

  -- none: an index beyond the vector's end.
  unfoldable pub flush_ctrl_events : ℕ → List ℕ → List ℕ → Vcpus → S → Option (Bool × Vcpus × S)
  unfolding flush_entry
  flush_ctrl_events vcpu enabled_crs enabled_msrs v s =
      if leb v.vcpu_count vcpu then some (false, v, s) else elim (find vcpu v.vcpu_events) [
        | none ↦ none
        | some e ↦
            let a = initial_view_setup kvmi vcpu v.cached_view v.views s in
            let v' : Vcpus = record v { cached_view = a.1; views = a.2 } in
            let b = flush_entry vcpu v.enabled_events enabled_crs enabled_msrs e a.3 in
            if e.dirty
            then if a.0
              then some (b.0, record v' { vcpu_events = insert vcpu b.1 v'.vcpu_events }, b.2)
              else some (false, v', a.3)
            else some (true, v, s)
      ]
