-- ===== src/Kvm/Vcpus/InRange.antt =====
-- The vector of the processors in src/kvmdriver.cpp has an entry for each processor.
use libbdvmi.Common.{
  ℕ, zero, suc, ◌+◌, ◌<◌, ◌≡◌, ◌≢◌, refl, Bool, true, false, ◌&&◌, Option, none, some, List, [],
  ◌∷◌, arith, ltb, leb, ◌==◌, if◌then◌else◌, Map, find, insert, find-insert, Option-cases,
  Bool-cases, inl, inr,
}
use libbdvmi.Kvm.Kvmi.{Kvmi}
use libbdvmi.Kvm.Control.{VcpuEvents, new_vcpu_events}
use libbdvmi.Kvm.Views.{initial_view_setup}
use libbdvmi.Kvm.Vcpus.{
  Vcpus, update_vcpu_count, resize, all_dirty, set_vcpu_events_later, clear_vcpu_event,
  clear_vcpu_events, flush_entry, flush_ctrl_events,
}

abbrev pub InRange : Vcpus → Type 0
InRange v = (i : ℕ) → i < v.vcpu_count → find i v.vcpu_events ≢ none

pub find-resize :
    (left id w : ℕ) (m : Map VcpuEvents)
    → find w (resize left id m) ≡ (
        if leb id w && ltb w (id + left)
        then some (elim (find w m) [ none ↦ new_vcpu_events | some e ↦ e ])
        else none)
unfolding find resize
find-resize zero id w m = ground arith
find-resize (suc left) id w m = ground (arith, find-resize left (id + 1) w m)

pub update_vcpu_count-InRange :
    (answer : Option ℕ) (v : Vcpus) → InRange v → InRange (update_vcpu_count answer v).1
unfolding update_vcpu_count
update_vcpu_count-InRange none v r = r
update_vcpu_count-InRange (some count) v r =
    λ i small lost. ground (arith, find-resize count 0 i v.vcpu_events)

pub find-all_dirty :
    (i : ℕ) (m : Map VcpuEvents)
    → find i (all_dirty m)
      ≡ elim (find i m) [ none ↦ none | some e ↦ some (record e { dirty = true }) ]
unfolding find all_dirty
find-all_dirty i [] = refl
find-all_dirty i ((k, x) ∷ m) = elim (Bool-cases (k == i)) [
  | inl same ↦ rw same refl
  | inr other ↦ rw other (find-all_dirty i m)
]

none-all_dirty : (i : ℕ) (m : Map VcpuEvents) → find i (all_dirty m) ≡ none → find i m ≡ none
none-all_dirty i m lost = elim (Option-cases (find i m)) [
  | inl missing ↦ missing
  | inr (e, here) ↦ absurd (ground (arith, find-all_dirty i m))
]

pub set_vcpu_events_later-InRange :
    (id : ℕ) (v : Vcpus) → InRange v → InRange (set_vcpu_events_later id v)
unfolding set_vcpu_events_later
set_vcpu_events_later-InRange id v r i small lost = r i small (none-all_dirty i v.vcpu_events lost)

pub clear_vcpu_event-InRange : (id : ℕ) (v : Vcpus) → InRange v → InRange (clear_vcpu_event id v)
unfolding clear_vcpu_event
clear_vcpu_event-InRange id v r i small lost = r i small (none-all_dirty i v.vcpu_events lost)

pub clear_vcpu_events-InRange : (v : Vcpus) → InRange v → InRange (clear_vcpu_events v)
unfolding clear_vcpu_events
clear_vcpu_events-InRange v r i small lost = r i small (none-all_dirty i v.vcpu_events lost)

insert_kept :
    (k i : ℕ) (e : VcpuEvents) (m : Map VcpuEvents) → find i (insert k e m) ≡ none → find i m ≡ none
insert_kept k i e m lost = ground (arith, find-insert k i e m)

-- A flush never reads beyond the vector, and the vector keeps its entries.
pub flush_ctrl_events-InRange :
    {S : Type 0} (kvmi : Kvmi S) (num vcpu : ℕ) (crs msrs : List ℕ) (v : Vcpus) (s : S)
    → InRange v
    → (ok : Bool) × (v' : Vcpus) × (s' : S) × (flush_ctrl_events kvmi num vcpu crs msrs v s
        ≡ some (ok, v', s'))
      × InRange v'
unfolding flush_ctrl_events
flush_ctrl_events-InRange kvmi num vcpu crs msrs v s r =
    let a = initial_view_setup kvmi vcpu v.cached_view v.views s in
    let v1 : Vcpus = record v { cached_view = a.1; views = a.2 } in
    elim (Bool-cases (leb v.vcpu_count vcpu)) [
      | inl beyond ↦ (false, v, s, rw (beyond, flush_ctrl_events), r)
      | inr inside ↦ elim (Option-cases (find vcpu v.vcpu_events)) [
        | inl missing ↦ absurd (r vcpu (ground arith) missing)
        | inr (e, here) ↦ elim (Bool-cases e.dirty) [
          | inr clean ↦ (true, v, s, rw (inside, here, clean, flush_ctrl_events), r)
          | inl dirty ↦
              let b = flush_entry kvmi num vcpu v.enabled_events crs msrs e a.3 in
              elim (Bool-cases a.0) [
                | inr failed ↦
                    (false, v1, a.3, rw (inside, here, dirty, failed, flush_ctrl_events), r)
                | inl set ↦ (
                  b.0,
                  record v1 { vcpu_events = insert vcpu b.1 v1.vcpu_events },
                  b.2,
                  rw (inside, here, dirty, set, flush_ctrl_events),
                  λ i small lost. r i small (insert_kept vcpu i b.1 v.vcpu_events lost),
                )
              ]
        ]
      ]
    ]
