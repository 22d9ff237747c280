-- ===== src/Kvm/Pause/Owed.antt =====
-- However the threads of an application interleave, the count of the pause events that are waited for
-- is that of the events the hypervisor owes, and matched pauses keep the event loop waiting
-- (src/kvmdriver.cpp).
use libbdvmi.Common.{
  ℕ, ◌+◌, ◌-◌, ◌≤◌, ◌<◌, ◌≡◌, refl, Bool, true, false, ◌&&◌, ◌||◌, none, some, arith, ltb, ◌==◌,
  if◌then◌else◌, subst,
}
use libbdvmi.Kvm.Pause.{
  Pauses, count_pause, lock_events, pause_all_vcpus, unpause, kick_all_vcpus, pause_event_received,
  may_go_on,
}

-- The driver's counts; the threads that stand in pause() between its first and its second section,
-- and between its second and its third; the calls of pause() that have returned and that no unpause()
-- has followed; and how many pause events the hypervisor will still deliver: one for each processor
-- that it was successfully asked to pause.
pub record System : Type 0 where
  pub pauses : Pauses
  pub locking : ℕ
  pub asking : ℕ
  pub returned : ℕ
  pub owed : ℕ

-- One section of a call of the driver by some thread, or the delivery of a pause event to the event
-- loop. The number of processors may be another one each time.
pub data Event : Type 0 where
  counts locks unpauses delivers : Event
  asks : ℕ → Bool → Event
  kicks : ℕ → Bool → Bool → Event

unfoldable pub go : Event → System → System
unfolding count_pause lock_events pause_all_vcpus unpause kick_all_vcpus pause_event_received
go counts s =
    let r = count_pause s.pauses in
    let t : System = record s { pauses = r.1 } in
    if r.0 then record t { locking = s.locking + 1 } else record t { returned = s.returned + 1 }
go locks s = elim (lock_events s.pauses) [
  | none ↦ s
  | some p ↦ record s { pauses = p; locking = s.locking - 1; asking = s.asking + 1 }
]
go (asks count granted) s = record s {
  pauses = (pause_all_vcpus count granted s.pauses).1;
  asking = s.asking - 1;
  returned = s.returned + 1;
  owed = if granted then s.owed + count else s.owed;
}
go unpauses s = record s { pauses = (unpause s.pauses).1; returned = s.returned - 1 }
go (kicks count queued committed) s = record s {
  pauses = (kick_all_vcpus count queued committed s.pauses).1;
  owed = if queued && committed then s.owed + count else s.owed;
}
go delivers s = record s { pauses = pause_event_received s.pauses; owed = s.owed - 1 }

-- A thread must stand where it goes on from, and an event must be owed. With `matched`, unpause() is
-- only called for a pause() that has returned.
abbrev pub Enabled : Bool → Event → System → Type 0
Enabled matched counts s = Unit
Enabled matched locks s = 0 < s.locking
Enabled matched (asks count granted) s = 0 < s.asking
Enabled matched unpauses s = matched ≡ true → 0 < s.returned
Enabled matched (kicks count queued committed) s = Unit
Enabled matched delivers s = 0 < s.owed

pub data Reach (matched : Bool) (s : System) : System → Type 0 where
  here : Reach matched s s
  next :
      {t u : System} (e : Event)
      → Reach matched s t
      → Enabled matched e t
      → u ≡ go e t
      → Reach matched s u

abbrev pub start : System
start = record {
  pauses = record { pause_count = 0; pending_pause_events = 0; locked = false; misused = false };
  locking = 0;
  asking = 0;
  returned = 0;
  owed = 0;
}

-- What matched calls keep.
record Matched (s : System) : Type 0 where
  open_calls : s.pauses.pause_count ≡ s.returned + s.asking + s.locking
  one : s.locking ≤ 1
  locks_at : s.pauses.locked ≡ (ltb 0 s.pauses.pause_count && (s.locking == 0))
  fine : s.pauses.misused ≡ false

go-owed :
    (m : Bool) (e : Event) (s : System)
    → Enabled m e s
    → s.pauses.pending_pause_events ≡ s.owed
    → (go e s).pauses.pending_pause_events ≡ (go e s).owed
unfolding go count_pause lock_events pause_all_vcpus unpause kick_all_vcpus pause_event_received
go-owed m counts s h i = ground arith
go-owed m locks s h i = ground arith
go-owed m (asks count granted) s h i = ground arith
go-owed m unpauses s h i = ground arith
go-owed m (kicks count queued committed) s h i = ground arith
go-owed m delivers s h i = ground arith

go-Matched : (e : Event) (s : System) → Enabled true e s → Matched s → Matched (go e s)
unfolding go count_pause lock_events pause_all_vcpus unpause kick_all_vcpus pause_event_received
go-Matched counts s h i = ground arith
go-Matched locks s h i = ground arith
go-Matched (asks count granted) s h i = ground arith
go-Matched unpauses s h i = ground (arith, h refl)
go-Matched (kicks count queued committed) s h i = ground arith
go-Matched delivers s h i = ground arith

Reach-owed : {m : Bool} {s : System} → Reach m start s → s.pauses.pending_pause_events ≡ s.owed
Reach-owed here = refl
Reach-owed {m} (next {t} {u} e r h q) = rw q (go-owed m e t h (Reach-owed r))

Reach-Matched : {s : System} → Reach true start s → Matched s
Reach-Matched here = record { open_calls = refl; one = omega arith; locks_at = refl; fine = refl }
Reach-Matched (next {t} {u} e r h q) = rw q (go-Matched e t h (Reach-Matched r))

-- In every state that is reached, by any interleaving of the sections of pause(), nested or not, of
-- unpauses, matched or not, of requests for events and of deliveries, granted or refused: the events
-- that are waited for are exactly those which the hypervisor owes. If unpause() is only called for a
-- pause() that has returned, then further the pauses that are counted are the calls of pause() that
-- are under way or not undone, eventProcessingMutex_ is never unlocked while it is not held, and the event loop may go on
-- exactly if no pause is counted or the thread of the first one has not taken the mutex yet.
pub Reach-Inv :
    {matched : Bool} {s : System}
    → Reach matched start s
    → (s.pauses.pending_pause_events ≡ s.owed)
      × (matched ≡ true
          → (s.pauses.pause_count ≡ s.returned + s.asking + s.locking)
            × (s.pauses.misused ≡ false)
            × (may_go_on s.pauses ≡ ((s.pauses.pause_count == 0) || ltb 0 s.locking)))
Reach-Inv {matched} {s} r = (
  Reach-owed r,
  λ e.
      let i = Reach-Matched (subst (λ m. Reach m start s) e r) in
      (i.open_calls, i.fine, ground arith),
)

-- An unpause() that no pause() has come before, between the first two sections of the first pause():
-- nothing is counted then, but the event loop waits, and no unpause() lets it go on.
pub unmatched-unpause :
    (s : System)
    → s.pauses.pause_count ≡ 0
    → s.pauses.locked ≡ false
    → let t = go locks (go unpauses (go counts s)) in
      (t.pauses.pause_count ≡ 0)
      × (t.pauses.misused ≡ true)
      × (may_go_on t.pauses ≡ false)
      × (may_go_on (go unpauses t).pauses ≡ false)
unfolding go count_pause lock_events unpause
unmatched-unpause s none_open free = ground arith
