-- ===== src/Kvm/Pause.antt =====
-- Pausing the virtual processors (src/kvmdriver.cpp): the nested pauses of the application, the lock
-- that keeps the event loop waiting meanwhile, and the pause events that the hypervisor still owes.
pub mod Owed
mod Checks
use libbdvmi.Common.{
  ℕ, zero, suc, ◌+◌, ◌-◌, Bool, true, false, ◌&&◌, ◌||◌, Option, none, some, ◌==◌, if◌then◌else◌,
  not,
}

-- `locked` says whether eventProcessingMutex_ is held from a pause() on, and `misused` whether it
-- has been unlocked while it was not, which C++ leaves undefined. By which thread it is held is not recorded.
pub record Pauses : Type 0 where
  pub pause_count : ℕ
  pub pending_pause_events : ℕ
  pub locked : Bool
  pub misused : Bool

-- pause() has three sections, and other threads may run between them. In the first, under
-- pauseMutex_, a pause is counted; the result is whether pause() goes on, and has not returned true.
unfoldable pub count_pause : Pauses → Bool × Pauses
count_pause p = (p.pause_count == 0, record p { pause_count = p.pause_count + 1 })

-- The second waits for eventProcessingMutex_ and takes it; none: it is held, and the thread waits on.
unfoldable pub lock_events : Pauses → Option Pauses
lock_events p = if p.locked then none else some (record p { locked = true })

-- The third, pauseAllVcpus(), under pauseMutex_ again; `granted` is whether kvmi_pause_all_vcpus
-- succeeds.
unfoldable pub pause_all_vcpus : ℕ → Bool → Pauses → Bool × Pauses
pause_all_vcpus vcpu_count granted p =
    if granted
    then (true, record p { pending_pause_events = p.pending_pause_events + vcpu_count })
    else (false, p)

-- Under pauseMutex_ throughout.
unfoldable pub unpause : Pauses → Bool × Pauses
unpause p = if p.pause_count == 0 then (true, p) else (
  true,
  if p.pause_count - 1 == 0
      then record p { pause_count = 0; locked = false; misused = p.misused || not p.locked }
      else record p { pause_count = p.pause_count - 1 },
)

-- kickAllVcpus(): `queued` is whether all its messages are queued, `committed` whether their batch is
-- sent. Only the sending and the count are under pauseMutex_; what comes before changes no count.
unfoldable pub kick_all_vcpus : ℕ → Bool → Bool → Pauses → Bool × Pauses
kick_all_vcpus vcpu_count queued committed p =
    if queued && committed
    then (true, record p { pending_pause_events = p.pending_pause_events + vcpu_count })
    else (false, p)

unfoldable pub pause_event_received : Pauses → Pauses
pause_event_received p =
    if p.pending_pause_events == 0
    then p
    else record p { pending_pause_events = p.pending_pause_events - 1 }

-- Whether waitForUnpause() comes through.
abbrev pub may_go_on : Pauses → Bool
may_go_on p = not p.locked
