-- ===== src/Kvm/Pause/Checks.antt =====
-- Pauses of src/kvmdriver.cpp on concrete interleavings.
use libbdvmi.Common.{◌≡◌, refl, true, false, arith, ◌==◌, ◌||◌, ltb}
use libbdvmi.Kvm.Pause.{count_pause, lock_events, pause_all_vcpus, pause_event_received, may_go_on}
use libbdvmi.Kvm.Pause.Owed.{
  System, counts, locks, asks, unpauses, delivers, go, Reach, here, next, start, Reach-Inv,
  unmatched-unpause,
}

-- A pause of two processors, the first of the two events, and a second pause; before it locks, the
-- first thread is overtaken by the second.
abbrev delivered : System
delivered = record {
  pauses = record { pause_count = 2; pending_pause_events = 1; locked = true; misused = false };
  locking = 0;
  asking = 0;
  returned = 2;
  owed = 1;
}

run : Reach true start delivered
unfolding go count_pause lock_events pause_all_vcpus pause_event_received
run =
    next delivers
      (next (asks 2 true)
        (next locks (next counts (next counts here tt refl) tt refl) (omega arith) refl)
        (omega arith) refl)
      (omega arith) refl

Reach-Inv_example :
    (delivered.pauses.pending_pause_events ≡ delivered.owed)
    × (may_go_on delivered.pauses
        ≡ ((delivered.pauses.pause_count == 0) || ltb 0 delivered.locking))
Reach-Inv_example = let r = Reach-Inv run in (r.0, (r.1 refl).2)

unmatched-unpause_run : may_go_on (go locks (go unpauses (go counts start))).pauses ≡ false
unmatched-unpause_run = (unmatched-unpause start refl refl).2
