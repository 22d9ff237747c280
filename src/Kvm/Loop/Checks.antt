-- ===== src/Kvm/Loop/Checks.antt =====
-- The loop of src/kvmeventmanager.cpp on concrete arrivals.
use libbdvmi.Common.{ℕ, ◌≡◌, refl, ◌++◌, true, false, none, some, List, [], ◌∷◌, arith}
use libbdvmi.Kvm.Granting.{Machine, granting}
use libbdvmi.Kvm.Events.{KvmSession, unhook_event}
use libbdvmi.Kvm.Events.Samples.{skipping, fault, session, session-Idle, skipping-Fair}
use libbdvmi.Kvm.Loop.{came, timed_out, Arrival, get_event_msg, wait_for_events}
use libbdvmi.Kvm.Loop.Rounds.{answers, rev_onto, events, Good, session_of}
use libbdvmi.Kvm.Loop.Served.{wait_for_events-answers}

-- A time-out, an event, and the end.
abbrev arrivals : List (Arrival Machine)
arrivals =
    record { sig_stop = false; connected = true; waited = timed_out; popped = none }
    ∷ record { sig_stop = false; connected = true; waited = came; popped = some (skipping, fault) }
    ∷ record {
      sig_stop = false;
      connected = true;
      waited = came;
      popped = some (skipping, record fault { event = unhook_event });
    }
    ∷ []

arrivals-Good : Good arrivals
unfolding get_event_msg
arrivals-Good = (tt, ((skipping-Fair, λ c. refl, refl), ((skipping-Fair, λ c. refl, refl), tt)))

wait_for_events-answers_example :
    (s' : KvmSession Machine) × (done rest : List (ℕ × ℕ)) × (session_of
        (wait_for_events granting 16 2 arrivals session)
      ≡ some s')
    × (events arrivals ≡ done ++ rest)
    × (answers s'.outbox.sent ≡ rev_onto done [])
wait_for_events-answers_example =
    let r =
      wait_for_events-answers granting 16 2 (omega arith) arrivals session arrivals-Good
        session-Idle in
    (r.0, r.1, r.2, r.3, r.4, r.5)
