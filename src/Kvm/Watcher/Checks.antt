-- ===== src/Kvm/Watcher/Checks.antt =====
-- A guest that connects, is served by a child process, and goes (src/kvmdomainwatcher.cpp).
use libbdvmi.Common.{◌≡◌, refl, inl, true, false, none, some, [], ◌∷◌, arith, find, insert}
use libbdvmi.Watcher.{domain_found, domain_finished}
use libbdvmi.Watcher.Told.{running, Alternates, heard}
use libbdvmi.Kvm.Watcher.{
  new, parked, Poll, quiet, lost, Moment, queue_connection, domain_context, forked_handler,
}
use libbdvmi.Kvm.Watcher.System.{
  KvmWatcher, connects, loops, forks, dies, happen, Reached, begin, go,
}
use libbdvmi.Kvm.Watcher.Reach.{Reached-Alternates, Reached-running}
use libbdvmi.Kvm.Watcher.Announce.{LooksAtAll, round-connected, round-parked, twice_connected}
use libbdvmi.Kvm.Watcher.Connect.{queue_connection_outcome, forked_handler_contexts}

abbrev idle : KvmWatcher
idle = record {
  stopped = false;
  suspend_introspector_domain = false;
  has_handler = true;
  ms = 100;
  backend = record { has_kvmi = true; known = []; own_uuid = 9; auth_cookie = 0 };
  calls = [];
  ended = false;
}

abbrev moment : Poll → Moment
moment p = record { polls = λ u. p; names = λ u. u; woken = false }

idle-Reached : Reached idle
idle-Reached = begin (record { none_known = refl; nothing_told = refl; handled = refl })

-- Guest 3 connects, is found, is given to a child process, and goes when that has died.
abbrev connected : KvmWatcher
connected = happen (connects 3 40) idle

abbrev found : KvmWatcher
found = happen (loops false (moment quiet)) connected

abbrev started : KvmWatcher
started = happen (forks 3) found

abbrev served : KvmWatcher
served = happen (dies 3) started

abbrev gone : KvmWatcher
gone = happen (loops false (moment lost)) served

connected-Reached : Reached connected
unfolding find
connected-Reached = go (connects 3 40) idle-Reached (λ d e. cc) refl

found-Reached : Reached found
found-Reached = go (loops false (moment quiet)) connected-Reached tt refl

started-Reached : Reached started
unfolding happen find insert
started-Reached = go (forks 3) found-Reached refl refl

served-Reached : Reached served
unfolding happen find insert
served-Reached = go (dies 3) started-Reached (_, refl, refl) refl

gone-Reached : Reached gone
gone-Reached = go (loops false (moment lost)) served-Reached tt refl

gone-calls : gone.calls ≡ domain_finished 3 ∷ domain_found 3 3 ∷ []
unfolding happen find insert
gone-calls = refl

Reached-Alternates_example : Alternates 3 gone.calls
Reached-Alternates_example = Reached-Alternates gone-Reached 3

Reached-running_example : running 3 found.calls ≡ true
unfolding happen find insert
Reached-running_example = Reached-running found-Reached refl 3

looks-connected : LooksAtAll false (moment quiet) connected
unfolding happen find insert
looks-connected = record { unsignalled = refl; on = refl; loaded = refl; through = refl }

round-connected_example :
    (running 3 found.calls ≡ true)
    × (find 3 found.backend.known ≡ some (record { ctx = some 40; state = parked; closed = [] }))
    × (heard 3 found.calls ≡ domain_found 3 3 ∷ [])
unfolding happen find insert
round-connected_example =
    round-connected connected-Reached false (moment quiet) looks-connected 3
      (record { ctx = some 40; state = new; closed = [] }) refl 40 refl (inl refl) (omega arith)

looks-served : LooksAtAll false (moment lost) served
unfolding happen find insert
looks-served = record { unsignalled = refl; on = refl; loaded = refl; through = refl }

round-parked_example :
    (running 3 gone.calls ≡ false)
    × (heard 3 gone.calls ≡ domain_finished 3 ∷ domain_found 3 3 ∷ [])
    × (find 3 gone.backend.known
        ≡ some (record { ctx = none; state = new; closed = (40, true) ∷ [] }))
unfolding happen find insert
round-parked_example =
    round-parked served-Reached false (moment lost) looks-served 3
      (record { ctx = some 40; state = parked; closed = [] }) refl 40 refl refl (omega arith)

-- The same guest connects once more before the loop looks at it.
abbrev again : KvmWatcher
again = happen (connects 3 41) connected

looks-again : LooksAtAll false (moment quiet) again
unfolding happen find insert
looks-again = record { unsignalled = refl; on = refl; loaded = refl; through = refl }

twice_connected_example :
    (running 3 idle.calls ≡ false)
    × (heard 3 (happen (loops false (moment quiet)) again).calls
        ≡ domain_found 3 3 ∷ domain_finished 3 ∷ [])
    × ¬ Alternates 3 (happen (loops false (moment quiet)) again).calls
unfolding find
twice_connected_example =
    twice_connected idle-Reached false (moment quiet) 3 40 41 (omega arith) refl looks-again

queue_connection_outcome_run :
    let r = queue_connection 3 42 started.backend in
    (r.0 ≡ false) × (domain_context 3 r.1 ≡ some 40)
unfolding happen find insert domain_context
queue_connection_outcome_run = queue_connection_outcome 3 42 3 started.backend

forked_handler_contexts_run :
    domain_context 4 (forked_handler 3 false (queue_connection 4 50 started.backend).1) ≡ none
forked_handler_contexts_run =
    forked_handler_contexts 3 4 false (queue_connection 4 50 started.backend).1
