-- ===== src/Kvm/Watcher/System.antt =====
-- The watcher of the KVM guests with its application: what can happen, one thing after the other
-- (src/kvmdomainwatcher.cpp, src/domainwatcher.cpp).
use libbdvmi.Common.{ℕ, ◌≡◌, Bool, true, none, some, [], find}
use libbdvmi.Watcher.{Watcher, round, stop}
use libbdvmi.Watcher.Told.{running}
use libbdvmi.Kvm.Watcher.{
  new, forked, KvmDomain, Guests, Moment, queue_connection, wait_for_domains_or_timeout,
  forking_handler, died_handler,
}

abbrev pub KvmWatcher : Type 0
KvmWatcher = Watcher ℕ Guests

-- A guest connects, the loop goes round, and the application calls: before it starts the child of a
-- guest, when that child has died, and to end the loop.
pub data Happening : Type 0 where
  connects : ℕ → ℕ → Happening
  loops : Bool → Moment → Happening
  forks : ℕ → Happening
  dies : ℕ → Happening
  stops : Happening

unfoldable pub happen : Happening → KvmWatcher → KvmWatcher
unfolding queue_connection round wait_for_domains_or_timeout forking_handler died_handler stop
happen (connects u c) w = record w { backend = (queue_connection u c w.backend).1 }
happen (loops sig_stop t) w = round wait_for_domains_or_timeout sig_stop t w
happen (forks u) w = record w { backend = forking_handler u w.backend }
happen (dies u) w = record w { backend = died_handler u w.backend }
happen stops w = stop w

-- A child is started for a guest that was found and not finished, and only a child that was started
-- dies. A guest whose connection the loop has not looked at yet does not connect once more.
abbrev pub Allowed : Happening → KvmWatcher → Type 0
Allowed (connects u c) w =
    (d : KvmDomain) → find u w.backend.known ≡ some d → d.state ≡ new → d.ctx ≡ none
Allowed (loops sig_stop t) w = Unit
Allowed (forks u) w = running u w.calls ≡ true
Allowed (dies u) w = (d : KvmDomain) × (find u w.backend.known ≡ some d) × (d.state ≡ forked)
Allowed stops w = Unit

-- No guest yet, and nobody told of anything, but with a handler.
pub record Starts (w : KvmWatcher) : Type 0 where
  pub none_known : w.backend.known ≡ []
  pub nothing_told : w.calls ≡ []
  pub handled : w.has_handler ≡ true

pub data Reached : KvmWatcher → Type 0 where
  begin : {w : KvmWatcher} → Starts w → Reached w
  go : {w w' : KvmWatcher} (e : Happening) → Reached w → Allowed e w → w' ≡ happen e w → Reached w'
