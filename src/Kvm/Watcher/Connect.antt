-- ===== src/Kvm/Watcher/Connect.antt =====
-- Connections of guests, and those that a child process keeps (src/kvmdomainwatcher.cpp).
use libbdvmi.Common.{
  ℕ, ◌≡◌, Bool, false, ◌&&◌, not, Option, none, some, [], ◌∷◌, ◌==◌, arith, Map, find, find-insert,
  if◌then◌else◌, is_some,
}
use libbdvmi.Kvm.Watcher.{
  KvmDomain, Guests, is_forked, queue_connection, reset_safely, connect, close, domain_context,
  forked_handler, keep_only,
}

-- Whether a child process has the guest's connection.
abbrev child_has : Option KvmDomain → Bool
child_has none = false
child_has (some d) = is_some d.ctx && is_forked d.state

-- A connection is refused exactly if a child process has the older one of the guest, and then
-- nothing changes; else it is the guest's connection from then on. Other guests keep theirs.
pub queue_connection_outcome :
    (u c v : ℕ) (g : Guests)
    → let r = queue_connection u c g in
      (r.0 ≡ not (child_has (find u g.known)))
      × (domain_context v r.1 ≡ (if r.0 && (u == v) then some c else domain_context v g))
unfolding queue_connection domain_context reset_safely close connect
queue_connection_outcome u c v g = grind (arith, find-insert)

find-keep_only :
    (u v : ℕ) (m : Map KvmDomain) → find v (keep_only u m).1 ≡ (if v == u then find v m else none)
unfolding keep_only find
find-keep_only u v [] = ground arith
find-keep_only u v ((k, d) ∷ m) = ground (arith, find-keep_only u v m)

-- After a fork the child process has the connection of its own guest and no other; the parent has
-- all.
pub forked_handler_contexts :
    (u v : ℕ) (parent : Bool) (g : Guests)
    → domain_context v (forked_handler u parent g)
      ≡ (if parent then domain_context v g else if v == u then domain_context v g else none)
unfolding domain_context forked_handler
forked_handler_contexts u v parent g = ground (arith, find-keep_only u v g.known)
