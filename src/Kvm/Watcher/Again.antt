-- ===== src/Kvm/Watcher/Again.antt =====
-- A guest that connects once more before it was found (src/kvmdomainwatcher.cpp,
-- src/kvmdomainwatcher.h).
use libbdvmi.Common.{
  ℕ, ◌≡◌, ◌≢◌, inl, inr, refl, true, false, none, some, List, [], ◌∷◌, ◌==◌, arith, Bool-cases, Map,
  find, insert, find-insert_self,
}
use libbdvmi.Watcher.{
  DomainInfo, HandlerCall, tell, is_new, is_finished, domain_found, domain_finished,
}
use libbdvmi.Watcher.Told.{running, Alternates, Follows, heard, tell-append}
use libbdvmi.Kvm.Watcher.{
  new, resurrected, KvmDomain, Guests, Poll, queue_connection, look, look_all, reset_safely,
  connect, close,
}
use libbdvmi.Kvm.Watcher.Alternate.{look_other}

tell_more :
    (u : ℕ) (ds : List (DomainInfo ℕ)) (cs : List (HandlerCall ℕ))
    → Alternates u (tell true ds cs)
    → Alternates u cs
tell_more u [] cs a = a
tell_more u (is_new v n ∷ ds) cs a = (tell_more u ds (domain_found v n ∷ cs) a).1
tell_more u (is_finished v ∷ ds) cs a = (tell_more u ds (domain_finished v ∷ cs) a).1

look-resurrected :
    (own k u c n : ℕ) (p : Poll) (d : KvmDomain) (cs : List (HandlerCall ℕ))
    → (k == u) ≡ true
    → d.ctx ≡ some c
    → d.state ≡ resurrected
    → u ≢ own
    → running u cs ≡ false
    → Alternates u (tell true (look own k p n d).0 cs)
    → ⊥
unfolding look
look-resurrected own k u c n p d cs same at s ne f a = ground arith

pub heard-look_resurrected :
    (own u c n : ℕ) (p : Poll) (d : KvmDomain) (cs : List (HandlerCall ℕ))
    → d.ctx ≡ some c
    → d.state ≡ resurrected
    → u ≢ own
    → heard u (tell true (look own u p n d).0 cs)
      ≡ domain_found u n ∷ domain_finished u ∷ heard u cs
unfolding look
heard-look_resurrected own u c n p d cs at s ne = ground arith

-- A guest that was resurrected and was not running is finished although it was not found.
pub look_all-resurrected :
    (own u : ℕ) (polls : ℕ → Poll) (names : ℕ → ℕ) (d : KvmDomain) (m : Map KvmDomain)
    (cs : List (HandlerCall ℕ)) {c : ℕ}
    → d.ctx ≡ some c
    → d.state ≡ resurrected
    → u ≢ own
    → find u m ≡ some d
    → (look_all own polls names m).2 ≡ false
    → Follows u false cs
    → ¬ Alternates u (tell true (look_all own polls names m).0 cs)
unfolding look_all find
look_all-resurrected own u polls names d [] cs {c} at s ne e h f = cc
look_all-resurrected own u polls names d ((k, x) ∷ m) cs {c} at s ne e h f =
    let a = look own k (polls k) (names k) x in
    let rest = look_all own polls names m in
    let quiet : a.2 ≡ false = ground arith in
    elim (Bool-cases (k == u)) [
      | inl same ↦
          let y : some x ≡ some d = rw same at e in
          let gone : ¬ Alternates u (tell true a.0 cs) =
            look-resurrected own k u c (names k) (polls k) x cs same (ground arith) (ground arith)
              ne f.0 in
          rw (quiet, tell-append a.0 rest.0 cs)
            (λ b. gone (tell_more u rest.0 (tell true a.0 cs) b))
      | inr other ↦
          let f' = look_other own k u (names k) false (polls k) x cs other f in
          rw (quiet, tell-append a.0 rest.0 cs)
            (look_all-resurrected own u polls names d m (tell true a.0 cs) at s ne (rw other at e)
              (ground arith) f')
    ]

pub connected_again :
    (u c c' : ℕ) (g : Guests)
    → find u g.known ≡ none
    → find u (queue_connection u c' (queue_connection u c g).1).1.known
      ≡ some (record { ctx = some c'; state = resurrected; closed = (c, true) ∷ [] })
unfolding queue_connection reset_safely close connect
connected_again u c c' g unknown =
    let d : KvmDomain = record { ctx = some c; state = new; closed = [] } in
    let g' : Guests = record g { known = insert u d g.known } in
    let once : queue_connection u c g ≡ (true, g') = rw (unknown, queue_connection) (refl) in
    rw (once, find-insert_self u d g.known)
      (find-insert_self u (record { ctx = some c'; state = resurrected; closed = (c, true) ∷ [] })
        g'.known)
