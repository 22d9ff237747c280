-- ===== src/Kvm/Watcher/Announce.antt =====
-- When a guest is found or finished by a round of the loop (src/kvmdomainwatcher.cpp,
-- src/domainwatcher.cpp).
use libbdvmi.Common.{
  ℕ, ◌≡◌, ◌≢◌, ◌⊎◌, inl, inr, refl, Bool, true, false, none, some, [], ◌∷◌, ◌==◌, arith, Bool-cases,
  Map, Ordered, find, if◌then◌else◌, subst, ◌∙◌, ap,
}
use libbdvmi.Watcher.{round, tell, domain_found, domain_finished}
use libbdvmi.Watcher.Told.{running, Alternates, Follows, heard}
use libbdvmi.Kvm.Watcher.{
  new, parked, resurrected, KvmDomain, Moment, Poll, quiet, queue_connection, look, look_all,
  wait_for_domains_or_timeout, park, close,
}
use libbdvmi.Kvm.Watcher.Alternate.{is_new_state, told}
use libbdvmi.Kvm.Watcher.Heard.{heard-look_all}
use libbdvmi.Kvm.Watcher.Again.{look_all-resurrected, connected_again, heard-look_resurrected}
use libbdvmi.Kvm.Watcher.System.{KvmWatcher, connects, loops, happen, Reached}
use libbdvmi.Kvm.Watcher.InStep.{InStep, known-Ordered, own-handlers, tell_nothing}
use libbdvmi.Kvm.Watcher.Reach.{Reached-InStep, Entry-running, round-InStep}

abbrev is_quiet : Poll → Bool
is_quiet quiet = true
is_quiet _ = false

-- A round that looks at every guest: not stopped, libkvmi loaded, and no event of the own guest.
pub record LooksAtAll (sig_stop : Bool) (t : Moment) (w : KvmWatcher) : Type 0 where
  pub unsignalled : sig_stop ≡ false
  pub on : w.stopped ≡ false
  pub loaded : w.backend.has_kvmi ≡ true
  pub through : (look_all w.backend.own_uuid t.polls t.names w.backend.known).2 ≡ false

round-looks :
    (sig_stop : Bool) (t : Moment) (w : KvmWatcher)
    → w.has_handler ≡ true
    → LooksAtAll sig_stop t w
    → let w' = round wait_for_domains_or_timeout sig_stop t w in
      let r = look_all w.backend.own_uuid t.polls t.names w.backend.known in
      (w'.backend.known ≡ r.1)
      × (w'.calls ≡ tell true r.0 w.calls)
      × (w'.backend.own_uuid ≡ w.backend.own_uuid)
      × (w'.stopped ≡ false)
unfolding round wait_for_domains_or_timeout
round-looks sig_stop t w h l = ground (
  arith,
  tell_nothing (look_all w.backend.own_uuid t.polls t.names w.backend.known).0 t.woken w.calls,
)

find-look_all :
    (own u : ℕ) (polls : ℕ → Poll) (names : ℕ → ℕ) (d : KvmDomain) (m : Map KvmDomain)
    → (look_all own polls names m).2 ≡ false
    → find u m ≡ some d
    → find u (look_all own polls names m).1 ≡ some (look own u (polls u) (names u) d).1
unfolding look_all find
find-look_all own u polls names d [] e h = cc
find-look_all own u polls names d ((k, x) ∷ m) e h =
    let quiet : (look own k (polls k) (names k) x).2 ≡ false = ground arith in
    elim (Bool-cases (k == u)) [
      | inl same ↦
          let at : k ≡ u = ground arith in
          let y : some x ≡ some d = rw same at h in rw (quiet, same) (cc)
      | inr other ↦
          rw (quiet, other) (find-look_all own u polls names d m (ground arith) (rw other at h))
    ]

module _ {w : KvmWatcher} (r : Reached w) (sig_stop : Bool) (t : Moment)
    (l : LooksAtAll sig_stop t w) (u : ℕ) (d : KvmDomain)
    (known : find u w.backend.known ≡ some d) where
  round-running :
      let d' = (look w.backend.own_uuid u (t.polls u) (t.names u) d).1 in
      let w' = happen (loops sig_stop t) w in
      (find u w'.backend.known ≡ some d')
      × (running u w'.calls ≡ told w.backend.own_uuid u (some d'))
      × (heard u w'.calls
          ≡ heard u (tell true (look w.backend.own_uuid u (t.polls u) (t.names u) d).0 w.calls))
  unfolding happen
  round-running =
      let i = Reached-InStep r in
      let f = round-looks sig_stop t w i.handled l in
      let w' = round wait_for_domains_or_timeout sig_stop t w in
      let j : InStep w' = round-InStep sig_stop t w i in
      let e =
        find-look_all w.backend.own_uuid u t.polls t.names d w.backend.known l.through known in
      let at : find u w'.backend.known
          ≡ some (look w.backend.own_uuid u (t.polls u) (t.names u) d).1 =
        ap (find u) f.0 ∙ e in
      (
        at,
        Entry-running w'.backend.own_uuid u _ w'.calls (j.agrees f.3 u) ∙ rw (at, f.2) (refl),
        ap (heard u) f.1
            ∙ heard-look_all w.backend.own_uuid u t.polls t.names 0 w.backend.known d w.calls
                i.ordered l.through known,
      )

  -- In a reached state, a guest that is not the introspector's own and has connected, for the first
  -- time (its state is NEW) or once more (RESURRECTED), is found by the next round that looks at all
  -- guests, and is then parked. In that round the handler hears of it exactly this: in the second
  -- case that it is finished, and then, in both, that it is found, with its name.
  pub round-connected :
      (c : ℕ)
      → d.ctx ≡ some c
      → (d.state ≡ new) ⊎ (d.state ≡ resurrected)
      → u ≢ w.backend.own_uuid
      → let w' = happen (loops sig_stop t) w in
        (running u w'.calls ≡ true)
        × (find u w'.backend.known ≡ some (park d))
        × (heard u w'.calls
            ≡ domain_found u (t.names u)
              ∷ (if is_new_state d.state
                  then heard u w.calls
                  else domain_finished u ∷ heard u w.calls))
  unfolding look park
  round-connected c at s ne = ground (arith, round-running)

  -- In a reached state, a parked guest with a connection that is not the introspector's own, and
  -- whose socket has an event or an error, is finished by a round that looks at all guests: the
  -- handler hears that once and nothing else of the guest, and its connection is closed with a
  -- shutdown. Of one whose socket is quiet the handler hears nothing, and it goes on running as it is.
  pub round-parked :
      (c : ℕ)
      → d.ctx ≡ some c
      → d.state ≡ parked
      → u ≢ w.backend.own_uuid
      → let w' = happen (loops sig_stop t) w in
        (running u w'.calls ≡ is_quiet (t.polls u))
        × (heard u w'.calls ≡ (
            if is_quiet (t.polls u) then heard u w.calls else domain_finished u ∷ heard u w.calls))
        × (find u w'.backend.known
            ≡ some (
                if is_quiet (t.polls u)
                then d
                else record { ctx = none; state = new; closed = (c, true) ∷ d.closed }))
  unfolding look close
  round-parked c at s ne = ground (arith, round-running)

-- In a reached state in which a guest, not the introspector's own, is not known: it is not running.
-- If it connects twice before the next round, and that round looks at all guests, then the handler
-- hears of the guest, in that round, that it is finished and then that it is found, so that what it
-- has been told of the guest is no longer found and finished in turn, first found.
pub twice_connected :
    {w : KvmWatcher}
    → Reached w
    → (sig_stop : Bool) (t : Moment) (u c c' : ℕ) → u ≢ w.backend.own_uuid
    → find u w.backend.known ≡ none
    → let w' = happen (connects u c') (happen (connects u c) w) in
      let w'' = happen (loops sig_stop t) w' in
      LooksAtAll sig_stop t w'
      → (running u w.calls ≡ false)
        × (heard u w''.calls ≡ domain_found u (t.names u) ∷ domain_finished u ∷ heard u w.calls)
        × ¬ Alternates u w''.calls
unfolding happen
twice_connected {w} r sig_stop t u c c' ne unknown l =
    let i = Reached-InStep r in
    let f : Follows u false w.calls = rw unknown at (i.agrees l.on u) in
    let d : KvmDomain = record { ctx = some c'; state = resurrected; closed = (c, true) ∷ [] } in
    let e = connected_again u c c' w.backend unknown in
    let w' = happen (connects u c') (happen (connects u c) w) in
    let ne' : u ≢ w'.backend.own_uuid = λ q. ne (
      q
      ∙ (own-handlers u c' (queue_connection u c w.backend).1).0
      ∙ (own-handlers u c w.backend).0) in
    let g = round-looks sig_stop t w' i.handled l in
    let o : Ordered w'.backend.known =
      (known-Ordered u c' (queue_connection u c w.backend).1
        (known-Ordered u c w.backend i.ordered).0).0 in
    (
      f.0,
      ap (heard u) g.1
          ∙ heard-look_all w'.backend.own_uuid u t.polls t.names 0 w'.backend.known d w.calls o
              l.through e
          ∙ heard-look_resurrected w'.backend.own_uuid u c' (t.names u) (t.polls u) d w.calls refl
              refl ne',
      λ b.
          look_all-resurrected w'.backend.own_uuid u t.polls t.names d w'.backend.known w.calls refl
            refl ne' e l.through f (subst (Alternates u) g.1 b),
    )
