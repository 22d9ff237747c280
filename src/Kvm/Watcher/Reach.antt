-- ===== src/Kvm/Watcher/Reach.antt =====
-- Every guest is found and finished in turn (src/kvmdomainwatcher.cpp, src/domainwatcher.cpp).
use libbdvmi.Common.{
  ℕ, ◌≡◌, refl, Bool, true, false, ◌||◌, Option, none, some, List, arith, Bool-cases, inl, inr,
  find, Ordered, if◌then◌else◌, is_empty, subst, sym,
}
use libbdvmi.Watcher.{HandlerCall, round, stop, tell}
use libbdvmi.Watcher.Told.{running, Alternates}
use libbdvmi.Kvm.Watcher.{
  KvmDomain, Moment, queue_connection, look_all, wait_for_domains_or_timeout, forking_handler,
  died_handler,
}
use libbdvmi.Kvm.Watcher.Alternate.{Entry, told, look_all-OrderedFrom, look_all-Entry}
use libbdvmi.Kvm.Watcher.System.{
  KvmWatcher, Happening, connects, loops, forks, dies, stops, happen, Allowed, Reached, begin, go,
}
use libbdvmi.Kvm.Watcher.InStep.{
  Entry-Alternates, Entry-cleanup, InStep, change-InStep, died_handler-Entry, forking_handler-Entry,
  known-Ordered, others_kept, own-handlers, queue_connection-Entry, tell_nothing,
}

pub round-InStep :
    (sig_stop : Bool) (t : Moment) (w : KvmWatcher)
    → InStep w
    → InStep (round wait_for_domains_or_timeout sig_stop t w)
unfolding round wait_for_domains_or_timeout
round-InStep sig_stop t w i = elim (Bool-cases (sig_stop || w.stopped)) [
  | inl ends ↦
      rw (ends, i.handled)
        record {
          handled = refl;
          ordered = i.ordered;
          alternates = i.alternates;
          agrees = λ on u.
              Entry-cleanup w.backend.own_uuid u (find u w.backend.known)
                w.suspend_introspector_domain w.calls (i.agrees on u);
        }
  | inr on ↦
      let own : ℕ = w.backend.own_uuid in
      let m = look_all own t.polls t.names w.backend.known in
      let off : w.stopped ≡ false = ground arith in
      let o : Ordered m.1 = look_all-OrderedFrom own t.polls t.names 0 w.backend.known i.ordered in
      elim (Bool-cases w.backend.has_kvmi) [
        | inr refused ↦
            rw (on, refused)
              record {
                handled = i.handled;
                ordered = i.ordered;
                alternates = i.alternates;
                agrees = λ h. i.agrees off;
              }
        | inl loaded ↦ elim (Bool-cases m.2) [
          | inl early ↦
              rw (on, loaded, early)
                record {
                  handled = i.handled;
                  ordered = o;
                  alternates = i.alternates;
                  agrees = λ h. ground arith;
                }
          | inr through ↦
              let e : (u : ℕ) → Entry own u (find u m.1) (tell true m.0 w.calls) = λ u.
                look_all-Entry own t.polls t.names u 0 w.backend.known w.calls i.ordered through
                  (i.agrees off u) in
              elim (Bool-cases (if is_empty m.0 then t.woken else true)) [
                | inl ready ↦
                    rw (on, loaded, through, ready, i.handled)
                      record {
                        handled = refl;
                        ordered = o;
                        alternates =
                            λ u. Entry-Alternates own u (find u m.1) (tell true m.0 w.calls) (e u);
                        agrees = λ h. e;
                      }
                | inr nothing ↦
                    let same : w.calls ≡ tell true m.0 w.calls =
                      tell_nothing m.0 t.woken w.calls nothing in
                    rw (on, loaded, through, nothing)
                      record {
                        handled = i.handled;
                        ordered = o;
                        alternates = i.alternates;
                        agrees = λ h u. subst (Entry own u (find u m.1)) (sym same) (e u);
                      }
              ]
        ]
      ]
]

happen-InStep : (e : Happening) (w : KvmWatcher) → InStep w → Allowed e w → InStep (happen e w)
unfolding happen stop
happen-InStep (connects v c) w i a =
    change-InStep v w (queue_connection v c w.backend).1 i (known-Ordered v c w.backend i.ordered).0
      (own-handlers v c w.backend).0 (λ u h. (others_kept v c w.backend u h).0)
      (queue_connection-Entry v w.backend w.calls c a)
happen-InStep (loops sig_stop t) w i a = round-InStep sig_stop t w i
happen-InStep (forks v) w i a =
    change-InStep v w (forking_handler v w.backend) i (known-Ordered v 0 w.backend i.ordered).1
      (own-handlers v 0 w.backend).1 (λ u h. (others_kept v 0 w.backend u h).1)
      (forking_handler-Entry v w.backend w.calls a)
happen-InStep (dies v) w i (d, known, forked') =
    change-InStep v w (died_handler v w.backend) i (known-Ordered v 0 w.backend i.ordered).2
      (own-handlers v 0 w.backend).2 (λ u h. (others_kept v 0 w.backend u h).2)
      (died_handler-Entry v w.backend w.calls d known forked')
happen-InStep stops w i a = record {
  handled = i.handled;
  ordered = i.ordered;
  alternates = i.alternates;
  agrees = λ on. cc;
}

pub Reached-InStep : {w : KvmWatcher} → Reached w → InStep w
Reached-InStep (begin {w} s) = record {
  handled = s.handled;
  ordered = rw s.none_known tt;
  alternates = λ u. rw s.nothing_told tt;
  agrees = λ on u. rw (s.none_known, s.nothing_told) (unfold find in (refl, tt));
}
Reached-InStep (go {w} {w'} e r a q) = subst InStep (sym q) (happen-InStep e w (Reached-InStep r) a)

pub Entry-running :
    (own u : ℕ) (o : Option KvmDomain) (cs : List (HandlerCall ℕ))
    → Entry own u o cs
    → running u cs ≡ told own u o
Entry-running own u none cs e = e.0
Entry-running own u (some d) cs e = e.0.0

-- In every state that is reached by connections of guests, rounds of the loop, starts and deaths of
-- child processes and stop(), each guest was found and finished in turn, first found. Here a child
-- process is started for a guest only while that is found and not finished, only a process that was
-- started dies, and no guest connects once more before the loop has looked at its connection.
pub Reached-Alternates : {w : KvmWatcher} → Reached w → (u : ℕ) → Alternates u w.calls
Reached-Alternates r = (Reached-InStep r).alternates

-- As long as the loop is not to end, the guests found and not finished are those that are known, but
-- not the introspector's own and none whose state is new: its connection was not looked at yet, or was
-- closed. So it is in every state that is reached by steps in which a child process is started for a
-- guest only while that is found and not finished, only a process that was started dies, and no guest
-- connects once more before the loop has looked at its connection.
pub Reached-running :
    {w : KvmWatcher}
    → Reached w
    → w.stopped ≡ false
    → (u : ℕ) → running u w.calls ≡ told w.backend.own_uuid u (find u w.backend.known)
Reached-running {w} r on u =
    Entry-running w.backend.own_uuid u _ w.calls ((Reached-InStep r).agrees on u)
