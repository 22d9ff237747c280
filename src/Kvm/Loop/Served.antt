-- ===== src/Kvm/Loop/Served.antt =====
-- Which events the loop of src/kvmeventmanager.cpp answers.
use mathlib.Core.List.{append_assoc}
use libbdvmi.Common.{
  ℕ, ◌<◌, ◌≡◌, ◌≢◌, refl, sym, ap, ◌∙◌, some, List, [], ◌∷◌, ◌++◌, if◌then◌else◌, Bool-cases, inl,
  inr,
}
use libbdvmi.Kvm.Kvmi.{Kvmi}
use libbdvmi.Kvm.Events.{KvmSession}
use libbdvmi.Kvm.Events.Handled.{Idle}
use libbdvmi.Kvm.Loop.Rounds.{
  answers, rev_onto, rev_onto-append, event_of, events, Good, session_of, round-Served,
}
use libbdvmi.Kvm.Loop.{get_event_msg, Arrival, left, waiting, threw, round, wait_for_events}

threw-waiting : {S : Type 0} {s t : KvmSession S} → threw s ≢ waiting t
threw-waiting e = cc

left-waiting : {S : Type 0} {s t : KvmSession S} → left s ≢ waiting t
left-waiting e = cc

module _ {S : Type 0} (kvmi : Kvmi S) (num max : ℕ) (pos : 0 < max) where
  wait-left :
      (a : Arrival S) (rest : List (Arrival S)) (s t : KvmSession S)
      → (round kvmi num max a s).1 ≡ left t
      → wait_for_events kvmi num max (a ∷ rest) s
        ≡ (if (round kvmi num max a s).0 then wait_for_events kvmi num max rest t else left t)
  unfolding wait_for_events
  wait-left a rest s t h = rw (h, wait_for_events)

  wait-threw :
      (a : Arrival S) (rest : List (Arrival S)) (s t : KvmSession S)
      → (round kvmi num max a s).1 ≡ threw t
      → wait_for_events kvmi num max (a ∷ rest) s ≡ threw t
  unfolding wait_for_events
  wait-threw a rest s t h = rw (h, wait_for_events)

  -- The loop, begun with no message queued and an entry for each processor, at a hypervisor that takes
  -- every message and batch and with a fair application: however the messages, time-outs, signals and
  -- losses of the connection come, it never ends by reading beyond the vector of the processors or in
  -- a loop without end, and the replies that went out are those to a first part of the
  -- events that came, one each, in their order; it is all of them if the loop is still waiting.
  pub wait_for_events-answers :
      (arrivals : List (Arrival S)) (s : KvmSession S)
      → Good arrivals
      → Idle s
      → (s' : KvmSession S) × (done rest : List (ℕ × ℕ)) × (session_of
            (wait_for_events kvmi num max arrivals s)
          ≡ some s')
        × (events arrivals ≡ done ++ rest)
        × (answers s'.outbox.sent ≡ rev_onto done (answers s.outbox.sent))
        × (wait_for_events kvmi num max arrivals s ≡ waiting s' → rest ≡ [])
        × Idle s'
  unfolding wait_for_events
  wait_for_events-answers [] s good idle = (s, [], [], refl, refl, refl, λ e. refl, idle)
  wait_for_events-answers (a ∷ rest) s good idle =
      let first = event_of (get_event_msg a.waited a.popped) in
      let r = round-Served kvmi num max pos a s good.0 idle in
      let ih = wait_for_events-answers rest r.after good.1 r.idle in
      elim r.ends [
        | inr threw_it ↦
            let whole = wait-threw a rest s r.after (ap (λ x. x.1) threw_it) in
            (
              r.after,
              first,
              events rest,
              ap session_of whole,
              refl,
              r.new,
              λ e. absurd (threw-waiting (sym whole ∙ e)),
              r.idle,
            )
        | inl left_it ↦
            let whole = wait-left a rest s r.after left_it in
            elim (Bool-cases (round kvmi num max a s).0) [
              | inr ended ↦
                  let out =
                    whole
                    ∙ ap
                        (λ b. if b then wait_for_events kvmi num max rest r.after else left r.after)
                        ended in
                  (
                    r.after,
                    first,
                    events rest,
                    ap session_of out,
                    refl,
                    r.new,
                    λ e. absurd (left-waiting (sym out ∙ e)),
                    r.idle,
                  )
              | inl goes ↦
                  let (s', done, later, ends, split, sent, all, idle') = ih in
                  let out =
                    whole
                    ∙ ap
                        (λ b. if b then wait_for_events kvmi num max rest r.after else left r.after)
                        goes in
                  (
                    s',
                    first ++ done,
                    later,
                    ap session_of out ∙ ends,
                    ap (λ l. first ++ l) split ∙ sym (append_assoc first done later),
                    sent
                        ∙ ap (rev_onto done) r.new
                        ∙ sym (rev_onto-append first done (answers s.outbox.sent)),
                    λ e. all (sym out ∙ e),
                    idle',
                  )
            ]
      ]
