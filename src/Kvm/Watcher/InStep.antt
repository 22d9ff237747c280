-- ===== src/Kvm/Watcher/InStep.antt =====
-- What each call does to the agreement between what is known of the guests and what was told of them
-- (src/kvmdomainwatcher.cpp).
use libbdvmi.Common.{
  ℕ, ◌≡◌, refl, Bool, true, false, Option, none, some, List, [], ◌∷◌, ◌==◌, arith, Bool-cases, inl,
  inr, find, find-insert, find-insert_self, Ordered, insert-OrderedFrom, if◌then◌else◌, is_empty,
  subst, Option-cases,
}
use libbdvmi.Watcher.{DomainInfo, HandlerCall, cleanup, tell}
use libbdvmi.Watcher.Told.{running, Alternates}
use libbdvmi.Kvm.Watcher.{
  new, forked, KvmDomain, Guests, queue_connection, forking_handler, died_handler, fork, park,
  reset_safely, connect, close, fresh_domain,
}
use libbdvmi.Kvm.Watcher.Alternate.{Entry}
use libbdvmi.Kvm.Watcher.System.{KvmWatcher}

-- Until the loop is to end, what is known of each guest agrees with what was told of it.
pub record InStep (w : KvmWatcher) : Type 0 where
  pub handled : w.has_handler ≡ true
  pub ordered : Ordered w.backend.known
  pub alternates : (u : ℕ) → Alternates u w.calls
  pub agrees :
      w.stopped ≡ false → (u : ℕ) → Entry w.backend.own_uuid u (find u w.backend.known) w.calls

pub Entry-Alternates :
    (own u : ℕ) (o : Option KvmDomain) (cs : List (HandlerCall ℕ))
    → Entry own u o cs
    → Alternates u cs
Entry-Alternates own u none cs e = e.1
Entry-Alternates own u (some d) cs e = e.0.1

-- What holds at one number and at all others.
pub at_each : (v : ℕ) (P : ℕ → Type 0) → P v → ((u : ℕ) → (v == u) ≡ false → P u) → (u : ℕ) → P u
at_each v P p q u = elim (Bool-cases (v == u)) [
  | inl same ↦ let e : v ≡ u = ground arith in subst P e p
  | inr other ↦ q u other
]

module _ (v c : ℕ) (g : Guests) where
  pub others_kept :
      (u : ℕ)
      → (v == u) ≡ false
      → (find u (queue_connection v c g).1.known ≡ find u g.known)
        × (find u (forking_handler v g).known ≡ find u g.known)
        × (find u (died_handler v g).known ≡ find u g.known)
  unfolding queue_connection forking_handler died_handler
  others_kept u h =
      (grind (arith, find-insert), grind (arith, find-insert), grind (arith, find-insert))

  pub known-Ordered :
      Ordered g.known
      → Ordered (queue_connection v c g).1.known
        × Ordered (forking_handler v g).known
        × Ordered (died_handler v g).known
  unfolding queue_connection forking_handler died_handler
  known-Ordered o = (
    grind (arith, insert-OrderedFrom),
    grind (arith, insert-OrderedFrom),
    grind (arith, insert-OrderedFrom),
  )

pub connect-Entry :
    (own v c : ℕ) (o : Option KvmDomain) (cs : List (HandlerCall ℕ))
    → ((d : KvmDomain) → o ≡ some d → d.state ≡ new → d.ctx ≡ none)
    → Entry own v o cs
    → let r = reset_safely (elim o [ none ↦ fresh_domain | some d ↦ d ]) in
      r.0 ≡ true → Entry own v (some (connect c r.1)) cs
unfolding reset_safely connect close
connect-Entry own v c none cs may e h = ground arith
connect-Entry own v c (some d) cs may e h = ground (arith, may d refl)

pub fork-Entry :
    (own v : ℕ) (d : KvmDomain) (cs : List (HandlerCall ℕ))
    → running v cs ≡ true
    → Entry own v (some d) cs
    → Entry own v (some (fork d)) cs
unfolding fork
fork-Entry own v d cs h e = ground arith

pub park-Entry :
    (own v : ℕ) (d : KvmDomain) (cs : List (HandlerCall ℕ))
    → d.state ≡ forked
    → Entry own v (some d) cs
    → Entry own v (some (park d)) cs
unfolding park
park-Entry own v d cs h e = ground arith

module _ (v : ℕ) (g : Guests) (cs : List (HandlerCall ℕ)) where
  pub queue_connection-Entry :
      (c : ℕ)
      → ((d : KvmDomain) → find v g.known ≡ some d → d.state ≡ new → d.ctx ≡ none)
      → Entry g.own_uuid v (find v g.known) cs
      → Entry g.own_uuid v (find v (queue_connection v c g).1.known) cs
  unfolding queue_connection
  queue_connection-Entry c may e =
      let old : KvmDomain = elim (find v g.known) [ none ↦ fresh_domain | some d ↦ d ] in
      let r = reset_safely old in
      elim (Bool-cases r.0) [
        | inl done ↦
            rw (done, find-insert_self v (connect c r.1) g.known)
              (connect-Entry g.own_uuid v c (find v g.known) cs may e done)
        | inr refused ↦ rw refused e
      ]

  pub forking_handler-Entry :
      running v cs ≡ true
      → Entry g.own_uuid v (find v g.known) cs
      → Entry g.own_uuid v (find v (forking_handler v g).known) cs
  unfolding forking_handler
  forking_handler-Entry h e = elim (Option-cases (find v g.known)) [
    | inl unknown ↦ rw (unknown, forking_handler, unknown) (rw unknown at e)
    | inr (d, known) ↦
        rw (known, forking_handler, find-insert_self v (fork d) g.known)
          (fork-Entry g.own_uuid v d cs h (rw known at e))
  ]

  pub died_handler-Entry :
      (d : KvmDomain)
      → find v g.known ≡ some d
      → d.state ≡ forked
      → Entry g.own_uuid v (find v g.known) cs
      → Entry g.own_uuid v (find v (died_handler v g).known) cs
  unfolding died_handler
  died_handler-Entry d known h e =
      rw (known, died_handler, find-insert_self v (park d) g.known)
        (park-Entry g.own_uuid v d cs h (rw known at e))

pub own-handlers :
    (v c : ℕ) (g : Guests)
    → ((queue_connection v c g).1.own_uuid ≡ g.own_uuid)
      × ((forking_handler v g).own_uuid ≡ g.own_uuid)
      × ((died_handler v g).own_uuid ≡ g.own_uuid)
unfolding queue_connection forking_handler died_handler
own-handlers v c g = ground arith

-- A change of the known guests that leaves the others alone.
pub change-InStep :
    (v : ℕ) (w : KvmWatcher) (g' : Guests)
    → InStep w
    → Ordered g'.known
    → g'.own_uuid ≡ w.backend.own_uuid
    → ((u : ℕ) → (v == u) ≡ false → find u g'.known ≡ find u w.backend.known)
    → (Entry w.backend.own_uuid v (find v w.backend.known) w.calls
        → Entry w.backend.own_uuid v (find v g'.known) w.calls)
    → InStep (record w { backend = g' })
change-InStep v w g' i o own others at = record {
  handled = i.handled;
  ordered = o;
  alternates = i.alternates;
  agrees = λ running. rw own (
      at_each v (λ u. Entry w.backend.own_uuid u (find u g'.known) w.calls)
        (at (i.agrees running v)) (λ u h. rw (others u h) (i.agrees running u)));
}

pub Entry-cleanup :
    (own u : ℕ) (o : Option KvmDomain) (b : Bool) (cs : List (HandlerCall ℕ))
    → Entry own u o cs
    → Entry own u o (cleanup b ∷ cs)
Entry-cleanup own u none b cs e = e
Entry-cleanup own u (some d) b cs e = e

pub tell_nothing :
    (ds : List (DomainInfo ℕ)) (woken : Bool) (cs : List (HandlerCall ℕ))
    → (if is_empty ds then woken else true) ≡ false
    → cs ≡ tell true ds cs
tell_nothing [] woken cs h = refl
tell_nothing (d ∷ ds) woken cs h = cc
