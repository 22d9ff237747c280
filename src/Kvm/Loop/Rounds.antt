-- ===== src/Kvm/Loop/Rounds.antt =====
-- What one round of the loop of src/kvmeventmanager.cpp answers.

use libbdvmi.Common.{
  ℕ, ◌<◌, ◌≡◌, refl, ap, ap₂, ◌∙◌, Bool, true, false, Option, none, some, List, [], ◌∷◌, ◌++◌,
  arith, if◌then◌else◌, Bool-cases, ◌⊎◌, inl, inr,
}
use libbdvmi.Kvm.Kvmi.{Kvmi}
use libbdvmi.Kvm.Batch.{EventReply, Message, Outbox}
use libbdvmi.Kvm.Batch.Chunks.{replies}
use libbdvmi.Kvm.Events.{KvmMessage, KvmWorld, KvmSession, call, stop, is_unhook, process}
use libbdvmi.Kvm.Events.Handled.{Idle, Fair}
use libbdvmi.Kvm.Events.Round.{process_event-answered}
use libbdvmi.Kvm.Loop.{
  Got, message, nothing, disconnected, thrown, get_event_msg, take_up, Arrival, Ending, left,
  waiting, threw, failed, round,
}

-- The processors and numbers of the replies of batches.
abbrev pub keys : List EventReply → List (ℕ × ℕ)
keys [] = []
keys (r ∷ rs) = (r.vcpu, r.seq) ∷ keys rs

abbrev pub answers : List (List Message) → List (ℕ × ℕ)
answers [] = []
answers (b ∷ bs) = keys (replies b) ++ answers bs

-- The newest first.
abbrev pub rev_onto : List (ℕ × ℕ) → List (ℕ × ℕ) → List (ℕ × ℕ)
rev_onto [] acc = acc
rev_onto (x ∷ xs) acc = rev_onto xs (x ∷ acc)

pub rev_onto-append :
    (xs ys acc : List (ℕ × ℕ)) → rev_onto (xs ++ ys) acc ≡ rev_onto ys (rev_onto xs acc)
rev_onto-append [] ys acc = refl
rev_onto-append (x ∷ xs) ys acc = rev_onto-append xs ys (x ∷ acc)

module _ {S : Type 0} where
  abbrev pub event_of : Got (KvmWorld S × KvmMessage) → List (ℕ × ℕ)
  event_of (message (w, m)) = if is_unhook m.event then [] else (m.vcpu, m.seq) ∷ []
  event_of nothing = []
  event_of disconnected = []
  event_of thrown = []

  -- The events among the arrivals, in order.
  abbrev pub events : List (Arrival S) → List (ℕ × ℕ)
  events [] = []
  events (a ∷ rest) = event_of (get_event_msg a.waited a.popped) ++ events rest

  -- A hypervisor that takes every message and batch, and a fair application.
  abbrev pub GoodMessage : Got (KvmWorld S × KvmMessage) → Type 0
  GoodMessage (message (w, m)) = Fair w × ((c : Message) → w.queues c ≡ true) × (w.commits ≡ true)
  GoodMessage nothing = Unit
  GoodMessage disconnected = Unit
  GoodMessage thrown = Unit

  abbrev pub Good : List (Arrival S) → Type 0
  Good [] = Unit
  Good (a ∷ rest) = GoodMessage (get_event_msg a.waited a.popped) × Good rest

  abbrev pub session_of : Ending S → Option (KvmSession S)
  session_of (left s) = some s
  session_of (waiting s) = some s
  session_of (threw s) = some s
  session_of failed = none

  stop_kept :
      (connected : Bool) (s : KvmSession S)
      → ((stop connected s).outbox ≡ s.outbox) × ((stop connected s).vcpus ≡ s.vcpus)
  unfolding stop call
  stop_kept connected s = (ground arith, ground arith)

  kept-Idle : (s t : KvmSession S) → t.outbox ≡ s.outbox → t.vcpus ≡ s.vcpus → Idle s → Idle t
  kept-Idle s t o v i = record {
    empty = ap (λ (d : Outbox). d.batch) o ∙ i.empty;
    in_range = rw v i.in_range;
  }

  kept-answers :
      (s t : KvmSession S) → t.outbox ≡ s.outbox → answers t.outbox.sent ≡ answers s.outbox.sent
  kept-answers s t o = ap (λ (d : Outbox). answers d.sent) o

  stop-Idle : (connected : Bool) (s : KvmSession S) → Idle s → Idle (stop connected s)
  stop-Idle connected s i =
      let k = stop_kept connected s in kept-Idle s (stop connected s) k.0 k.1 i

  signalled :
      (sig connected : Bool) (s : KvmSession S)
      → Idle s
      → let t = if sig then stop connected s else s in
        (answers t.outbox.sent ≡ answers s.outbox.sent) × Idle t
  signalled true connected s i =
      (kept-answers s (stop connected s) (stop_kept connected s).0, stop-Idle connected s i)
  signalled false connected s i = (refl, i)

  -- What a round leaves of a session in which something was got.
  pub record Served (got : Got (KvmWorld S × KvmMessage)) (s : KvmSession S) (r : Bool × Ending S)
      : Type 0 where
    pub after : KvmSession S
    pub ends : (r.1 ≡ left after) ⊎ (r ≡ (false, threw after))
    pub idle : Idle after
    pub new : answers after.outbox.sent ≡ rev_onto (event_of got) (answers s.outbox.sent)

module _ {S : Type 0} (kvmi : Kvmi S) (num max : ℕ) (pos : 0 < max) where
  take_up-Served :
      (connected : Bool) (got : Got (KvmWorld S × KvmMessage)) (s : KvmSession S)
      → GoodMessage got
      → Idle s
      → Served got s (take_up kvmi num max connected got s)
  unfolding take_up process
  take_up-Served connected thrown s good idle = record {
    after = s;
    ends = inr refl;
    idle = idle;
    new = refl;
  }
  take_up-Served connected disconnected s good idle = record {
    after = stop connected s;
    ends = inl refl;
    idle = stop-Idle connected s idle;
    new = kept-answers s (stop connected s) (stop_kept connected s).0;
  }
  take_up-Served connected nothing s good idle = record {
    after = s;
    ends = inl refl;
    idle = idle;
    new = refl;
  }
  take_up-Served connected (message (w, m)) s good idle = elim (Bool-cases (is_unhook m.event)) [
    | inl unhook ↦
        let t : KvmSession S = record s { suspending = true } in
        let k = stop_kept connected t in
        record {
          after = stop connected t;
          ends = inl (rw (unhook, take_up, process));
          idle = kept-Idle s (stop connected t) k.0 k.1 idle;
          new = rw unhook (kept-answers s (stop connected t) k.0);
        }
    | inr event ↦
        let (s', batch, last, ends, sent, one, vcpu, seq, off, calls, idle') =
          process_event-answered kvmi num max w m s pos good.1 good.2 good.0 idle in
        record {
          after = s';
          ends = inl (rw (event, take_up, process, ends));
          idle = idle';
          new = rw event (
              ap answers sent
              ∙ ap (λ l. keys l ++ answers s.outbox.sent) one
              ∙ ap₂ (λ v q. (v, q) ∷ answers s.outbox.sent) vcpu seq);
        }
  ]

  pub round-Served :
      (a : Arrival S) (s : KvmSession S)
      → GoodMessage (get_event_msg a.waited a.popped)
      → Idle s
      → Served (get_event_msg a.waited a.popped) s (round kvmi num max a s)
  unfolding round
  round-Served a s good idle =
      let t = if a.sig_stop then stop a.connected s else s in
      let got = get_event_msg a.waited a.popped in
      let (same, idle') = signalled a.sig_stop a.connected s idle in
      let r = take_up-Served a.connected got t good idle' in
      record {
        after = r.after;
        ends = r.ends;
        idle = r.idle;
        new = r.new ∙ ap (rev_onto (event_of got)) same;
      }
