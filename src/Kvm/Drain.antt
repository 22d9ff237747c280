-- ===== src/Kvm/Drain.antt =====
-- The last rounds before the connection is given up (flushEventQueue of src/kvmeventmanager.cpp): each
-- event that is still in the queue is answered so that the guest goes on.
pub mod Answered
mod Checks
use libbdvmi.Common.{
  ℕ, Bool, true, false, ◌&&◌, not, Option, none, some, List, [], ◌∷◌, ◌==◌, if◌then◌else◌,
}
use libbdvmi.Driver.{Access, set_page_protection}
use libbdvmi.Kvm.Kvmi.{Kvmi}
use libbdvmi.Kvm.Registers.{begin_event}
use libbdvmi.Kvm.Batch.{cr_reply, msr_reply, EventReply, Message, reply_event}
use libbdvmi.Kvm.Pause.{pause_event_received}
use libbdvmi.Kvm.Requests.{Controls, clear_all_vcpu_events}
use libbdvmi.Kvm.Events.{
  KvmEvent, cr_event, msr_event, pause_vcpu_event, pf_event, KvmMessage, KvmSession, is_unhook,
  new_reply, flush_control, Outcome, answered, out_of_range, endless,
}
use libbdvmi.Kvm.Loop.{
  Waited, message, nothing, disconnected, thrown, get_event_msg, Ending, left, waiting, threw,
  failed,
}

-- A message, and what libkvmi answers to the reply.
pub record Pending : Type 0 where
  pub msg : KvmMessage
  pub queues : Message → Bool
  pub commits : Bool

abbrev pub all_access : Access
all_access = record { read = true; write = true; execute = true }

module _ {S : Type 0} (kvmi : Kvmi S) (num_events max : ℕ) where
  -- The `switch` over the event.
  unfoldable pub let_go : KvmEvent → EventReply → KvmSession S → EventReply × KvmSession S
  let_go (cr_event cr old new) reply s = (record reply { contents = cr_reply new }, s)
  let_go (msr_event msr old new) reply s = (record reply { contents = msr_reply new }, s)
  let_go pause_vcpu_event reply s = (reply, record s { pauses = pause_event_received s.pauses })
  let_go (pf_event gpa gva a) reply s = (
    reply,
    record s {
      outbox = record (s.outbox) {
        memory = (set_page_protection gpa all_access 0 s.outbox.memory).1;
      };
    },
  )
  let_go _ reply s = (reply, s)

  unfoldable pub answer_pending : Pending → KvmSession S → Outcome S
  unfolding let_go flush_control
  answer_pending p s =
      let begun = begin_event p.msg.vcpu p.msg.arch in
      let s1 : KvmSession S = record s { outbox = record (s.outbox) { regs_cache = begun.1 } } in
      let r = let_go p.msg.event (new_reply p.msg) s1 in
      elim (flush_control kvmi num_events max p.msg.vcpu r.1) [
        | none ↦ out_of_range
        | some s2 ↦ elim (reply_event p.queues max p.commits r.0 s2.outbox) [
          | none ↦ endless
          | some (ok, outbox) ↦ answered ok (record s2 { outbox = outbox })
        ]
      ]

  -- One round; the flag is whether the loop goes on.
  unfoldable pub drain_round : Waited → Option Pending → KvmSession S → Bool × Ending S
  unfolding answer_pending get_event_msg
  drain_round waited popped s = elim (get_event_msg waited popped) [
    | thrown ↦ (false, left s)
    | disconnected ↦ (false, left s)
    | nothing ↦ (not (s.pauses.pending_pause_events == 0), left s)
    | message p ↦
        if is_unhook p.msg.event
        then (true, left (record s { suspending = true }))
        else elim (answer_pending p s) [ answered ok s' ↦ (ok, left s') | _ ↦ (false, failed) ]
  ]

  unfoldable pub drain : List (Waited × Option Pending) → KvmSession S → Ending S
  unfolding drain_round
  drain [] s = waiting s
  drain ((waited, popped) ∷ rest) s =
      let r = drain_round waited popped s in
      elim r.1 [
        | left s' ↦ let next = drain rest s' in if r.0 then next else left s'
        | waiting s' ↦ waiting s'
        | threw s' ↦ threw s'
        | failed ↦ failed
      ]

  -- `queued` and `committed` are for the messages that pause the processors. What libkvmi answers to
  -- the call that takes back the event of a new processor is not looked at.
  unfoldable pub flush_event_queue :
      Bool → Bool → List (Waited × Option Pending) → KvmSession S → Ending S
  unfolding drain clear_all_vcpu_events
  flush_event_queue queued committed arrivals s =
      let c : Controls = record { vcpus = s.vcpus; pauses = s.pauses } in
      let r = clear_all_vcpu_events queued committed c in
      drain arrivals (record s { vcpus = r.1.vcpus; pauses = r.1.pauses })

  -- The destructor.
  unfoldable pub close :
      Bool → Bool → Bool → List (Waited × Option Pending) → KvmSession S → Ending S
  unfolding flush_event_queue
  close connected queued committed arrivals s =
      let ended = flush_event_queue queued committed arrivals s in
      if connected && not s.suspending then ended else left s
