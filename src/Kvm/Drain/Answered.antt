-- ===== src/Kvm/Drain/Answered.antt =====
-- The reply to each event of the queue that is emptied (src/kvmeventmanager.cpp).
use libbdvmi.Common.{
  ℕ, ◌<◌, ◌≡◌, refl, ap, ap₂, ◌∙◌, Bool, true, false, List, [], ◌∷◌, if◌then◌else◌, bit,
}
use libbdvmi.Kvm.Kvmi.{Kvmi}
use libbdvmi.Kvm.Registers.{begin_event}
use libbdvmi.Kvm.Batch.{continue, crash, ReplyContents, cr_reply, msr_reply, EventReply, Message}
use libbdvmi.Kvm.Batch.Chunks.{replies}
use libbdvmi.Kvm.Events.{
  KvmEvent, cr_event, msr_event, xsetbv_event, hypercall_event, pause_vcpu_event, create_vcpu_event,
  singlestep_event, unhook_event, breakpoint_event, pf_event, trap_event, descriptor_event,
  unsupported_event, KvmMessage, KvmSession, blank_contents, new_reply, answered,
}
use libbdvmi.Kvm.Events.Handled.{Idle}
use libbdvmi.Kvm.Events.Round.{reply_event_lem, flush_control_lem}
use libbdvmi.Kvm.Drain.{Pending, let_go, answer_pending}

-- A register gets the value that the guest writes.
abbrev pub passing : KvmEvent → ReplyContents
passing (cr_event cr old new) = cr_reply new
passing (msr_event msr old new) = msr_reply new
passing e = blank_contents e

record Passed {S : Type 0} (m : KvmMessage) (e : KvmEvent) (s : KvmSession S)
    (r : EventReply × KvmSession S) : Type 0 where
  reply : r.0 ≡ record { vcpu = m.vcpu; seq = m.seq; action = continue; contents = passing e }
  empty : r.1.outbox.batch ≡ s.outbox.batch
  sent : r.1.outbox.sent ≡ s.outbox.sent
  flags : r.1.outbox.flags ≡ s.outbox.flags
  vcpus : r.1.vcpus ≡ s.vcpus

crash_or_go :
    (b : Bool) (vcpu seq : ℕ) (c : ReplyContents)
    → let go : EventReply = record { vcpu = vcpu; seq = seq; action = continue; contents = c } in
      (if b then record go { action = crash } else go)
      ≡ record { vcpu = vcpu; seq = seq; action = if b then crash else continue; contents = c }
crash_or_go true vcpu seq c = refl
crash_or_go false vcpu seq c = refl

same-Passed :
    {S : Type 0} (m : KvmMessage) (e : KvmEvent) (s : KvmSession S)
    → new_reply m ≡ record { vcpu = m.vcpu; seq = m.seq; action = continue; contents = passing e }
    → Passed m e s (new_reply m, s)
same-Passed m e s h = record { reply = h; empty = refl; sent = refl; flags = refl; vcpus = refl }

module _ {S : Type 0} (kvmi : Kvmi S) (num max : ℕ) where
  let_go-Passed :
      (m : KvmMessage) (e : KvmEvent) (s : KvmSession S)
      → m.event ≡ e
      → Passed m e s (let_go kvmi num max e (new_reply m) s)
  unfolding let_go new_reply
  let_go-Passed m (cr_event cr old new) s h = record {
    reply = refl;
    empty = refl;
    sent = refl;
    flags = refl;
    vcpus = refl;
  }
  let_go-Passed m (msr_event msr old new) s h = record {
    reply = refl;
    empty = refl;
    sent = refl;
    flags = refl;
    vcpus = refl;
  }
  let_go-Passed m pause_vcpu_event s h = record {
    reply = rw h refl;
    empty = refl;
    sent = refl;
    flags = refl;
    vcpus = refl;
  }
  let_go-Passed m (pf_event gpa gva a) s h = record {
    reply = rw h refl;
    empty = refl;
    sent = refl;
    flags = refl;
    vcpus = refl;
  }
  let_go-Passed m xsetbv_event s h = same-Passed m xsetbv_event s (rw h refl)
  let_go-Passed m hypercall_event s h = same-Passed m hypercall_event s (rw h refl)
  let_go-Passed m create_vcpu_event s h = same-Passed m create_vcpu_event s (rw h refl)
  let_go-Passed m singlestep_event s h = same-Passed m singlestep_event s (rw h refl)
  let_go-Passed m unhook_event s h = same-Passed m unhook_event s (rw h refl)
  let_go-Passed m (breakpoint_event gpa) s h = same-Passed m (breakpoint_event gpa) s (rw h refl)
  let_go-Passed m (trap_event vector error cr2) s h =
      same-Passed m (trap_event vector error cr2) s (rw h refl)
  let_go-Passed m (descriptor_event d is_write) s h =
      same-Passed m (descriptor_event d is_write) s (rw h refl)
  let_go-Passed m (unsupported_event id) s h = same-Passed m (unsupported_event id) s (rw h refl)

  -- An event of the queue, taken up with no message queued and an entry for each processor, at a
  -- hypervisor that takes every message and the batch: one batch goes out for it, with one reply,
  -- to its processor and with its number, by which the guest goes on, with the value that it
  -- writes to a register, or crashes if a shutdown was asked for. Then no message is queued, and
  -- each processor has its entry.
  pub answer_pending-passing :
      (p : Pending) (s : KvmSession S)
      → 0 < max
      → ((c : Message) → p.queues c ≡ true)
      → p.commits ≡ true
      → Idle s
      → (s' : KvmSession S) × (batch : List Message) × (answer_pending kvmi num max p s
          ≡ answered true s')
        × (s'.outbox.sent ≡ batch ∷ s.outbox.sent)
        × (replies batch
            ≡ record {
              vcpu = p.msg.vcpu;
              seq = p.msg.seq;
              action = if bit 0 s.outbox.flags then crash else continue;
              contents = passing p.msg.event;
            }
              ∷ [])
        × Idle s'
  unfolding answer_pending
  answer_pending-passing p s pos takes commits idle =
      let begun = begin_event p.msg.vcpu p.msg.arch in
      let s1 : KvmSession S = record s { outbox = record (s.outbox) { regs_cache = begun.1 } } in
      let r = let_go kvmi num max p.msg.event (new_reply p.msg) s1 in
      let h = let_go-Passed p.msg p.msg.event s1 refl in
      let (s2, flushed, batch2, sent2, range2, calls2, flags2) =
        flush_control_lem kvmi num max p.msg.vcpu r.1 (rw (h.vcpus) idle.in_range) in
      let (d, batch, last, ends, is, sent, one, clear, off) =
        reply_event_lem kvmi num max p.queues p.commits r.0 s2.outbox pos takes commits
          (batch2 ∙ h.empty ∙ idle.empty) in
      (
        record s2 { outbox = d },
        batch,
        rw (flushed, ends, answer_pending),
        sent ∙ ap (λ l. batch ∷ l) (sent2 ∙ h.sent),
        one
            ∙ ap (λ x. x ∷ [])
                (is
                  ∙ ap₂ (λ f (x : EventReply). if bit 0 f then record x { action = crash } else x)
                      (flags2 ∙ h.flags) h.reply
                  ∙ crash_or_go (bit 0 s.outbox.flags) p.msg.vcpu p.msg.seq (passing p.msg.event)),
        record { empty = clear; in_range = range2 },
      )
