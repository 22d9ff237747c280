-- ===== src/Kvm/Events/Round.antt =====
-- One round of the loop of src/kvmeventmanager.cpp, from a message to its reply.

use libbdvmi.Common.{
  Bool, ℕ, ◌<◌, ◌≡◌, refl, ap, ◌∙◌, true, false, some, List, [], ◌∷◌, ◌++◌, arith, if◌then◌else◌,
  bit, Bool-cases, inl, inr,
}
use libbdvmi.Xen.Events.{Callback, run_pre_event, run_post_event}
use libbdvmi.Kvm.Kvmi.{Kvmi}
use libbdvmi.Kvm.Registers.{RegsCache, begin_event, disable_cache}
use libbdvmi.Kvm.Batch.{reply_event, crash, EventReply, Message, Outbox}
use libbdvmi.Kvm.Batch.Chunks.{Fits, replies, replies-append}
use libbdvmi.Kvm.Batch.Reply.{last_registers, last_reply, reply_event-sent}
use libbdvmi.Kvm.Vcpus.{Vcpus}
use libbdvmi.Kvm.Vcpus.InRange.{InRange, flush_ctrl_events-InRange}
use libbdvmi.Kvm.Events.Handled.{Idle, Fair, dispatch-Handled}
use libbdvmi.Kvm.Events.{
  KvmMessage, KvmWorld, KvmSession, new_reply, dispatch, call, answered, process_event,
  flush_control, finish,
}

replies-last_registers : (d : Outbox) → replies (last_registers d) ≡ []
replies-last_registers d = elim (Bool-cases d.regs_cache.dirty) [
  | inl e ↦ rw e refl
  | inr e ↦ rw e refl
]

pub new_reply-vcpu : (m : KvmMessage) → (new_reply m).vcpu ≡ m.vcpu
unfolding new_reply
new_reply-vcpu m = refl

pub new_reply-seq : (m : KvmMessage) → (new_reply m).seq ≡ m.seq
unfolding new_reply
new_reply-seq m = refl

module _ {S : Type 0} (kvmi : Kvmi S) (num max : ℕ) where
  pub flush_control_lem :
      (vcpu : ℕ) (s : KvmSession S)
      → InRange s.vcpus
      → (s' : KvmSession S) × (flush_control kvmi num max vcpu s ≡ some s')
        × (s'.outbox.batch ≡ s.outbox.batch)
        × (s'.outbox.sent ≡ s.outbox.sent)
        × InRange s'.vcpus
        × (s'.callbacks ≡ s.callbacks)
        × (s'.outbox.flags ≡ s.outbox.flags)
  unfolding flush_control
  flush_control_lem vcpu s r =
      let v : Vcpus = record (s.vcpus) { cached_view = s.outbox.regs_cache.view } in
      let (ok, v', b, ends, kept) =
        flush_ctrl_events-InRange kvmi num vcpu s.manager.enabled_crs s.manager.enabled_msrs v
          s.backend r in
      (
        record s {
          vcpus = v';
          backend = b;
          outbox = record (s.outbox) {
            regs_cache = record (s.outbox.regs_cache) { view = v'.cached_view };
          };
        },
        rw (ends, flush_control),
        refl,
        refl,
        kept,
        refl,
        refl,
      )

  pub reply_event_lem :
      (queues : Message → Bool) (commits : Bool) (reply : EventReply) (o : Outbox)
      → 0 < max
      → ((c : Message) → queues c ≡ true)
      → commits ≡ true
      → o.batch ≡ []
      → (d : Outbox) × (batch : List Message) × (last : EventReply) × (reply_event queues max
            commits reply o
          ≡ some (true, d))
        × (last ≡ (if bit 0 o.flags then record reply { action = crash } else reply))
        × (d.sent ≡ batch ∷ o.sent)
        × (replies batch ≡ last ∷ [])
        × (d.batch ≡ [])
        × (d.regs_cache ≡ disable_cache o.regs_cache)
  reply_event_lem queues commits reply o pos takes grants empty =
      let fits : Fits max o.batch = rw empty tt in
      let (protections, d, ends, sent, has, small, quiet, clear, off, flag, none_waits) =
        reply_event-sent queues takes max reply o pos fits in
      let last : EventReply = if bit 0 o.flags then record reply { action = crash } else reply in
      (
        d,
        (protections ++ last_registers o) ++ last_reply reply o ∷ [],
        last,
        rw grants ends,
        refl,
        sent,
        replies-append (protections ++ last_registers o) (last_reply reply o ∷ [])
            ∙ ap (λ l. l ++ last ∷ [])
                (replies-append protections (last_registers o)
                  ∙ ap (λ l. l ++ replies (last_registers o)) (quiet ∙ ap replies empty)
                  ∙ replies-last_registers o),
        clear,
        off,
      )

  finish_lem :
      (w : KvmWorld S) (reply : EventReply) (s : KvmSession S)
      → 0 < max
      → ((c : Message) → w.queues c ≡ true)
      → w.commits ≡ true
      → s.outbox.batch ≡ []
      → InRange s.vcpus
      → (s' : KvmSession S) × (batch : List Message) × (last : EventReply) × (finish kvmi num max w
            reply s
          ≡ answered true s')
        × (last.vcpu ≡ reply.vcpu)
        × (last.seq ≡ reply.seq)
        × (s'.outbox.sent ≡ batch ∷ s.outbox.sent)
        × (replies batch ≡ last ∷ [])
        × (s'.callbacks ≡ run_post_event ∷ s.callbacks)
        × (s'.outbox.regs_cache ≡ disable_cache s.outbox.regs_cache)
        × Idle s'
  unfolding finish call
  finish_lem w reply s pos takes commits empty range =
      let (d, batch, last, ends, is, sent, one, clear, off) =
        reply_event_lem w.queues w.commits reply s.outbox pos takes commits empty in
      let s1 : KvmSession S = record s { outbox = d } in
      (
        call run_post_event s1,
        batch,
        last,
        rw (ends, finish),
        ground (arith, is),
        ground (arith, is),
        sent,
        one,
        refl,
        off,
        record { empty = clear; in_range = range },
      )

  -- A message of an event, taken up with no message queued and an entry for each processor, at a
  -- hypervisor that takes every message and the batch: the round ends, and one batch goes out for it,
  -- with one reply, to the processor and with the number of the event. After it the register cache is
  -- off, the last callback of the application is that of the end of the event, no message is queued,
  -- and each processor has its entry.
  pub process_event-answered :
      (w : KvmWorld S) (m : KvmMessage) (s : KvmSession S)
      → 0 < max
      → ((c : Message) → w.queues c ≡ true)
      → w.commits ≡ true
      → Fair w
      → Idle s
      → (s' : KvmSession S) × (batch : List Message) × (last : EventReply) × (process_event kvmi num
            max w m s
          ≡ answered true s')
        × (s'.outbox.sent ≡ batch ∷ s.outbox.sent)
        × (replies batch ≡ last ∷ [])
        × (last.vcpu ≡ m.vcpu)
        × (last.seq ≡ m.seq)
        × (s'.outbox.regs_cache.valid ≡ false)
        × ((before : List Callback) × (s'.callbacks ≡ run_post_event ∷ before))
        × Idle s'
  unfolding process_event call disable_cache
  process_event-answered w m s pos takes commits fair idle =
      let begun = begin_event m.vcpu m.arch in
      let s1 : KvmSession S = call run_pre_event s in
      let s2 : KvmSession S = record s1 { outbox = record (s1.outbox) { regs_cache = begun.1 } } in
      let r = dispatch w m begun.0 m.event (new_reply m) s2 in
      let h =
        dispatch-Handled w fair m begun.0 m.event (new_reply m) s2 (new_reply-vcpu m)
          (new_reply-seq m) in
      let (s3, flushed, batch3, sent3, range3, calls3, flags3) =
        flush_control_lem m.vcpu r.1 (h.in_range idle.in_range) in
      let (s4, batch, last, ends, vcpu, seq, sent, one, calls, off, idle4) =
        finish_lem w r.0 s3 pos takes commits (batch3 ∙ h.empty ∙ idle.empty) range3 in
      (
        s4,
        batch,
        last,
        rw (flushed, process_event) ends,
        sent ∙ ap (λ l. batch ∷ l) (sent3 ∙ h.sent),
        one,
        vcpu ∙ h.vcpu,
        seq ∙ h.seq,
        ap (λ (c : RegsCache). c.valid) off,
        (s3.callbacks, calls),
        idle4,
      )
