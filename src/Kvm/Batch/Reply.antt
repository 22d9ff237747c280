-- ===== src/Kvm/Batch/Reply.antt =====
-- What goes out with the reply to an event (src/kvmdriver.cpp).
use mathlib.Core.List.{append-nil}
use libbdvmi.Common.{
  ℕ, ◌<◌, ◌≡◌, refl, ap, ap₂, ◌∙◌, Bool, true, false, none, some, List, [], ◌∷◌, ◌++◌, arith,
  if◌then◌else◌, Map, Bool-cases, inl, inr, bit,
}
use libbdvmi.Driver.WriteBack.{find_in-emptied}
use libbdvmi.Driver.{Driver, flush_calls, flush_page_protections}
use libbdvmi.Driver.Protection.{find_in}
use libbdvmi.Kvm.Registers.{writable, disable_cache}
use libbdvmi.Kvm.Batch.{
  Message, queue_registers, reply_event_message, EventReply, crash, Outbox, test_shutdown,
  add_registers, add_event_reply, reply_event,
}
use libbdvmi.Kvm.Batch.Chunks.{
  accesses, replies, Fits, protections, all_protections, queue_protections-accesses,
}

-- What the batch ends with: the registers, if they were changed, and the reply, which crashes the
-- guest if a shutdown was asked for.
abbrev pub last_registers : Outbox → List Message
last_registers d =
    if d.regs_cache.dirty
    then queue_registers d.regs_cache.vcpu (writable d.regs_cache.registers) ∷ []
    else []

abbrev pub last_reply : EventReply → Outbox → Message
last_reply reply d =
    reply_event_message (if bit 0 d.flags then record reply { action = crash } else reply)

emptied_by_flush :
    (v g : ℕ) (m : Driver)
    → find_in v g (flush_page_protections m).2.delayed_mem_access_write ≡ none
unfolding flush_page_protections
emptied_by_flush v g m = find_in-emptied v g m.delayed_mem_access_write

-- The calls of a flush ask for all that waits: only views with no write are left out.
all_protections-flush_calls :
    (m : Map (Map ℕ)) → all_protections (flush_calls m) ≡ all_protections m
unfolding flush_calls
all_protections-flush_calls [] = refl
all_protections-flush_calls ((view, []) ∷ m) = all_protections-flush_calls m
all_protections-flush_calls ((view, (gfn, bits) ∷ ws) ∷ m) =
    ap (λ l. protections view ((gfn, bits) ∷ ws) ++ l) (all_protections-flush_calls m)

module _ (queues : Message → Bool) (all : (c : Message) → queues c ≡ true) where
  add_registers_lem :
      (d : Outbox)
      → add_registers queues d ≡ (true, record d { batch = d.batch ++ last_registers d })
  unfolding add_registers
  add_registers_lem d =
      let m = queue_registers d.regs_cache.vcpu (writable d.regs_cache.registers) in
      elim (Bool-cases d.regs_cache.dirty) [
        | inl changed ↦ rw (changed, add_registers, all m)
        | inr clean ↦ rw (clean, add_registers, append-nil d.batch)
      ]

  add_event_reply_lem :
      (reply : EventReply) (d : Outbox)
      → let r = add_event_reply queues reply d in
        (r.0 ≡ true)
        × (r.1.batch ≡ d.batch ++ last_reply reply d ∷ [])
        × (r.1.sent ≡ d.sent)
        × (r.1.regs_cache ≡ d.regs_cache)
        × (r.1.memory ≡ d.memory)
        × (bit 0 r.1.flags ≡ false)
  unfolding add_event_reply test_shutdown
  add_event_reply_lem reply d =
      let queued = all (last_reply reply d) in
      (
        ground (arith, queued),
        ground (arith, queued),
        ground (arith, queued),
        ground (arith, queued),
        ground (arith, queued),
        ground (arith, queued),
      )

  -- The answer to an event, at a hypervisor that takes every message and the batch, with a limit of
  -- at least one page to a message, which the messages that are queued keep: it ends, and one batch
  -- goes out. Its messages set the accesses that were queued and then those of every entry of
  -- delayedMemAccessWrite_, view by view and in order, each at the entry's address and by its bits;
  -- the messages are within the limit. Then follow the registers, if they were changed, and last the
  -- one reply, which crashes the guest exactly if a shutdown was asked for; no other reply is added
  -- to those that were queued. Then nothing is queued, no protection and no shutdown waits, and the
  -- cache is off.
  pub reply_event-sent :
      (max : ℕ) (reply : EventReply) (d : Outbox)
      → 0 < max
      → Fits max d.batch
      → (first : List Message) × (d' : Outbox) × (reply_event queues max true reply d
          ≡ some (true, d'))
        × (d'.sent ≡ ((first ++ last_registers d) ++ last_reply reply d ∷ []) ∷ d.sent)
        × (accesses first ≡ accesses d.batch ++ all_protections d.memory.delayed_mem_access_write)
        × Fits max first
        × (replies first ≡ replies d.batch)
        × (d'.batch ≡ [])
        × (d'.regs_cache ≡ disable_cache d.regs_cache)
        × (bit 0 d'.flags ≡ false)
        × ((v g : ℕ) → find_in v g d'.memory.delayed_mem_access_write ≡ none)
  unfolding reply_event flush_page_protections
  reply_event-sent max reply d pos fits =
      let f = flush_page_protections d.memory in
      let (queued, ends, has, small, quiet) =
        queue_protections-accesses queues max f.0 d.batch pos all in
      let flushed : Outbox = record d { memory = f.2; batch = queued } in
      let regs = add_registers_lem flushed in
      let a : Outbox = record flushed { batch = queued ++ last_registers d } in
      let (done, batch, sent, cache, memory, flags) = add_event_reply_lem reply a in
      let b = (add_event_reply queues reply a).1 in
      let off : Outbox = record b { regs_cache = disable_cache b.regs_cache } in
      (
        queued,
        record off { batch = []; sent = off.batch ∷ off.sent },
        rw (ends, regs, reply_event, done),
        ap₂ ◌∷◌ batch sent,
        has
            ∙ ap (λ l. accesses d.batch ++ l)
                (all_protections-flush_calls d.memory.delayed_mem_access_write),
        small fits,
        quiet,
        refl,
        ap disable_cache cache,
        flags,
        λ v g.
            ap (λ (x : Driver). find_in v g x.delayed_mem_access_write) memory
            ∙ emptied_by_flush v g d.memory,
      )
