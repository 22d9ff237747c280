-- ===== src/Kvm/Batch.antt =====
-- The batch of messages in which src/kvmdriver.cpp answers an event: page protections, registers and
-- the reply, queued and sent together.
pub mod Chunks
pub mod Reply
mod Checks
use libbdvmi.Common.{
  ℕ, zero, suc, ◌+◌, ◌-◌, Bool, true, false, Option, none, some, List, [], ◌∷◌, ◌++◌, if◌then◌else◌,
  length, Map, gfn_to_gpa, bit, set_bit, clear_bit,
}
use libbdvmi.Driver.{Access, Driver, access_of_bits, flush_page_protections}
use libbdvmi.Kvm.Registers.{KvmRegs, RegsCache, writable, disable_cache}

-- KVMI_EVENT_ACTION_*.
pub data Action : Type 0 where
  continue retry crash : Action

-- The union `event_` of a reply, by the event: a new value, what a page fault is told of the emulator's
-- context and of repeated instructions, or nothing.
pub data ReplyContents : Type 0 where
  no_contents : ReplyContents
  cr_reply msr_reply : ℕ → ReplyContents
  pf_reply : ℕ → ℕ → List ℕ → Bool → ReplyContents

pub record EventReply : Type 0 where
  pub vcpu : ℕ
  pub seq : ℕ
  pub action : Action
  pub contents : ReplyContents

-- An access of kvmi is the set of its three flags.
pub data Message : Type 0 where
  page_access : ℕ → List (ℕ × Access) → Message
  queue_registers : Option ℕ → KvmRegs → Message
  reply_event_message : EventReply → Message

-- The driver's state that an answer uses. `sent` holds the batches that were committed, newest first.
pub record Outbox : Type 0 where
  pub flags : ℕ
  pub regs_cache : RegsCache
  pub memory : Driver
  pub batch : List Message
  pub sent : List (List Message)

unfoldable pub set_rep_optimizations : Bool → Outbox → Outbox
set_rep_optimizations enable d = record d {
  flags = if enable then set_bit 1 d.flags else clear_bit 1 d.flags;
}

unfoldable pub get_rep_optimizations : Outbox → Bool
get_rep_optimizations d = bit 1 d.flags

unfoldable pub shutdown : Outbox → Outbox
shutdown d = record d { flags = set_bit 0 d.flags }

unfoldable pub test_shutdown : Outbox → Bool × Outbox
test_shutdown d =
    if bit 0 d.flags then (true, record d { flags = clear_bit 0 d.flags }) else (false, d)

module _ {ℓ} {A : Type ℓ} where
  abbrev pub take : ℕ → List A → List A
  take zero xs = []
  take (suc n) [] = []
  take (suc n) (x ∷ xs) = x ∷ take n xs

  abbrev pub drop : ℕ → List A → List A
  drop zero xs = xs
  drop (suc n) [] = []
  drop (suc n) (x ∷ xs) = drop n xs

-- The vectors `gpa` and `access`, in step.
unfoldable pub page_entries : Map ℕ → List (ℕ × Access)
page_entries [] = []
page_entries ((gfn, bits) ∷ m) = (gfn_to_gpa gfn, access_of_bits bits) ∷ page_entries m

-- `queues` says whether a message is queued. `max` is MAX_PAGE_ACCESS_ENTRIES.
module _ (queues : Message → Bool) (max : ℕ) where
  -- The loop over the chunks, from what is left at `offset`; none: out of fuel.
  unfoldable pub add_chunks :
      ℕ → ℕ → List (ℕ × Access) → List Message → Option (Bool × List Message)
  add_chunks zero view left batch = none
  add_chunks (suc fuel) view [] batch = some (true, batch)
  add_chunks (suc fuel) view (e ∷ left) batch =
      let chunk = page_access view (take max (e ∷ left)) in
      let rest = add_chunks fuel view (drop max (e ∷ left)) (batch ++ chunk ∷ []) in
      if queues chunk then rest else some (false, batch)

  unfoldable pub set_page_protection_impl : Map ℕ → ℕ → List Message → Option (Bool × List Message)
  unfolding add_chunks page_entries
  set_page_protection_impl access_map view batch =
      add_chunks (suc (length (page_entries access_map))) view (page_entries access_map) batch

  -- The calls that a flush of the protections makes; what they answer is not looked at.
  unfoldable pub queue_protections : List (ℕ × Map ℕ) → List Message → Option (List Message)
  unfolding set_page_protection_impl
  queue_protections [] batch = some batch
  queue_protections ((view, m) ∷ calls) batch = elim (set_page_protection_impl m view batch) [
    | none ↦ none
    | some (ok, batch') ↦ queue_protections calls batch'
  ]

module _ (queues : Message → Bool) where
  unfoldable pub add_registers : Outbox → Bool × Outbox
  add_registers d =
      let message = queue_registers d.regs_cache.vcpu (writable d.regs_cache.registers) in
      if d.regs_cache.dirty
      then if queues message
        then (true, record d { batch = d.batch ++ message ∷ [] })
        else (false, d)
      else (true, d)

  unfoldable pub add_event_reply : EventReply → Outbox → Bool × Outbox
  unfolding test_shutdown
  add_event_reply reply d =
      let t = test_shutdown d in
      let reply' : EventReply = if t.0 then record reply { action = crash } else reply in
      let message = reply_event_message reply' in
      if queues message
      then (true, record (t.1) { batch = t.1.batch ++ message ∷ [] })
      else (false, t.1)

module _ (queues : Message → Bool) (max : ℕ) where
  -- `commits` is what kvmi_batch_commit answers; a new batch is allocated after it.
  unfoldable pub reply_event : Bool → EventReply → Outbox → Option (Bool × Outbox)
  unfolding queue_protections add_registers add_event_reply
  reply_event commits reply d =
      let f = flush_page_protections d.memory in
      elim (queue_protections queues max f.0 d.batch) [
        | none ↦ none
        | some batch ↦
            let flushed : Outbox = record d { memory = f.2; batch = batch } in
            let a = add_registers queues flushed in
            let b = add_event_reply queues reply a.1 in
            let off : Outbox = record (b.1) { regs_cache = disable_cache b.1.regs_cache } in
            if a.0
            then if b.0
              then if commits
                then some (true, record off { batch = []; sent = off.batch ∷ off.sent })
                else some (false, off)
              else some (false, b.1)
            else some (false, a.1)
      ]
