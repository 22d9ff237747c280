-- ===== src/Kvm/Events/Answers.antt =====
-- What the reply to an event says (src/kvmeventmanager.cpp).
use libbdvmi.Common.{
  ℕ, ◌+◌, ◌%◌, ◌<◌, ◌≡◌, refl, Bool, true, false, ◌||◌, ◌∷◌, arith, ◌==◌, if◌then◌else◌,
}
use libbdvmi.Driver.{Access}
use libbdvmi.Xen.Registers.{Registers}
use libbdvmi.Xen.Events.{HvAction, skip_instruction, allow_virtual, handle_page_fault}
use libbdvmi.Xen.Events.Handlers.{denies}
use libbdvmi.Kvm.Registers
use libbdvmi.Kvm.Batch.{continue, retry, cr_reply, msr_reply}
use libbdvmi.Kvm.Events.{
  cr_event, msr_event, pf_event, KvmMessage, KvmWorld, KvmSession, new_reply, dispatch,
  act_on_page_fault, seen_access, fault_of, call_app, skip,
}

-- The value that the hypervisor is to write to a control register or an MSR: the old one if the
-- application skips the instruction or emulates it with no write, else the new one; the guest goes on.
pub dispatch-new_value :
    {S : Type 0} (w : KvmWorld S) (m : KvmMessage) (regs : Registers) (n old new : ℕ)
    (s : KvmSession S)
    → let value = if denies w.action then old else new in
      let of_cr = (dispatch w m regs (cr_event n old new) (new_reply m) s).0 in
      let of_msr = (dispatch w m regs (msr_event n old new) (new_reply m) s).0 in
      (of_cr.contents ≡ cr_reply value)
      × (of_msr.contents ≡ msr_reply value)
      × (of_cr.action ≡ continue)
      × (of_msr.action ≡ continue)
unfolding dispatch new_reply
dispatch-new_value w m regs n old new s = (refl, refl, refl, refl)

abbrev pub retries : HvAction → Bool
retries skip_instruction = true
retries allow_virtual = true
retries _ = false

abbrev pub skips : HvAction → Bool
skips skip_instruction = true
skips _ = false

-- A page fault is told to the application with a write counted as a read too. The instruction is
-- retried exactly if the application skips it or allows it; it is skipped by moving on the
-- instruction pointer that the application left, by the length that it gave, for the write of the
-- registers that the reply's batch ends with.
pub dispatch-pf_event :
    {S : Type 0} (w : KvmWorld S) (m : KvmMessage) (regs : Registers) (gpa gva : ℕ) (a : Access)
    (s : KvmSession S)
    → w.instruction_size < 32768
    → let r = dispatch w m regs (pf_event gpa gva a) (new_reply m) s in
      let cache = (w.on_outbox s.outbox).regs_cache in
      let gva' : ℕ = if gva == 18446744073709551615 then 0 else gva in
      (r.1.callbacks
        ≡ handle_page_fault m.vcpu regs gpa gva' (fault_of gpa gva' (seen_access a)) ∷ s.callbacks)
      × (r.0.action ≡ (if retries w.action then retry else continue))
      × (r.1.outbox.regs_cache.registers.rip ≡ (
          if skips w.action
          then (cache.registers.rip + w.instruction_size) % 18446744073709551616
          else cache.registers.rip))
      × (r.1.outbox.regs_cache.dirty ≡ (skips w.action || cache.dirty))
unfolding dispatch new_reply act_on_page_fault call_app skip Registers.skip_instruction
dispatch-pf_event w m regs gpa gva a s small =
    (ground arith, ground arith, ground arith, ground arith)
