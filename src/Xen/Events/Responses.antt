-- ===== src/Xen/Events/Responses.antt =====
-- What the responses of src/xeneventmanager.cpp say, and what an event leaves behind.
use libbdvmi.Common.{
  ℕ, ◌+◌, ◌%◌, ◌≡◌, refl, ◌≢◌, Bool, true, false, ◌&&◌, ◌||◌, not, none, some, arith, if◌then◌else◌,
  find, find-insert, find-erase,
}
use libbdvmi.Driver.{flush_page_protections}
use libbdvmi.Driver.Protection.{find_in}
use libbdvmi.Driver.WriteBack.{find_in-emptied}
use libbdvmi.EventManager.{Backend}
use libbdvmi.Altp2m
use libbdvmi.Xen.Registers.{Registers, overlay, disable_cache}
use libbdvmi.Xen.Events.{
  skip_instruction, ControlRegister, xcr0, mem_access, write_ctrlreg, mov_to_msr, MemAccess,
  Request, rsp_regs, Response, World, Session,
}
use libbdvmi.Xen.Events.Handlers.{
  can_skip, denies, handle_mem_access, handle_cr_write, handle_msr_write,
}
use libbdvmi.Xen.Events.Loop.{initial_response, begin_event, dispatch, finish, process}

-- The application's word on a write of a control register or an MSR is what the hypervisor is told:
-- the write is denied exactly if there is an application and it skips the instruction or emulates it
-- with no write (or the request came with the flag). Writes of XCR0 are only reported.
pub deny-dispatch :
    {S : Type 0} (impl : Backend S) (w : World) (req : Request) (index : ControlRegister)
    (msr old new : ℕ) (rsp : Response) (s : Session S)
    → (index ≢ xcr0
        → (dispatch impl w req (write_ctrlreg index old new) rsp s).0.flags.deny
          ≡ (rsp.flags.deny || (s.has_handler && denies w.action)))
      × ((dispatch impl w req (write_ctrlreg xcr0 old new) rsp s).0 ≡ rsp)
      × ((dispatch impl w req (mov_to_msr msr old new) rsp s).0.flags.deny
          ≡ (rsp.flags.deny || (s.has_handler && denies w.action)))
unfolding dispatch handle_cr_write handle_msr_write
deny-dispatch impl w req index msr old new rsp s = (cr_case index, ground arith, ground arith)
  where
    cr_case :
        (i : ControlRegister)
        → i ≢ xcr0
        → (dispatch impl w req (write_ctrlreg i old new) rsp s).0.flags.deny
          ≡ (rsp.flags.deny || (s.has_handler && denies w.action))
    cr_case xcr0 h = absurd (h refl)
    cr_case _ h = ground arith

-- A page fault of which the application says that the instruction is to be skipped is answered with
-- the registers of the request, the instruction pointer moved on by the instruction's length, no
-- emulation and `skip`, where Xen can take registers; on the Xen that cannot, the instruction is
-- emulated without its write.
pub mem_access_skipped :
    {S : Type 0} (impl : Backend S) (w : World) (req : Request) (m : MemAccess) (rsp : Response)
    (s : Session S)
    → s.has_handler ≡ true
    → w.action ≡ skip_instruction
    → let r = dispatch impl w req (mem_access m) rsp s in
      (r.1 ≡ can_skip s)
      × (r.0.flags.emulate ≡ not (can_skip s))
      × (r.0.flags.emulate_nowrite ≡ (rsp.flags.emulate_nowrite || not (can_skip s)))
      × (r.0.contents ≡ (
          if can_skip s
          then rsp_regs (record (req.regs) {
            rip = (req.regs.rip + w.instruction_size) % 18446744073709551616;
          })
          else rsp.contents))
unfolding dispatch handle_mem_access
mem_access_skipped impl w req m rsp s heard action = ground arith

-- The delayed write goes out with the first response that does not skip its instruction, over the
-- registers in it, and with the flag if Xen can take it; then it is no longer pending. A response
-- that skips its instruction leaves the write pending for the next event, of whatever VCPU.
pub finish-delayed :
    {S : Type 0} (req : Request) (rsp : Response) (skip : Bool) (r : Registers) (s : Session S)
    → rsp.contents ≡ rsp_regs r
    → s.driver.delayed_pending ≡ true
    → let done = finish req (rsp, skip, s) in
      (done.1.driver.delayed_pending ≡ skip)
      × (done.0.contents ≡ rsp_regs (if skip then r else overlay s.driver.delayed r))
      × (done.0.flags.set_registers ≡ (rsp.flags.set_registers || (not skip && can_skip s)))
unfolding finish disable_cache
finish-delayed req rsp skip r s regs pending = ground arith

finish_leaves :
    {S : Type 0} (req : Request) (r : Response × Bool × Session S)
    → let s' = (finish req r).1 in
      (s'.driver.cached_vcpu ≡ none)
      × (s'.driver.cached_valid ≡ false)
      × (s'.altp2m.enabled ≡ true → find req.vcpu_id s'.altp2m.view_cache ≡ none)
      × (find req.vcpu_id s'.pending_injections ≢ some true)
      × ((v g : ℕ) → find_in v g s'.memory.delayed_mem_access_write ≡ none)
unfolding finish disable_cache Altp2m.disable_cache flush_page_protections
finish_leaves req (rsp, skip, s) = (
  ground arith,
  ground arith,
  λ on. ground (arith, find-erase req.vcpu_id req.vcpu_id s.altp2m.view_cache),
  λ e. ground (arith, find-insert req.vcpu_id req.vcpu_id false s.pending_injections),
  λ v g. ground (arith, find_in-emptied v g s.memory.delayed_mem_access_write),
)

-- After an event, whatever it was, the register cache and the view cache of its VCPU are off, no
-- injection is pending for the VCPU, and no page protection waits to be written.
pub process_leaves :
    {S : Type 0} (impl : Backend S) (w : World) (req : Request) (s : Session S)
    → let s' = (process impl w req s).1 in
      (s'.driver.cached_vcpu ≡ none)
      × (s'.driver.cached_valid ≡ false)
      × (s'.altp2m.enabled ≡ true → find req.vcpu_id s'.altp2m.view_cache ≡ none)
      × (find req.vcpu_id s'.pending_injections ≢ some true)
      × ((v g : ℕ) → find_in v g s'.memory.delayed_mem_access_write ≡ none)
unfolding process
process_leaves impl w req s =
    finish_leaves req (dispatch impl w req req.reason (initial_response req) (begin_event req s))
