-- ===== src/Xen/Events/Loop.antt =====
-- One round of the inner loop of waitForEventsByVMEventVersion (src/xeneventmanager.cpp): from a
-- request to its response.
use libbdvmi.Common.{
  ℕ, Bool, true, false, ◌&&◌, ◌||◌, none, some, List, [], ◌∷◌, if◌then◌else◌, find, insert,
}
use libbdvmi.Driver.{flush_page_protections}
use libbdvmi.EventManager.{Backend}
use libbdvmi.Altp2m
use libbdvmi.Xen.Registers.{Registers, overlay, enable_cache, disable_cache}
use libbdvmi.Xen.Events.{
  Reason, mem_access, singlestep, write_ctrlreg, mov_to_msr, guest_request, software_breakpoint,
  interrupt, descriptor_access, emul_unimplemented, unknown_reason, Request, RspData, rsp_regs,
  clobbered, Response, run_pre_event, run_post_event, handle_vmcall, handle_interrupt, World,
  Session,
}
use libbdvmi.Xen.Events.Handlers.{
  copy_registers, call, call_app, can_skip, handle_mem_access, handle_cr_write, handle_msr_write,
  handle_descriptor_write, on_breakpoint, stop,
}

-- The response before the event is looked at.
unfoldable pub initial_response : Request → Response
initial_response req = record {
  version = req.version;
  vcpu_id = req.vcpu_id;
  flags = record (req.flags) { alternate_p2m = false };
  altp2m_idx = req.altp2m_idx;
  contents = rsp_regs req.regs;
  reason = req.reason;
}

unfoldable pub overlay_data : Registers → RspData → RspData
overlay_data delayed (rsp_regs r) = rsp_regs (overlay delayed r)
overlay_data delayed _ = clobbered

module _ {S : Type 0} where
  unfoldable pub begin_event : Request → Session S → Session S
  unfolding call
  begin_event req s =
      let s' : Session S = record s {
        driver = enable_cache req.vcpu_id s.driver;
        altp2m = Altp2m.enable_cache req.vcpu_id req.altp2m_idx s.altp2m;
      } in
      if s.has_handler then call run_pre_event s' else s'

  -- The view from which a single step was begun is restored; that it is not known ends the session.
  unfoldable pub on_singlestep :
      Backend S → Request → Response → Session S → Response × Bool × Session S
  on_singlestep impl req rsp s =
      let stepping : Response = record rsp {
        flags = record (rsp.flags) { alternate_p2m = true; toggle_singlestep = true };
      } in
      elim (find req.vcpu_id s.singlestep_p2m_idx) [
        | none ↦ (stepping, false, stop impl s)
        | some idx ↦
            if s.handle_emul_unimplemented
            then (record stepping { altp2m_idx = idx }, false, s)
            else (stepping, false, stop impl s)
      ]

  -- An instruction that Xen cannot emulate is single-stepped in the unrestricted view 0.
  unfoldable pub on_emul_unimplemented :
      Request → Response → Session S → Response × Bool × Session S
  on_emul_unimplemented req rsp s =
      if s.handle_emul_unimplemented && req.flags.alternate_p2m
      then (
        record rsp {
          flags = record (req.flags) { toggle_singlestep = true; emulate = false };
          altp2m_idx = 0;
        },
        false,
        record s { singlestep_p2m_idx = insert req.vcpu_id req.altp2m_idx s.singlestep_p2m_idx },
      )
      else (rsp, false, s)

  -- The `switch` over the reason; the second result is `skip`.
  unfoldable pub dispatch :
      Backend S → World → Request → Reason → Response → Session S → Response × Bool × Session S
  unfolding call_app
  dispatch impl w req (mem_access m) rsp s = handle_mem_access w req m rsp s
  dispatch impl w req singlestep rsp s = on_singlestep impl req rsp s
  dispatch impl w req (write_ctrlreg index old new) rsp s =
      let r = handle_cr_write w req index old new rsp s in (r.0, false, r.1)
  dispatch impl w req (mov_to_msr msr old new) rsp s =
      let r = handle_msr_write w req msr old new rsp s in (r.0, false, r.1)
  dispatch impl w req guest_request rsp s = (
    rsp,
    false,
    if s.has_handler then call_app w (handle_vmcall req.vcpu_id (copy_registers req.regs)) s else s,
  )
  dispatch impl w req (software_breakpoint gfn type len) rsp s =
      (rsp, false, on_breakpoint w req gfn type len s)
  dispatch impl w req (interrupt vector error cr2) rsp s = (
    rsp,
    false,
    if s.has_handler
        then call_app w (handle_interrupt req.vcpu_id (copy_registers req.regs) vector error cr2) s
        else s,
  )
  dispatch impl w req (descriptor_access d is_write) rsp s =
      handle_descriptor_write w req d is_write rsp s
  dispatch impl w req emul_unimplemented rsp s = on_emul_unimplemented req rsp s
  dispatch impl w req (unknown_reason n) rsp s = (rsp, false, s)

  -- An injection that is pending for the VCPU asks for its next interrupt, where Xen can do that,
  -- and is cleared.
  unfoldable pub take_injection : ℕ → Response → Session S → Response × Session S
  take_injection vcpu rsp s = elim (find vcpu s.pending_injections) [
    | none ↦ (rsp, s)
    | some false ↦ (rsp, s)
    | some true ↦ (
      if s.version_from_4_9 || s.is_xen_server
          then record rsp { flags = record (rsp.flags) { get_next_interrupt = true } }
          else rsp,
      record s { pending_injections = insert vcpu false s.pending_injections },
    )
  ]

  -- setRegisters(): the delayed write goes out with the response.
  unfoldable pub take_delayed : Response → Session S → Response × Session S
  unfolding overlay_data
  take_delayed rsp s =
      if s.driver.delayed_pending
      then (
        record rsp {
          contents = overlay_data s.driver.delayed rsp.contents;
          flags = record (rsp.flags) {
            set_registers = if can_skip s then true else rsp.flags.set_registers;
          };
        },
        record s { driver = record (s.driver) { delayed_pending = false } },
      )
      else (rsp, s)

  -- What follows the answer: the flush of the page protections, and the end of the event.
  unfoldable pub end_event : Request → Session S → Session S
  unfolding call
  end_event req s =
      let flushed : Session S = record s { memory = (flush_page_protections s.memory).2 } in
      let told : Session S = if s.has_handler then call run_post_event flushed else flushed in
      record told {
        altp2m = Altp2m.disable_cache req.vcpu_id told.altp2m;
        driver = disable_cache told.driver;
      }

  unfoldable pub finish : Request → Response × Bool × Session S → Response × Session S
  unfolding take_delayed take_injection end_event
  finish req (rsp, skip, s) =
      let a = take_injection req.vcpu_id rsp s in
      let b = if skip then a else take_delayed a.0 a.1 in (b.0, end_event req b.1)

  unfoldable pub process : Backend S → World → Request → Session S → Response × Session S
  unfolding finish
  process impl w req s =
      finish req (dispatch impl w req req.reason (initial_response req) (begin_event req s))

  -- The requests that are on the ring, with what each meets, and their responses in order.
  unfoldable pub process_all :
      Backend S → List (World × Request) → Session S → List Response × Session S
  process_all impl [] s = ([], s)
  process_all impl ((w, req) ∷ rs) s =
      let a = process impl w req s in let b = process_all impl rs a.1 in (a.0 ∷ b.0, b.1)
