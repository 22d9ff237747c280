-- ===== src/Xen/Events/Singlestep.antt =====
-- The single step over an instruction that Xen cannot emulate (src/xeneventmanager.cpp): the view
-- in which it was met is saved, and restored when the step is done.
use libbdvmi.Common.{
  ℕ, ◌≡◌, sym, ap, subst, ◌≢◌, ◌∙◌, Bool, true, false, some, List, [], ◌∷◌, arith, find,
  find-insert_ne, find-insert_self,
}
use libbdvmi.EventManager.{Backend}
use libbdvmi.Xen.Events.{
  Reason, mem_access, singlestep, write_ctrlreg, mov_to_msr, guest_request, software_breakpoint,
  interrupt, descriptor_access, emul_unimplemented, unknown_reason, Request, Response, World,
  Session, xcr0,
}
use libbdvmi.Xen.Events.Handlers.{
  handle_mem_access, handle_cr_write, handle_msr_write, handle_descriptor_write, on_breakpoint,
  stop,
}
use libbdvmi.Xen.Events.Loop.{
  initial_response, begin_event, on_singlestep, on_emul_unimplemented, dispatch, finish, process,
  process_all,
}

-- What the session knows for the step of a VCPU.
abbrev Saved : {S : Type 0} → ℕ → ℕ → Session S → Type 0
Saved v idx s = (find v s.singlestep_p2m_idx ≡ some idx) × (s.handle_emul_unimplemented ≡ true)

module _ {S : Type 0} (impl : Backend S) (v idx : ℕ) where
  finish-Saved :
      (req : Request) (r : Response × Bool × Session S)
      → Saved v idx r.2
      → Saved v idx (finish req r).1
  unfolding finish
  finish-Saved req (rsp, skip, s) h = ground arith

  stop-Saved : (s : Session S) → Saved v idx s → Saved v idx (stop impl s)
  unfolding stop
  stop-Saved s h = ground arith

  dispatch-Saved :
      (w : World) (req : Request) (r : Reason) (rsp : Response) (s : Session S)
      → req.vcpu_id ≢ v
      → Saved v idx s
      → Saved v idx (dispatch impl w req r rsp s).2
  unfolding dispatch
  dispatch-Saved w req (mem_access m) rsp s ne h = unfold handle_mem_access in ground arith
  dispatch-Saved w req singlestep rsp s ne h =
      unfold on_singlestep in ground (arith, stop-Saved s h)
  dispatch-Saved w req (write_ctrlreg xcr0 old new) rsp s ne h =
      unfold handle_cr_write in ground arith
  dispatch-Saved w req (write_ctrlreg _ old new) rsp s ne h = unfold handle_cr_write in ground arith
  dispatch-Saved w req (mov_to_msr msr old new) rsp s ne h = unfold handle_msr_write in ground arith
  dispatch-Saved w req guest_request rsp s ne h = ground arith
  dispatch-Saved w req (software_breakpoint gfn type len) rsp s ne h =
      unfold on_breakpoint in ground arith
  dispatch-Saved w req (interrupt vector error cr2) rsp s ne h = ground arith
  dispatch-Saved w req (descriptor_access d is_write) rsp s ne h =
      unfold handle_descriptor_write in ground arith
  dispatch-Saved w req emul_unimplemented rsp s ne h =
      unfold on_emul_unimplemented in
      ground (arith, find-insert_ne req.vcpu_id v req.altp2m_idx s.singlestep_p2m_idx ne)
  dispatch-Saved w req (unknown_reason n) rsp s ne h = h

  begin_event-Saved :
      (req : Request) (s : Session S) → Saved v idx s → Saved v idx (begin_event req s)
  unfolding begin_event
  begin_event-Saved req s h = ground arith

  process-Saved :
      (w : World) (req : Request) (s : Session S)
      → req.vcpu_id ≢ v
      → Saved v idx s
      → Saved v idx (process impl w req s).1
  unfolding process
  process-Saved w req s ne h = finish-Saved req _ (
      dispatch-Saved w req req.reason (initial_response req) (begin_event req s) ne
        (begin_event-Saved req s h))

  -- Requests of other VCPUs.
  abbrev pub Others : List (World × Request) → Type 0
  Others [] = Unit
  Others ((w, req) ∷ rs) = (req.vcpu_id ≢ v) × Others rs

  process_all-Saved :
      (rs : List (World × Request)) (s : Session S)
      → Others rs
      → Saved v idx s
      → Saved v idx (process_all impl rs s).1
  unfolding process_all
  process_all-Saved [] s o h = h
  process_all-Saved ((w, req) ∷ rs) s o h =
      process_all-Saved rs (process impl w req s).1 o.1 (process-Saved w req s o.0 h)

module _ {S : Type 0} (impl : Backend S) where
  process-eq :
      (w : World) (req : Request) (s : Session S) (r : Reason)
      → req.reason ≡ r
      → process impl w req s
        ≡ finish req (dispatch impl w req r (initial_response req) (begin_event req s))
  unfolding process
  process-eq w req s r e =
      ap (λ x. finish req (dispatch impl w req x (initial_response req) (begin_event req s))) e

  begin_event-step :
      (req : Request) (s : Session S)
      → ((begin_event req s).handle_emul_unimplemented ≡ s.handle_emul_unimplemented)
        × ((begin_event req s).stopped ≡ s.stopped)
  unfolding begin_event
  begin_event-step req s = ground arith

  dispatch-emul_unimplemented :
      (w : World) (req : Request) (rsp : Response) (s : Session S)
      → req.flags.alternate_p2m ≡ true
      → s.handle_emul_unimplemented ≡ true
      → let r = dispatch impl w req emul_unimplemented rsp s in
        Saved req.vcpu_id req.altp2m_idx r.2
        × (r.0.altp2m_idx ≡ 0)
        × (r.0.flags.alternate_p2m ≡ true)
        × (r.0.flags.toggle_singlestep ≡ true)
        × (r.0.flags.emulate ≡ false)
  unfolding dispatch on_emul_unimplemented
  dispatch-emul_unimplemented w req rsp s flag on =
      ground (arith, find-insert_self req.vcpu_id req.altp2m_idx s.singlestep_p2m_idx)

  dispatch-singlestep :
      (w : World) (req : Request) (idx : ℕ) (rsp : Response) (s : Session S)
      → Saved req.vcpu_id idx s
      → let r = dispatch impl w req singlestep rsp s in
        (r.0.altp2m_idx ≡ idx)
        × (r.0.flags.alternate_p2m ≡ true)
        × (r.0.flags.toggle_singlestep ≡ true)
        × (r.2 ≡ s)
  unfolding dispatch on_singlestep
  dispatch-singlestep w req idx rsp s h = ground arith

  take-idx :
      (req : Request) (rsp : Response) (skip : Bool) (s : Session S)
      → ((finish req (rsp, skip, s)).0.altp2m_idx ≡ rsp.altp2m_idx)
        × ((finish req (rsp, skip, s)).0.flags.alternate_p2m ≡ rsp.flags.alternate_p2m)
        × ((finish req (rsp, skip, s)).0.flags.toggle_singlestep ≡ rsp.flags.toggle_singlestep)
        × ((finish req (rsp, skip, s)).1.stopped ≡ s.stopped)
        × ((finish req (rsp, skip, s)).0.flags.emulate ≡ rsp.flags.emulate)
  unfolding finish
  take-idx req rsp skip s = ground arith

  save-Saved :
      (w : World) (req : Request) (s : Session S)
      → req.reason ≡ emul_unimplemented
      → req.flags.alternate_p2m ≡ true
      → s.handle_emul_unimplemented ≡ true
      → Saved req.vcpu_id req.altp2m_idx (process impl w req s).1
        × ((process impl w req s).0.altp2m_idx ≡ 0)
        × ((process impl w req s).0.flags.alternate_p2m ≡ true)
        × ((process impl w req s).0.flags.toggle_singlestep ≡ true)
        × ((process impl w req s).0.flags.emulate ≡ false)
  save-Saved w req s what flag on =
      let r = dispatch impl w req emul_unimplemented (initial_response req) (begin_event req s) in
      let (kept, zero_idx, alt, toggled, direct) =
        dispatch-emul_unimplemented w req (initial_response req) (begin_event req s) flag
          ((begin_event-step req s).0 ∙ on) in
      let e = process-eq w req s emul_unimplemented what in
      let t = take-idx req r.0 r.1 r.2 in
      (
        subst (λ p. Saved req.vcpu_id req.altp2m_idx p.1) (sym e)
            (finish-Saved impl req.vcpu_id req.altp2m_idx req r kept),
        ap (λ p. p.0.altp2m_idx) e ∙ (t.0 ∙ zero_idx),
        ap (λ p. p.0.flags.alternate_p2m) e ∙ (t.1 ∙ alt),
        ap (λ p. p.0.flags.toggle_singlestep) e ∙ (t.2 ∙ toggled),
        ap (λ p. p.0.flags.emulate) e ∙ (t.4 ∙ direct),
      )

  step-Saved :
      (w : World) (req : Request) (idx : ℕ) (s : Session S)
      → req.reason ≡ singlestep
      → Saved req.vcpu_id idx s
      → ((process impl w req s).0.altp2m_idx ≡ idx)
        × ((process impl w req s).0.flags.alternate_p2m ≡ true)
        × ((process impl w req s).0.flags.toggle_singlestep ≡ true)
        × ((process impl w req s).1.stopped ≡ s.stopped)
  step-Saved w req idx s what h =
      let r = dispatch impl w req singlestep (initial_response req) (begin_event req s) in
      let (i, alt, toggled, same) =
        dispatch-singlestep w req idx (initial_response req) (begin_event req s)
          (begin_event-Saved impl req.vcpu_id idx req s h) in
      let e = process-eq w req s singlestep what in
      let t = take-idx req r.0 r.1 r.2 in
      (
        ap (λ p. p.0.altp2m_idx) e ∙ (t.0 ∙ i),
        ap (λ p. p.0.flags.alternate_p2m) e ∙ (t.1 ∙ alt),
        ap (λ p. p.0.flags.toggle_singlestep) e ∙ (t.2 ∙ toggled),
        ap (λ p. p.1.stopped) e
            ∙ (t.3 ∙ (ap (λ (x : Session S). x.stopped) same ∙ (begin_event-step req s).1)),
      )

  -- A VCPU that meets an instruction which Xen cannot emulate, in a session that handles these and
  -- in an event that comes with a view, is switched into view 0 to single-step over it, with no
  -- emulation; when it has, any number of events of other VCPUs later, the response switches it back
  -- into the view that it came from, toggles the stepping again, and does not end the session.
  pub singlestep-emul_unimplemented :
      (w w' : World) (req step : Request) (rs : List (World × Request)) (s : Session S)
      → req.reason ≡ emul_unimplemented
      → req.flags.alternate_p2m ≡ true
      → s.handle_emul_unimplemented ≡ true
      → Others impl req.vcpu_id req.altp2m_idx rs
      → step.vcpu_id ≡ req.vcpu_id
      → step.reason ≡ singlestep
      → let first = process impl w req s in
        let between = (process_all impl rs first.1).1 in
        let last = process impl w' step between in
        (first.0.altp2m_idx ≡ 0)
        × (first.0.flags.alternate_p2m ≡ true)
        × (first.0.flags.toggle_singlestep ≡ true)
        × (first.0.flags.emulate ≡ false)
        × (last.0.altp2m_idx ≡ req.altp2m_idx)
        × (last.0.flags.alternate_p2m ≡ true)
        × (last.0.flags.toggle_singlestep ≡ true)
        × (last.1.stopped ≡ between.stopped)
  singlestep-emul_unimplemented w w' req step rs s what flag on others same ends =
      let (kept, zero_idx, switched, toggled, direct) = save-Saved w req s what flag on in
      let between = (process_all impl rs (process impl w req s).1).1 in
      let still =
        process_all-Saved impl req.vcpu_id req.altp2m_idx rs (process impl w req s).1 others kept in
      let (i, alt, off, running) =
        step-Saved w' step req.altp2m_idx between ends
          (subst (λ v. Saved v req.altp2m_idx between) (sym same) still) in
      (zero_idx, switched, toggled, direct, i, alt, off, running)
