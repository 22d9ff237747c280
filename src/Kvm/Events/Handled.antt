-- ===== src/Kvm/Events/Handled.antt =====
-- What the handlers of the events of KVM (src/kvmeventmanager.cpp) leave of what the reply depends on.

use libbdvmi.Common.{ℕ, ◌≡◌, refl, [], arith, ◌==◌, ◌^◌, ◌-◌, if◌then◌else◌}
use libbdvmi.Xen.Registers.{Registers}
use libbdvmi.Xen.Events.{
  HvAction, no_action, emulate_nowrite, skip_instruction, allow_virtual, emulate_set_ctxt, Callback,
  handle_page_fault, handle_cr, handle_msr, handle_vmcall, handle_xsetbv, handle_breakpoint,
  handle_interrupt, handle_descriptor_access,
}
use libbdvmi.Xen.Events.Handlers.{denies, descriptor_flags}
use libbdvmi.Kvm.Registers
use libbdvmi.Kvm.Registers.{RegsCache, begin_event, disable_cache}
use libbdvmi.Kvm.Batch.{cr_reply, msr_reply, retry, EventReply, Outbox}
use libbdvmi.Kvm.Vcpus.{Vcpus}
use libbdvmi.Kvm.Vcpus.InRange.{InRange, update_vcpu_count-InRange}
use libbdvmi.Kvm.Events.{
  seen_access, fault_of, KvmEvent, cr_event, msr_event, xsetbv_event, hypercall_event,
  pause_vcpu_event, create_vcpu_event, singlestep_event, unhook_event, breakpoint_event, pf_event,
  trap_event, descriptor_event, unsupported_event, KvmMessage, KvmWorld, KvmSession, dispatch,
  act_on_page_fault, act_on_descriptor, call, call_app, skip,
}

-- Between two events no message is queued and each processor has its entry.
pub record Idle {S : Type 0} (s : KvmSession S) : Type 0 where
  pub empty : s.outbox.batch ≡ []
  pub in_range : InRange s.vcpus

-- An application that, in its callback, sends no batch by itself and does not have the processors
-- counted without their entries.
pub record Fair {S : Type 0} (w : KvmWorld S) : Type 0 where
  pub no_batch : (d : Outbox) → (w.on_outbox d).batch ≡ d.batch
  pub no_sent : (d : Outbox) → (w.on_outbox d).sent ≡ d.sent
  pub vcpus_in_range : (v : Vcpus) → InRange v → InRange (w.on_vcpus v)

-- What the handler of an event leaves of what the reply depends on.
pub record Handled {S : Type 0} (m : KvmMessage) (s : KvmSession S) (r : EventReply × KvmSession S)
    : Type 0 where
  pub vcpu : r.0.vcpu ≡ m.vcpu
  pub seq : r.0.seq ≡ m.seq
  pub empty : r.1.outbox.batch ≡ s.outbox.batch
  pub sent : r.1.outbox.sent ≡ s.outbox.sent
  pub in_range : InRange s.vcpus → InRange r.1.vcpus

module _ {S : Type 0} (w : KvmWorld S) (fair : Fair w) (m : KvmMessage) where
  called-Handled :
      (c : Callback) (reply : EventReply) (s : KvmSession S)
      → reply.vcpu ≡ m.vcpu
      → reply.seq ≡ m.seq
      → Handled m s (reply, call_app w c s)
  unfolding call_app call
  called-Handled c reply s v q = record {
    vcpu = v;
    seq = q;
    empty = fair.no_batch s.outbox;
    sent = fair.no_sent s.outbox;
    in_range = fair.vcpus_in_range s.vcpus;
  }

  same-Handled :
      (reply : EventReply) (s : KvmSession S)
      → reply.vcpu ≡ m.vcpu
      → reply.seq ≡ m.seq
      → Handled m s (reply, s)
  same-Handled reply s v q = record {
    vcpu = v;
    seq = q;
    empty = refl;
    sent = refl;
    in_range = λ r. r;
  }

  act_on_page_fault-Handled :
      (a : HvAction) (reply : EventReply) (s t : KvmSession S)
      → Handled m s (reply, t)
      → Handled m s (act_on_page_fault w a reply t)
  unfolding act_on_page_fault skip Registers.skip_instruction
  act_on_page_fault-Handled skip_instruction reply s t h = record {
    vcpu = h.vcpu;
    seq = h.seq;
    empty = h.empty;
    sent = h.sent;
    in_range = h.in_range;
  }
  act_on_page_fault-Handled allow_virtual reply s t h = record {
    vcpu = h.vcpu;
    seq = h.seq;
    empty = h.empty;
    sent = h.sent;
    in_range = h.in_range;
  }
  act_on_page_fault-Handled emulate_set_ctxt reply s t h = record {
    vcpu = h.vcpu;
    seq = h.seq;
    empty = h.empty;
    sent = h.sent;
    in_range = h.in_range;
  }
  act_on_page_fault-Handled no_action reply s t h = h
  act_on_page_fault-Handled emulate_nowrite reply s t h = h

  act_on_descriptor-Handled :
      (a : HvAction) (reply : EventReply) (s t : KvmSession S)
      → Handled m s (reply, t)
      → Handled m s (act_on_descriptor w a reply t)
  unfolding act_on_descriptor skip Registers.skip_instruction
  act_on_descriptor-Handled skip_instruction reply s t h = record {
    vcpu = h.vcpu;
    seq = h.seq;
    empty = h.empty;
    sent = h.sent;
    in_range = h.in_range;
  }
  act_on_descriptor-Handled emulate_nowrite reply s t h = record {
    vcpu = h.vcpu;
    seq = h.seq;
    empty = h.empty;
    sent = h.sent;
    in_range = h.in_range;
  }
  act_on_descriptor-Handled allow_virtual reply s t h = record {
    vcpu = h.vcpu;
    seq = h.seq;
    empty = h.empty;
    sent = h.sent;
    in_range = h.in_range;
  }
  act_on_descriptor-Handled emulate_set_ctxt reply s t h = h
  act_on_descriptor-Handled no_action reply s t h = h

  pub dispatch-Handled :
      (regs : Registers) (e : KvmEvent) (reply : EventReply) (s : KvmSession S)
      → reply.vcpu ≡ m.vcpu
      → reply.seq ≡ m.seq
      → Handled m s (dispatch w m regs e reply s)
  unfolding dispatch
  dispatch-Handled regs (cr_event cr old new) reply s v q =
      called-Handled (handle_cr m.vcpu cr regs old new)
        (record reply { contents = cr_reply (if denies w.action then old else new) }) s v q
  dispatch-Handled regs (msr_event msr old new) reply s v q =
      called-Handled (handle_msr m.vcpu msr old new)
        (record reply { contents = msr_reply (if denies w.action then old else new) }) s v q
  dispatch-Handled regs xsetbv_event reply s v q = called-Handled (handle_xsetbv m.vcpu) reply s v q
  dispatch-Handled regs hypercall_event reply s v q =
      called-Handled (handle_vmcall m.vcpu regs) reply s v q
  dispatch-Handled regs (breakpoint_event gpa) reply s v q =
      called-Handled (handle_breakpoint m.vcpu regs gpa)
        (if w.breakpoint_handled then record reply { action = retry } else reply) s
        (ground (arith, v)) (ground (arith, q))
  dispatch-Handled regs (pf_event gpa gva a) reply s v q =
      let gva' : ℕ = if gva == 2 ^ 64 - 1 then 0 else gva in
      let c = handle_page_fault m.vcpu regs gpa gva' (fault_of gpa gva' (seen_access a)) in
      let h =
        act_on_page_fault-Handled w.action reply s (call_app w c s)
          (called-Handled c reply s v q) in
      record { vcpu = h.vcpu; seq = h.seq; empty = h.empty; sent = h.sent; in_range = h.in_range }
  dispatch-Handled regs (trap_event vector error cr2) reply s v q =
      called-Handled (handle_interrupt m.vcpu regs vector error cr2) reply s v q
  dispatch-Handled regs (descriptor_event d is_write) reply s v q =
      let c = handle_descriptor_access m.vcpu regs (descriptor_flags d is_write) in
      act_on_descriptor-Handled w.action reply s (call_app w c s) (called-Handled c reply s v q)
  dispatch-Handled regs create_vcpu_event reply s v q = record {
    vcpu = v;
    seq = q;
    empty = refl;
    sent = refl;
    in_range = update_vcpu_count-InRange w.vcpu_count s.vcpus;
  }
  dispatch-Handled regs pause_vcpu_event reply s v q = record {
    vcpu = v;
    seq = q;
    empty = refl;
    sent = refl;
    in_range = λ r. r;
  }
  dispatch-Handled regs singlestep_event reply s v q = same-Handled reply s v q
  dispatch-Handled regs unhook_event reply s v q = same-Handled reply s v q
  dispatch-Handled regs (unsupported_event id) reply s v q = same-Handled reply s v q
