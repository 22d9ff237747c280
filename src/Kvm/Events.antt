-- ===== src/Kvm/Events.antt =====
-- The events of KVM: the loop of src/kvmeventmanager.cpp, from a message to its reply. The interface of
-- the application (its callbacks, actions, descriptor flags) is that of the events of Xen.
pub mod Answers
pub mod Handled
pub mod Round
pub mod Samples
use libbdvmi.Common.{
  ℕ, zero, suc, ◌+◌, ◌-◌, ◌*◌, ◌/◌, ◌%◌, ◌^◌, Bool, true, false, ◌&&◌, ◌||◌, not, Option, none,
  some, List, [], ◌∷◌, ◌==◌, if◌then◌else◌,
}
use libbdvmi.Driver.{Access}
use libbdvmi.EventManager.{EventManager}
use libbdvmi.Xen.Registers.{Registers}
use libbdvmi.Xen.Events.{
  HvAction, no_action, emulate_nowrite, skip_instruction, allow_virtual, emulate_set_ctxt,
  GuestState, running, post_shutdown, Descriptor, MemAccess, Callback, run_pre_event,
  run_post_event, handle_page_fault, handle_cr, handle_msr, handle_vmcall, handle_xsetbv,
  handle_breakpoint, handle_interrupt, handle_descriptor_access, handle_session_over,
}
use libbdvmi.Xen.Events.Handlers.{denies, descriptor_flags}
use libbdvmi.Kvm.Kvmi.{Kvmi}
use libbdvmi.Kvm.Registers
use libbdvmi.Kvm.Registers.{EventArch, RegsCache, load_registers, begin_event}
use libbdvmi.Kvm.Batch.{
  Action, continue, retry, ReplyContents, no_contents, cr_reply, msr_reply, pf_reply, EventReply,
  Message, Outbox, get_rep_optimizations, reply_event,
}
use libbdvmi.Kvm.Pause.{Pauses, pause_event_received, may_go_on}
use libbdvmi.Kvm.Vcpus.{Vcpus, update_vcpu_count, flush_ctrl_events}

-- KVMI_EVENT_*, with what each carries.
pub data KvmEvent : Type 0 where
  cr_event msr_event : ℕ → ℕ → ℕ → KvmEvent
  xsetbv_event hypercall_event pause_vcpu_event create_vcpu_event : KvmEvent
  singlestep_event unhook_event : KvmEvent
  breakpoint_event : ℕ → KvmEvent
  pf_event : ℕ → ℕ → Access → KvmEvent
  trap_event : ℕ → ℕ → ℕ → KvmEvent
  descriptor_event : Descriptor → Bool → KvmEvent
  unsupported_event : ℕ → KvmEvent

pub record KvmMessage : Type 0 where
  pub vcpu : ℕ
  pub seq : ℕ
  pub arch : EventArch
  pub event : KvmEvent

pub record KvmSession (S : Type 0) : Type 0 where
  pub outbox : Outbox
  pub vcpus : Vcpus
  pub pauses : Pauses
  pub manager : EventManager
  pub backend : S
  pub stopped : Bool
  pub suspending : Bool
  pub callbacks : List Callback  -- newest first

-- What comes from outside while one message is handled: what the application's callback leaves in its
-- output parameters and returns, what it does in it to the driver and to the event manager by their
-- operations, and what libkvmi answers.
pub record KvmWorld (S : Type 0) : Type 0 where
  pub action : HvAction
  pub instruction_size : ℕ
  pub emul_address : ℕ
  pub emul_size : ℕ
  pub emul_data : List ℕ
  pub breakpoint_handled : Bool
  pub on_outbox : Outbox → Outbox
  pub on_vcpus : Vcpus → Vcpus
  pub on_pauses : Pauses → Pauses
  pub on_manager : EventManager → EventManager
  pub on_backend : S → S
  pub vcpu_count : Option ℕ
  pub queues : Message → Bool
  pub commits : Bool

abbrev pub is_unhook : KvmEvent → Bool
is_unhook unhook_event = true
is_unhook _ = false

-- The union of a reply, all zeros.
abbrev pub blank_contents : KvmEvent → ReplyContents
blank_contents (cr_event cr old new) = cr_reply 0
blank_contents (msr_event msr old new) = msr_reply 0
blank_contents (pf_event gpa gva a) = pf_reply 0 0 [] false
blank_contents _ = no_contents

-- EventReply( msg ).
unfoldable pub new_reply : KvmMessage → EventReply
new_reply m = record {
  vcpu = m.vcpu;
  seq = m.seq;
  action = continue;
  contents = blank_contents m.event;
}

-- A write counts as a read too.
abbrev pub seen_access : Access → Access
seen_access a = record a { read = a.read || a.write }

-- `rep_complete`.
abbrev pub with_rep : Bool → ReplyContents → ReplyContents
with_rep rep (pf_reply address size bytes r) = pf_reply address size bytes rep
with_rep rep c = c

abbrev pub fault_of : ℕ → ℕ → Access → MemAccess
fault_of gpa gva a = record {
  gfn = gpa / 4096;
  offset = gpa % 4096;
  gla = gva;
  read = a.read;
  write = a.write;
  execute = a.execute;
  in_gpt = false;
  gla_valid = true;
}

module _ {S : Type 0} where
  unfoldable pub call : Callback → KvmSession S → KvmSession S
  call c s = record s { callbacks = c ∷ s.callbacks }

  unfoldable pub call_app : KvmWorld S → Callback → KvmSession S → KvmSession S
  unfolding call
  call_app w c s = record (call c s) {
    outbox = w.on_outbox s.outbox;
    vcpus = w.on_vcpus s.vcpus;
    pauses = w.on_pauses s.pauses;
    manager = w.on_manager s.manager;
    backend = w.on_backend s.backend;
  }

  unfoldable pub skip : ℕ → KvmSession S → KvmSession S
  skip size s = record s {
    outbox = record (s.outbox) { regs_cache = Registers.skip_instruction size s.outbox.regs_cache };
  }

  -- The `switch` over the action of a page fault; `emul_data` are the bytes that its memcpy brings over.
  unfoldable pub act_on_page_fault :
      KvmWorld S → HvAction → EventReply → KvmSession S → EventReply × KvmSession S
  unfolding skip
  act_on_page_fault w skip_instruction reply s =
      (record reply { action = retry }, skip w.instruction_size s)
  act_on_page_fault w allow_virtual reply s = (record reply { action = retry }, s)
  act_on_page_fault w emulate_set_ctxt reply s =
      (record reply { contents = pf_reply w.emul_address w.emul_size w.emul_data false }, s)
  act_on_page_fault w _ reply s = (reply, s)

  unfoldable pub act_on_descriptor :
      KvmWorld S → HvAction → EventReply → KvmSession S → EventReply × KvmSession S
  unfolding skip
  act_on_descriptor w allow_virtual reply s = (record reply { action = retry }, s)
  act_on_descriptor w action reply s =
      if denies action
      then (record reply { action = retry }, skip w.instruction_size s)
      else (reply, s)

  -- The `switch` over the event; waitForUnpause(), after the events of
  -- a new processor and of a pause, only waits.
  unfoldable pub dispatch :
      KvmWorld S
      → KvmMessage
      → Registers
      → KvmEvent
      → EventReply
      → KvmSession S
      → EventReply × KvmSession S
  unfolding call_app act_on_page_fault act_on_descriptor
  dispatch w m regs (cr_event cr old new) reply s = (
    record reply { contents = cr_reply (if denies w.action then old else new) },
    call_app w (handle_cr m.vcpu cr regs old new) s,
  )
  dispatch w m regs (msr_event msr old new) reply s = (
    record reply { contents = msr_reply (if denies w.action then old else new) },
    call_app w (handle_msr m.vcpu msr old new) s,
  )
  dispatch w m regs xsetbv_event reply s = (reply, call_app w (handle_xsetbv m.vcpu) s)
  dispatch w m regs (breakpoint_event gpa) reply s = (
    if w.breakpoint_handled then record reply { action = retry } else reply,
    call_app w (handle_breakpoint m.vcpu regs gpa) s,
  )
  dispatch w m regs hypercall_event reply s = (reply, call_app w (handle_vmcall m.vcpu regs) s)
  dispatch w m regs (pf_event gpa gva a) reply s =
      let gva' : ℕ = if gva == 2 ^ 64 - 1 then 0 else gva in
      let fault = fault_of gpa gva' (seen_access a) in
      let called = call_app w (handle_page_fault m.vcpu regs gpa gva' fault) s in
      let r = act_on_page_fault w w.action reply called in
      (record (r.0) { contents = with_rep (get_rep_optimizations r.1.outbox) r.0.contents }, r.1)
  dispatch w m regs (trap_event vector error cr2) reply s =
      (reply, call_app w (handle_interrupt m.vcpu regs vector error cr2) s)
  dispatch w m regs (descriptor_event d is_write) reply s =
      act_on_descriptor w w.action reply
        (call_app w (handle_descriptor_access m.vcpu regs (descriptor_flags d is_write)) s)
  dispatch w m regs create_vcpu_event reply s =
      (reply, record s { vcpus = (update_vcpu_count w.vcpu_count s.vcpus).1 })
  dispatch w m regs pause_vcpu_event reply s =
      (reply, record s { pauses = pause_event_received s.pauses })
  dispatch w m regs _ reply s = (reply, s)

  -- stop(): once only; `connected` is what kvmi_domain_is_connected answers.
  unfoldable pub stop : Bool → KvmSession S → KvmSession S
  unfolding call
  stop connected s =
      if s.stopped
      then s
      else record (call (handle_session_over (if connected then running else post_shutdown)) s) {
        stopped = true;
      }

-- What the round of the loop comes to: it ends with a reply that was sent or not, or the session ends
-- with no reply, or an index beyond the vector of the processors is read, or the loop that queues the
-- protections does not end (no page fits into a message).
pub data Outcome (S : Type 0) : Type 0 where
  answered : Bool → KvmSession S → Outcome S
  unhooked : KvmSession S → Outcome S
  out_of_range endless : Outcome S

module _ {S : Type 0} (kvmi : Kvmi S) (num_events max : ℕ) where
  -- flushCtrlEvents(), whose result is not looked at; the cached view is that of the register cache.
  unfoldable pub flush_control : ℕ → KvmSession S → Option (KvmSession S)
  flush_control vcpu s =
      let v : Vcpus = record (s.vcpus) { cached_view = s.outbox.regs_cache.view } in
      elim (flush_ctrl_events kvmi num_events vcpu s.manager.enabled_crs s.manager.enabled_msrs v
        s.backend) [
          | none ↦ none
          | some (ok, v', b) ↦ some (record s {
            vcpus = v';
            backend = b;
            outbox = record (s.outbox) {
              regs_cache = record (s.outbox.regs_cache) { view = v'.cached_view };
            };
          })
        ]

  unfoldable pub finish : KvmWorld S → EventReply → KvmSession S → Outcome S
  unfolding call
  finish w reply s = elim (reply_event w.queues max w.commits reply s.outbox) [
    | none ↦ endless
    | some (ok, outbox) ↦
        let s' : KvmSession S = record s { outbox = outbox } in
        answered ok (if ok then call run_post_event s' else s')
  ]

  -- One round for a message of an event other than an unhook, from beginEvent() on.
  unfoldable pub process_event : KvmWorld S → KvmMessage → KvmSession S → Outcome S
  unfolding finish flush_control
  process_event w m s =
      let begun = begin_event m.vcpu m.arch in
      let s1 : KvmSession S = call run_pre_event s in
      let s2 : KvmSession S = record s1 { outbox = record (s1.outbox) { regs_cache = begun.1 } } in
      let r = dispatch w m begun.0 m.event (new_reply m) s2 in
      elim (flush_control m.vcpu r.1) [ none ↦ out_of_range | some s3 ↦ finish w r.0 s3 ]

  unfoldable pub process : Bool → KvmWorld S → KvmMessage → KvmSession S → Outcome S
  unfolding process_event stop
  process connected w m s =
      if is_unhook m.event
      then unhooked (stop connected (record s { suspending = true }))
      else process_event w m s
