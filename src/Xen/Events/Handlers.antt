-- ===== src/Xen/Events/Handlers.antt =====
-- The handlers of src/xeneventmanager.cpp for the single kinds of event.
use libbdvmi.Common.{
  ℕ, ◌+◌, ◌*◌, ◌%◌, ◌^◌, Bool, true, false, ◌&&◌, ◌||◌, not, none, some, ◌∷◌, ◌==◌, ltb, leb,
  if◌then◌else◌, find, page_size, gfn_to_gpa,
}
use libbdvmi.Driver.{slot, write_slot}
use libbdvmi.EventManager.{Backend, disable_xsetbv_events, disable_cr_events}
use libbdvmi.Xen.Registers.{
  Registers, default_registers, mode_of_size, guest_x86_mode_of, registers,
}
use libbdvmi.Xen.Events.{
  HvAction, no_action, emulate_nowrite, skip_instruction, allow_virtual, emulate_set_ctxt,
  ControlRegister, cr0, cr4, xcr0, Descriptor, idtr, gdtr, ldtr, tr, unknown_descriptor, MemAccess,
  Request, rsp_regs, emul_read, Response, Callback, handle_page_fault, handle_cr, handle_msr,
  handle_xsetbv, handle_breakpoint, handle_descriptor_access, handle_session_over, World, Session,
}

-- What a request tells of the registers; the others have their default.
unfoldable pub copy_registers : Registers → Registers
copy_registers r =
    let regs : Registers = record default_registers {
      sysenter_cs = r.sysenter_cs;
      sysenter_esp = r.sysenter_esp;
      sysenter_eip = r.sysenter_eip;
      msr_efer = r.msr_efer;
      msr_star = r.msr_star;
      msr_lstar = r.msr_lstar;
      fs_base = r.fs_base;
      gs_base = r.gs_base;
      rflags = r.rflags;
      general = r.general;
      rip = r.rip;
      cr0 = r.cr0;
      cr2 = r.cr2;
      cr3 = r.cr3;
      cr4 = r.cr4;
      cs_arbytes = r.cs_arbytes;
    } in
    record regs { guest_x86_mode = mode_of_size (guest_x86_mode_of regs) }

module _ {S : Type 0} where
  unfoldable pub call : Callback → Session S → Session S
  call c s = record s { callbacks = c ∷ s.callbacks }

  -- The callback for an event, in which the application may work on the driver.
  unfoldable pub call_app : World → Callback → Session S → Session S
  unfolding call
  call_app w c s = record (call c s) {
    driver = w.on_registers s.driver;
    memory = w.on_memory s.memory;
    pending_injections = w.on_injections s.pending_injections;
  }

  -- `xc_.version != Version( 4, 6 ) || xc_.isXenServer`.
  abbrev pub can_skip : Session S → Bool
  can_skip s = not s.version_is_4_6 || s.is_xen_server

-- Whether the application forbids the write.
abbrev pub denies : HvAction → Bool
denies emulate_nowrite = true
denies skip_instruction = true
denies _ = false

-- The instruction is left out: the response, and `skip`.
unfoldable pub skip_to : Request → ℕ → Response → Response
skip_to req size rsp = record rsp {
  contents = rsp_regs (record (req.regs) { rip = (req.regs.rip + size) % 2 ^ 64 });
  flags = record (rsp.flags) { set_registers = true };
}

-- The `switch` of handleMemAccess; `emul_data` are the bytes that its memcpy brings over. The
-- response's registers are those of the request when it is reached.
unfoldable pub act_on_page_fault : Bool → World → Request → Response → HvAction → Response × Bool
unfolding skip_to
act_on_page_fault can w req rsp no_action = (rsp, false)
act_on_page_fault can w req rsp allow_virtual =
    (record rsp { flags = record (rsp.flags) { emulate = false } }, false)
act_on_page_fault can w req rsp emulate_set_ctxt = (
  record rsp {
    contents = emul_read w.emul_size w.emul_data;
    flags = record (rsp.flags) { set_emul_read_data = true };
  },
  false,
)
act_on_page_fault can w req rsp _ =
    let skipped = skip_to req w.instruction_size rsp in
    if can
    then (record skipped { flags = record (skipped.flags) { emulate = false } }, true)
    else (record rsp { flags = record (rsp.flags) { emulate_nowrite = true } }, false)

abbrev pub fault_address : MemAccess → ℕ
fault_address m = (m.gfn * page_size + m.offset) % 2 ^ 64

abbrev pub fault_gva : MemAccess → ℕ
fault_gva m = if m.gla_valid then m.gla else 0

unfoldable pub cr_number : ControlRegister → ℕ
cr_number cr0 = 0
cr_number cr4 = 4
cr_number _ = 3

unfoldable pub deny_if : Bool → Response → Response
deny_if b rsp = if b then record rsp { flags = record (rsp.flags) { deny = true } } else rsp

-- MSR_IA32_MISC_ENABLE and MSR_IA32_MC0_CTL have no register: 0, as any other.
unfoldable pub msr_of : ℕ → Registers → ℕ
msr_of msr r =
    if msr == 0x174
    then r.sysenter_cs
    else if msr == 0x175
    then r.sysenter_esp
    else if msr == 0x176
    then r.sysenter_eip
    else if msr == 0xc0000080
    then r.msr_efer
    else if msr == 0xc0000082
    then r.msr_lstar
    else if msr == 0xc0000100
    then r.fs_base
    else if msr == 0xc0000101
    then r.gs_base
    else if msr == 0xc0000081
    then r.msr_star
    else if msr == 0x277
    then r.msr_pat
    else if msr == 0xc0000102
    then r.shadow_gs
    else 0

-- BDVMI_DESC_ACCESS_IDTR and its like, joined with the kind of access.
unfoldable pub descriptor_flags : Descriptor → Bool → ℕ
descriptor_flags d is_write =
    elim d [ idtr ↦ 1 | gdtr ↦ 2 | ldtr ↦ 8 | tr ↦ 4 | unknown_descriptor n ↦ 0 ]
    + (if is_write then 32 else 16)

unfoldable pub act_on_descriptor : Bool → World → Request → Response → HvAction → Response × Bool
unfolding skip_to
act_on_descriptor can w req rsp allow_virtual = (rsp, false)
act_on_descriptor can w req rsp action =
    if denies action
    then if can then (skip_to req w.instruction_size rsp, true) else (rsp, false)
    else (record rsp { flags = record (rsp.flags) { emulate = true } }, false)

module _ {S : Type 0} where
  unfoldable pub handle_mem_access :
      World → Request → MemAccess → Response → Session S → Response × Bool × Session S
  unfolding act_on_page_fault call_app copy_registers
  handle_mem_access w req m rsp s =
      let rsp' : Response = record rsp { flags = record (rsp.flags) { emulate = true } } in
      let done = act_on_page_fault (can_skip s) w req rsp' w.action in
      if s.has_handler
      then (
        done.0,
        done.1,
        call_app w
            (handle_page_fault req.vcpu_id (copy_registers req.regs) (fault_address m) (fault_gva m)
              m)
            s,
      )
      else (rsp', false, s)

  unfoldable pub handle_cr_write :
      World → Request → ControlRegister → ℕ → ℕ → Response → Session S → Response × Session S
  unfolding call_app deny_if
  handle_cr_write w req xcr0 old new rsp s =
      if s.has_handler then (rsp, call_app w (handle_xsetbv req.vcpu_id) s) else (rsp, s)
  handle_cr_write w req index old new rsp s =
      if s.has_handler
      then (
        deny_if (denies w.action) rsp,
        call_app w (handle_cr req.vcpu_id (cr_number index) (copy_registers req.regs) old new) s,
      )
      else (rsp, s)

  unfoldable pub get_msr : World → ℕ → ℕ → Session S → ℕ × Session S
  unfolding msr_of
  get_msr w vcpu msr s =
      let r = registers vcpu w.cpu w.mtrr s.driver in
      (if r.0 then msr_of msr r.1 else 0, record s { driver = r.2 })

  -- The value before the write, for an interface that does not tell it.
  unfoldable pub old_msr_value : World → ℕ → ℕ → Session S → ℕ × Session S
  unfolding get_msr
  old_msr_value w vcpu msr s = elim (find msr (slot vcpu s.msr_old_value_cache)) [
    | some v ↦ (v, s)
    | none ↦ get_msr w vcpu msr s
  ]

  -- Up to version 2 of the interface what is written is remembered, if it is not forbidden.
  unfoldable pub handle_msr_write :
      World → Request → ℕ → ℕ → ℕ → Response → Session S → Response × Session S
  unfolding old_msr_value call_app deny_if
  handle_msr_write w req msr old new rsp s =
      let known = if ltb 2 req.version then (old, s) else old_msr_value w req.vcpu_id msr s in
      let called = call_app w (handle_msr req.vcpu_id msr known.0 new) known.1 in
      if s.has_handler
      then (
        deny_if (denies w.action) rsp,
        if not (denies w.action) && leb req.version 2
            then record called {
              msr_old_value_cache = write_slot req.vcpu_id msr new called.msr_old_value_cache;
            }
            else called,
      )
      else (rsp, s)

  unfoldable pub handle_descriptor_write :
      World → Request → Descriptor → Bool → Response → Session S → Response × Bool × Session S
  unfolding act_on_descriptor call_app
  handle_descriptor_write w req d is_write rsp s =
      let done = act_on_descriptor (can_skip s) w req rsp w.action in
      if s.has_handler
      then (
        done.0,
        done.1,
        call_app w
            (handle_descriptor_access req.vcpu_id (copy_registers req.regs)
              (descriptor_flags d is_write))
            s,
      )
      else (rsp, false, s)

  -- 6 is HVMOP_TRAP_sw_exc. A breakpoint that the application does not take is given back.
  unfoldable pub on_breakpoint : World → Request → ℕ → ℕ → ℕ → Session S → Session S
  unfolding call_app
  on_breakpoint w req gfn type insn_length s =
      let called =
        call_app w (handle_breakpoint req.vcpu_id (copy_registers req.regs) (gfn_to_gpa gfn)) s in
      let len : ℕ = if ltb req.version 2 then 1 else insn_length in
      let t : ℕ = if ltb req.version 2 then 6 else type in
      if s.has_handler
      then if w.breakpoint_handled
        then called
        else record called { reinjected = (req.vcpu_id, t, len) ∷ s.reinjected }
      else s

  -- stop(): once only; the session is reported over, and the events are switched off.
  unfoldable pub stop : Backend S → Session S → Session S
  unfolding call
  stop impl s =
      let told = if s.has_handler then call (handle_session_over s.guest_state) s else s in
      let a = disable_xsetbv_events impl s.manager s.backend in
      let b = disable_cr_events impl 0 a.1 a.2 in
      let c = disable_cr_events impl 3 b.1 b.2 in
      let d = disable_cr_events impl 4 c.1 c.2 in
      if s.stopped then s else record told { stopped = true; manager = d.1; backend = d.2 }
