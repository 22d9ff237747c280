-- ===== src/Xen/Events/Checks.antt =====
-- The event loop of src/xeneventmanager.cpp on concrete requests.
use libbdvmi.Common.{ℕ, ◌≡◌, refl, true, false, none, List, [], ◌∷◌, arith}
use libbdvmi.EventManager.{Backend, create}
use libbdvmi.Xen.Registers.{got, default_registers}
use libbdvmi.Xen.Events.{
  Flags, skip_instruction, running, MemAccess, Reason, singlestep, mov_to_msr, emul_unimplemented,
  guest_request, cr3, Request, rsp_regs, Response, World, Session,
}
use libbdvmi.Xen.Events.Loop.{dispatch, process, process_all, finish}
use libbdvmi.Xen.Events.Responses.{deny-dispatch, finish-delayed, process_leaves}
use libbdvmi.Xen.Events.Singlestep.{singlestep-emul_unimplemented}

abbrev no_flags : Flags
no_flags = record {
  emulate = false;
  emulate_nowrite = false;
  set_registers = false;
  deny = false;
  alternate_p2m = false;
  toggle_singlestep = false;
  set_emul_read_data = false;
  get_next_interrupt = false;
  others = 0;
}

-- An application that skips each instruction and leaves the driver alone.
abbrev skipping : World
skipping = record {
  action = skip_instruction;
  instruction_size = 3;
  emul_size = 0;
  emul_data = [];
  breakpoint_handled = true;
  on_registers = λ d. d;
  on_memory = λ m. m;
  on_injections = λ i. i;
  cpu = got default_registers;
  mtrr = got 6;
}

abbrev willing : Backend ℕ
willing r s = (true, s)

-- Two VCPUs, view 1, a modern Xen, a write for VCPU 0 pending.
abbrev session : Session ℕ
session = record {
  driver = record {
    has_handler = true;
    cached = default_registers;
    cached_vcpu = none;
    cached_valid = false;
    delayed = record default_registers { rip = 77 };
    delayed_pending = true;
    pat_initialized = true;
    msr_pat = 6;
    fatal_errors = 0;
  };
  memory = record {
    mem_access_cache = [];
    delayed_mem_access_write = [];
    delayed_convertible_write = [];
    max_gpfn = 0;
  };
  altp2m = record {
    xc = record {
      set_vcpu_disable_notify = true;
      set_suppress_ve = true;
      get_suppress_ve = true;
      get_vcpu_p2m_idx = true;
    };
    current_view = 1;
    views = 1 ∷ [];
    enabled = true;
    view_cache = [];
  };
  manager = create;
  backend = 0;
  pending_injections = [];
  has_handler = true;
  stopped = false;
  guest_state = running;
  handle_emul_unimplemented = true;
  singlestep_p2m_idx = [];
  msr_old_value_cache = [];
  version_is_4_6 = false;
  version_from_4_9 = true;
  is_xen_server = false;
  callbacks = [];
  reinjected = [];
}

abbrev request : ℕ → Reason → Request
request vcpu reason = record {
  version = 5;
  vcpu_id = vcpu;
  flags = record no_flags { alternate_p2m = true };
  altp2m_idx = 1;
  regs = record default_registers { rip = 4096 };
  reason = reason;
}

abbrev fault : MemAccess
fault = record {
  gfn = 5;
  offset = 8;
  gla = 0;
  read = false;
  write = true;
  execute = false;
  in_gpt = false;
  gla_valid = false;
}

abbrev blank : ℕ → Response
blank vcpu = record {
  version = 5;
  vcpu_id = vcpu;
  flags = no_flags;
  altp2m_idx = 1;
  contents = rsp_regs (record default_registers { rip = 4096 });
  reason = guest_request;
}

deny-dispatch_run :
    (dispatch willing skipping
      (request 0 guest_request)
      (mov_to_msr 372 0 1)
      (blank 0)
      session).0.flags.deny
    ≡ true
deny-dispatch_run =
    (deny-dispatch willing skipping (request 0 guest_request) cr3 372 0 1 (blank 0) session).2

finish-delayed_example :
    (finish (request 1 guest_request) (blank 1, true, session)).1.driver.delayed_pending ≡ true
finish-delayed_example =
    (finish-delayed (request 1 guest_request) (blank 1) true
      (record default_registers { rip = 4096 }) session refl refl).0

process_leaves_run :
    (process willing skipping (request 0 guest_request) session).1.driver.cached_vcpu ≡ none
process_leaves_run = (process_leaves willing skipping (request 0 guest_request) session).0

abbrev meanwhile : List (World × Request)
meanwhile = (skipping, request 0 guest_request) ∷ []

abbrev after_first : Session ℕ
after_first = (process willing skipping (request 1 emul_unimplemented) session).1

singlestep-emul_unimplemented_example :
    (process willing skipping
      (request 1 singlestep)
      (process_all willing meanwhile after_first).1).0.altp2m_idx
    ≡ 1
singlestep-emul_unimplemented_example =
    (singlestep-emul_unimplemented willing skipping skipping (request 1 emul_unimplemented)
      (request 1 singlestep) meanwhile session refl refl refl (omega arith) refl refl).4
