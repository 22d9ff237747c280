-- ===== src/Kvm/Events/Samples.antt =====
-- A concrete message, application and session, for the tests of the events of KVM.
use libbdvmi.Common.{refl, true, false, none, some, [], ◌∷◌, arith, find}
use libbdvmi.Driver.{Access}
use libbdvmi.EventManager.{create}
use libbdvmi.Xen.Registers.{default_registers}
use libbdvmi.Xen.Events.{skip_instruction}
use libbdvmi.Kvm.Granting.{Machine, blank}
use libbdvmi.Kvm.Registers.{Segment, EventArch}
use libbdvmi.Kvm.Control.{new_vcpu_events}
use libbdvmi.Kvm.Events.{pf_event, KvmMessage, KvmWorld, KvmSession}
use libbdvmi.Kvm.Events.Handled.{Idle, Fair}

abbrev segment : Segment
segment = record {
  base = 0;
  limit = 65535;
  selector = 8;
  type = 3;
  present = 1;
  dpl = 0;
  db = 1;
  s = 1;
  l = 0;
  g = 0;
  avl = 0;
  unusable = 0;
}

abbrev arch : EventArch
arch = record {
  state = record {
    general = default_registers.general;
    rflags = 2;
    rip = 4096;
    cs = segment;
    ss = segment;
    ds = segment;
    es = segment;
    fs = segment;
    gs = segment;
    idtr_base = 0;
    idtr_limit = 0;
    gdtr_base = 0;
    gdtr_limit = 0;
    cr0 = 1;
    cr2 = 0;
    cr3 = 8192;
    cr4 = 0;
    mode = 4;
  };
  msrs = record {
    sysenter_cs = 0;
    sysenter_esp = 0;
    sysenter_eip = 0;
    efer = 0;
    star = 0;
    lstar = 0;
    cstar = 0;
    pat = 0;
    shadow_gs = 0;
  };
  view = 0;
}

abbrev pub written : Access
written = record { read = false; write = true; execute = false }

-- Processor 0 writes to a page.
abbrev pub fault : KvmMessage
fault = record { vcpu = 0; seq = 9; arch = arch; event = pf_event 12288 0 written }

-- An application that skips the instruction, of three bytes.
abbrev pub skipping : KvmWorld Machine
skipping = record {
  action = skip_instruction;
  instruction_size = 3;
  emul_address = 0;
  emul_size = 0;
  emul_data = [];
  breakpoint_handled = true;
  on_outbox = λ d. d;
  on_vcpus = λ v. v;
  on_pauses = λ p. p;
  on_manager = λ m. m;
  on_backend = λ s. s;
  vcpu_count = some 1;
  queues = λ c. true;
  commits = true;
}

abbrev pub session : KvmSession Machine
session = record {
  outbox = record {
    flags = 0;
    regs_cache = record {
      registers = default_registers;
      vcpu = none;
      valid = false;
      dirty = false;
      view = 0;
    };
    memory = record {
      mem_access_cache = [];
      delayed_mem_access_write = [];
      delayed_convertible_write = [];
      max_gpfn = 0;
    };
    batch = [];
    sent = [];
  };
  vcpus = record {
    vcpu_count = 1;
    vcpu_events = (0, new_vcpu_events) ∷ [];
    enabled_events = 5 ∷ [];
    views = record {
      eptp_supported = false;
      ve_supported = false;
      untrusted_view = 0;
      visible = [];
      pending_vcpus = [];
      pending_switch_count = 0;
    };
    cached_view = 0;
  };
  pauses = record { pause_count = 0; pending_pause_events = 0; locked = false; misused = false };
  manager = create;
  backend = blank;
  stopped = false;
  suspending = false;
  callbacks = [];
}

pub session-Idle : Idle session
unfolding find
session-Idle = record { empty = refl; in_range = λ i small. ground arith }

pub skipping-Fair : Fair skipping
skipping-Fair = record { no_batch = λ d. refl; no_sent = λ d. refl; vcpus_in_range = λ v r. r }
