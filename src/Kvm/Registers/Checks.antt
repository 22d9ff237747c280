-- ===== src/Kvm/Registers/Checks.antt =====
-- The registers of src/kvmdriver.cpp on concrete states.
use libbdvmi.Common.{ℕ, ◌≡◌, refl, true, false, none, some, ◌==◌, if◌then◌else◌, ◌^◌, ◌-◌}
use libbdvmi.Xen.Registers.{default_registers}
use libbdvmi.Kvm.Registers.{
  Segment, make_ar_bytes, KvmState, EventArch, load_registers, GotRegisters, RegsCache, success,
  registers, set_registers, begin_event, disable_cache,
}
use libbdvmi.Kvm.Registers.Read.{registers-begin_event, load_registers-registers}

-- A code segment of 64 bits.
abbrev long_code : Segment
long_code = record {
  base = 0;
  limit = 2 ^ 32 - 1;
  selector = 16;
  type = 11;
  present = 1;
  dpl = 0;
  db = 0;
  s = 1;
  l = 1;
  g = 1;
  avl = 0;
  unusable = 0;
}

abbrev state : KvmState
state = record {
  general = default_registers.general;
  rflags = 2;
  rip = 4096;
  cs = long_code;
  ss = long_code;
  ds = long_code;
  es = long_code;
  fs = long_code;
  gs = long_code;
  idtr_base = 0;
  idtr_limit = 0;
  gdtr_base = 0;
  gdtr_limit = 0;
  cr0 = 1;
  cr2 = 0;
  cr3 = 8192;
  cr4 = 0;
  mode = 8;
}

abbrev arch : EventArch
arch = record {
  state = state;
  msrs = record {
    sysenter_cs = 1;
    sysenter_esp = 2;
    sysenter_eip = 3;
    efer = 1280;
    star = 4;
    lstar = 5;
    cstar = 6;
    pat = 7;
    shadow_gs = 8;
  };
  view = 1;
}

abbrev msr_of : ℕ → ℕ
msr_of k =
    if k == 0x174
    then 1
    else if k == 0x175
    then 2
    else if k == 0x176
    then 3
    else if k == 0xc0000080
    then 1280
    else if k == 0xc0000081
    then 4
    else if k == 0xc0000082
    then 5
    else if k == 0xc0000083
    then 6
    else if k == 0x277
    then 7
    else 8

abbrev asked : GotRegisters
asked = record { state = state; entries = msr_of }

abbrev off : RegsCache
off = record { registers = default_registers; vcpu = none; valid = false; dirty = false; view = 0 }

packed : make_ar_bytes long_code ≡ 41115
unfolding make_ar_bytes
packed = refl

load_registers-registers_run :
    registers 1 (success asked) (disable_cache off) ≡ some (load_registers arch)
load_registers-registers_run =
    load_registers-registers 1 arch asked off refl refl refl refl refl refl refl refl refl refl

registers-begin_event_example :
    registers 1 (success asked) (set_registers 1 default_registers true (begin_event 1 arch).1).1
    ≡ some default_registers
registers-begin_event_example = (registers-begin_event 1 arch default_registers (success asked)).1.2
