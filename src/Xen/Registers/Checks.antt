-- ===== src/Xen/Registers/Checks.antt =====
-- Register reads and writes of src/xendriver.cpp on concrete states.
use libbdvmi.Common.{◌≡◌, refl, ◌≢◌, inl, inr, true, false, some, arith}
use libbdvmi.Xen.Registers.{
  Registers, mode_error, cs_type_64, XenDriver, got, default_registers, from_cpu, registers,
  set_registers, guest_x86_mode_of, mode_of_size,
}
use libbdvmi.Xen.Registers.Cached.{registers-set_registers, registers-set_registers_other}
use libbdvmi.Xen.Registers.Mode.{from_cpu-mode}

-- Protected mode, long mode, a 64-bit code segment.
abbrev long_mode : Registers
long_mode = record default_registers { cr0 = 1; msr_efer = 1024; cs_arbytes = 512 }

abbrev changed : Registers
changed = record long_mode { general = record (long_mode.general) { rax = 42 }; rip = 4096 }

-- VCPU 1 has an event, and its registers have not been read.
abbrev in_event : XenDriver
in_event = record {
  has_handler = true;
  cached = default_registers;
  cached_vcpu = some 1;
  cached_valid = false;
  delayed = default_registers;
  delayed_pending = false;
  pat_initialized = true;
  msr_pat = 6;
  fatal_errors = 0;
}

mode_of_long : (from_cpu long_mode 6).guest_x86_mode ≡ cs_type_64
unfolding from_cpu guest_x86_mode_of mode_of_size
mode_of_long = refl

registers-set_registers_example :
    (registers 1 (got long_mode) (got 0) (set_registers 1 changed true true true in_event).1).1.rip
    ≡ 4096
registers-set_registers_example =
    (registers-set_registers 1 changed long_mode (got long_mode) (got 0) true true in_event refl
      refl (inl refl) (inr (refl, refl))).4

registers-set_registers_other_run :
    (registers 1
      (got long_mode)
      (got 0)
      (set_registers 5 changed true true true in_event).1).1.general
    ≡ changed.general
registers-set_registers_other_run =
    registers-set_registers_other 1 5 changed long_mode 0 in_event (omega arith) refl refl refl

from_cpu-mode_run : (from_cpu long_mode 6).guest_x86_mode ≢ mode_error
from_cpu-mode_run = (from_cpu-mode long_mode 6).2
