-- ===== src/Xen/Registers/Mode.antt =====
-- The operating mode that src/xendriver.cpp reads off the registers.
use libbdvmi.Common.{ℕ, ◌≡◌, ◌≢◌, ◌↔◌, Bool, true, ◌&&◌, not, arith, bit}
use libbdvmi.Xen.Registers.{
  Registers, mode_error, cs_type_32, cs_type_64, guest_x86_mode_of, mode_of_size, from_cpu,
}

abbrev pub wide : Registers → Bool
wide r = bit 0 r.cr0 && not (bit 17 r.rflags)

abbrev pub long : Registers → Bool
long r = bit 10 r.msr_efer && bit 9 r.cs_arbytes

-- What the mode read off the CPU's registers says of them: 64 bits in protected mode, outside
-- virtual-8086 mode, in long mode with a 64-bit code segment; 32 bits in protected mode, outside
-- virtual-8086 mode, with a 32-bit code segment that is not such a one; it is never the error.
pub from_cpu-mode :
    (cpu : Registers) (pat : ℕ)
    → let mode = (from_cpu cpu pat).guest_x86_mode in
      ((mode ≡ cs_type_64) ↔ (wide cpu && long cpu ≡ true))
      × ((mode ≡ cs_type_32) ↔ (wide cpu && (not (long cpu) && bit 10 cpu.cs_arbytes) ≡ true))
      × (mode ≢ mode_error)
unfolding from_cpu mode_of_size guest_x86_mode_of
from_cpu-mode cpu pat = ground arith
