-- ===== src/Xen/Registers.antt =====
-- The register state of a virtual processor: struct Registers of include/bdvmi/driver.h, and what
-- src/xendriver.cpp does with it: the cache of the VCPU whose event is handled, the write that is
-- delayed to the end of the event, the cached PAT. The sixteen general registers, which are copied
-- together everywhere, are a record of their own. The hypercalls' answers are arguments.
pub mod Cached
pub mod Mode
mod Checks
use libbdvmi.Common.{
  ℕ, ◌+◌, ◌*◌, ◌/◌, ◌%◌, ◌^◌, ◌≡◌, Bool, true, false, ◌&&◌, not, Option, none, some, ◌==◌,
  if◌then◌else◌, bit,
}

pub record GeneralRegisters : Type 0 where
  pub rax : ℕ
  pub rcx : ℕ
  pub rdx : ℕ
  pub rbx : ℕ
  pub rsp : ℕ
  pub rbp : ℕ
  pub rsi : ℕ
  pub rdi : ℕ
  pub r8 : ℕ
  pub r9 : ℕ
  pub r10 : ℕ
  pub r11 : ℕ
  pub r12 : ℕ
  pub r13 : ℕ
  pub r14 : ℕ
  pub r15 : ℕ

pub data GuestX86Mode : Type 0 where
  mode_error cs_type_16 cs_type_32 cs_type_64 : GuestX86Mode

pub record Registers : Type 0 where
  pub sysenter_cs : ℕ
  pub sysenter_esp : ℕ
  pub sysenter_eip : ℕ
  pub msr_efer : ℕ
  pub msr_star : ℕ
  pub msr_lstar : ℕ
  pub msr_pat : ℕ
  pub msr_cstar : ℕ
  pub cs_base : ℕ
  pub cs_limit : ℕ
  pub cs_sel : ℕ
  pub ss_base : ℕ
  pub ss_limit : ℕ
  pub ss_sel : ℕ
  pub ss_arbytes : ℕ
  pub ds_base : ℕ
  pub ds_limit : ℕ
  pub ds_sel : ℕ
  pub ds_arbytes : ℕ
  pub es_base : ℕ
  pub es_limit : ℕ
  pub es_sel : ℕ
  pub es_arbytes : ℕ
  pub fs_limit : ℕ
  pub fs_sel : ℕ
  pub fs_arbytes : ℕ
  pub gs_limit : ℕ
  pub gs_sel : ℕ
  pub gs_arbytes : ℕ
  pub shadow_gs : ℕ
  pub fs_base : ℕ
  pub gs_base : ℕ
  pub idtr_base : ℕ
  pub idtr_limit : ℕ
  pub gdtr_base : ℕ
  pub gdtr_limit : ℕ
  pub general : GeneralRegisters
  pub rflags : ℕ
  pub rip : ℕ
  pub cr0 : ℕ
  pub cr2 : ℕ
  pub cr3 : ℕ
  pub cr4 : ℕ
  pub cs_arbytes : ℕ
  pub guest_x86_mode : GuestX86Mode

-- `Registers()`.
abbrev pub default_registers : Registers
default_registers = record {
  sysenter_cs = 0;
  sysenter_esp = 0;
  sysenter_eip = 0;
  msr_efer = 0;
  msr_star = 0;
  msr_lstar = 0;
  msr_pat = 0;
  msr_cstar = 0;
  cs_base = 0;
  cs_limit = 0;
  cs_sel = 0;
  ss_base = 0;
  ss_limit = 0;
  ss_sel = 0;
  ss_arbytes = 0;
  ds_base = 0;
  ds_limit = 0;
  ds_sel = 0;
  ds_arbytes = 0;
  es_base = 0;
  es_limit = 0;
  es_sel = 0;
  es_arbytes = 0;
  fs_limit = 0;
  fs_sel = 0;
  fs_arbytes = 0;
  gs_limit = 0;
  gs_sel = 0;
  gs_arbytes = 0;
  shadow_gs = 0;
  fs_base = 0;
  gs_base = 0;
  idtr_base = 0;
  idtr_limit = 0;
  gdtr_base = 0;
  gdtr_limit = 0;
  general = record {
    rax = 0;
    rcx = 0;
    rdx = 0;
    rbx = 0;
    rsp = 0;
    rbp = 0;
    rsi = 0;
    rdi = 0;
    r8 = 0;
    r9 = 0;
    r10 = 0;
    r11 = 0;
    r12 = 0;
    r13 = 0;
    r14 = 0;
    r15 = 0;
  };
  rflags = 0;
  rip = 0;
  cr0 = 0;
  cr2 = 0;
  cr3 = 0;
  cr4 = 0;
  cs_arbytes = 0;
  guest_x86_mode = mode_error;
}

-- The operand size in bytes. The tests are of CR0.PE, RFLAGS.VM, EFER.LMA and two bits of the code
-- segment's attributes.
pub guest_x86_mode_of : Registers → ℕ
guest_x86_mode_of regs =
    if bit 0 regs.cr0
    then if bit 17 regs.rflags
      then 2
      else if bit 10 regs.msr_efer && bit 9 regs.cs_arbytes
      then 8
      else if bit 10 regs.cs_arbytes
      then 4
      else 2
    else 2

-- The `switch` that follows each call of guestX86Mode().
pub mode_of_size : ℕ → GuestX86Mode
mode_of_size size =
    if size == 2
    then cs_type_16
    else if size == 4
    then cs_type_32
    else if size == 8
    then cs_type_64
    else mode_error

-- What errno says of a failed hypercall.
pub data Errno : Type 0 where
  enodata einval other : Errno

pub data Answer {ℓ} (A : Type ℓ) : Type ℓ where
  got : A → Answer A
  fails : Errno → Answer A

pub record XenDriver : Type 0 where
  pub has_handler : Bool
  pub cached : Registers
  pub cached_vcpu : Option ℕ  -- none is the source's -1
  pub cached_valid : Bool
  pub delayed : Registers
  pub delayed_pending : Bool
  pub pat_initialized : Bool
  pub msr_pat : ℕ
  pub fatal_errors : ℕ  -- calls of EventHandler::handleFatalError so far

abbrev is_vcpu : ℕ → Option ℕ → Bool
is_vcpu v none = false
is_vcpu v (some w) = w == v

-- A failed hypercall is fatal if errno is EINVAL and somebody listens.
pub report : Errno → XenDriver → XenDriver
report einval d = if d.has_handler then record d { fatal_errors = d.fatal_errors + 1 } else d
report _ d = d

-- `none`: false is returned, and `pat` is not written.
pub get_pat : Answer ℕ → XenDriver → Option ℕ × XenDriver
get_pat (got pat) d =
    if d.pat_initialized
    then (some d.msr_pat, d)
    else (some pat, record d { msr_pat = pat; pat_initialized = true })
get_pat (fails e) d = if d.pat_initialized then (some d.msr_pat, d) else (none, report e d)

-- The copy of the hypervisor's structure, in which the fields msr_pat and guest_x86_mode of `cpu`
-- have no part, and the mode that follows from it.
pub from_cpu : Registers → ℕ → Registers
from_cpu cpu pat =
    let regs : Registers = record cpu { msr_pat = pat; guest_x86_mode = mode_error } in
    record regs { guest_x86_mode = mode_of_size (guest_x86_mode_of regs) }

-- The registers of a write that is on its way to the hypervisor take the place of what it says.
pub overlay : Registers → Registers → Registers
overlay delayed regs = record regs {
  general = delayed.general;
  rflags = delayed.rflags;
  rip = delayed.rip;
}

-- The end of registers(), for the VCPU of the cache.
pub fill_cache : ℕ → Registers → XenDriver → Registers × XenDriver
unfolding overlay
fill_cache vcpu regs d =
    let r = if d.delayed_pending then overlay d.delayed regs else regs in
    if is_vcpu vcpu d.cached_vcpu
    then (r, record d { cached = r; cached_valid = true })
    else (regs, d)

-- After getPAT(), on the path that asks the hypervisor.
pub finish_registers : ℕ → Registers → Option ℕ × XenDriver → Bool × Registers × XenDriver
finish_registers vcpu cpu (none, d) = (false, default_registers, d)
finish_registers vcpu cpu (some pat, d) =
    let r = fill_cache vcpu (from_cpu cpu pat) d in (true, r.0, r.1)

-- The same on the path that answers from the cache.
pub finish_cached : Registers → Option ℕ × XenDriver → Bool × Registers × XenDriver
finish_cached regs (none, d) = (false, regs, d)
finish_cached regs (some pat, d) = (true, record regs { msr_pat = pat }, d)

-- An offline VCPU, ENODATA, has the default registers.
pub fetch_registers : ℕ → Answer Registers → Answer ℕ → XenDriver → Bool × Registers × XenDriver
unfolding finish_registers
fetch_registers vcpu (got cpu) mtrr d = finish_registers vcpu cpu (get_pat mtrr d)
fetch_registers vcpu (fails enodata) mtrr d = (true, default_registers, d)
fetch_registers vcpu (fails einval) mtrr d = (false, default_registers, report einval d)
fetch_registers vcpu (fails other) mtrr d = (false, default_registers, d)

pub registers : ℕ → Answer Registers → Answer ℕ → XenDriver → Bool × Registers × XenDriver
unfolding finish_cached fetch_registers
registers vcpu cpu mtrr d =
    if d.cached_valid && is_vcpu vcpu d.cached_vcpu
    then finish_cached d.cached (get_pat mtrr d)
    else fetch_registers vcpu cpu mtrr d

-- The cache after a write, if it is valid and the VCPU's.
pub write_through : ℕ → Registers → Bool → XenDriver → XenDriver
write_through vcpu regs set_eip d =
    if d.cached_valid && is_vcpu vcpu d.cached_vcpu
    then record d {
      cached = record (d.cached) {
        general = regs.general;
        rflags = regs.rflags;
        rip = if set_eip then regs.rip else d.cached.rip;
      };
    }
    else d

-- `done` says whether vcpuSetRegisters succeeds. 3 is the length of a VMCALL; rip is 64 bits wide.
pub set_registers : ℕ → Registers → Bool → Bool → Bool → XenDriver → Bool × XenDriver
unfolding write_through
set_registers vcpu regs set_eip delay done d =
    if delay
    then (
      true,
      write_through vcpu regs set_eip (record d {
        delayed = record regs { rip = if set_eip then regs.rip else (regs.rip + 3) % 2 ^ 64 };
        delayed_pending = true;
      }),
    )
    else if done
    then (true, write_through vcpu regs set_eip d)
    else (false, d)

unfoldable pub enable_cache : ℕ → XenDriver → XenDriver
enable_cache vcpu d = record d { cached_vcpu = some vcpu; cached_valid = false }

unfoldable pub disable_cache : XenDriver → XenDriver
disable_cache d = record d { cached_vcpu = none; cached_valid = false }

-- MSR_SHADOW_GS_BASE.
pub is_msr_cached : ℕ → Bool
is_msr_cached m = not (m == 0xc0000102)
