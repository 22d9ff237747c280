-- ===== src/Kvm/Registers.antt =====
-- The registers of a virtual processor in src/kvmdriver.cpp: what is read from the hypervisor or
-- comes with an event, the cache for the processor whose event is handled, and what is written back.
-- The structures of KVM (kvm_segment, kvm_regs, kvm_sregs, the MSRs of an event) are records with the
-- fields that the code reads.
pub mod Read
mod Checks
use libbdvmi.Common.{
  ℕ, ◌+◌, ◌-◌, ◌*◌, ◌/◌, ◌%◌, ◌^◌, Bool, true, false, ◌&&◌, ◌||◌, not, Option, none, some, ltb, leb,
  ◌==◌, if◌then◌else◌,
}
use libbdvmi.Xen.Registers.{GeneralRegisters, Registers, mode_of_size}

pub record Segment : Type 0 where
  pub base : ℕ
  pub limit : ℕ
  pub selector : ℕ
  pub type : ℕ
  pub present : ℕ
  pub dpl : ℕ
  pub db : ℕ
  pub s : ℕ
  pub l : ℕ
  pub g : ℕ
  pub avl : ℕ
  pub unusable : ℕ

-- The parts do not overlap: `|` is a sum.
unfoldable pub make_ar_bytes : Segment → ℕ
make_ar_bytes s =
    if not (s.unusable == 0) || (s.present == 0)
    then 65536
    else s.type % 16
      + s.s % 2 * 16
      + s.dpl % 4 * 32
      + s.present % 2 * 128
      + s.avl % 2 * 4096
      + s.l % 2 * 8192
      + s.db % 2 * 16384
      + s.g % 2 * 32768

-- kvm_regs, kvm_sregs and the mode.
pub record KvmState : Type 0 where
  pub general : GeneralRegisters
  pub rflags : ℕ
  pub rip : ℕ
  pub cs : Segment
  pub ss : Segment
  pub ds : Segment
  pub es : Segment
  pub fs : Segment
  pub gs : Segment
  pub idtr_base : ℕ
  pub idtr_limit : ℕ
  pub gdtr_base : ℕ
  pub gdtr_limit : ℕ
  pub cr0 : ℕ
  pub cr2 : ℕ
  pub cr3 : ℕ
  pub cr4 : ℕ
  pub mode : ℕ

pub record EventMsrs : Type 0 where
  pub sysenter_cs : ℕ
  pub sysenter_esp : ℕ
  pub sysenter_eip : ℕ
  pub efer : ℕ
  pub star : ℕ
  pub lstar : ℕ
  pub cstar : ℕ
  pub pat : ℕ
  pub shadow_gs : ℕ

-- kvmi_event_arch.
pub record EventArch : Type 0 where
  pub state : KvmState
  pub msrs : EventMsrs
  pub view : ℕ

unfoldable pub load_registers : EventArch → Registers
unfolding make_ar_bytes
load_registers event = record {
  sysenter_cs = event.msrs.sysenter_cs;
  sysenter_esp = event.msrs.sysenter_esp;
  sysenter_eip = event.msrs.sysenter_eip;
  msr_efer = event.msrs.efer;
  msr_star = event.msrs.star;
  msr_lstar = event.msrs.lstar;
  msr_cstar = event.msrs.cstar;
  msr_pat = event.msrs.pat;
  shadow_gs = event.msrs.shadow_gs;
  cs_base = event.state.cs.base;
  cs_limit = event.state.cs.limit;
  cs_sel = event.state.cs.selector;
  cs_arbytes = make_ar_bytes event.state.cs;
  ss_base = event.state.ss.base;
  ss_limit = event.state.ss.limit;
  ss_sel = event.state.ss.selector;
  ss_arbytes = make_ar_bytes event.state.ss;
  ds_base = event.state.ds.base;
  ds_limit = event.state.ds.limit;
  ds_sel = event.state.ds.selector;
  ds_arbytes = make_ar_bytes event.state.ds;
  es_base = event.state.es.base;
  es_limit = event.state.es.limit;
  es_sel = event.state.es.selector;
  es_arbytes = make_ar_bytes event.state.es;
  fs_base = event.state.fs.base;
  fs_limit = event.state.fs.limit;
  fs_sel = event.state.fs.selector;
  fs_arbytes = make_ar_bytes event.state.fs;
  gs_base = event.state.gs.base;
  gs_limit = event.state.gs.limit;
  gs_sel = event.state.gs.selector;
  gs_arbytes = make_ar_bytes event.state.gs;
  idtr_base = event.state.idtr_base;
  idtr_limit = event.state.idtr_limit;
  gdtr_base = event.state.gdtr_base;
  gdtr_limit = event.state.gdtr_limit;
  general = event.state.general;
  rflags = event.state.rflags;
  rip = event.state.rip;
  cr0 = event.state.cr0;
  cr2 = event.state.cr2;
  cr3 = event.state.cr3;
  cr4 = event.state.cr4;
  guest_x86_mode = mode_of_size event.state.mode;
}

-- What kvmi_get_registers leaves: the two structures with the mode, and the data of an MSR by its
-- index.
pub record GotRegisters : Type 0 where
  pub state : KvmState
  pub entries : ℕ → ℕ

unfoldable pub of_answer : GotRegisters → Registers
unfolding make_ar_bytes
of_answer got = record {
  sysenter_cs = got.entries 0x174;
  sysenter_esp = got.entries 0x175;
  sysenter_eip = got.entries 0x176;
  msr_efer = got.entries 0xc0000080;
  msr_star = got.entries 0xc0000081;
  msr_lstar = got.entries 0xc0000082;
  msr_cstar = got.entries 0xc0000083;
  msr_pat = got.entries 0x277;
  shadow_gs = got.entries 0xc0000102;
  cs_base = got.state.cs.base;
  cs_limit = got.state.cs.limit;
  cs_sel = got.state.cs.selector;
  cs_arbytes = make_ar_bytes got.state.cs;
  ss_base = got.state.ss.base;
  ss_limit = got.state.ss.limit;
  ss_sel = got.state.ss.selector;
  ss_arbytes = make_ar_bytes got.state.ss;
  ds_base = got.state.ds.base;
  ds_limit = got.state.ds.limit;
  ds_sel = got.state.ds.selector;
  ds_arbytes = make_ar_bytes got.state.ds;
  es_base = got.state.es.base;
  es_limit = got.state.es.limit;
  es_sel = got.state.es.selector;
  es_arbytes = make_ar_bytes got.state.es;
  fs_base = got.state.fs.base;
  fs_limit = got.state.fs.limit;
  fs_sel = got.state.fs.selector;
  fs_arbytes = make_ar_bytes got.state.fs;
  gs_base = got.state.gs.base;
  gs_limit = got.state.gs.limit;
  gs_sel = got.state.gs.selector;
  gs_arbytes = make_ar_bytes got.state.gs;
  idtr_base = got.state.idtr_base;
  idtr_limit = got.state.idtr_limit;
  gdtr_base = got.state.gdtr_base;
  gdtr_limit = got.state.gdtr_limit;
  general = got.state.general;
  rflags = got.state.rflags;
  rip = got.state.rip;
  cr0 = got.state.cr0;
  cr2 = got.state.cr2;
  cr3 = got.state.cr3;
  cr4 = got.state.cr4;
  guest_x86_mode = mode_of_size got.state.mode;
}

-- `vcpu` is none for -1.
pub record RegsCache : Type 0 where
  pub registers : Registers
  pub vcpu : Option ℕ
  pub valid : Bool
  pub dirty : Bool
  pub view : ℕ

abbrev pub is_vcpu : ℕ → Option ℕ → Bool
is_vcpu v none = false
is_vcpu v (some w) = v == w

unfoldable pub is_valid : ℕ → RegsCache → Bool
is_valid vcpu c = c.valid && is_vcpu vcpu c.vcpu

-- The answer of kvmi_get_registers: success, the error EAGAIN, which the code takes for one, and any
-- other error. The structures are read in the first two cases.
pub data Answer : Type 0 where
  success again : GotRegisters → Answer
  failure : Answer

-- none: `false`, and the registers are not written.
unfoldable pub registers : ℕ → Answer → RegsCache → Option Registers
unfolding is_valid of_answer
registers vcpu answer c = if is_valid vcpu c then some c.registers else elim answer [
  | success got ↦ some (of_answer got)
  | again got ↦ some (of_answer got)
  | failure ↦ none
]

-- The part of the registers that can be written.
pub record KvmRegs : Type 0 where
  pub general : GeneralRegisters
  pub rflags : ℕ
  pub rip : ℕ

abbrev pub writable : Registers → KvmRegs
writable r = record { general = r.general; rflags = r.rflags; rip = r.rip }

-- What is written to the hypervisor at once, if anything; and the cache.
unfoldable pub set_registers : ℕ → Registers → Bool → RegsCache → Option KvmRegs × RegsCache
unfolding is_valid
set_registers vcpu regs delay c =
    if delay && is_valid vcpu c
    then (none, record c { registers = regs; dirty = true })
    else (some (writable regs), c)

unfoldable pub enable_vcpu_cache : ℕ → ℕ → Registers → RegsCache
enable_vcpu_cache vcpu view regs = record {
  registers = regs;
  vcpu = some vcpu;
  valid = true;
  dirty = false;
  view = view;
}

unfoldable pub update_vcpu_cache : ℕ → RegsCache → RegsCache
update_vcpu_cache view c = record c { view = view }

-- `dirty_` stays.
unfoldable pub disable_cache : RegsCache → RegsCache
disable_cache c = record c { vcpu = none; valid = false; view = 0 }

unfoldable pub is_view_cache_enabled : ℕ → RegsCache → Option ℕ
unfolding is_valid
is_view_cache_enabled vcpu c = if is_valid vcpu c then some c.view else none

-- The size comes as an unsigned short and is a short here: from 2 ^ 15 on it is negative.
abbrev pub as_short : ℕ → ℕ
as_short size = if ltb size 32768 then size else size + 2 ^ 64 - 65536

unfoldable pub skip_instruction : ℕ → RegsCache → RegsCache
skip_instruction size c = record c {
  registers = record (c.registers) { rip = (c.registers.rip + as_short (size % 65536)) % 2 ^ 64 };
  dirty = true;
}

unfoldable pub get_next_rip : RegsCache → ℕ
get_next_rip c = c.registers.rip

unfoldable pub begin_event : ℕ → EventArch → Registers × RegsCache
unfolding load_registers enable_vcpu_cache
begin_event vcpu arch =
    let regs = load_registers arch in (regs, enable_vcpu_cache vcpu arch.view regs)
