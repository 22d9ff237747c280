-- ===== src/Kvm/Registers/Read.antt =====
-- What is read of the registers (src/kvmdriver.cpp).
use libbdvmi.Common.{ℕ, ◌/◌, ◌%◌, ◌≡◌, true, false, ◌&&◌, not, none, some, arith, ltb, ◌==◌}
use libbdvmi.Xen.Registers.{Registers}
use libbdvmi.Kvm.Registers.{
  Segment, make_ar_bytes, EventArch, load_registers, GotRegisters, RegsCache, Answer, success,
  registers, set_registers, begin_event, disable_cache, writable, is_valid, enable_vcpu_cache,
}

-- The packed attributes of a segment that is usable and present give back each of its parts, below
-- bit 16, which is set exactly if it is not usable or not present.
pub make_ar_bytes_lem :
    (s : Segment)
    → let ar = make_ar_bytes s in
      let usable = (s.unusable == 0) && not (s.present == 0) in
      (ltb ar 65536 ≡ usable)
      × (usable ≡ true
          → (ar % 16 ≡ s.type % 16)
            × (ar / 16 % 2 ≡ s.s % 2)
            × (ar / 32 % 4 ≡ s.dpl % 4)
            × (ar / 128 % 2 ≡ s.present % 2)
            × (ar / 4096 % 2 ≡ s.avl % 2)
            × (ar / 8192 % 2 ≡ s.l % 2)
            × (ar / 16384 % 2 ≡ s.db % 2)
            × (ar / 32768 ≡ s.g % 2))
unfolding make_ar_bytes
make_ar_bytes_lem s = (ground arith, λ u. ground arith)

-- The registers that come with an event are those that a read of the processor by the hypervisor
-- would give, if the hypervisor's answer is what the event carries.
pub load_registers-registers :
    (vcpu : ℕ) (arch : EventArch) (got : GotRegisters) (c : RegsCache)
    → got.state ≡ arch.state
    → got.entries 0x174 ≡ arch.msrs.sysenter_cs
    → got.entries 0x175 ≡ arch.msrs.sysenter_esp
    → got.entries 0x176 ≡ arch.msrs.sysenter_eip
    → got.entries 0xc0000080 ≡ arch.msrs.efer
    → got.entries 0xc0000081 ≡ arch.msrs.star
    → got.entries 0xc0000082 ≡ arch.msrs.lstar
    → got.entries 0xc0000083 ≡ arch.msrs.cstar
    → got.entries 0x277 ≡ arch.msrs.pat
    → got.entries 0xc0000102 ≡ arch.msrs.shadow_gs
    → registers vcpu (success got) (disable_cache c) ≡ some (load_registers arch)
unfolding registers disable_cache load_registers
load_registers-registers vcpu arch got c e a b d f g i j k l = ground arith

-- While an event of a processor is handled, its registers are read without the hypervisor, and a
-- delayed write is read back and only noted for the reply. A write that is not delayed goes out at
-- once, but what is read for the rest of the event are the registers from before it.
pub registers-begin_event :
    (vcpu : ℕ) (arch : EventArch) (regs : Registers) (answer : Answer)
    → let c = (begin_event vcpu arch).1 in
      let later = set_registers vcpu regs true c in
      let now = set_registers vcpu regs false c in
      (registers vcpu answer c ≡ some (load_registers arch))
      × ((later.0 ≡ none) × (later.1.dirty ≡ true) × (registers vcpu answer later.1 ≡ some regs))
      × (now.0 ≡ some (writable regs))
      × (registers vcpu answer now.1 ≡ some (load_registers arch))
unfolding registers set_registers begin_event is_valid enable_vcpu_cache
registers-begin_event vcpu arch regs answer =
    (ground arith, (ground arith, ground arith, ground arith), ground arith, ground arith)
