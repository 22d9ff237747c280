-- ===== src/Xen/Registers/Cached.antt =====
-- The register cache and the delayed write of src/xendriver.cpp.
use libbdvmi.Common.{ℕ, ◌≡◌, ◌≢◌, ◌⊎◌, Bool, true, false, some, arith, if◌then◌else◌}
use libbdvmi.Xen.Registers.{
  Registers, XenDriver, Answer, got, fails, get_pat, from_cpu, overlay, fill_cache,
  finish_registers, fetch_registers, registers, set_registers, enable_cache,
}

-- While an event is handled the cache is set up for its VCPU, v, and the PAT register has been read
-- before. After a write for v with its instruction pointer, which is delayed or which the hypervisor
-- takes at once, a reader of v gets the general registers, the flags and the instruction pointer that
-- were written: from a valid cache, whatever the hypervisor would answer; from one that is not valid,
-- if the write was delayed and the hypervisor answers the reader with registers.
pub registers-set_registers :
    (v : ℕ) (regs cpu : Registers) (a : Answer Registers) (pat : Answer ℕ) (delay done : Bool)
    (d : XenDriver)
    → d.cached_vcpu ≡ some v
    → d.pat_initialized ≡ true
    → (delay ≡ true) ⊎ (done ≡ true)
    → (d.cached_valid ≡ true) ⊎ ((delay ≡ true) × (a ≡ got cpu))
    → let w = set_registers v regs true delay done d in
      let r = registers v a pat w.1 in
      (w.0 ≡ true)
      × (r.0 ≡ true)
      × (r.1.general ≡ regs.general)
      × (r.1.rflags ≡ regs.rflags)
      × (r.1.rip ≡ regs.rip)
unfolding registers set_registers get_pat fill_cache finish_registers fetch_registers overlay
registers-set_registers v regs cpu a (got p) delay done d here ready taken how = ground arith
registers-set_registers v regs cpu a (fails e) delay done d here ready taken how = ground arith

-- A second read of the VCPU of the cache gives the same registers with no help of the hypervisor,
-- whatever it would answer then.
pub registers_again :
    (v : ℕ) (cpu : Registers) (pat : ℕ) (cpu' : Answer Registers) (mtrr' : Answer ℕ) (d : XenDriver)
    → d.cached_vcpu ≡ some v
    → d.cached_valid ≡ false
    → let r = registers v (got cpu) (got pat) d in registers v cpu' mtrr' r.2 ≡ (true, r.1, r.2)
unfolding registers get_pat fill_cache finish_registers fetch_registers overlay from_cpu
registers_again v cpu pat cpu' mtrr' d here fresh = ground arith

-- enableCache() for the next event drops what was cached: the next read of its VCPU is the
-- hypervisor's, with the delayed registers over it if a write is pending.
pub registers-enable_cache :
    (v : ℕ) (cpu : Registers) (pat : ℕ) (d : XenDriver)
    → d.pat_initialized ≡ true
    → (registers v (got cpu) (got pat) (enable_cache v d)).1 ≡ (
        if d.delayed_pending
        then overlay d.delayed (from_cpu cpu d.msr_pat)
        else from_cpu cpu d.msr_pat)
unfolding registers get_pat fill_cache finish_registers fetch_registers enable_cache
registers-enable_cache v cpu pat d ready = ground arith

-- The delayed write does not know its VCPU: one that is made for w while the event of another VCPU
-- v is handled is read back as the registers of v.
pub registers-set_registers_other :
    (v w : ℕ) (regs cpu : Registers) (pat : ℕ) (d : XenDriver)
    → v ≢ w
    → d.cached_vcpu ≡ some v
    → d.cached_valid ≡ false
    → d.pat_initialized ≡ true
    → (registers v (got cpu) (got pat) (set_registers w regs true true true d).1).1.general
      ≡ regs.general
unfolding registers set_registers get_pat fill_cache finish_registers fetch_registers overlay
registers-set_registers_other v w regs cpu pat d apart here fresh ready = ground arith
