-- ===== src/Driver/Checks.antt =====
-- Page protections and the search for the last page (src/driver.cpp) on concrete inputs.
use libbdvmi.Common.{
  ℕ, ◌≡◌, refl, inl, inr, Bool, true, false, Option, none, some, [], arith, ltb, find, insert,
}
use libbdvmi.Driver.{
  Access, Driver, access_bits, slot, open_slot, write_slot, store_access, set_page_protection,
  get_page_protection, set_ept_page_convertible, flush_page_protections, max_gpfn_of, needless,
}
use libbdvmi.Driver.Protection.{find_in, get-set_page_protection}
use libbdvmi.Driver.WriteBack.{
  Table, accept, InStep, set_page_protection-InStep, flush_page_protections-InStep,
  flush-set_ept_page_convertible,
}
use libbdvmi.Driver.SearchLoops.{Bounded}
use libbdvmi.Driver.MaxGpfn.{Answers, max_gpfn_of_total}

abbrev idle : Driver
idle = record {
  mem_access_cache = [];
  delayed_mem_access_write = [];
  delayed_convertible_write = [];
  max_gpfn = 0;
}

abbrev read_execute : Access
read_execute = record { read = true; write = false; execute = true }

abbrev write_only : Access
write_only = record { read = false; write = true; execute = false }

abbrev all_rights : Table ℕ
all_rights v g = 7

idle-InStep : InStep idle all_rights
unfolding find_in slot find
idle-InStep = record { cached = λ v g bits e. cc; pending = λ v g bits e. cc; ordered = tt }

get-set_page_protection_example :
    (get_page_protection 8200 0 none (set_page_protection 8200 read_execute 0 idle).1).0
    ≡ some read_execute
unfolding set_page_protection needless slot find
get-set_page_protection_example =
    get-set_page_protection 8200 0 read_execute none idle refl (inr refl)

abbrev restricted : Driver
restricted = (set_page_protection 8192 read_execute 0 idle).1

restricted-InStep : InStep restricted all_rights
restricted-InStep = set_page_protection-InStep 8192 0 read_execute idle all_rights idle-InStep

set_page_protection-InStep_example : InStep restricted all_rights
set_page_protection-InStep_example =
    set_page_protection-InStep 8192 0 read_execute idle all_rights idle-InStep

flush_page_protections-InStep_example :
    accept (flush_page_protections restricted).0 all_rights 0 2 ≡ 5
unfolding set_page_protection store_access open_slot write_slot find_in slot find insert access_bits
    needless
flush_page_protections-InStep_example =
    (flush_page_protections-InStep restricted all_rights restricted-InStep).1 0 2 5 refl

flush-set_ept_page_convertible_run :
    accept
      (flush_page_protections (set_ept_page_convertible 1 8192 true idle).1).1
      (λ v g. false)
      1
      2
    ≡ true
flush-set_ept_page_convertible_run =
    flush-set_ept_page_convertible 1 8192 1 2 true idle (λ v g. false) tt

-- Frames 0 to 9 can be mapped, and the hypervisor's hint is 4.
abbrev ten_frames : ℕ → Bool
ten_frames gpa = ltb gpa 40960

ten_frames-Bounded : Bounded ten_frames 10
ten_frames-Bounded = record { far = λ j h. ground arith; room = omega arith }

max_gpfn_of_total_example :
    (r : Option ℕ) × (d' : Driver) × (max_gpfn_of 5000 ten_frames (some 4) idle ≡ some (r, d'))
    × Answers ten_frames 4 r
max_gpfn_of_total_example =
    max_gpfn_of_total ten_frames 10 4 ten_frames-Bounded 5000 idle refl (omega arith)
      (inl (omega arith)) (omega arith)

abbrev found_nine : Driver
found_nine = record idle { max_gpfn = 9 }
