-- ===== src/Xen/Mtrr/Checks.antt =====
-- The memory types of src/xendriver.cpp on concrete registers.
use libbdvmi.Common.{ℕ, zero, suc, ◌≡◌, refl, true, none, some, arith}
use libbdvmi.Xen.Mtrr.{
  HwMtrr, range_of, get_mtrr_range, range_matches, is_var_mtrr_overlapped, overlaps_from,
  overlaps_later, mtrr_type,
}
use libbdvmi.Xen.Mtrr.Ranges.{first_match, mtrr_type_unset, is_var_mtrr_overlapped_wide}

-- One variable range, write-back (6), of the 256 MB from 0 on; the default is uncachable.
abbrev one_var : ℕ → ℕ
one_var zero = 6
one_var (suc zero) = 0xff0000800
one_var (suc (suc n)) = 0

abbrev one_range : HwMtrr
one_range = record { def_type = 0x800; mtrr_cap = 1; fixed = λ i. 0; var = one_var }

-- A second range, write-back too, from 1 GB on.
abbrev two_var : ℕ → ℕ
two_var zero = 6
two_var (suc zero) = 0xff0000800
two_var (suc (suc zero)) = 0x40000006
two_var (suc (suc (suc zero))) = 0xff0000800
two_var (suc (suc (suc (suc n)))) = 0

abbrev two_ranges : HwMtrr
two_ranges = record { def_type = 0x800; mtrr_cap = 2; fixed = λ i. 0; var = two_var }

far_apart :
    (range_of 36 two_ranges 0 ≡ (0, 0xffff)) × (range_of 36 two_ranges 1 ≡ (0x40000, 0x4ffff))
unfolding range_of get_mtrr_range
far_apart = (refl, refl)

mtrr_type_unset_example : mtrr_type 36 (some one_range) 0x200000 ≡ (true, none)
unfolding is_var_mtrr_overlapped overlaps_from overlaps_later first_match range_matches
mtrr_type_unset_example = mtrr_type_unset 36 one_range 0x200000 refl (omega arith) refl

is_var_mtrr_overlapped_wide_example : is_var_mtrr_overlapped 36 two_ranges ≡ true
unfolding range_of get_mtrr_range
is_var_mtrr_overlapped_wide_example =
    is_var_mtrr_overlapped_wide 36 two_ranges 0 1 (omega arith) (omega arith) (omega arith)
      (omega arith)
