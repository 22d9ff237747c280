-- ===== src/Xen/Mtrr/Ranges.antt =====
-- What src/xendriver.cpp says of fixed and variable memory ranges.
use libbdvmi.Common.{
  ℕ, zero, suc, ◌+◌, ◌*◌, ◌%◌, ◌≤◌, ◌<◌, ◌≡◌, refl, ◌≢◌, inl, inr, Bool, true, false, ◌||◌, not,
  Option, none, some, arith, ◌==◌, if◌then◌else◌, Bool-cases, bit,
}
use libbdvmi.Xen.Mtrr.{
  HwMtrr, type_of_range, range_of, ranges_overlap, overlaps_later, overlaps_from,
  is_var_mtrr_overlapped, fixed_index, range_matches, scan, resolve, mtrr_type,
}

-- Below 1M the 88 fixed ranges are 8 of 64K, 16 of 16K and 64 of 4K, in the order of their
-- addresses: the byte that is read is in the array, and is the one of the range that holds the
-- address.
pub fixed_index_range :
    (addr : ℕ)
    → addr < 0x100000
    → (fixed_index addr < 88)
      × (addr < 0x80000
          → (fixed_index addr * 65536 ≤ addr) × (addr < (fixed_index addr + 1) * 65536))
      × (0x80000 ≤ addr
          → addr < 0xc0000
          → (0x80000 + fixed_index addr * 16384 ≤ addr + 8 * 16384)
            × (addr + 8 * 16384 < 0x80000 + (fixed_index addr + 1) * 16384))
      × (0xc0000 ≤ addr
          → (0xc0000 + fixed_index addr * 4096 ≤ addr + 24 * 4096)
            × (addr + 24 * 4096 < 0xc0000 + (fixed_index addr + 1) * 4096))
unfolding fixed_index
fixed_index_range addr h = ground arith

-- The first range that holds the address, of `n` from `seg` on.
unfoldable pub first_match : HwMtrr → ℕ → ℕ → ℕ → Option ℕ
first_match hw addr seg zero = none
first_match hw addr seg (suc n) =
    if range_matches hw addr seg then some seg else first_match hw addr (suc seg) n

-- What is returned for the first range that holds the address, if there is one.
abbrev pub answer_of : HwMtrr → Option ℕ → Bool × Option ℕ
answer_of hw none = (true, some (hw.def_type % 256))
answer_of hw (some seg) = (not (type_of_range hw seg == 0), none)

resolve-scan :
    (hw : HwMtrr) (addr seg n : ℕ)
    → resolve (hw.def_type % 256) (scan hw false addr seg n 0 0)
      ≡ answer_of hw (first_match hw addr seg n)
unfolding resolve scan first_match
resolve-scan hw addr seg zero = refl
resolve-scan hw addr seg (suc n) = ground (arith, resolve-scan hw addr (suc seg) n)

-- With MTRRs enabled and no overlap, an address above 1M that a variable range holds gets no type
-- at all: the type of the first range that holds it is returned as the truth value (false exactly
-- for type 0), and `type` is not written. Only where no range holds the address is there a type,
-- the default, with true.
pub mtrr_type_unset :
    (phys_addr : ℕ) (hw : HwMtrr) (addr : ℕ)
    → bit 11 hw.def_type ≡ true
    → 0x100000 ≤ addr
    → is_var_mtrr_overlapped phys_addr hw ≡ false
    → mtrr_type phys_addr (some hw) addr ≡ answer_of hw (first_match hw addr 0 (hw.mtrr_cap % 256))
unfolding mtrr_type
mtrr_type_unset phys_addr hw addr on high apart =
    rw on (rw apart (ground (arith, resolve-scan hw addr 0 (hw.mtrr_cap % 256))))

-- A range whose first and last page differ.
abbrev pub IsWide : ℕ × ℕ → Type 0
IsWide r = r.0 ≢ r.1

ranges_overlap_wide : (a b : ℕ × ℕ) → IsWide a → IsWide b → ranges_overlap a b ≡ true
unfolding ranges_overlap
ranges_overlap_wide (a, b) (c, d) h k = ground arith

or_true : (a b : Bool) → b ≡ true → a || b ≡ true
or_true a b h = ground arith

overlaps_later_wide :
    (phys_addr : ℕ) (hw : HwMtrr) (pre : ℕ × ℕ) (seg n j : ℕ)
    → seg ≤ j
    → j < seg + n
    → IsWide pre
    → IsWide (range_of phys_addr hw j)
    → overlaps_later phys_addr hw pre seg n ≡ true
unfolding overlaps_later
overlaps_later_wide phys_addr hw pre seg zero j le lt h w = absurd (omega arith)
overlaps_later_wide phys_addr hw pre seg (suc n) j le lt h w = elim (Bool-cases (seg == j)) [
  | inl here ↦
      let e : j ≡ seg = ground arith in
      rw (ranges_overlap_wide pre (range_of phys_addr hw seg) h (rw e at w)) refl
  | inr there ↦
      or_true _ _
        (overlaps_later_wide phys_addr hw pre (suc seg) n j (ground arith) (omega arith) h w)
]

overlaps_from_wide :
    (phys_addr : ℕ) (hw : HwMtrr) (seg n i j : ℕ)
    → seg ≤ i
    → i < j
    → j < seg + n
    → IsWide (range_of phys_addr hw i)
    → IsWide (range_of phys_addr hw j)
    → overlaps_from phys_addr hw seg n ≡ true
unfolding overlaps_from
overlaps_from_wide phys_addr hw seg zero i j le lt bound a b = absurd (omega arith)
overlaps_from_wide phys_addr hw seg (suc n) i j le lt bound a b = elim (Bool-cases (seg == i)) [
  | inl here ↦
      let e : i ≡ seg = ground arith in
      rw
        (overlaps_later_wide phys_addr hw (range_of phys_addr hw seg) (suc seg) n j (omega arith)
          (omega arith) (rw e at a) b)
        refl
  | inr there ↦
      or_true _ _
        (overlaps_from_wide phys_addr hw (suc seg) n i j (ground arith) lt (omega arith) a b)
]

-- Any two variable ranges whose first and last page differ count as overlapping, however far apart they are.
pub is_var_mtrr_overlapped_wide :
    (phys_addr : ℕ) (hw : HwMtrr) (i j : ℕ)
    → i < j
    → j < hw.mtrr_cap % 256
    → IsWide (range_of phys_addr hw i)
    → IsWide (range_of phys_addr hw j)
    → is_var_mtrr_overlapped phys_addr hw ≡ true
unfolding is_var_mtrr_overlapped
is_var_mtrr_overlapped_wide phys_addr hw i j lt bound a b =
    overlaps_from_wide phys_addr hw 0 (hw.mtrr_cap % 256) i j (omega arith) lt (omega arith) a b
