-- ===== src/Xen/Mtrr.antt =====
-- The memory type of a guest address: mtrrType, getMtrrRange and isVarMtrrOverlapped of
-- src/xendriver.cpp. The hypervisor's structure hvm_hw_mtrr is an argument. The shift of 1 by the
-- width of a physical address, which is 32 or more on large machines, is taken modulo 32, as x86
-- does; C leaves it undefined.
pub mod Ranges
mod Checks
use Prim.Native.Nat.{bit_and, bit_or}
use libbdvmi.Common.{
  ℕ, zero, suc, ◌+◌, ◌-◌, ◌*◌, ◌/◌, ◌%◌, ◌^◌, ◌≡◌, Bool, true, false, ◌&&◌, ◌||◌, not, Option, none,
  some, ◌==◌, ltb, leb, if◌then◌else◌, bit, set_bit, clear_bit,
}

-- hvm_hw_mtrr: the fixed ranges as bytes, the variable ones as a base and a mask each.
pub record HwMtrr : Type 0 where
  pub def_type : ℕ
  pub mtrr_cap : ℕ
  pub fixed : ℕ → ℕ
  pub var : ℕ → ℕ

-- The pages of a variable range, first and last; 0 and 0 for a range that is not in use.
pub get_mtrr_range : ℕ → ℕ → ℕ → ℕ × ℕ
get_mtrr_range phys_addr base_msr mask_msr =
    let mask_lo = mask_msr % 2 ^ 32 in
    let mask_hi = mask_msr / 2 ^ 32 in
    let base_lo = base_msr % 2 ^ 32 in
    let base_hi = base_msr / 2 ^ 32 in
    let size_or_mask = (2 ^ 32 - 2 ^ ((phys_addr - 12) % 32)) % 2 ^ 32 in
    let mask = bit_or (bit_or size_or_mask (mask_hi * 2 ^ 20 % 2 ^ 32)) (mask_lo / 2 ^ 12) in
    let size = (2 ^ 32 - mask) % 2 ^ 32 in
    let base = bit_or (base_hi * 2 ^ 20 % 2 ^ 32) (base_lo / 2 ^ 12) in
    if bit 11 mask_lo then (base, (base + size + 2 ^ 64 - 1) % 2 ^ 64) else (0, 0)

pub range_of : ℕ → HwMtrr → ℕ → ℕ × ℕ
unfolding get_mtrr_range
range_of phys_addr hw seg = get_mtrr_range phys_addr (hw.var (seg * 2)) (hw.var (seg * 2 + 1))

-- The test of isVarMtrrOverlapped, of an earlier range and a later one.
pub ranges_overlap : ℕ × ℕ → ℕ × ℕ → Bool
ranges_overlap (base_pre, end_pre) (base, end) =
    (not (base_pre == end_pre) && not (base == end))
    || ((leb base_pre base && leb base end_pre)
        || ((leb base_pre end && leb end end_pre)
            || ((leb base base_pre && leb base_pre end) || (leb base end_pre && leb end_pre end))))

-- The inner loop: `n` ranges from `seg` on.
pub overlaps_later : ℕ → HwMtrr → ℕ × ℕ → ℕ → ℕ → Bool
unfolding range_of
overlaps_later phys_addr hw pre seg zero = false
overlaps_later phys_addr hw pre seg (suc n) =
    ranges_overlap pre (range_of phys_addr hw seg) || overlaps_later phys_addr hw pre (suc seg) n

-- The outer loop: `n` ranges from `i` on.
pub overlaps_from : ℕ → HwMtrr → ℕ → ℕ → Bool
overlaps_from phys_addr hw i zero = false
overlaps_from phys_addr hw i (suc n) =
    overlaps_later phys_addr hw (range_of phys_addr hw i) (suc i) n
    || overlaps_from phys_addr hw (suc i) n

pub is_var_mtrr_overlapped : ℕ → HwMtrr → Bool
is_var_mtrr_overlapped phys_addr hw = overlaps_from phys_addr hw 0 (hw.mtrr_cap % 256)

-- The byte of the fixed ranges for an address below 1M.
pub fixed_index : ℕ → ℕ
fixed_index addr =
    let low = (addr - 0x80000) / 2 ^ 14 in
    let high = (addr - 0xc0000) / 2 ^ 12 in
    if ltb addr 0x80000
    then addr / 2 ^ 16
    else if ltb addr 0xc0000
    then (low / 8 + 1) * 8 + low % 8
    else (high / 8 + 3) * 8 + high % 8

-- Whether a variable range is in use and holds the address.
pub range_matches : HwMtrr → ℕ → ℕ → Bool
range_matches hw addr seg =
    let base = hw.var (seg * 2) in
    let mask = hw.var (seg * 2 + 1) in
    bit 11 mask && (bit_and addr mask / 2 ^ 12 == bit_and base mask / 2 ^ 12)

abbrev pub type_of_range : HwMtrr → ℕ → ℕ
type_of_range hw seg = hw.var (seg * 2) % 256

-- How the loop over the variable ranges ends: the function returns from it, with a value but
-- without a type, or goes on with the types that matched and the last of them.
pub data Scan : Type 0 where
  returned : Bool → Scan
  scanned : ℕ → ℕ → Scan

-- `n` ranges from `seg` on; the mask of types is 8 bits wide.
pub scan : HwMtrr → Bool → ℕ → ℕ → ℕ → ℕ → ℕ → Scan
scan hw overlapped addr seg zero mtrr pos = scanned mtrr pos
scan hw overlapped addr seg (suc n) mtrr pos =
    let t = type_of_range hw seg in
    let skipped = scan hw overlapped addr (suc seg) n mtrr pos in
    let matched =
      scan hw overlapped addr (suc seg) n (if ltb t 8 then set_bit t mtrr else mtrr) t in
    if range_matches hw addr seg
    then if overlapped then matched else returned (not (t == 0))
    else skipped

-- The choice among the types that matched.
pub resolve : ℕ → Scan → Bool × Option ℕ
resolve def_type (returned b) = (b, none)
resolve def_type (scanned mtrr pos) =
    if mtrr == 0
    then (true, some def_type)
    else if clear_bit pos mtrr == 0
    then (true, some pos)
    else if bit 0 mtrr
    then (true, some 0)
    else if bit_and mtrr 0xaf == 0
    then (true, some 4)
    else (true, some pos)

-- What is returned, and the type if one is written; `hw` is none if the hypercall fails.
pub mtrr_type : ℕ → Option HwMtrr → ℕ → Bool × Option ℕ
unfolding resolve
mtrr_type phys_addr none addr = (false, none)
mtrr_type phys_addr (some hw) addr =
    let fixed = ltb addr 0x100000 && bit 10 hw.def_type in
    let overlapped = is_var_mtrr_overlapped phys_addr hw in
    let var = resolve (hw.def_type % 256) (scan hw overlapped addr 0 (hw.mtrr_cap % 256) 0 0) in
    if bit 11 hw.def_type
    then if fixed then (true, some (hw.fixed (fixed_index addr))) else var
    else (true, some 0)
