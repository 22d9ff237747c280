-- ===== src/Kvm/Memory.antt =====
-- src/kvmdriver.cpp: the mapping of guest memory, the convertible bits of pages, and the calls that
-- the driver hands on to libkvmi. What libkvmi answers is an argument; an answer of 0 is a success.
mod Mapping
mod Checks
use libbdvmi.Common.{
  ℕ, ◌+◌, ◌-◌, ◌*◌, ◌/◌, ◌%◌, ◌^◌, Bool, true, false, ◌&&◌, ◌||◌, not, Option, none, some, List, [],
  ◌∷◌, ◌==◌, if◌then◌else◌, bit, clear_bit, Map, ℤ, pos, negsuc, is_negative, gpa_to_gfn,
  gfn_to_gpa,
}
use libbdvmi.PageCache.{
  PageCache, Mincore, MapReturnCode, map_success, map_failed_generic, map_invalid_parameter, update,
  release,
}

abbrev pub is_zero : ℤ → Bool
is_zero (pos n) = n == 0
is_zero (negsuc n) = false

-- The calls of libkvmi, with their arguments.
pub data Call : Type 0 where
  inject_exception : ℕ → ℕ → ℕ → ℕ → Call
  get_mtrr_type : ℕ → Call
  get_cpuid : ℕ → ℕ → ℕ → Call
  get_xsave : ℕ → ℕ → Call
  get_maximum_gfn : Call
  set_ve_info_page : ℕ → ℕ → Call
  get_ept_page_conv : ℕ → ℕ → Call
  set_ept_page_conv : ℕ → ℕ → Bool → Call
  call_disable_ve : ℕ → Call
  unmap_physical_page : ℕ → Call

-- `x & PAGE_MASK`.
abbrev pub page_of : ℕ → ℕ
page_of x = x / 4096 * 4096

-- PHYSMAP_NO_CACHE is bit 0 of the flags.
abbrev pub without_no_cache : ℕ → ℕ
without_no_cache flags = clear_bit 0 flags

unfoldable pub pointer_into : ℕ → ℕ → PageCache → MapReturnCode × Option ℕ × PageCache
pointer_into address mapped c =
    if mapped == 0
    then (map_failed_generic, some 0, c)
    else (map_success, some ((mapped + address % 4096) % 2 ^ 64), c)

-- What kvmi_map_physical_page() answers, none for MAP_FAILED.
unfoldable pub map_guest_page_impl : Option ℕ → ℕ
map_guest_page_impl none = 0
map_guest_page_impl (some addr) = addr

-- The pointer is none where it is not written.
unfoldable pub map_phys_mem_to_host :
    ℕ → ℕ → ℕ → Option ℕ → Mincore → PageCache → MapReturnCode × Option ℕ × PageCache
unfolding pointer_into map_guest_page_impl
map_phys_mem_to_host address length flags answer m c =
    let flags' = without_no_cache flags in
    let mapped = map_guest_page_impl answer in
    let r = update (gpa_to_gfn address) mapped m c in
    if page_of address == page_of ((address + length + 2 ^ 64 - 1) % 2 ^ 64)
    then if bit 0 flags'
      then pointer_into address mapped c
      else elim r.0 [ map_success ↦ pointer_into address r.1 r.2 | e ↦ (e, some 0, r.2) ]
    else (map_invalid_parameter, none, c)

-- A page that the cache does not know is unmapped at once, for the frame ~0.
unfoldable pub unmap_phys_mem : ℕ → PageCache → PageCache
unmap_phys_mem host_ptr c =
    let r = release (page_of host_ptr) c in
    if r.0 then r.1 else record (r.1) { unmapped = (page_of host_ptr, 2 ^ 64 - 1) ∷ r.1.unmapped }

unfoldable pub unmap_guest_page_impl : ℕ → List Call → List Call
unmap_guest_page_impl host_ptr calls = unmap_physical_page host_ptr ∷ calls

unfoldable pub inject_trap : ℤ → ℕ → ℕ → ℕ → ℕ → List Call → Bool × List Call
inject_trap rc vcpu trap error_code cr2 calls =
    (is_zero rc, inject_exception vcpu cr2 error_code trap ∷ calls)

-- The type is written by libkvmi.
unfoldable pub mtrr_type : ℤ × ℕ → ℕ → List Call → Bool × ℕ × List Call
mtrr_type answer gpa calls = (is_zero answer.0, answer.1, get_mtrr_type gpa ∷ calls)

-- DEFAULT_XSAVE_SIZE, unless CPUID leaf 0xD gives a size in EBX. It never fails.
unfoldable pub get_xsave_size : ℤ × ℕ → ℕ → List Call → Bool × ℕ × List Call
get_xsave_size answer vcpu calls = (
  true,
  if is_negative answer.0 || (answer.1 == 0) then 64 + 512 else answer.1,
  get_cpuid vcpu 0xD 0 ∷ calls,
)

unfoldable pub get_xsave_area : ℤ → ℕ → ℕ → List Call → Bool × List Call
get_xsave_area rc vcpu size calls = (is_zero rc, get_xsave vcpu size ∷ calls)

-- Seconds, from milliseconds, as 32 bits; all bits set if it is not known.
unfoldable pub start_time : ℕ → ℕ
start_time milliseconds = if milliseconds == 0 then 2 ^ 32 - 1 else milliseconds / 1000 % 2 ^ 32

-- The number of frames becomes the last frame, also after a failure.
unfoldable pub max_gpfn_impl : ℤ × ℕ → List Call → Bool × ℕ × List Call
max_gpfn_impl answer calls =
    (is_zero answer.0, (answer.1 + 2 ^ 64 - 1) % 2 ^ 64, get_maximum_gfn ∷ calls)

unfoldable pub set_ve_info_page_of : ℤ → ℕ → ℕ → List Call → Bool × List Call
set_ve_info_page_of rc vcpu gpa calls = (is_zero rc, set_ve_info_page vcpu gpa ∷ calls)

unfoldable pub disable_ve : ℤ → ℕ → List Call → Bool × List Call
disable_ve rc vcpu calls = (is_zero rc, call_disable_ve vcpu ∷ calls)

unfoldable pub get_ept_page_convertible : ℤ × Bool → ℕ → ℕ → List Call → Bool × Bool × List Call
get_ept_page_convertible answer index address calls =
    (is_zero answer.0, answer.1, get_ept_page_conv index address ∷ calls)

-- The loop over the map; `failed` is whether rc has a bit set so far.
unfoldable pub set_all_convertible : (ℕ → ℤ) → ℕ → Map Bool → Bool → List Call → Bool × List Call
set_all_convertible rc view [] failed calls = (failed, calls)
set_all_convertible rc view ((gfn, sve) ∷ ws) failed calls =
    set_all_convertible rc view ws (failed || not (is_zero (rc gfn)))
      (set_ept_page_conv view (gfn_to_gpa gfn) sve ∷ calls)

-- `rc gfn` is what libkvmi answers for a page.
unfoldable pub set_page_convertible_impl : (ℕ → ℤ) → Map Bool → ℕ → List Call → Bool × List Call
unfolding set_all_convertible
set_page_convertible_impl rc conv_map view calls =
    let r = set_all_convertible rc view conv_map false calls in (not r.0, r.1)
