-- ===== src/Kvm/Memory/Mapping.antt =====
-- The mapping of memory, and the bits of pages, by the KVM driver (src/kvmdriver.cpp).
use libbdvmi.Common.{
  ℕ, ◌≡◌, refl, Bool, true, false, ◌&&◌, ◌||◌, not, Option, List, [], ◌∷◌, arith, Map, ℤ,
  gfn_to_gpa, bit,
}
use libbdvmi.PageCache.{PageCache, Mincore}
use libbdvmi.Xen.Pages
use libbdvmi.Kvm.Memory.{
  is_zero, Call, set_ept_page_conv, map_phys_mem_to_host, map_guest_page_impl, set_all_convertible,
  set_page_convertible_impl, without_no_cache,
}

without_no_cache_lem : (flags : ℕ) → bit 0 (without_no_cache flags) ≡ false
without_no_cache_lem flags = ground arith

-- The KVM driver maps memory through the page cache whatever the flags are: exactly as the Xen
-- driver does without the flag for no cache.
pub map_phys_mem-cached :
    (address length flags : ℕ) (answer : Option ℕ) (m : Mincore) (c : PageCache)
    → map_phys_mem_to_host address length flags answer m c
      ≡ Pages.map_phys_mem_to_host address length false (map_guest_page_impl answer) m c
unfolding map_phys_mem_to_host Pages.map_phys_mem_to_host
map_phys_mem-cached address length flags answer m c = rw (without_no_cache_lem flags) (refl)

-- The calls for the bits of the pages, the last page first.
abbrev asked : ℕ → Map Bool → List Call → List Call
asked view [] calls = calls
asked view ((gfn, sve) ∷ ws) calls =
    asked view ws (set_ept_page_conv view (gfn_to_gpa gfn) sve ∷ calls)

abbrev all_granted : (ℕ → ℤ) → Map Bool → Bool
all_granted rc [] = true
all_granted rc ((gfn, sve) ∷ ws) = is_zero (rc gfn) && all_granted rc ws

set_all_convertible_lem :
    (rc : ℕ → ℤ) (view : ℕ) (m : Map Bool) (failed : Bool) (calls : List Call)
    → set_all_convertible rc view m failed calls
      ≡ (failed || not (all_granted rc m), asked view m calls)
unfolding set_all_convertible
set_all_convertible_lem rc view [] failed calls = ground arith
set_all_convertible_lem rc view ((gfn, sve) ∷ ws) failed calls = ground (
  arith,
  set_all_convertible_lem rc view ws (failed || not (is_zero (rc gfn)))
      (set_ept_page_conv view (gfn_to_gpa gfn) sve ∷ calls),
)

-- Every page is asked for, also after a failure, and the result is true exactly if all are granted.
pub set_page_convertible_impl_lem :
    (rc : ℕ → ℤ) (m : Map Bool) (view : ℕ) (calls : List Call)
    → set_page_convertible_impl rc m view calls ≡ (all_granted rc m, asked view m calls)
unfolding set_page_convertible_impl
set_page_convertible_impl_lem rc m view calls =
    ground (arith, set_all_convertible_lem rc view m false calls)
