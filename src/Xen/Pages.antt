-- ===== src/Xen/Pages.antt =====
-- The mapping of guest memory of src/xendriver.cpp, by way of the page cache, and its calls for
-- page protections and views.
mod Mapping
mod Checks
use libbdvmi.Common.{
  ℕ, ◌+◌, ◌*◌, ◌/◌, ◌%◌, ◌-◌, ◌^◌, Bool, true, false, Option, none, some, List, [], ◌∷◌, ◌==◌,
  if◌then◌else◌, Map, ℤ, is_negative, gpa_to_gfn,
}
use libbdvmi.PageCache.{
  PageCache, Mincore, MapReturnCode, map_success, map_failed_generic, map_invalid_parameter, update,
  release,
}
use libbdvmi.Driver.{Access}
use libbdvmi.Altp2m.{
  Altp2m, failed, create_view, destroy_view, switch_to_view, get_current_view, set_suppress_ve,
  get_suppress_ve,
}

-- `x & XC::pageMask`.
abbrev pub page_start : ℕ → ℕ
page_start x = x / 4096 * 4096

-- What the mapping of a page leads to: nothing was mapped, or a pointer into the page.
unfoldable pub point_into : ℕ → ℕ → PageCache → MapReturnCode × Option ℕ × PageCache
point_into address mapped c =
    if mapped == 0
    then (map_failed_generic, some 0, c)
    else (map_success, some ((mapped + address % 4096) % 2 ^ 64), c)

-- `no_cache` is the flag, `mapped` what mapGuestPageImpl answers; the pointer is none where it is
-- not written.
unfoldable pub map_phys_mem_to_host :
    ℕ → ℕ → Bool → ℕ → Mincore → PageCache → MapReturnCode × Option ℕ × PageCache
unfolding point_into
map_phys_mem_to_host address length no_cache mapped m c =
    let r = update (gpa_to_gfn address) mapped m c in
    if page_start address == page_start ((address + length + 2 ^ 64 - 1) % 2 ^ 64)
    then if no_cache
      then point_into address mapped c
      else elim r.0 [ map_success ↦ point_into address r.1 r.2 | e ↦ (e, some 0, r.2) ]
    else (map_invalid_parameter, none, c)

-- A page that the cache does not know is unmapped at once, for the frame ~0.
unfoldable pub unmap_phys_mem : ℕ → PageCache → PageCache
unmap_phys_mem host_ptr c =
    let r = release (page_start host_ptr) c in
    if r.0
    then r.1
    else record (r.1) { unmapped = (page_start host_ptr, 2 ^ 64 - 1) ∷ r.1.unmapped }

-- The constants XENMEM_access_*.
pub data XenAccess : Type 0 where
  xen_n xen_r xen_w xen_rw xen_x xen_rx xen_wx xen_rwx xen_rx2rw : XenAccess
  xen_other : ℕ → XenAccess

-- The `switch` of getPageProtectionImpl.
unfoldable pub access_of_xen : XenAccess → Access
access_of_xen xen_r = record { read = true; write = false; execute = false }
access_of_xen xen_w = record { read = false; write = true; execute = false }
access_of_xen xen_rw = record { read = true; write = true; execute = false }
access_of_xen xen_x = record { read = false; write = false; execute = true }
access_of_xen xen_rx = record { read = true; write = false; execute = true }
access_of_xen xen_wx = record { read = false; write = true; execute = true }
access_of_xen xen_rwx = record { read = true; write = true; execute = true }
access_of_xen xen_rx2rw = record { read = true; write = false; execute = true }
access_of_xen _ = record { read = false; write = false; execute = false }

-- `answer` is what getMemAccess_ gives, none for a failure.
unfoldable pub get_page_protection_impl : Option XenAccess → Option Access
unfolding access_of_xen
get_page_protection_impl none = none
get_page_protection_impl (some a) = some (access_of_xen a)

-- The calls of setMemAccess_ with one entry each, after a failure.
unfoldable pub one_at_a_time : Map ℕ → List (Map ℕ)
one_at_a_time [] = []
one_at_a_time (w ∷ ws) = (w ∷ []) ∷ one_at_a_time ws

-- `fails` is whether setMemAccess_ fails on the whole map. The result, and the calls that are made.
unfoldable pub set_page_protection_impl : Bool → Map ℕ → Bool × List (Map ℕ)
unfolding one_at_a_time
set_page_protection_impl fails [] = (true, [])
set_page_protection_impl fails (w ∷ ws) =
    if fails then (false, (w ∷ ws) ∷ one_at_a_time (w ∷ ws)) else (true, (w ∷ ws) ∷ [])

-- `rc gfn` is what the hypercall answers for a page. The result, and the pages that are written: the
-- loop stops at the first failure.
unfoldable pub set_all_suppress_ve : (ℕ → ℤ) → ℕ → Map Bool → Altp2m → Bool × List (ℕ × Bool)
set_all_suppress_ve rc view [] a = (true, [])
set_all_suppress_ve rc view ((gfn, b) ∷ ws) a =
    let rest = set_all_suppress_ve rc view ws a in
    if failed (set_suppress_ve (rc gfn) view a) then (false, []) else (rest.0, (gfn, b) ∷ rest.1)

unfoldable pub set_page_convertible_impl : (ℕ → ℤ) → Map Bool → ℕ → Altp2m → Bool × List (ℕ × Bool)
unfolding set_all_suppress_ve
set_page_convertible_impl rc conv_map view a =
    if a.enabled then set_all_suppress_ve rc view conv_map a else (false, [])

unfoldable pub get_ept_page_convertible : ℤ × Bool → ℕ → Altp2m → Bool × Option Bool
get_ept_page_convertible answer index a =
    let r = get_suppress_ve answer index a in
    if a.enabled then (if failed r.0 then (false, r.1) else (true, r.1)) else (false, none)

-- The index is written on success only.
unfoldable pub create_ept : ℤ × ℕ → Altp2m → Option ℕ × Altp2m
create_ept created a =
    let r = create_view created a in
    if a.enabled then if failed r.0 then (none, r.1) else (some created.1, r.1) else (none, a)

unfoldable pub destroy_ept : ℤ → ℕ → Altp2m → Bool × Altp2m
destroy_ept rc index a =
    let r = destroy_view rc index a in
    if a.enabled then if failed r.0 then (false, r.1) else (true, r.1) else (false, a)

unfoldable pub switch_ept : ℤ × ℕ → ℤ → ℕ → Altp2m → Bool × Altp2m
switch_ept asked rc index a =
    let r = switch_to_view asked rc index a in
    if a.enabled then if failed r.0 then (false, r.1) else (true, r.1) else (false, a)

unfoldable pub eptp_index : ℤ × ℕ → ℕ → Altp2m → ℕ
eptp_index asked vcpu a = (get_current_view asked vcpu a).1
