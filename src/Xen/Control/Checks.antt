-- ===== src/Xen/Control/Checks.antt =====
-- The wrapper on concrete versions and pages (src/xcwrapper.cpp, src/version.cpp).
use libbdvmi.Common.{◌≡◌, refl, true, false, none, some, [], ◌∷◌, pos, negsuc}
use libbdvmi.Driver.{access_of_bits}
use libbdvmi.Xen.Pages.{xen_rw, xen_rwx}
use libbdvmi.Xen.Control.{
  Version, is_xen_server, vm_event_get_version, single, set_mem_access, xen_mem_access,
}

abbrev xen_4_11 : Version
xen_4_11 = record { major = 4; minor = 11 }

old_xen : vm_event_get_version (some (negsuc 0)) xen_4_11 ≡ pos 3
unfolding vm_event_get_version
old_xen = refl

no_xen_server : is_xen_server false true xen_4_11 ≡ false
unfolding is_xen_server
no_xen_server = refl

two_pages :
    set_mem_access none ((3, 3) ∷ (9, 7) ∷ []) ≡ (pos 0, single xen_rw 3 ∷ single xen_rwx 9 ∷ [])
unfolding set_mem_access xen_mem_access access_of_bits
two_pages = refl
