-- ===== src/Xen/Control/Asked.antt =====
-- What the hypervisor is asked for by way of the wrapper (src/xcwrapper.cpp).
use libbdvmi.Common.{ℕ, ◌≡◌, refl, Option, none, some, List, [], ◌∷◌, ◌++◌, arith, Map, ℤ, ◌∙◌}
use mathlib.Core.List.{append-nil}
use libbdvmi.Driver.{Access, access_bits, access_of_bits}
use libbdvmi.Driver.Protection.{access_of_bits-access_bits}
use libbdvmi.Xen.Pages.{XenAccess, access_of_xen}
use libbdvmi.Xen.Control.{
  xen_mem_access, AccessCall, multi, single, accesses_of, gfns_of, one_by_one, set_mem_access,
}

access_of_xen-bits : (bits : ℕ) → access_of_xen (xen_mem_access bits) ≡ access_of_bits bits
unfolding access_of_xen xen_mem_access
access_of_xen-bits bits = ground arith

-- The access that Xen is asked for, read back, is the access of which the driver keeps the bits.
pub access_of_xen-xen_mem_access : (a : Access) → access_of_xen (xen_mem_access (access_bits a)) ≡ a
access_of_xen-xen_mem_access a = access_of_xen-bits (access_bits a) ∙ access_of_bits-access_bits a

abbrev pub pairs : List XenAccess → List ℕ → List (ℕ × XenAccess)
pairs [] gs = []
pairs (a ∷ xs) [] = []
pairs (a ∷ xs) (g ∷ gs) = (g, a) ∷ pairs xs gs

-- The pages that the calls are about, with what is asked for each.
abbrev pub asked_for : List AccessCall → List (ℕ × XenAccess)
asked_for [] = []
asked_for (multi xs gs ∷ cs) = pairs xs gs ++ asked_for cs
asked_for (single a g ∷ cs) = (g, a) ∷ asked_for cs

abbrev pub wanted : Map ℕ → List (ℕ × XenAccess)
wanted [] = []
wanted ((gfn, bits) ∷ m) = (gfn, xen_mem_access bits) ∷ wanted m

pairs-wanted : (m : Map ℕ) → pairs (accesses_of m) (gfns_of m) ≡ wanted m
pairs-wanted [] = refl
pairs-wanted ((gfn, bits) ∷ m) = cc (pairs-wanted m)

one_by_one-wanted : (m : Map ℕ) → asked_for (one_by_one m) ≡ wanted m
unfolding one_by_one
one_by_one-wanted [] = refl
one_by_one-wanted ((gfn, bits) ∷ m) = cc (one_by_one-wanted m)

-- Whether or not the library can take many pages in one call, Xen is asked for the same accesses of
-- the same pages in the same order.
pub set_mem_access-wanted :
    (answer : Option ℤ) (m : Map ℕ) → asked_for (set_mem_access answer m).1 ≡ wanted m
unfolding set_mem_access
set_mem_access-wanted none m = one_by_one-wanted m
set_mem_access-wanted (some rc) m = append-nil (pairs (accesses_of m) (gfns_of m)) ∙ pairs-wanted m
