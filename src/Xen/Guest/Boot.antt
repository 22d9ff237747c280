-- ===== src/Xen/Guest/Boot.antt =====
-- Which guests the driver refuses (src/xendriver.cpp, init(), getDomainId()).
use libbdvmi.Common.{
  ℕ, ◌≡◌, refl, Bool, true, false, ◌&&◌, ◌||◌, not, some, List, [], ◌∷◌, ◌==◌, arith,
}
use libbdvmi.Altp2m.{Altp2m, failed, create_view, switch_to_view}
use libbdvmi.Xen.Guest.{XenDomainInfo, Start, Started, started, thrown, init, get_domain_id}

abbrev pub is_started : Started → Bool
is_started (started g) = true
is_started (thrown e) = false

abbrev pub view_ready : Start → Altp2m → Bool
view_ready w a =
    let r = create_view w.created a in
    not a.enabled
    || not (failed r.0) && not (failed (switch_to_view w.asked w.switched w.created.1 r.1).0)

-- If Xen knows the guest, the driver starts exactly if the guest is not shutting down or dying, is HVM
-- where that is asked for, and its first view can be created and switched to. Whether it is a PVH
-- guest makes no difference.
pub init_known :
    (hvm_only : Bool) (w : Start) (a : Altp2m) {info : XenDomainInfo}
    → w.info ≡ some info
    → is_started (init hvm_only w a)
      ≡ ((not hvm_only || info.hvm) && not info.shutdown && not info.dying && view_ready w a)
unfolding init
init_known hvm_only w a known = ground arith

abbrev pub all_other : ℕ → List (ℕ × ℕ) → Bool
all_other uuid [] = true
all_other uuid ((domain, u) ∷ ds) = not (uuid == u) && all_other uuid ds

-- A guest of which no domain has the UUID is taken for domain 0.
pub get_domain_id-unknown :
    (uuid : ℕ) (ds : List (ℕ × ℕ))
    → all_other uuid ds ≡ true
    → get_domain_id uuid (some ds) ≡ some 0
unfolding get_domain_id
get_domain_id-unknown uuid [] h = refl
get_domain_id-unknown uuid ((domain, u) ∷ ds) h = ground (arith, get_domain_id-unknown uuid ds)
