-- ===== src/Altp2m/Views.antt =====
-- Which views src/xenaltp2m.cpp accepts, and what it reports as current.
use libbdvmi.Common.{
  ℕ, ◌≡◌, ◌⊎◌, true, false, ◌&&◌, not, none, List, [], ◌∷◌, arith, ◌==◌, if◌then◌else◌, find,
  insert, find-insert, find-erase, contains, contains-remove_id, ℤ,
}
use libbdvmi.Altp2m.{
  Altp2m, ok, failed, destroy_view, get_current_view, is_known, switch_to_view, enable_cache,
  disable_cache, Teardown, destroy, destroy_all, tear_down,
}

-- After a destruction that succeeds the view is known no more (0, the host's, apart), and the
-- others are known as before; a failed one changes nothing.
pub destroy_view-is_known :
    (rc : ℤ) (gone view : ℕ) (a : Altp2m)
    → is_known view (destroy_view rc gone a).1 ≡ (
        if not (failed (destroy_view rc gone a).0) && gone == view
        then view == 0
        else is_known view a)
unfolding destroy_view is_known
destroy_view-is_known rc gone view a = ground (arith, contains-remove_id gone view a.views)

-- Where the hypervisor cannot be asked and no view is cached for VCPU 0, the view that was switched
-- to is the one that is reported; a switch that fails leaves the one before.
pub get-switch_to_view :
    (asked : ℤ × ℕ) (rc : ℤ) (view : ℕ) (a : Altp2m)
    → a.enabled ≡ true
    → a.xc.get_vcpu_p2m_idx ≡ false
    → find 0 a.view_cache ≡ none
    → get_current_view asked 0 (switch_to_view asked rc view a).1
      ≡ (ok, if failed (switch_to_view asked rc view a).0 then a.current_view else view)
unfolding get_current_view switch_to_view
get-switch_to_view asked rc view a on absent uncached = ground arith

-- Between enableCache and disableCache a VCPU's view is the cached one, whatever the hypervisor
-- answers; the other VCPUs are not affected.
pub get-enable_cache :
    (asked : ℤ × ℕ) (vcpu idx v : ℕ) (a : Altp2m)
    → a.enabled ≡ true
    → (get_current_view asked v (enable_cache vcpu idx a)
        ≡ (if vcpu == v then (ok, idx) else get_current_view asked v a))
      × (find vcpu a.view_cache ≡ none
          → get_current_view asked v (disable_cache vcpu (enable_cache vcpu idx a))
            ≡ get_current_view asked v a)
unfolding get_current_view enable_cache disable_cache
get-enable_cache asked vcpu idx v a on = (
  ground (arith, find-insert vcpu v idx a.view_cache),
  λ e. ground (
    arith,
    find-insert vcpu v idx a.view_cache,
    find-erase vcpu v (insert vcpu idx a.view_cache),
  ),
)

abbrev pub IsIn : ℕ → List Teardown → Type 0
IsIn v [] = ⊥
IsIn v (t ∷ ts) = (t ≡ destroy v) ⊎ IsIn v ts

destroy_all-IsIn : (v : ℕ) (vs : List ℕ) → contains v vs ≡ true → IsIn v (destroy_all vs)
unfolding destroy_all contains
destroy_all-IsIn v [] e = cc
destroy_all-IsIn v (w ∷ vs) e = ground (arith, destroy_all-IsIn v vs)

-- The destructor of an enabled object destroys each view that was made and not destroyed.
pub tear_down-IsIn :
    (asked : ℤ × ℕ) (v : ℕ) (a : Altp2m)
    → a.enabled ≡ true
    → contains v a.views ≡ true
    → IsIn v (tear_down asked a)
unfolding tear_down
tear_down-IsIn asked v a on e = ground (arith, destroy_all-IsIn v a.views e)
