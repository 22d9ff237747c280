-- ===== src/Altp2m/Checks.antt =====
-- The views of src/xenaltp2m.cpp on concrete inputs.
use libbdvmi.Common.{◌≡◌, refl, true, false, [], ◌∷◌, if◌then◌else◌, find, pos}
use libbdvmi.Altp2m.{XcFunctions, Altp2m, ok, failed, get_current_view, switch_to_view}
use libbdvmi.Altp2m.Views.{get-switch_to_view}

abbrev old_library : XcFunctions
old_library = record {
  set_vcpu_disable_notify = true;
  set_suppress_ve = true;
  get_suppress_ve = true;
  get_vcpu_p2m_idx = false;
}

abbrev two_views : Altp2m
two_views = record {
  xc = old_library;
  current_view = 1;
  views = 1 ∷ 2 ∷ [];
  enabled = true;
  view_cache = [];
}

get-switch_to_view_run :
    get_current_view (pos 0, 0) 0 (switch_to_view (pos 0, 0) (pos 0) 2 two_views).1
    ≡ (ok, if failed (switch_to_view (pos 0, 0) (pos 0) 2 two_views).0 then 1 else 2)
unfolding find
get-switch_to_view_run = get-switch_to_view (pos 0, 0) (pos 0) 2 two_views refl refl refl
