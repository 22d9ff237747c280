-- ===== src/Xen/Guest/Checks.antt =====
-- A PVH guest that Xen knows (src/xendriver.cpp).
use libbdvmi.Common.{◌≡◌, refl, true, false, some, [], pos}
use libbdvmi.Altp2m.{Altp2m}
use libbdvmi.Xen.Guest.{Start, XenDomainInfo, init}
use libbdvmi.Xen.Guest.Boot.{is_started, init_known}

abbrev known : XenDomainInfo
known = record { hvm = false; dying = false; shutdown = false; max_memkb = 4096 }

abbrev start : Start
start = record {
  info = some known;
  domctl = some true;
  uuid = 3;
  created = (pos 0, 0);
  asked = (pos 0, 0);
  switched = pos 0;
  cpuid_eax = λ n. 0;
}

abbrev no_altp2m : Altp2m
no_altp2m = record {
  xc = record {
    set_vcpu_disable_notify = false;
    set_suppress_ve = false;
    get_suppress_ve = false;
    get_vcpu_p2m_idx = false;
  };
  current_view = 0;
  views = [];
  enabled = false;
  view_cache = [];
}

init_known_example : is_started (init false start no_altp2m) ≡ true
init_known_example = init_known false start no_altp2m refl
