-- ===== src/Altp2m.antt =====
-- src/xenaltp2m.cpp and src/xenaltp2m.h: the alternate page tables ("views") of one domain. The
-- hypercalls of XC are arguments: what each would answer to this call. An answer below 0 is an
-- error; -EINVAL and -ENOTSUP are two errors of the code's own.
pub mod Views
mod Checks
use libbdvmi.Common.{
  ℕ, ◌≡◌, Bool, true, false, ◌&&◌, ◌||◌, not, Option, none, some, List, [], ◌∷◌, ◌==◌,
  if◌then◌else◌, Map, find, insert, erase, contains, add_id, remove_id, ℤ, pos, negsuc, is_negative,
}

-- The functions that the library may lack.
pub record XcFunctions : Type 0 where
  pub set_vcpu_disable_notify : Bool
  pub set_suppress_ve : Bool
  pub get_suppress_ve : Bool
  pub get_vcpu_p2m_idx : Bool

pub record Altp2m : Type 0 where
  pub xc : XcFunctions
  pub current_view : ℕ
  pub views : List ℕ
  pub enabled : Bool
  pub view_cache : Map ℕ

-- A return code of the class: one of the hypercall, or an error of the class's own.
pub data Rc : Type 0 where
  xc_rc : ℤ → Rc
  minus_einval minus_enotsup : Rc

abbrev pub ok : Rc
ok = xc_rc (pos 0)

abbrev pub failed : Rc → Bool
failed (xc_rc n) = is_negative n
failed minus_einval = true
failed minus_enotsup = true

-- The constructor; `set_state` is what altp2mSetDomainState answers.
pub create : XcFunctions → Bool → ℤ → Altp2m
create xc enable set_state = record {
  xc = xc;
  current_view = 0;
  views = [];
  enabled =
      enable
      && (xc.set_vcpu_disable_notify
          && ((xc.set_suppress_ve && xc.get_suppress_ve) && not (is_negative set_state)));
  view_cache = [];
}

-- `created` is the answer of altp2mCreateView and the view's number.
pub create_view : ℤ × ℕ → Altp2m → Rc × Altp2m
create_view created a =
    if a.enabled
    then if is_negative created.0
      then (xc_rc created.0, a)
      else (xc_rc created.0, record a { views = add_id created.1 a.views })
    else (minus_enotsup, a)

pub destroy_view : ℤ → ℕ → Altp2m → Rc × Altp2m
destroy_view rc view a =
    if a.enabled
    then if is_negative rc
      then (xc_rc rc, a)
      else (xc_rc rc, record a { views = remove_id view a.views })
    else (minus_enotsup, a)

-- `isCacheEnabled` and the read of the cached view.
pub cached_view : ℕ → Altp2m → Option ℕ
cached_view vcpu a = find vcpu a.view_cache

-- `asked` is what altp2mGetVcpuP2mIdx answers, with the view.
pub get_current_view : ℤ × ℕ → ℕ → Altp2m → Rc × ℕ
unfolding cached_view
get_current_view asked vcpu a =
    if a.enabled
    then elim (cached_view vcpu a) [
      | some view ↦ (ok, view)
      | none ↦ if a.xc.get_vcpu_p2m_idx then (xc_rc asked.0, asked.1) else (ok, a.current_view)
    ]
    else (ok, 0)

-- A view that may be named: the host's own, 0, or one that was made.
pub is_known : ℕ → Altp2m → Bool
is_known view a = if view == 0 then true else contains view a.views

-- `rc` is what altp2mSwitchToView answers. VCPU 0 is asked for the view that is current.
pub switch_to_view : ℤ × ℕ → ℤ → ℕ → Altp2m → Rc × Altp2m
unfolding is_known
switch_to_view asked rc view a =
    let now = get_current_view asked 0 a in
    if a.enabled
    then if failed now.0
      then (now.0, a)
      else if view == now.1
      then (ok, a)
      else if is_known view a
      then if is_negative rc then (xc_rc rc, a) else (xc_rc rc, record a { current_view = view })
      else (minus_einval, a)
    else (minus_enotsup, a)

pub set_ve_info_page : ℤ → Altp2m → Rc
set_ve_info_page rc a = if a.enabled then xc_rc rc else minus_enotsup

pub disable_ve : ℤ → Altp2m → Rc
disable_ve rc a = if a.enabled && a.xc.set_vcpu_disable_notify then xc_rc rc else minus_enotsup

pub set_suppress_ve : ℤ → ℕ → Altp2m → Rc
set_suppress_ve rc view a =
    if a.enabled then if is_known view a then xc_rc rc else minus_einval else minus_enotsup

-- `answer` is the hypercall's, with the bit.
pub get_suppress_ve : ℤ × Bool → ℕ → Altp2m → Rc × Option Bool
get_suppress_ve answer view a =
    if a.enabled
    then if is_known view a then (xc_rc answer.0, some answer.1) else (minus_einval, none)
    else (minus_enotsup, none)

unfoldable pub enable_cache : ℕ → ℕ → Altp2m → Altp2m
enable_cache vcpu idx a =
    if a.enabled then record a { view_cache = insert vcpu idx a.view_cache } else a

unfoldable pub disable_cache : ℕ → Altp2m → Altp2m
disable_cache vcpu a = if a.enabled then record a { view_cache = erase vcpu a.view_cache } else a

-- The hypercalls of the destructor, in order.
pub data Teardown : Type 0 where
  switch_to destroy : ℕ → Teardown
  set_domain_state : Bool → Teardown

pub destroy_all : List ℕ → List Teardown
destroy_all [] = set_domain_state false ∷ []
destroy_all (v ∷ vs) = destroy v ∷ destroy_all vs

-- The switch to view 0 is a call only if another view is current.
pub tear_down : ℤ × ℕ → Altp2m → List Teardown
unfolding destroy_all
tear_down asked a =
    let now = get_current_view asked 0 a in
    if a.enabled
    then if failed now.0
      then destroy_all a.views
      else if now.1 == 0
      then destroy_all a.views
      else switch_to 0 ∷ destroy_all a.views
    else []
