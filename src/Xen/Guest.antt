-- ===== src/Xen/Guest.antt =====
-- src/xendriver.cpp: the start of the driver (init(), getDomainId(), startTime()), the injection of
-- traps, and pausing. What Xen and XenStore answer are arguments.
mod Boot
mod Checks
use libbdvmi.Common.{
  ℕ, ◌+◌, ◌*◌, ◌-◌, ◌/◌, ◌%◌, ◌^◌, Bool, true, false, ◌&&◌, ◌||◌, not, Option, none, some, List, [],
  ◌∷◌, ◌==◌, ltb, leb, if◌then◌else◌, Map, find, insert, ℤ, is_negative,
}
use libbdvmi.Driver.{Driver, flush_page_protections}
use libbdvmi.Altp2m.{Altp2m, failed, create_view, switch_to_view}

-- struct XenDomainInfo, as far as init() reads it.
pub record XenDomainInfo : Type 0 where
  pub hvm : Bool
  pub dying : Bool
  pub shutdown : Bool
  pub max_memkb : ℕ

abbrev pub no_domain_info : XenDomainInfo
no_domain_info = record { hvm = false; dying = false; shutdown = false; max_memkb = 0 }

-- The exceptions that init() throws.
pub data InitError : Type 0 where
  getinfo_failed not_hvm is_pvh going_down no_view no_switch : InitError

-- What Xen, XenStore and the processor answer while the driver starts: xc_domain_getinfo(), none
-- unless it is 1; xc_domain_getinfolist(), with whether the guest is PVH; the UUID; the view, and the
-- switch to it; and the leaves of CPUID.
pub record Start : Type 0 where
  pub info : Option XenDomainInfo
  pub domctl : Option Bool
  pub uuid : ℕ
  pub created : ℤ × ℕ
  pub asked : ℤ × ℕ
  pub switched : ℤ
  pub cpuid_eax : ℕ → ℕ

pub record XenGuest : Type 0 where
  pub uuid : ℕ
  pub phys_addr : ℕ
  pub max_gpfn : ℕ
  pub altp2m : Altp2m

pub data Started : Type 0 where
  started : XenGuest → Started
  thrown : InitError → Started

-- The width of physical addresses, as uint8_t.
unfoldable pub phys_addr_of : (ℕ → ℕ) → ℕ
phys_addr_of cpuid_eax =
    if leb 0x80000008 (cpuid_eax 0x80000000) then cpuid_eax 0x80000008 % 256 else 36

unfoldable pub begin_guest : Start → XenDomainInfo → Altp2m → Started
unfolding phys_addr_of
begin_guest w info a = started (record {
  uuid = w.uuid;
  phys_addr = phys_addr_of w.cpuid_eax;
  max_gpfn = info.max_memkb / 4;
  altp2m = a;
})

-- The first view is created and switched to.
unfoldable pub enter_view : Start → XenDomainInfo → Altp2m → Started
unfolding begin_guest
enter_view w info a =
    let r = create_view w.created a in
    let t = switch_to_view w.asked w.switched w.created.1 r.1 in
    if a.enabled
    then if failed r.0
      then thrown no_view
      else if failed t.0
      then thrown no_switch
      else begin_guest w info t.1
    else begin_guest w info a

unfoldable pub check_info : Bool → Start → XenDomainInfo → Bool → Altp2m → Started
unfolding enter_view
check_info hvm_only w info pvh a =
    if hvm_only && not info.hvm
    then thrown not_hvm
    else if pvh
    then thrown is_pvh
    else if info.shutdown || info.dying
    then thrown going_down
    else enter_view w info a

-- `domainGetInfo() != 1 && domainGetInfoList() != 1`: the second is called only if the first fails,
-- and what is not filled in keeps its default.
unfoldable pub init : Bool → Start → Altp2m → Started
unfolding check_info
init hvm_only w a = elim w.info [
  | some info ↦ check_info hvm_only w info false a
  | none ↦ elim w.domctl [
    | none ↦ thrown getinfo_failed
    | some pvh ↦ check_info hvm_only w no_domain_info pvh a
  ]
]

-- The domains under /local/domain with their UUIDs; none if the directory cannot be read.
unfoldable pub find_domain : ℕ → List (ℕ × ℕ) → ℕ
find_domain uuid [] = 0
find_domain uuid ((domain, u) ∷ ds) =
    let rest = find_domain uuid ds in if uuid == u then domain else rest

unfoldable pub get_domain_id : ℕ → Option (List (ℕ × ℕ)) → Option ℕ
unfolding find_domain
get_domain_id uuid none = none
get_domain_id uuid (some ds) = some (find_domain uuid ds)

abbrev pub unknown_time : ℕ
unknown_time = 2 ^ 32 - 1

-- What strtoul() makes of the text under a path, none if there is no text.
pub record TimeKeys : Type 0 where
  pub vm_path : Bool
  pub start_time_key : Option ℕ
  pub create_time_key : Option ℕ

-- The text that is read last is used last: it is that of the first key if that gives a time.
unfoldable pub start_time : TimeKeys → ℕ → ℕ
start_time w known =
    let first : ℕ = elim w.start_time_key [ none ↦ known | some t ↦ t % 2 ^ 32 ] in
    if known == unknown_time
    then if w.vm_path
      then if first == unknown_time
        then elim w.create_time_key [ none ↦ first | some t ↦ t % 2 ^ 32 ]
        else first
      else known
    else known

-- `refused` is whether xc_hvm_inject_trap() answers other than 0.
unfoldable pub inject_trap : Bool → ℕ → Map Bool → Bool × Map Bool
inject_trap refused vcpu pending =
    if refused then (false, pending) else (true, insert vcpu true pending)

unfoldable pub pending_injection : ℕ → Map Bool → Bool
pending_injection vcpu pending = elim (find vcpu pending) [ none ↦ false | some b ↦ b ]

unfoldable pub clear_injection : ℕ → Map Bool → Map Bool
clear_injection vcpu pending = insert vcpu false pending

-- The driver with what unpause() and update() need.
pub record Pausing : Type 0 where
  pub driver : Driver
  pub update : Bool
  pub updates_written : ℕ

unfoldable pub pause : Bool → Bool
pause refused = not refused

-- The protections are flushed before the guest goes on. The calls of the flush, and the result.
unfoldable pub unpause : Bool → Pausing → Bool × List (ℕ × Map ℕ) × List (ℕ × Map Bool) × Pausing
unpause refused p =
    let r = flush_page_protections p.driver in
    if refused
    then (false, r.0, r.1, record p { driver = r.2 })
    else (true, r.0, r.1, record p { driver = r.2; update = true })

-- "now" is written to XenStore once after each unpause().
unfoldable pub update : Pausing → Pausing
update p =
    if p.update then record p { update = false; updates_written = p.updates_written + 1 } else p

-- Without the function in libxenctrl, or if it refuses, nothing is switched.
unfoldable pub set_rep_optimizations : Option (Bool → Bool) → Bool → Bool
set_rep_optimizations none enable = false
set_rep_optimizations (some emulate_each_rep) enable = emulate_each_rep (not enable)
