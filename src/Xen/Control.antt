-- ===== src/Xen/Control.antt =====
-- src/xcwrapper.cpp, src/version.cpp, include/bdvmi/version.h: what the wrapper of libxenctrl adds to
-- its functions, by the version of Xen and by which functions the library has.
mod Asked
mod Checks
use libbdvmi.Common.{
  ℕ, zero, ◌+◌, ◌%◌, ◌^◌, Bool, true, false, ◌&&◌, ◌||◌, not, Option, none, some, List, [], ◌∷◌,
  ◌++◌, ◌==◌, ltb, if◌then◌else◌, Map, ℤ, pos, negsuc, is_negative,
}
use libbdvmi.Driver.{Access, access_of_bits}
use libbdvmi.Xen.Pages.{XenAccess, xen_n, xen_r, xen_w, xen_x, xen_rw, xen_rx, xen_wx, xen_rwx}

-- class Version; the extra text is not compared.
pub record Version : Type 0 where
  pub major : ℕ
  pub minor : ℕ

-- cmp(), as the two numbers whose difference it is.
unfoldable pub cmp : Version → Version → ℕ × ℕ
cmp l r = if l.major == r.major then (l.minor, r.minor) else (l.major, r.major)

unfoldable pub is_before : Version → Version → Bool
unfolding cmp
is_before l r = let c = cmp l r in ltb c.0 c.1

unfoldable pub is_same : Version → Version → Bool
unfolding cmp
is_same l r = let c = cmp l r in c.0 == c.1

-- Whether Xen is XenServer: by a key of XenStore, or by a function that only its library has.
unfoldable pub is_xen_server : Bool → Bool → Version → Bool
unfolding is_same
is_xen_server key has_multi v =
    key
    || (is_same v (record { major = 4; minor = 6 }) || is_same v (record { major = 4; minor = 7 }))
      && has_multi

-- The factory is made from Xen 4.6 on.
unfoldable pub is_supported : Version → Bool
unfolding is_before
is_supported v = not (is_before v (record { major = 4; minor = 6 }))

-- `answer` is what the library's function gives, none without it.
unfoldable pub vm_event_get_version : Option ℤ → Version → ℤ
unfolding is_before
vm_event_get_version answer v =
    let guessed = if not (is_before v (record { major = 4; minor = 12 })) then pos 4 else pos 3 in
    elim answer [
      | none ↦ guessed
      | some ret ↦ elim ret [ pos n ↦ if n == 0 then guessed else pos n | negsuc n ↦ guessed ]
    ]

abbrev is_nonzero : ℤ → Bool
is_nonzero (pos n) = not (n == 0)
is_nonzero (negsuc n) = true

-- XC::xenMemAccess().
unfoldable pub xen_mem_access : ℕ → XenAccess
xen_mem_access bits =
    let a = access_of_bits bits in
    if a.read && (not a.write && not a.execute)
    then xen_r
    else if not a.read && (a.write && not a.execute)
    then xen_w
    else if not a.read && (not a.write && a.execute)
    then xen_x
    else if a.read && (a.write && not a.execute)
    then xen_rw
    else if a.read && (not a.write && a.execute)
    then xen_rx
    else if not a.read && (a.write && a.execute)
    then xen_wx
    else if a.read && (a.write && a.execute)
    then xen_rwx
    else xen_n

-- The calls of the library for the accesses of pages, of the domain or of a view of it.
pub data AccessCall : Type 0 where
  multi : List XenAccess → List ℕ → AccessCall
  single : XenAccess → ℕ → AccessCall

abbrev pub accesses_of : Map ℕ → List XenAccess
accesses_of [] = []
accesses_of ((gfn, bits) ∷ m) = xen_mem_access bits ∷ accesses_of m

abbrev pub gfns_of : Map ℕ → List ℕ
gfns_of [] = []
gfns_of ((gfn, bits) ∷ m) = gfn ∷ gfns_of m

unfoldable pub one_by_one : Map ℕ → List AccessCall
one_by_one [] = []
one_by_one ((gfn, bits) ∷ m) = single (xen_mem_access bits) gfn ∷ one_by_one m

-- `answer` is that of the call for many pages, none if the library has no such function; without it
-- the answers are not looked at.
unfoldable pub set_mem_access : Option ℤ → Map ℕ → ℤ × List AccessCall
unfolding one_by_one
set_mem_access answer m = elim answer [
  | some rc ↦ (rc, multi (accesses_of m) (gfns_of m) ∷ [])
  | none ↦ (pos 0, one_by_one m)
]

abbrev pub in_view : ℕ → List AccessCall → List (ℕ × AccessCall)
in_view view [] = []
in_view view (c ∷ cs) = (view, c) ∷ in_view view cs

unfoldable pub altp2m_set_mem_access : Option ℤ → ℕ → Map ℕ → ℤ × List (ℕ × AccessCall)
unfolding one_by_one
altp2m_set_mem_access answer view m = elim answer [
  | some rc ↦ (rc, in_view view (multi (accesses_of m) (gfns_of m) ∷ []))
  | none ↦ (pos 0, in_view view (one_by_one m))
]

-- The calls that lose an argument with older versions of Xen; none stands for an argument that is not
-- handed on.
pub record MonitorCall : Type 0 where
  pub enable : Bool
  pub sync : Option Bool
  pub last : Option Bool
  pub bitmask : Option ℕ

unfoldable pub monitor_mov_to_msr : Version → Bool → Bool → MonitorCall
unfolding is_before
monitor_mov_to_msr v enable onchangeonly = record {
  enable = enable;
  sync = none;
  last = if is_before v (record { major = 4; minor = 11 }) then none else some onchangeonly;
  bitmask = none;
}

unfoldable pub monitor_guest_request : Version → Bool → Bool → Bool → MonitorCall
unfolding is_before
monitor_guest_request v enable sync allow_userspace = record {
  enable = enable;
  sync = some sync;
  last = if is_before v (record { major = 4; minor = 9 }) then none else some allow_userspace;
  bitmask = none;
}

unfoldable pub monitor_write_ctrlreg : Version → Bool → Bool → ℕ → Bool → MonitorCall
unfolding is_before
monitor_write_ctrlreg v enable sync bitmask onchangeonly = record {
  enable = enable;
  sync = some sync;
  last = some onchangeonly;
  bitmask = if is_before v (record { major = 4; minor = 10 }) then none else some bitmask;
}

-- The registers of a VCPU that vcpuSetRegisters() writes.
pub record UserRegs : Type 0 where
  pub rax : ℕ
  pub rcx : ℕ
  pub rdx : ℕ
  pub rbx : ℕ
  pub rsp : ℕ
  pub rbp : ℕ
  pub rsi : ℕ
  pub rdi : ℕ
  pub r8 : ℕ
  pub r9 : ℕ
  pub r10 : ℕ
  pub r11 : ℕ
  pub r12 : ℕ
  pub r13 : ℕ
  pub r14 : ℕ
  pub r15 : ℕ
  pub rflags : ℕ
  pub rip : ℕ

-- The context in which the registers are put: 64 bits wide, where `eip` is another name of `rip`, or
-- 32 without r8 to r15.
unfoldable pub overlay_user_regs : Bool → Bool → UserRegs → UserRegs → UserRegs
overlay_user_regs true set_eip regs ctxt = record regs {
  rip = if set_eip then regs.rip else ctxt.rip;
}
overlay_user_regs false set_eip regs ctxt = record ctxt {
  rax = regs.rax % 2 ^ 32;
  rcx = regs.rcx % 2 ^ 32;
  rdx = regs.rdx % 2 ^ 32;
  rbx = regs.rbx % 2 ^ 32;
  rsp = regs.rsp % 2 ^ 32;
  rbp = regs.rbp % 2 ^ 32;
  rsi = regs.rsi % 2 ^ 32;
  rdi = regs.rdi % 2 ^ 32;
  rflags = regs.rflags % 2 ^ 32;
  rip = if set_eip then regs.rip % 2 ^ 32 else ctxt.rip;
}

-- `got` is what the library gives for the context, with its answer; `set` what it answers to the new
-- one. The answer, and the context that is set, if one is.
unfoldable pub vcpu_set_registers : Bool → ℤ × UserRegs → ℤ → UserRegs → Bool → ℤ × Option UserRegs
unfolding overlay_user_regs
vcpu_set_registers is_x86_64 got set regs set_eip =
    if is_nonzero got.0
    then (got.0, none)
    else (set, some (overlay_user_regs is_x86_64 set_eip regs got.1))
