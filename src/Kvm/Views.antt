-- ===== src/Kvm/Views.antt =====
-- The EPT views of src/kvmdriver.cpp: the views that are handed out, what shows them to the virtual
-- processors, and the first switch of each processor from view 0 to the untrusted view.
pub mod Handout
pub mod Setup
mod Checks
use libbdvmi.Common.{
  ℕ, zero, suc, ◌+◌, ◌-◌, ◌%◌, ◌^◌, Bool, true, false, ◌&&◌, ◌||◌, not, Option, none, some, List,
  [], ◌∷◌, ltb, leb, ◌==◌, if◌then◌else◌, contains, add_id, remove_id,
}
use libbdvmi.Kvm.Kvmi.{Kvmi}

-- `visible` is the set of the views whose flag in guestVisibleEPTviews_ is on.
pub record Views : Type 0 where
  pub eptp_supported : Bool
  pub ve_supported : Bool
  pub untrusted_view : ℕ
  pub visible : List ℕ
  pub pending_vcpus : List ℕ
  pub pending_switch_count : ℕ

-- KVMI_MAX_EPT_VIEWS.
abbrev pub max_ept_views : ℕ
max_ept_views = 10

-- The loop of getNextAvailableView() from `view`, with `left` views to go.
unfoldable pub first_free : ℕ → ℕ → List ℕ → Option ℕ
first_free zero view used = none
first_free (suc left) view used =
    let rest = first_free left (view + 1) used in if contains view used then rest else some view

unfoldable pub get_next_available_view : Views → Option ℕ × Views
unfolding first_free
get_next_available_view vs = elim (first_free 9 1 vs.visible) [
  | none ↦ (none, vs)
  | some view ↦ (some view, record vs { visible = add_id view vs.visible })
]

-- The constructor: `eptp` and `ve` are what kvmi_eptp_support and kvmi_ve_support say. None for the
-- exception that no view is free.
unfoldable pub create : Bool → Bool → Bool → Option Views
unfolding get_next_available_view
create use_ve eptp ve =
    let vs : Views = record {
      eptp_supported = use_ve && eptp;
      ve_supported = use_ve && (eptp && ve);
      untrusted_view = 0;
      visible = [];
      pending_vcpus = [];
      pending_switch_count = 0;
    } in
    let r = get_next_available_view vs in
    if vs.ve_supported
    then elim r.0 [ none ↦ none | some view ↦ some (record (r.1) { untrusted_view = view }) ]
    else some vs

-- The loop of enablePendingVcpusCache() from `vcpu`.
unfoldable pub add_range : ℕ → ℕ → List ℕ → List ℕ
add_range zero vcpu s = s
add_range (suc left) vcpu s = add_range left (vcpu + 1) (add_id vcpu s)

unfoldable pub enable_pending_vcpus_cache : ℕ → Views → Views
unfolding add_range
enable_pending_vcpus_cache vcpu_count vs = record vs {
  pending_switch_count = vcpu_count % 2 ^ 16;
  pending_vcpus = add_range vcpu_count 0 vs.pending_vcpus;
}

unfoldable pub disable_pending_vcpus_cache : ℕ → Views → Views
disable_pending_vcpus_cache vcpu vs = record vs { pending_vcpus = remove_id vcpu vs.pending_vcpus }

unfoldable pub is_pending : ℕ → Views → Bool
is_pending vcpu vs = if vs.pending_switch_count == 0 then false else contains vcpu vs.pending_vcpus

-- eptpIndex(): `cached` is the view of the register cache, if it is valid for the processor, and
-- `asked` what kvmi_get_ept_view leaves in `view`, 0 if it fails.
unfoldable pub eptp_index : Option ℕ → ℕ → ℕ → Views → ℕ
unfolding is_pending
eptp_index cached asked vcpu vs =
    if vs.eptp_supported
    then if is_pending vcpu vs
      then vs.untrusted_view
      else elim cached [ some view ↦ view | none ↦ asked ]
    else 0

module _ {S : Type 0} (kvmi : Kvmi S) where
  -- The loops over the processors, from `vcpu`, up to the first call that fails.
  unfoldable pub show_to_all : ℕ → ℕ → ℕ → Bool → S → Bool × S
  show_to_all zero vcpu view on s = (true, s)
  show_to_all (suc left) vcpu view on s =
      let r = kvmi.control_ept_view vcpu view on s in
      let rest = show_to_all left (vcpu + 1) view on r.1 in if r.0 then rest else r

  unfoldable pub switch_all : ℕ → ℕ → ℕ → S → Bool × S
  switch_all zero vcpu view s = (true, s)
  switch_all (suc left) vcpu view s =
      let r = kvmi.switch_ept_view vcpu view s in
      let rest = switch_all left (vcpu + 1) view r.1 in if r.0 then rest else r

  -- The index is written as soon as a view is found; the first result is what is returned.
  unfoldable pub create_ept : ℕ → Views → S → Bool × Option ℕ × Views × S
  unfolding show_to_all
  create_ept vcpu_count vs s =
      let next = get_next_available_view vs in
      elim next.0 [
        | none ↦ (false, none, vs, s)
        | some view ↦ let r = show_to_all vcpu_count 0 view true s in (r.0, some view, next.1, r.1)
      ]

  unfoldable pub destroy_ept : ℕ → ℕ → Views → S → Bool × Views × S
  unfolding show_to_all
  destroy_ept vcpu_count index vs s =
      let r = show_to_all vcpu_count 0 index false s in
      if (index == 0) || (leb max_ept_views index || not (contains index vs.visible))
      then (false, vs, s)
      else if r.0
      then (true, record vs { visible = remove_id index vs.visible }, r.1)
      else (false, vs, r.1)

  unfoldable pub switch_ept : ℕ → ℕ → S → Bool × S
  unfolding switch_all
  switch_ept vcpu_count index s = switch_all vcpu_count 0 index s

  -- `cached_view` is `regsCache_.view_`; the result says whether to go on, and the new cached view.
  unfoldable pub initial_view_setup : ℕ → ℕ → Views → S → Bool × ℕ × Views × S
  unfolding disable_pending_vcpus_cache
  initial_view_setup vcpu cached_view vs s =
      let shown = kvmi.control_ept_view vcpu vs.untrusted_view true s in
      let switched = kvmi.switch_ept_view vcpu vs.untrusted_view shown.1 in
      if (vs.pending_switch_count == 0) || not (cached_view == 0)
      then (true, cached_view, vs, s)
      else if shown.0
      then if switched.0
        then (
          true,
          vs.untrusted_view,
          record (disable_pending_vcpus_cache vcpu vs) {
            pending_switch_count = vs.pending_switch_count - 1;
          },
          switched.1,
        )
        else (false, cached_view, vs, switched.1)
      else (false, cached_view, vs, shown.1)
