-- ===== src/Kvm/Views/Setup.antt =====
-- The first switch of the virtual processors to the untrusted view (src/kvmdriver.cpp).
use libbdvmi.Common.{
  ℕ, zero, suc, ◌+◌, ◌≤◌, ◌<◌, ◌≡◌, refl, Bool, true, false, ◌&&◌, ◌||◌, List, [], ◌∷◌, arith, ltb,
  leb, ◌==◌, if◌then◌else◌, contains, add_id, remove_id, contains-add_id, contains-remove_id,
  length, Distinct, add_id-Distinct, remove_id-Distinct, length-remove_id,
}
use libbdvmi.Kvm.Kvmi.{Control, Kvmi, Honest}
use libbdvmi.Kvm.Views.{
  Views, add_range, enable_pending_vcpus_cache, is_pending, initial_view_setup,
}

-- The count is that of the processors which are still to be switched.
pub record Counted (vs : Views) : Type 0 where
  pub distinct : Distinct vs.pending_vcpus
  pub counted : vs.pending_switch_count ≡ length vs.pending_vcpus

contains_range :
    (left id w : ℕ) (s : List ℕ)
    → contains w (add_range left id s) ≡ (leb id w && ltb w (id + left) || contains w s)
unfolding add_range
contains_range zero id w s = ground arith
contains_range (suc left) id w s =
    ground (arith, contains_range left (id + 1) w (add_id id s), contains-add_id id w s)

range-Distinct : (left id : ℕ) (s : List ℕ) → Distinct s → Distinct (add_range left id s)
unfolding add_range
range-Distinct zero id s d = d
range-Distinct (suc left) id s d =
    range-Distinct left (id + 1) (add_id id s) (add_id-Distinct id s d)

length-range :
    (left id : ℕ) (s : List ℕ)
    → ((w : ℕ) → id ≤ w → contains w s ≡ false)
    → length (add_range left id s) ≡ left + length s
unfolding add_range add_id
length-range zero id s fresh = omega arith
length-range (suc left) id s fresh =
    let fresh' : (w : ℕ) → id + 1 ≤ w → contains w (add_id id s) ≡ false =
      λ w a. ground (arith, fresh w, contains-add_id id w s) in
    ground (arith, fresh id, length-range left (id + 1) (add_id id s) fresh')

-- At the start exactly the processors of the machine wait for their switch, and are counted.
pub enable_pending_vcpus_cache-Counted :
    (count w : ℕ) (vs : Views)
    → count < 65536
    → vs.pending_vcpus ≡ []
    → let vs' = enable_pending_vcpus_cache count vs in
      Counted vs' × (is_pending w vs' ≡ ltb w count)
unfolding enable_pending_vcpus_cache is_pending contains
enable_pending_vcpus_cache-Counted count w vs small empty = rw empty (
  record {
    distinct = range-Distinct count 0 [] tt;
    counted = omega (arith, length-range count 0 [] (λ v a. refl));
  },
  ground (arith, contains_range count 0 w []),
)

length-contains : (w : ℕ) (s : List ℕ) → length s ≡ 0 → contains w s ≡ false
unfolding contains
length-contains w [] e = refl
length-contains w (k ∷ s) e = absurd (omega arith)

module _ {S : Type 0} (kvmi : Kvmi S) (monitored : S → ℕ → Control → Bool)
    (visible : S → ℕ → ℕ → Bool) (current : S → ℕ → ℕ)
    (h : Honest kvmi monitored visible current) where
  -- The switch of a waiting processor, met in view 0, that succeeds: the processor is in the untrusted
  -- view and sees it, it waits no more, the others wait as before, and the count stays right.
  pub initial_view_setup-Counted :
      (v w : ℕ) (vs : Views) (s : S)
      → Counted vs
      → contains v vs.pending_vcpus ≡ true
      → (initial_view_setup kvmi v 0 vs s).0 ≡ true
      → let (_, view, vs', s') = initial_view_setup kvmi v 0 vs s in
        Counted vs'
        × (view ≡ vs.untrusted_view)
        × (current s' w ≡ (if v == w then vs.untrusted_view else current s w))
        × (visible s' v vs.untrusted_view ≡ true)
        × (is_pending w vs' ≡ (if v == w then false else is_pending w vs))
  unfolding initial_view_setup is_pending
  initial_view_setup-Counted v w vs s c waits done =
      let shown = kvmi.control_ept_view v vs.untrusted_view true s in
      let left = remove_id v vs.pending_vcpus in
      let less = length-remove_id v vs.pending_vcpus c.distinct waits in
      (
        record {
          distinct = ground (arith, remove_id-Distinct v vs.pending_vcpus c.distinct);
          counted = ground (arith, less);
        },
        ground (arith, less),
        ground (
          arith,
          less,
          h.switches_one v w vs.untrusted_view shown.1,
          h.show_current v vs.untrusted_view w true s,
        ),
        ground (
          arith,
          less,
          h.switch_visible v vs.untrusted_view v vs.untrusted_view shown.1,
          h.shows_one v v vs.untrusted_view vs.untrusted_view true s,
        ),
        ground (arith, less, contains-remove_id v w vs.pending_vcpus, length-contains w left),
      )

-- A processor that is not among the waiting ones, met in view 0, takes its switch off the count
-- too. If it takes the last of the count, a processor w still waits but is not said to be
-- pending, and its own setup, in view 0, succeeds and changes nothing.
pub initial_view_setup-uncounted :
    {S : Type 0} (kvmi : Kvmi S) (v w : ℕ) (vs : Views) (s : S)
    → vs.pending_switch_count ≡ 1
    → contains v vs.pending_vcpus ≡ false
    → contains w vs.pending_vcpus ≡ true
    → (initial_view_setup kvmi v 0 vs s).0 ≡ true
    → let (_, _, vs', s') = initial_view_setup kvmi v 0 vs s in
      (contains w vs'.pending_vcpus ≡ true)
      × (is_pending w vs' ≡ false)
      × (initial_view_setup kvmi w 0 vs' s' ≡ (true, 0, vs', s'))
unfolding initial_view_setup is_pending
initial_view_setup-uncounted kvmi v w vs s one new waits done =
    ground (arith, contains-remove_id v w vs.pending_vcpus)
