-- ===== src/Kvm/Views/Handout.antt =====
-- Which views src/kvmdriver.cpp hands out, shows and takes back.
use libbdvmi.Common.{
  ℕ, zero, suc, ◌+◌, ◌≤◌, ◌<◌, ◌≡◌, ap, ◌≢◌, ◌⊎◌, inl, inr, Bool, true, false, ◌&&◌, ◌||◌, none,
  some, List, arith, ltb, leb, ◌==◌, if◌then◌else◌, contains, contains-add_id, contains-remove_id,
  Option-cases,
}
use libbdvmi.Kvm.Kvmi.{Control, Kvmi, Honest}
use libbdvmi.Kvm.Views.{
  Views, first_free, get_next_available_view, show_to_all, create_ept, destroy_ept,
}

first_free-some :
    (left view v : ℕ) (used : List ℕ)
    → first_free left view used ≡ some v
    → (view ≤ v) × (v < view + left) × (contains v used ≡ false)
unfolding first_free
first_free-some zero view v used e = cc
first_free-some (suc left) view v used e = ground (arith, first_free-some left (view + 1) v used)

-- What the search passes by is in use.
first_free_below :
    (left view v w : ℕ) (used : List ℕ)
    → first_free left view used ≡ some v
    → view ≤ w
    → w < v
    → contains w used ≡ true
unfolding first_free
first_free_below zero view v w used e a b = cc
first_free_below (suc left) view v w used e a b =
    ground (arith, first_free_below left (view + 1) v w used)

first_free-none :
    (left view w : ℕ) (used : List ℕ)
    → first_free left view used ≡ none
    → view ≤ w
    → w < view + left
    → contains w used ≡ true
unfolding first_free
first_free-none zero view w used e a b = absurd (omega arith)
first_free-none (suc left) view w used e a b =
    ground (arith, first_free-none left (view + 1) w used)

-- The view that is handed out is the least of 1 to 9 that is not in use, and is in use from then on,
-- with no other change; none is handed out, and nothing changes, only if all nine are in use.
pub get_next_available_view_lem :
    (vs : Views)
    → let r = get_next_available_view vs in
      ((v : ℕ) × (r.0 ≡ some v)
        × (0 < v)
        × (v < 10)
        × (contains v vs.visible ≡ false)
        × ((w : ℕ) → 0 < w → w < v → contains w vs.visible ≡ true)
        × ((w : ℕ) → contains w r.1.visible ≡ (v == w || contains w vs.visible)))
      ⊎ ((r ≡ (none, vs)) × ((w : ℕ) → 0 < w → w < 10 → contains w vs.visible ≡ true))
unfolding get_next_available_view
get_next_available_view_lem vs = elim (Option-cases (first_free 9 1 vs.visible)) [
  | inl e ↦ inr (rw (e, get_next_available_view), λ w a b. first_free-none 9 1 w vs.visible e a b)
  | inr (v, e) ↦
      let range = first_free-some 9 1 v vs.visible e in
      inl (
        v,
        rw (e, get_next_available_view),
        omega arith,
        omega arith,
        range.2,
        λ w a b. first_free_below 9 1 v w vs.visible e a b,
        λ w. ground (arith, e, contains-add_id v w vs.visible),
      )
]

module _ {S : Type 0} (kvmi : Kvmi S) (monitored : S → ℕ → Control → Bool)
    (visible : S → ℕ → ℕ → Bool) (current : S → ℕ → ℕ)
    (h : Honest kvmi monitored visible current) where
  -- The processors that the loop has gone through see the view as it says.
  show_to_all_visible :
      (left id i w j : ℕ) (on : Bool) (s : S)
      → let r = show_to_all kvmi left id i on s in
        r.0 ≡ true
        → visible r.1 w j
          ≡ (if leb id w && ltb w (id + left) && (i == j) then on else visible s w j)
  unfolding show_to_all
  show_to_all_visible zero id i w j on s e = ground arith
  show_to_all_visible (suc left) id i w j on s e = ground (
    arith,
    h.shows_one id w i j on s,
    show_to_all_visible left (id + 1) i w j on (kvmi.control_ept_view id i on s).1,
  )

  -- A creation that succeeds gives a view of 1 to 9 that was not in use, and it is then seen by each
  -- of the processors; a destruction of it that succeeds hides it from each of them again, and it
  -- is free.
  pub destroy-create_ept :
      (count : ℕ) (vs : Views) (s : S)
      → (create_ept kvmi count vs s).0 ≡ true
      → (v : ℕ) × (let (_, index, vs', s') = create_ept kvmi count vs s in
          (index ≡ some v)
          × (0 < v)
          × (v < 10)
          × (contains v vs.visible ≡ false)
          × (contains v vs'.visible ≡ true)
          × ((w : ℕ) → w < count → visible s' w v ≡ true)
          × (let d = destroy_ept kvmi count v vs' s' in
              d.0 ≡ true
              → (contains v d.1.visible ≡ false) × ((w : ℕ) → w < count → visible d.2 w v ≡ false)))
  unfolding create_ept destroy_ept
  destroy-create_ept count vs s e = elim (get_next_available_view_lem vs) [
    | inr (none_left, all) ↦ absurd (ground (arith, none_left))
    | inl (v, found, low, high, free, below, used) ↦
        let made = show_to_all kvmi count 0 v true s in
        let vs' = (get_next_available_view vs).1 in
        (
          v,
          (
            ground arith,
            low,
            high,
            free,
            ground (arith, used v),
            λ w small. ground (arith, show_to_all_visible count 0 v w v true s),
            λ gone. (
              ground (arith, contains-remove_id v v vs'.visible),
              λ w small. ground (arith, show_to_all_visible count 0 v w v false made.1),
            ),
          ),
        )
  ]

handed_out_free :
    (v : ℕ) (vs : Views) → (get_next_available_view vs).0 ≡ some v → contains v vs.visible ≡ false
handed_out_free v vs e = elim (get_next_available_view_lem vs) [
  | inr (none_left, all) ↦ absurd (ground (arith, none_left))
  | inl (u, found, low, high, free, below, used) ↦ ground arith
]

create_ept_found :
    {S : Type 0} (kvmi : Kvmi S) (count v : ℕ) (vs : Views) (s : S)
    → (get_next_available_view vs).0 ≡ some v
    → let shown = show_to_all kvmi count 0 v true s in
      create_ept kvmi count vs s ≡ (shown.0, some v, (get_next_available_view vs).1, shown.1)
unfolding create_ept
create_ept_found kvmi count v vs s e = rw (e, create_ept)

create_ept-none :
    {S : Type 0} (kvmi : Kvmi S) (count : ℕ) (vs : Views) (s : S)
    → (get_next_available_view vs).0 ≡ none
    → create_ept kvmi count vs s ≡ (false, none, vs, s)
unfolding create_ept
create_ept-none kvmi count vs s e = rw (e, create_ept)

-- A creation that fails though it found a view (a processor could not be shown it): the view was
-- free, it is in use from then on, and the next search does not hand it out.
pub create_ept-leaks :
    {S : Type 0} (kvmi : Kvmi S) (count v : ℕ) (vs : Views) (s : S)
    → (create_ept kvmi count vs s).0 ≡ false
    → (create_ept kvmi count vs s).1 ≡ some v
    → let vs' = (create_ept kvmi count vs s).2 in
      (contains v vs.visible ≡ false)
      × (contains v vs'.visible ≡ true)
      × ((get_next_available_view vs').0 ≢ some v)
create_ept-leaks kvmi count v vs s failed index = elim (get_next_available_view_lem vs) [
  | inr (none_left, all) ↦
      absurd (ground (arith, create_ept-none kvmi count vs s (ap (λ r. r.0) none_left)))
  | inl (u, found, low, high, free, below, used) ↦
      let made = create_ept_found kvmi count u vs s found in
      let same : u ≡ v = ground (arith, made) in
      let kept : contains v (create_ept kvmi count vs s).2.visible ≡ true =
        ground (arith, made, used v) in
      (
        ground arith,
        kept,
        λ again. ground (arith, handed_out_free v (create_ept kvmi count vs s).2 again),
      )
]
