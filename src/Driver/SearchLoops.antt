-- ===== src/Driver/SearchLoops.antt =====
-- The two loops of Driver::maxGPFN (src/driver.cpp): where each stands, and where it ends.
use libbdvmi.Common.{
  ℕ, zero, suc, ◌+◌, ◌-◌, ◌*◌, ◌^◌, ◌≤◌, ◌<◌, ◌≡◌, refl, ◌⊎◌, inl, inr, Bool, true, false, Option,
  none, some, arith, ltb, ◌==◌, Bool-cases,
}
use libbdvmi.Driver.{Search, probe, search_up, search_down, first_probe, previous_gpa}

-- Frame j can be mapped; addresses are 64 bits wide, so a frame number is below 2 ^ 52.
abbrev pub IsMapped : (ℕ → Bool) → ℕ → Type 0
IsMapped maps j = maps (j * 4096) ≡ true

abbrev pub IsHole : (ℕ → Bool) → ℕ → Type 0
IsHole maps j = maps (j * 4096) ≡ false

-- No frame from `top` on can be mapped, and the search may look 256 frames further.
pub record Bounded (maps : ℕ → Bool) (top : ℕ) : Type 0 where
  pub far : (j : ℕ) → top ≤ j → IsHole maps j
  pub room : top + 256 < 2 ^ 52

-- The loop stands at frame k; the last good frame is l, and between them are holes.
pub record Going (maps : ℕ → Bool) (top gpfn : ℕ) (s : Search) (k l : ℕ) : Type 0 where
  pub here : s.test_gpa ≡ k * 4096
  pub last : s.last_ok_gpa ≡ l * 4096
  pub gap : k ≡ l + s.invalid_count + 1
  pub holes : (j : ℕ) → l < j → j < k → IsHole maps j
  pub good : s.at_least_one_valid ≡ true → IsMapped maps l
  pub start : s.at_least_one_valid ≡ false → l ≡ gpfn
  pub low : k ≤ top + s.invalid_count
  pub few : s.invalid_count ≤ 256

module _ (maps : ℕ → Bool) (top gpfn : ℕ) (b : Bounded maps top) where
  -- A round that finds a page.
  probe_hit :
      (s : Search) (k l : ℕ)
      → Going maps top gpfn s k l
      → maps s.test_gpa ≡ true
      → Going maps top gpfn (probe maps s) (k + 1) k
  unfolding probe
  probe_hit s k l g e =
      let below : k < top = ground (arith, b.far k, g.here) in
      rw e (record {
        here = omega (arith, g.here, b.room);
        last = g.here;
        gap = omega arith;
        holes = λ j p q. absurd (omega arith);
        good = λ _. rw g.here at e;
        start = λ q. cc;
        low = omega arith;
        few = omega arith;
      })

  -- A round that finds none.
  probe_miss :
      (s : Search) (k l : ℕ)
      → Going maps top gpfn s k l
      → s.invalid_count < 256
      → maps s.test_gpa ≡ false
      → Going maps top gpfn (probe maps s) (k + 1) l
  unfolding probe
  probe_miss s k l g few e = rw e (record {
    here = omega (arith, g.here, g.low, b.room);
    last = g.last;
    gap = omega (arith, g.gap);
    holes = λ j p q. ground (arith, g.holes j p, g.here);
    good = g.good;
    start = g.start;
    low = omega (arith, g.low);
    few = omega arith;
  })

  probe_miss_count :
      (s : Search) → maps s.test_gpa ≡ false → (probe maps s).invalid_count ≡ s.invalid_count + 1
  unfolding probe
  probe_miss_count s e = rw e refl

  -- The first loop ends, with 256 holes in front of it.
  pub search_up_total :
      (fuel : ℕ) (s : Search) (k l : ℕ)
      → Going maps top gpfn s k l
      → (top - k) * 257 + (256 - s.invalid_count) < fuel
      → (s' : Search) × (k' : ℕ) × (l' : ℕ) × (search_up fuel maps s ≡ some s')
        × Going maps top gpfn s' k' l'
        × (s'.invalid_count ≡ 256)
  unfolding search_up
  search_up_total zero s k l g h = absurd (omega arith)
  search_up_total (suc fuel) s k l g h = elim (Bool-cases (ltb s.invalid_count 256)) [
    | inr stop ↦ (s, k, l, rw stop refl, g, ground (arith, g.few))
    | inl go ↦
        let few : s.invalid_count < 256 = ground arith in
        elim (Bool-cases (maps s.test_gpa)) [
          | inl hit ↦
              let below : k < top = ground (arith, b.far k, g.here) in
              let fuel_left : (top - (k + 1)) * 257 + (256 - (probe maps s).invalid_count) < fuel =
                omega (arith, below, g.few) in
              rw go
                (search_up_total fuel (probe maps s) (k + 1) k (probe_hit s k l g hit) fuel_left)
          | inr miss ↦ rw go (
              search_up_total fuel (probe maps s) (k + 1) l (probe_miss s k l g few miss)
                (omega (arith, probe_miss_count s miss, few)))
        ]
  ]

  pub first_probe-Going : gpfn < top → Going maps top gpfn (first_probe gpfn) (gpfn + 1) gpfn
  unfolding first_probe
  first_probe-Going below = record {
    here = omega (arith, b.room);
    last = omega (arith, b.room);
    gap = omega arith;
    holes = λ j p q. absurd (omega arith);
    good = λ q. cc;
    start = λ _. refl;
    low = omega arith;
    few = omega arith;
  }

-- What the second loop finds, down from frame k: the first frame that can be mapped.
abbrev pub Found : (ℕ → Bool) → ℕ → Option ℕ → Type 0
Found maps k none = (j : ℕ) → 0 < j → j ≤ k → IsHole maps j
Found maps k (some gpa) =
    (l : ℕ) × (gpa ≡ l * 4096)
    × (l ≤ k)
    × IsMapped maps l
    × ((j : ℕ) → l < j → j ≤ k → IsHole maps j)

previous_frame : (k : ℕ) → suc k < 2 ^ 52 → previous_gpa (suc k * 4096) ≡ k * 4096
previous_frame k h = omega arith

-- One frame lower.
Found-suc :
    (maps : ℕ → Bool) (k : ℕ) (r : Option ℕ)
    → IsHole maps (suc k)
    → Found maps k r
    → Found maps (suc k) r
Found-suc maps k none hole f = λ j p q. elim (Bool-cases (j == suc k)) [
  | inl e ↦ let e' : j ≡ suc k = ground arith in rw e' hole
  | inr e ↦ f j p (ground arith)
]
Found-suc maps k (some gpa) hole (l, e, p, m, f) = (
  l,
  e,
  omega arith,
  m,
  λ j a c. elim (Bool-cases (j == suc k)) [
    | inl e' ↦ let q : j ≡ suc k = ground arith in rw q hole
    | inr e' ↦ f j a (ground arith)
  ],
)

-- The second loop ends, if it does not start at an unmapped frame 0.
pub search_down_total :
    (maps : ℕ → Bool) (fuel k : ℕ)
    → k < fuel
    → k < 2 ^ 52
    → (0 < k) ⊎ IsMapped maps 0
    → (r : Option ℕ) × (search_down fuel maps (k * 4096) ≡ some r) × Found maps k r
unfolding search_down
search_down_total maps zero k h small ok = absurd (omega arith)
search_down_total maps (suc fuel) zero h small (inl p) = absurd (omega arith)
search_down_total maps (suc fuel) zero h small (inr m) =
    (some (0 * 4096), rw m refl, (0, refl, omega arith, m, λ j p q. absurd (omega arith)))
search_down_total maps (suc fuel) (suc zero) h small ok =
    elim (Bool-cases (maps (suc zero * 4096))) [
      | inl hit ↦
          (some (1 * 4096), rw hit refl, (1, refl, omega arith, hit, λ j p q. absurd (omega arith)))
      | inr miss ↦ (none, rw miss refl, λ j p q. let e : j ≡ 1 = omega arith in rw e miss)
    ]
search_down_total maps (suc fuel) (suc (suc k)) h small ok =
    elim (Bool-cases (maps (suc (suc k) * 4096))) [
      | inl hit ↦ (
        some (suc (suc k) * 4096),
        rw hit refl,
        (suc (suc k), refl, omega arith, hit, λ j p q. absurd (omega arith)),
      )
      | inr miss ↦
          let (r, e, f) =
            search_down_total maps fuel (suc k) (omega arith) (omega arith) (inl (omega arith)) in
          (
            r,
            rw miss (rw (previous_frame (suc k) small) (ground (arith, e))),
            Found-suc maps (suc k) r miss f,
          )
    ]
