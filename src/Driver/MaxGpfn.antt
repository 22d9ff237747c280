-- ===== src/Driver/MaxGpfn.antt =====
-- The search for the last guest page, Driver::maxGPFN of src/driver.cpp.
use libbdvmi.Common.{
  ℕ, ◌+◌, ◌*◌, ◌≤◌, ◌<◌, ◌≡◌, refl, ap, ◌≢◌, ◌∙◌, ◌⊎◌, inl, inr, Bool, true, Option, none, some,
  arith, ltb, Bool-cases, Option-cases,
}
use libbdvmi.Driver.{
  Driver, Search, search_up, first_probe, last_valid_gpa, keep_gpfn, find_max_gpfn, max_gpfn_of,
}
use libbdvmi.Driver.SearchLoops.{
  IsMapped, IsHole, Bounded, Going, Found, search_up_total, first_probe-Going, search_down_total,
}

-- The answer to the question: a frame that can be mapped with 256 holes above it, or none at all
-- up to 256 frames above the hint.
abbrev pub Answers : (ℕ → Bool) → ℕ → Option ℕ → Type 0
Answers maps gpfn none = (j : ℕ) → 0 < j → j ≤ gpfn + 256 → IsHole maps j
Answers maps gpfn (some r) = IsMapped maps r × ((j : ℕ) → r < j → j ≤ r + 256 → IsHole maps j)

module _ (maps : ℕ → Bool) (top gpfn : ℕ) (b : Bounded maps top) where
  -- Where the first loop has found a page.
  answer_up :
      (s : Search) (k l : ℕ)
      → Going maps top gpfn s k l
      → s.invalid_count ≡ 256
      → s.at_least_one_valid ≡ true
      → Answers maps gpfn (some l)
  answer_up s k l g full any = (g.good any, λ j p q. g.holes j p (omega (arith, g.gap)))

  -- Where it has not, and the second loop looks below.
  answer_down :
      (s : Search) (k : ℕ) (r : Option ℕ)
      → Going maps top gpfn s k gpfn
      → s.invalid_count ≡ 256
      → Found maps gpfn r
      → (r' : Option ℕ) × Answers maps gpfn r' × ((d : Driver) → (keep_gpfn r d).0 ≡ r')
  unfolding keep_gpfn
  answer_down s k none g full f = (
    none,
    λ j p q. elim (Bool-cases (ltb gpfn j)) [
      | inl above ↦ g.holes j (ground arith) (omega (arith, g.gap))
      | inr below ↦ f j p (ground arith)
    ],
    λ d. refl,
  )
  answer_down s k (some gpa) g full (l, e, low, m, f) = (
    some l,
    (
      m,
      λ j p q. elim (Bool-cases (ltb gpfn j)) [
        | inl above ↦ g.holes j (ground arith) (omega (arith, g.gap))
        | inr below ↦ f j p (ground arith)
      ],
    ),
    λ d. ap some (omega arith),
  )

  last_valid_gpa_total :
      (fuel : ℕ) (s : Search) (k l : ℕ)
      → Going maps top gpfn s k l
      → s.invalid_count ≡ 256
      → gpfn < top
      → (0 < gpfn) ⊎ IsMapped maps 0
      → gpfn < fuel
      → (r : Option ℕ) × (r' : Option ℕ) × (last_valid_gpa fuel maps s ≡ some r)
        × Answers maps gpfn r'
        × ((d : Driver) → (keep_gpfn r d).0 ≡ r')
  unfolding last_valid_gpa keep_gpfn
  last_valid_gpa_total fuel s k l g full below ok enough = elim (Bool-cases s.at_least_one_valid) [
    | inl any ↦ (
      some s.last_ok_gpa,
      some l,
      rw any refl,
      answer_up s k l g full any,
      λ d. ap some (omega (arith, g.last)),
    )
    | inr nothing ↦
        let same : l ≡ gpfn = g.start nothing in
        let (r, e, f) = search_down_total maps fuel gpfn enough (omega (arith, b.room)) ok in
        let (r', ans, kept) = answer_down s k r (rw same at g) full f in
        (r, r', rw nothing (rw (g.last ∙ ap (λ (x : ℕ). x * 4096) same) e), ans, kept)
  ]

  first_probe_count : (first_probe gpfn).invalid_count ≡ 0
  unfolding first_probe
  first_probe_count = refl

  max_gpfn_of_parts :
      (fuel : ℕ) (d : Driver) (s : Search) (r r' : Option ℕ)
      → d.max_gpfn ≡ 0
      → search_up fuel maps (first_probe gpfn) ≡ some s
      → last_valid_gpa fuel maps s ≡ some r
      → (keep_gpfn r d).0 ≡ r'
      → max_gpfn_of fuel maps (some gpfn) d ≡ some (r', (keep_gpfn r d).1)
  unfolding max_gpfn_of find_max_gpfn
  max_gpfn_of_parts fuel d s r r' fresh up last kept = ground arith

  -- With enough fuel the search ends, and what it answers is right: a frame that can be mapped and
  -- has 256 holes above it, or that no frame can be mapped up to 256 above the hypervisor's hint
  -- (frame 0 apart, which is not looked at). The hint is below `top`, from which on no frame can be
  -- mapped, and it is not 0 unless frame 0 can be mapped.
  pub max_gpfn_of_total :
      (fuel : ℕ) (d : Driver)
      → d.max_gpfn ≡ 0
      → gpfn < top
      → (0 < gpfn) ⊎ IsMapped maps 0
      → top * 257 + 256 < fuel
      → (r : Option ℕ) × (d' : Driver) × (max_gpfn_of fuel maps (some gpfn) d ≡ some (r, d'))
        × Answers maps gpfn r
  max_gpfn_of_total fuel d fresh below ok enough =
      let (s, k, l, up, g, full) =
        search_up_total maps top gpfn b fuel (first_probe gpfn) (gpfn + 1) gpfn
          (first_probe-Going maps top gpfn b below) (omega (arith, first_probe_count)) in
      let (r, r', last, ans, kept) =
        last_valid_gpa_total fuel s k l g full below ok (omega arith) in
      (r', (keep_gpfn r d).1, max_gpfn_of_parts fuel d s r r' fresh up last (kept d), ans)

keep_gpfn_kept :
    (r : Option ℕ) (d d' : Driver) (n : ℕ) → keep_gpfn r d ≡ (some n, d') → d'.max_gpfn ≡ n
unfolding keep_gpfn
keep_gpfn_kept none d d' n e = ground arith
keep_gpfn_kept (some gpa) d d' n e = ground arith

find_max_gpfn_kept :
    (fuel : ℕ) (maps : ℕ → Bool) (impl : Option ℕ) (d d' : Driver) (n : ℕ)
    → find_max_gpfn fuel maps impl d ≡ some (some n, d')
    → d'.max_gpfn ≡ n
unfolding find_max_gpfn
find_max_gpfn_kept fuel maps none d d' n e = ground arith
find_max_gpfn_kept fuel maps (some gpfn) d d' n e =
    elim (Option-cases (search_up fuel maps (first_probe gpfn))) [
      | inl up ↦ cc (rw (up, find_max_gpfn) at e)
      | inr (s, up) ↦ elim (Option-cases (last_valid_gpa fuel maps s)) [
        | inl last ↦ ground arith
        | inr (r, last) ↦ keep_gpfn_kept r d d' n (ground arith)
      ]
    ]

-- The first answer is kept: a later call repeats it, whatever the hypervisor then answers, and
-- changes nothing.
pub max_gpfn_of_again :
    (fuel fuel' : ℕ) (maps maps' : ℕ → Bool) (impl impl' : Option ℕ) (d d' : Driver) (n : ℕ)
    → max_gpfn_of fuel maps impl d ≡ some (some n, d')
    → n ≢ 0
    → max_gpfn_of fuel' maps' impl' d' ≡ some (some n, d')
unfolding max_gpfn_of
max_gpfn_of_again fuel fuel' maps maps' impl impl' d d' n e nz =
    ground (arith, find_max_gpfn_kept fuel maps impl d d' n)
