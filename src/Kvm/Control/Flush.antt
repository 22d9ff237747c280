-- ===== src/Kvm/Control/Flush.antt =====
-- After a flush the hypervisor monitors what is wanted (src/kvmdriver.cpp).
use libbdvmi.Common.{
  ℕ, ◌≡◌, refl, ◌∙◌, Bool, true, false, ◌&&◌, ◌||◌, List, [], ◌∷◌, arith, ◌==◌, if◌then◌else◌,
  contains, add_id, contains-add_id, Distinct, add_id-Distinct, Bool-cases, inl, inr,
}
use libbdvmi.Kvm.Control.{add_missing, drop_stale, flush_set}

module _ {S : Type 0} (register : ℕ → Bool → S → Bool × S) (monitored : S → ℕ → Bool)
    (honest : (k j : ℕ) (on : Bool) (s : S)
      → monitored (register k on s).1 j
        ≡ (if (k == j) && (register k on s).0 then on else monitored s j)) where
  abbrev pub Agrees : List ℕ → S → Type 0
  Agrees have s = (j : ℕ) → monitored s j ≡ contains j have

  -- A registration that succeeds is an addition to the set.
  added-Agrees :
      (k : ℕ) (have : List ℕ) (s : S)
      → Agrees have s
      → (register k true s).0 ≡ true
      → Agrees (add_id k have) (register k true s).1
  added-Agrees k have s a g j = ground (arith, a j, honest k j true s, contains-add_id k j have)

  refused-Agrees :
      (k : ℕ) (on : Bool) (have : List ℕ) (s : S)
      → Agrees have s
      → (register k on s).0 ≡ false
      → Agrees have (register k on s).1
  refused-Agrees k on have s a g j = ground (arith, a j, honest k j on s)

  add_missing-Agrees :
      (wanted have : List ℕ) (s : S)
      → Agrees have s
      → let r = add_missing register wanted have s in Agrees r.1 r.2
  unfolding add_missing
  add_missing-Agrees [] have s a = a
  add_missing-Agrees (k ∷ wanted) have s a = elim (Bool-cases (contains k have)) [
    | inl e ↦ rw (e, add_missing) (add_missing-Agrees wanted have s a)
    | inr e ↦ elim (Bool-cases (register k true s).0) [
      | inl g ↦
          rw (e, add_missing, g)
            (add_missing-Agrees wanted (add_id k have) (register k true s).1
              (added-Agrees k have s a g))
      | inr g ↦ rw (e, add_missing, g) (refused-Agrees k true have s a g)
    ]
  ]

  add_missing-Distinct :
      (wanted have : List ℕ) (s : S)
      → Distinct have
      → Distinct (add_missing register wanted have s).1
  unfolding add_missing
  add_missing-Distinct [] have s d = d
  add_missing-Distinct (k ∷ wanted) have s d = ground (
    arith,
    add_missing-Distinct wanted have s d,
    add_missing-Distinct wanted (add_id k have) (register k true s).1 (add_id-Distinct k have d),
  )

  add_missing-contains :
      (wanted have : List ℕ) (s : S) (j : ℕ)
      → (add_missing register wanted have s).0 ≡ true
      → contains j (add_missing register wanted have s).1 ≡ (contains j wanted || contains j have)
  unfolding add_missing contains
  add_missing-contains [] have s j e = refl
  add_missing-contains (k ∷ wanted) have s j e = ground (
    arith,
    add_missing-contains wanted have s j,
    add_missing-contains wanted (add_id k have) (register k true s).1 j,
    contains-add_id k j have,
  )

  drop_stale-subset :
      (wanted have : List ℕ) (s : S) (j : ℕ)
      → contains j have ≡ false
      → contains j (drop_stale register wanted have s).1 ≡ false
  unfolding drop_stale contains
  drop_stale-subset wanted [] s j e = refl
  drop_stale-subset wanted (k ∷ have) s j e = ground (
    arith,
    drop_stale-subset wanted have s j,
    drop_stale-subset wanted have (register k false s).1 j,
  )

  drop_stale-Distinct :
      (wanted have : List ℕ) (s : S)
      → Distinct have
      → Distinct (drop_stale register wanted have s).1
  unfolding drop_stale
  drop_stale-Distinct wanted [] s d = d
  drop_stale-Distinct wanted (k ∷ have) s d = ground (
    arith,
    drop_stale-Distinct wanted have s d.1,
    drop_stale-Distinct wanted have (register k false s).1 d.1,
    drop_stale-subset wanted have s k d.0,
  )

  drop_stale-contains :
      (wanted have : List ℕ) (s : S) (j : ℕ)
      → (drop_stale register wanted have s).0 ≡ true
      → contains j (drop_stale register wanted have s).1 ≡ (contains j wanted && contains j have)
  unfolding drop_stale contains
  drop_stale-contains wanted [] s j e = ground arith
  drop_stale-contains wanted (k ∷ have) s j e = ground (
    arith,
    drop_stale-contains wanted have s j,
    drop_stale-contains wanted have (register k false s).1 j,
  )

  -- Where all of a set is monitored, what was dropped of it is monitored no more, and the rest of it
  -- and all that is not of it is as before.
  drop_stale_monitored :
      (wanted have : List ℕ) (s : S)
      → Distinct have
      → ((j : ℕ) → contains j have ≡ true → monitored s j ≡ true)
      → let r = drop_stale register wanted have s in
        (j : ℕ) → monitored r.2 j ≡ (if contains j have then contains j r.1 else monitored s j)
  unfolding drop_stale contains
  drop_stale_monitored wanted [] s d on j = refl
  drop_stale_monitored wanted (k ∷ have) s d on j =
      let s' = (register k false s).1 in
      let on' : (i : ℕ) → contains i have ≡ true → monitored s' i ≡ true =
        λ i e. ground (arith, honest k i false s, on i, d.0) in
      ground (
        arith,
        on j,
        d.0,
        honest k j false s,
        drop_stale_monitored wanted have s d.1 (λ i e. ground (arith, on i)) j,
        drop_stale_monitored wanted have s' d.1 on' j,
        drop_stale-subset wanted have s j,
        drop_stale-subset wanted have s' j,
      )

  -- Whether the flush succeeds or stops at a refusal, the set is what is monitored.
  pub flush_set-Agrees :
      (wanted have : List ℕ) (s : S)
      → Distinct have
      → Agrees have s
      → let r = flush_set register wanted have s in Distinct r.1 × Agrees r.1 r.2
  unfolding flush_set
  flush_set-Agrees wanted have s d a =
      let m = add_missing register wanted have s in
      let dm = add_missing-Distinct wanted have s d in
      let am = add_missing-Agrees wanted have s a in
      let dd = drop_stale-Distinct wanted m.1 m.2 dm in
      (
        ground arith,
        λ j. ground (
          arith,
          am j,
          drop_stale_monitored wanted m.1 m.2 dm (λ i e. am i ∙ e) j,
          drop_stale-subset wanted m.1 m.2 j,
        ),
      )

  -- A flush that succeeds leaves exactly what is wanted.
  pub flush_set-contains :
      (wanted have : List ℕ) (s : S) (j : ℕ)
      → (flush_set register wanted have s).0 ≡ true
      → contains j (flush_set register wanted have s).1 ≡ contains j wanted
  unfolding flush_set
  flush_set-contains wanted have s j e =
      let m = add_missing register wanted have s in
      ground (arith, add_missing-contains wanted have s j, drop_stale-contains wanted m.1 m.2 j)

-- What no registration changes, a flush does not change.
module _ {S : Type 0} (register : ℕ → Bool → S → Bool × S) (look : S → Bool)
    (keeps : (k : ℕ) (on : Bool) (s : S) → look (register k on s).1 ≡ look s) where
  add_missing_kept :
      (wanted have : List ℕ) (s : S) → look (add_missing register wanted have s).2 ≡ look s
  unfolding add_missing
  add_missing_kept [] have s = refl
  add_missing_kept (k ∷ wanted) have s = ground (
    arith,
    keeps k true s,
    add_missing_kept wanted have s,
    add_missing_kept wanted (add_id k have) (register k true s).1,
  )

  drop_stale_kept :
      (wanted have : List ℕ) (s : S) → look (drop_stale register wanted have s).2 ≡ look s
  unfolding drop_stale
  drop_stale_kept wanted [] s = refl
  drop_stale_kept wanted (k ∷ have) s = ground (
    arith,
    keeps k false s,
    drop_stale_kept wanted have s,
    drop_stale_kept wanted have (register k false s).1,
  )

  pub flush_set_kept :
      (wanted have : List ℕ) (s : S) → look (flush_set register wanted have s).2 ≡ look s
  unfolding flush_set
  flush_set_kept wanted have s =
      let m = add_missing register wanted have s in
      ground (arith, add_missing_kept wanted have s, drop_stale_kept wanted m.1 m.2)
