-- ===== src/Kvm/Watcher/Alternate.antt =====
-- A guest is found and finished in turn (src/kvmdomainwatcher.cpp, src/domainwatcher.cpp).
use libbdvmi.Common.{
  ℕ, suc, ◌≡◌, Bool, true, false, ◌&&◌, not, Option, none, some, List, [], ◌∷◌, arith, ◌==◌, Map,
  find, OrderedFrom, find_below, Bool-cases, inl, inr,
}
use libbdvmi.Watcher.{HandlerCall, tell}
use libbdvmi.Watcher.Told.{Follows, tell-append}
use libbdvmi.Kvm.Watcher.{DomainState, new, KvmDomain, Poll, close, park, look, look_all}

abbrev pub is_new_state : DomainState → Bool
is_new_state new = true
is_new_state _ = false

-- Whether the application knows of the guest.
abbrev pub told : ℕ → ℕ → Option KvmDomain → Bool
told own u none = false
told own u (some d) = not (u == own) && not (is_new_state d.state)

-- A domain with no connection is as new.
abbrev pub Sound : KvmDomain → Type 0
Sound d = d.ctx ≡ none → d.state ≡ new

pub look_other :
    (own k u n : ℕ) (b : Bool) (p : Poll) (d : KvmDomain) (cs : List (HandlerCall ℕ))
    → (k == u) ≡ false
    → Follows u b cs
    → Follows u b (tell true (look own k p n d).0 cs)
unfolding look
look_other own k u n b p d cs h f = ground arith

look_same :
    (own k u n : ℕ) (p : Poll) (d : KvmDomain) (cs : List (HandlerCall ℕ))
    → (k == u) ≡ true
    → Sound d
    → Follows u (told own u (some d)) cs
    → (look own k p n d).2 ≡ false
    → let r = look own k p n d in Follows u (told own u (some r.1)) (tell true r.0 cs) × Sound r.1
unfolding look park close
look_same own k u n p d cs h s f e = ground arith

-- What is known of a guest agrees with what was told of it.
abbrev pub Entry : ℕ → ℕ → Option KvmDomain → List (HandlerCall ℕ) → Type 0
Entry own u none cs = Follows u false cs
Entry own u (some d) cs = Follows u (told own u (some d)) cs × Sound d

pub look-Entry_other :
    (own k u n : ℕ) (p : Poll) (d : KvmDomain) (o : Option KvmDomain) (cs : List (HandlerCall ℕ))
    → (k == u) ≡ false
    → Entry own u o cs
    → Entry own u o (tell true (look own k p n d).0 cs)
look-Entry_other own k u n p d none cs h f = look_other own k u n false p d cs h f
look-Entry_other own k u n p d (some e) cs h f =
    (look_other own k u n (told own u (some e)) p d cs h f.0, f.1)

module _ (own : ℕ) (polls : ℕ → Poll) (names : ℕ → ℕ) where
  pub look_all-OrderedFrom :
      (b : ℕ) (m : Map KvmDomain) → OrderedFrom b m → OrderedFrom b (look_all own polls names m).1
  unfolding look_all
  look_all-OrderedFrom b [] o = tt
  look_all-OrderedFrom b ((k, d) ∷ m) o = ground (arith, look_all-OrderedFrom (suc k) m o.1)

  -- A guest that is not known is not spoken of.
  look_all_absent :
      (u : ℕ) (b : Bool) (m : Map KvmDomain) (cs : List (HandlerCall ℕ))
      → find u m ≡ none
      → Follows u b cs
      → Follows u b (tell true (look_all own polls names m).0 cs)
  unfolding look_all find
  look_all_absent u b [] cs e f = f
  look_all_absent u b ((k, d) ∷ m) cs e f =
      let cs' : List (HandlerCall ℕ) = tell true (look own k (polls k) (names k) d).0 cs in
      ground (
        arith,
        look_other own k u (names k) b (polls k) d cs,
        look_all_absent u b m cs',
        tell-append (look own k (polls k) (names k) d).0 (look_all own polls names m).0 cs,
      )

  pub look_all-Entry :
      (u b : ℕ) (m : Map KvmDomain) (cs : List (HandlerCall ℕ))
      → OrderedFrom b m
      → (look_all own polls names m).2 ≡ false
      → Entry own u (find u m) cs
      → let r = look_all own polls names m in Entry own u (find u r.1) (tell true r.0 cs)
  unfolding look_all find
  look_all-Entry u b [] cs o e f = f
  look_all-Entry u b ((k, d) ∷ m) cs o e f =
      let a = look own k (polls k) (names k) d in
      let rest = look_all own polls names m in
      let quiet : a.2 ≡ false = ground arith in
      elim (Bool-cases (k == u)) [
        | inl same ↦
            let f' : Entry own u (some d) cs = rw same at f in
            let g = look_same own k u (names k) (polls k) d cs same f'.1 f'.0 quiet in
            let gone : find u m ≡ none = find_below (suc k) u m o.1 (ground arith) in
            rw (quiet, same, tell-append a.0 rest.0 cs)
              (look_all_absent u (told own u (some a.1)) m (tell true a.0 cs) gone g.0, g.1)
        | inr other ↦
            let f' : Entry own u (find u m) cs = rw other at f in
            let g = look-Entry_other own k u (names k) (polls k) d (find u m) cs other f' in
            rw (quiet, other, tell-append a.0 rest.0 cs)
              (look_all-Entry u (suc k) m (tell true a.0 cs) o.1 (ground arith) g)
      ]
