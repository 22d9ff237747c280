-- ===== src/Kvm/Watcher/Heard.antt =====
-- What the handler hears of one guest in a round (src/kvmdomainwatcher.cpp).
use libbdvmi.Common.{
  ℕ, suc, ◌≡◌, ◌∙◌, refl, true, false, none, some, List, [], ◌∷◌, arith, ◌==◌, Map, find,
  OrderedFrom, find_below, Bool-cases, inl, inr,
}
use libbdvmi.Watcher.{HandlerCall, tell}
use libbdvmi.Watcher.Told.{heard, heard-tell, tell-append}
use libbdvmi.Kvm.Watcher.{KvmDomain, Poll, look, look_all}

heard-look_other :
    (own k u n : ℕ) (p : Poll) (d : KvmDomain) (cs : List (HandlerCall ℕ))
    → (k == u) ≡ false
    → heard u (tell true (look own k p n d).0 cs) ≡ heard u cs
unfolding look
heard-look_other own k u n p d cs h = ground arith

module _ (own u : ℕ) (polls : ℕ → Poll) (names : ℕ → ℕ) where
  heard-look_all_absent :
      (m : Map KvmDomain) (cs : List (HandlerCall ℕ))
      → find u m ≡ none
      → heard u (tell true (look_all own polls names m).0 cs) ≡ heard u cs
  unfolding look_all find
  heard-look_all_absent [] cs e = refl
  heard-look_all_absent ((k, d) ∷ m) cs e =
      let cs' : List (HandlerCall ℕ) = tell true (look own k (polls k) (names k) d).0 cs in
      ground (
        arith,
        heard-look_other own k u (names k) (polls k) d cs,
        heard-look_all_absent m cs',
        tell-append (look own k (polls k) (names k) d).0 (look_all own polls names m).0 cs,
      )

  -- It is what its own entry says, once.
  pub heard-look_all :
      (b : ℕ) (m : Map KvmDomain) (d : KvmDomain) (cs : List (HandlerCall ℕ))
      → OrderedFrom b m
      → (look_all own polls names m).2 ≡ false
      → find u m ≡ some d
      → heard u (tell true (look_all own polls names m).0 cs)
        ≡ heard u (tell true (look own u (polls u) (names u) d).0 cs)
  unfolding look_all find
  heard-look_all b [] d cs o e h = cc
  heard-look_all b ((k, x) ∷ m) d cs o e h =
      let a = look own k (polls k) (names k) x in
      let rest = look_all own polls names m in
      let quiet : a.2 ≡ false = ground arith in
      elim (Bool-cases (k == u)) [
        | inl same ↦
            let at : k ≡ u = ground arith in
            let y : some x ≡ some d = rw same at h in
            let gone : find u m ≡ none = find_below (suc k) u m o.1 (ground arith) in
            let only = heard-look_all_absent m (tell true a.0 cs) gone in
            let mine : heard u (tell true a.0 cs)
                ≡ heard u (tell true (look own u (polls u) (names u) d).0 cs) =
              cc in
            rw (quiet, tell-append a.0 rest.0 cs) (only ∙ mine)
        | inr other ↦
            let ih =
              heard-look_all (suc k) m d (tell true a.0 cs) o.1 (ground arith) (rw other at h) in
            let others = heard-look_other own k u (names k) (polls k) x cs other in
            rw (quiet, tell-append a.0 rest.0 cs)
              (ih ∙ heard-tell u (look own u (polls u) (names u) d).0 (tell true a.0 cs) cs others)
      ]
