-- ===== src/Watcher/Told.antt =====
-- What a handler has been told of a guest (src/domainwatcher.cpp).
use libbdvmi.Common.{
  ℕ, ◌≡◌, refl, Bool, true, false, List, [], ◌∷◌, ◌++◌, ◌==◌, if◌then◌else◌, arith,
}
use libbdvmi.Watcher.{
  DomainInfo, is_new, is_finished, HandlerCall, domain_found, domain_finished, cleanup, tell,
  Watcher, Waited, round,
}

-- Whether the last word on the guest was that it was found.
abbrev pub running : ℕ → List (HandlerCall ℕ) → Bool
running u [] = false
running u (domain_found v n ∷ cs) = if v == u then true else running u cs
running u (domain_finished v ∷ cs) = if v == u then false else running u cs
running u (cleanup s ∷ cs) = running u cs

-- The guest was found and finished in turn, first found.
abbrev pub Alternates : ℕ → List (HandlerCall ℕ) → Type 0
Alternates u [] = Unit
Alternates u (domain_found v n ∷ cs) = (v ≡ u → running u cs ≡ false) × Alternates u cs
Alternates u (domain_finished v ∷ cs) = (v ≡ u → running u cs ≡ true) × Alternates u cs
Alternates u (cleanup s ∷ cs) = Alternates u cs

-- What the handler has heard of one guest.
abbrev pub heard : ℕ → List (HandlerCall ℕ) → List (HandlerCall ℕ)
heard u [] = []
heard u (domain_found v n ∷ cs) = if v == u then domain_found v n ∷ heard u cs else heard u cs
heard u (domain_finished v ∷ cs) = if v == u then domain_finished v ∷ heard u cs else heard u cs
heard u (cleanup s ∷ cs) = heard u cs

pub heard-tell :
    (u : ℕ) (ds : List (DomainInfo ℕ)) (cs cs' : List (HandlerCall ℕ))
    → heard u cs ≡ heard u cs'
    → heard u (tell true ds cs) ≡ heard u (tell true ds cs')
heard-tell u [] cs cs' e = e
heard-tell u (is_new v n ∷ ds) cs cs' e =
    heard-tell u ds (domain_found v n ∷ cs) (domain_found v n ∷ cs') (ground arith)
heard-tell u (is_finished v ∷ ds) cs cs' e =
    heard-tell u ds (domain_finished v ∷ cs) (domain_finished v ∷ cs') (ground arith)

abbrev pub Follows : ℕ → Bool → List (HandlerCall ℕ) → Type 0
Follows u b cs = (running u cs ≡ b) × Alternates u cs

pub tell-append :
    (ds es : List (DomainInfo ℕ)) (cs : List (HandlerCall ℕ))
    → tell true (ds ++ es) cs ≡ tell true es (tell true ds cs)
tell-append [] es cs = refl
tell-append (is_new u n ∷ ds) es cs = tell-append ds es (domain_found u n ∷ cs)
tell-append (is_finished u ∷ ds) es cs = tell-append ds es (domain_finished u ∷ cs)

-- A round that is not the last one and in which nothing is thrown.
pub round_lem :
    {U W I : Type 0} (wait : I → ℕ → W → Waited U W) (i : I) (w : Watcher U W)
    → w.stopped ≡ false
    → w.has_handler ≡ true
    → let r = wait i w.ms w.backend in
      r.threw ≡ false
      → let w' = round wait false i w in
        (w'.calls ≡ (if r.ready then tell true r.domains w.calls else w.calls))
        × (w'.backend ≡ r.backend)
        × (w'.stopped ≡ r.stops)
        × (w'.has_handler ≡ true)
unfolding round
round_lem wait i w on has t = ground arith
