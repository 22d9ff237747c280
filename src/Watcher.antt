-- ===== src/Watcher.antt =====
-- src/domainwatcher.cpp, include/bdvmi/domainwatcher.h and domainhandler.h: the loop that tells an
-- application which guests have come and gone. The backend's waitForDomainsOrTimeout() is a
-- parameter, with a state of its own; the handler's calls are recorded. A text that is only compared
-- (a UUID, a name) stands for itself, whatever type it has.
pub mod Told
mod Ends
mod Checks
use libbdvmi.Common.{ℕ, Bool, true, false, ◌||◌, List, [], ◌∷◌, if◌then◌else◌}

-- DomainInfo, by its state; only a new one has a name.
pub data DomainInfo (U : Type 0) : Type 0 where
  is_new : U → U → DomainInfo U
  is_finished : U → DomainInfo U

-- The functions of the handler.
pub data HandlerCall (U : Type 0) : Type 0 where
  domain_found : U → U → HandlerCall U
  domain_finished : U → HandlerCall U
  cleanup : Bool → HandlerCall U

-- What the backend comes to: an exception, or whether there are domains, and which. It may call
-- stop(), and say that the introspector's own domain is being suspended.
pub record Waited (U W : Type 0) : Type 0 where
  pub threw : Bool
  pub ready : Bool
  pub domains : List (DomainInfo U)
  pub stops : Bool
  pub suspends : Bool
  pub backend : W

pub record Watcher (U W : Type 0) : Type 0 where
  pub stopped : Bool
  pub suspend_introspector_domain : Bool
  pub has_handler : Bool
  pub ms : ℕ
  pub backend : W
  pub calls : List (HandlerCall U)  -- newest first
  pub ended : Bool

abbrev pub call_of : {U : Type 0} → DomainInfo U → HandlerCall U
call_of (is_new u n) = domain_found u n
call_of (is_finished u) = domain_finished u

abbrev pub tell :
    {U : Type 0} → Bool → List (DomainInfo U) → List (HandlerCall U) → List (HandlerCall U)
tell has [] calls = calls
tell has (d ∷ ds) calls = tell has ds (if has then call_of d ∷ calls else calls)

module _ {U W : Type 0} where
  unfoldable pub stop : Watcher U W → Watcher U W
  stop w = record w { stopped = true }

  module _ {I : Type 0} (wait : I → ℕ → W → Waited U W) where
    -- One round of the loop; `sig_stop` is the signal's flag as the round begins.
    unfoldable pub round : Bool → I → Watcher U W → Watcher U W
    round sig_stop i w =
        let r = wait i w.ms w.backend in
        let w' : Watcher U W = record w {
          stopped = w.stopped || r.stops;
          suspend_introspector_domain = w.suspend_introspector_domain || r.suspends;
          backend = r.backend;
          ms = if r.threw then 2000 else 100;
        } in
        if sig_stop || w.stopped
        then record w {
          calls =
              if w.has_handler then cleanup w.suspend_introspector_domain ∷ w.calls else w.calls;
          ended = true;
        }
        else if r.threw
        then w'
        else if r.ready
        then record w' { calls = tell w.has_handler r.domains w.calls }
        else w'

    -- The loop, up to its end or as long as rounds are given.
    unfoldable pub wait_for_domains : List (Bool × I) → Watcher U W → Watcher U W
    unfolding round
    wait_for_domains [] w = w
    wait_for_domains ((sig_stop, i) ∷ rest) w =
        let w' = round sig_stop i w in
        let next = wait_for_domains rest w' in if w'.ended then w' else next
