-- ===== src/EventManager/Checks.antt =====
-- The event manager (src/eventmanager.cpp) over a backend that grants all but breakpoints.
use libbdvmi.Common.{◌≡◌, refl, Bool, true, false, ◌&&◌, List, [], ◌∷◌, if◌then◌else◌, contains}
use libbdvmi.EventManager.{
  Event, msr, cr, breakpoint, Request, enable_impl, disable_impl, Backend, create, run,
}
use libbdvmi.EventManager.Sync.{is_enabled, same_event, Honest, run-agrees}

abbrev grants : Event → Bool
grants breakpoint = false
grants _ = true

-- The state is the set of events that are monitored.
abbrev picky : Backend (Event → Bool)
picky (enable_impl e) s = (grants e, λ f. if same_event e f && grants e then true else s f)
picky (disable_impl e) s = (grants e, λ f. if same_event e f && grants e then false else s f)

picky-Honest : Honest picky (λ s. s)
picky-Honest = record { enables = λ e f s. refl; disables = λ e f s. refl }

abbrev session : List Request
session = enable_impl (cr 3) ∷ enable_impl breakpoint ∷ disable_impl (cr 3) ∷ []

abbrev nothing_on : Event → Bool
nothing_on e = false

create_off : (e : Event) → is_enabled e create ≡ false
unfolding create contains
create_off (msr k) = refl
create_off (cr k) = refl
create_off _ = refl

run-agrees_example :
    is_enabled (cr 3) (run picky session create nothing_on).0
    ≡ (run picky session create nothing_on).1 (cr 3)
run-agrees_example =
    run-agrees picky (λ s. s) picky-Honest session create nothing_on create_off (cr 3)
