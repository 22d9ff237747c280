-- ===== src/Kvm/Loop.antt =====
-- The loop of src/kvmeventmanager.cpp (waitForEvents). What the hypervisor sends is a list, one arrival
-- for each round.
pub mod Rounds
pub mod Served
mod Checks
use libbdvmi.Common.{
  ℕ, Bool, true, false, not, Option, none, some, List, [], ◌∷◌, ◌==◌, if◌then◌else◌,
}
use libbdvmi.Kvm.Kvmi.{Kvmi}
use libbdvmi.Kvm.Events.{
  KvmMessage, KvmWorld, KvmSession, stop, Outcome, answered, unhooked, out_of_range, endless,
  process,
}

-- What kvmi_wait_event says.
pub data Waited : Type 0 where
  came timed_out not_connected other_error : Waited

-- getEventMsg(): `popped` is what kvmi_pop_event gives, if it succeeds.
pub data Got (M : Type 0) : Type 0 where
  message : M → Got M
  nothing disconnected thrown : Got M

unfoldable pub get_event_msg : {M : Type 0} → Waited → Option M → Got M
get_event_msg came (some m) = message m
get_event_msg came none = nothing
get_event_msg timed_out popped = nothing
get_event_msg not_connected popped = disconnected
get_event_msg other_error popped = thrown

-- `sig_stop` is whether the signal to stop has been given when the round begins, and `connected` what
-- kvmi_domain_is_connected says in it. A message comes with what its handling meets.
pub record Arrival (S : Type 0) : Type 0 where
  pub sig_stop : Bool
  pub connected : Bool
  pub waited : Waited
  pub popped : Option (KvmWorld S × KvmMessage)

-- How the loop ends: it is left, it is still waiting after the last arrival, an exception comes out of
-- it, or a message's handling does not end well.
pub data Ending (S : Type 0) : Type 0 where
  left waiting threw : KvmSession S → Ending S
  failed : Ending S

module _ {S : Type 0} (kvmi : Kvmi S) (num_events max : ℕ) where
  -- A round from what getEventMsg() says on; the flag is whether the loop goes on.
  unfoldable pub take_up : Bool → Got (KvmWorld S × KvmMessage) → KvmSession S → Bool × Ending S
  unfolding stop process
  take_up connected thrown s = (false, threw s)
  take_up connected disconnected s = (false, left (stop connected s))
  take_up connected nothing s = (not s.stopped, left s)
  take_up connected (message (w, m)) s = elim (process kvmi num_events max connected w m s) [
    | unhooked s' ↦ (false, left s')
    | answered sent s' ↦ (if sent then not s'.stopped else false, left s')
    | out_of_range ↦ (false, failed)
    | endless ↦ (false, failed)
  ]

  unfoldable pub round : Arrival S → KvmSession S → Bool × Ending S
  unfolding take_up get_event_msg
  round a s =
      take_up a.connected (get_event_msg a.waited a.popped)
        (if a.sig_stop then stop a.connected s else s)

  unfoldable pub wait_for_events : List (Arrival S) → KvmSession S → Ending S
  unfolding round
  wait_for_events [] s = waiting s
  wait_for_events (a ∷ rest) s =
      let r = round a s in
      elim r.1 [
        | left s' ↦ let next = wait_for_events rest s' in if r.0 then next else left s'
        | waiting s' ↦ waiting s'
        | threw s' ↦ threw s'
        | failed ↦ failed
      ]
