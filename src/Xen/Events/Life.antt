-- ===== src/Xen/Events/Life.antt =====
-- The start and the end of the Xen event manager, and its wait for an event (src/xeneventmanager.cpp).
-- What Xen, the event channel and XenStore answer are arguments; the other side is a state of its own.
mod Released
mod Checks
use libbdvmi.Common.{
  ℕ, Bool, true, false, ◌&&◌, ◌||◌, not, Option, none, some, List, [], ◌∷◌, ◌==◌, if◌then◌else◌, ℤ,
  is_negative,
}

-- What is on, open, bound, mapped, watched or written for the domain.
pub record OtherSide : Type 0 where
  pub singlestep : Bool
  pub emul_unimplemented : Bool
  pub inguest_pagefault : Bool
  pub monitor : Bool
  pub ring_mapped : Bool
  pub channel_open : Bool
  pub channel_bound : Bool
  pub release_watch : Bool
  pub model_watch : Bool
  pub control_watch : Bool
  pub control_key : Bool

-- The members by which cleanup() goes.
pub record Held : Type 0 where
  pub ring_page : Bool
  pub mem_access_on : Bool
  pub evtchn_on : Bool
  pub evtchn_bind_on : Bool
  pub handle_emul_unimplemented : Bool

pub record Session : Type 0 where
  pub held : Held
  pub other : OtherSide

-- What is answered while the manager is made: whether the altp2m views are enabled; whether each call
-- succeeds, none where libxenctrl has no such function; the event channel's port; errno.
pub record Answers : Type 0 where
  pub altp2m : Bool
  pub writes_key : Bool
  pub watches_release : Bool
  pub watches_model : Bool
  pub watches_control : Bool
  pub singlesteps : Bool
  pub emul_unimplemented_of : Option Bool
  pub enables_monitor : Bool
  pub opens : Bool
  pub port : ℤ
  pub filters_pagefaults : Option Bool

-- The exceptions of the constructor.
pub data InitError : Type 0 where
  watch_failed singlestep_failed emul_unimplemented_failed : InitError
  monitor_failed open_failed bind_failed : InitError

pub data Made : Type 0 where
  made : Session → Made
  refused : InitError → Session → Made

abbrev pub nothing_held : Held
nothing_held = record {
  ring_page = false;
  mem_access_on = false;
  evtchn_on = false;
  evtchn_bind_on = false;
  handle_emul_unimplemented = false;
}

-- `has_filter` is whether libxenctrl can filter page faults.
unfoldable pub cleanup : Bool → Session → Session
cleanup has_filter s =
    let h = s.held in
    let o = s.other in
    record s {
      other = record {
        singlestep = if h.handle_emul_unimplemented then false else o.singlestep;
        emul_unimplemented = if h.handle_emul_unimplemented then false else o.emul_unimplemented;
        inguest_pagefault = if has_filter then false else o.inguest_pagefault;
        monitor = if h.mem_access_on then false else o.monitor;
        ring_mapped = if h.ring_page then false else o.ring_mapped;
        channel_open = if h.evtchn_on then false else o.channel_open;
        channel_bound = if h.evtchn_bind_on then false else o.channel_bound;
        release_watch = false;
        model_watch = false;
        control_watch = false;
        control_key = false;
      };
    }

abbrev pub has_filter : Answers → Bool
has_filter w = elim w.filters_pagefaults [ none ↦ false | some b ↦ true ]

-- initXenStore(): a watch is asked for only if those before it were set.
unfoldable pub init_xen_store : Answers → OtherSide → Bool × OtherSide
init_xen_store w o = (
  w.watches_release && (w.watches_model && w.watches_control),
  record o {
    control_key = w.writes_key || o.control_key;
    release_watch = w.watches_release || o.release_watch;
    model_watch = w.watches_release && w.watches_model || o.model_watch;
    control_watch = w.watches_release && (w.watches_model && w.watches_control) || o.control_watch;
  },
)

abbrev pub give_up : Answers → InitError → Session → Made
give_up w e s = refused e (cleanup (has_filter w) s)

unfoldable pub init_event_channels : Answers → Session → Made
init_event_channels w s =
    let opened : Session = record {
      held = record (s.held) { evtchn_on = true };
      other = record (s.other) { channel_open = true };
    } in
    if not w.opens
    then give_up w open_failed s
    else if is_negative w.port
    then give_up w bind_failed opened
    else made (record {
      held = record (opened.held) { evtchn_bind_on = true };
      other = record (opened.other) { channel_bound = true };
    })

unfoldable pub init_mem_access : Answers → Session → Made
unfolding init_event_channels
init_mem_access w s =
    if w.enables_monitor
    then init_event_channels w (record {
      held = record (s.held) { ring_page = true; mem_access_on = true };
      other = record (s.other) { monitor = true; ring_mapped = true };
    })
    else give_up w monitor_failed s

-- The filter of page faults is asked for in the end; a refusal is only reported.
unfoldable pub filter_pagefaults : Answers → Made → Made
filter_pagefaults w (refused e s) = refused e s
filter_pagefaults w (made s) = elim w.filters_pagefaults [
  | none ↦ made s
  | some b ↦
      made (record s {
        other = record (s.other) { inguest_pagefault = b || s.other.inguest_pagefault };
      })
]

abbrev pub emul_granted : Answers → Bool
emul_granted w = elim w.emul_unimplemented_of [ none ↦ false | some b ↦ b ]

-- The part of the constructor for altp2m: the single steps are switched off again if the events for
-- instructions that Xen cannot emulate are refused.
unfoldable pub init_altp2m : Answers → Session → Made
init_altp2m w s =
    let o = s.other in
    if not w.altp2m
    then made s
    else if not w.singlesteps
    then give_up w singlestep_failed s
    else if emul_granted w
    then made (record {
      held = record (s.held) { handle_emul_unimplemented = true };
      other = record o { singlestep = true; emul_unimplemented = true };
    })
    else give_up w emul_unimplemented_failed (record s { other = record o { singlestep = false } })

unfoldable pub create_manager : Answers → OtherSide → Made
unfolding init_xen_store init_altp2m init_mem_access filter_pagefaults
create_manager w o =
    let xs = init_xen_store w o in
    let s : Session = record { held = nothing_held; other = xs.1 } in
    if not xs.0 then refused watch_failed s else elim (init_altp2m w s) [
      | refused e s' ↦ refused e s'
      | made s' ↦ filter_pagefaults w (init_mem_access w s')
    ]

pub data GuestState : Type 0 where
  running shutdown_in_progress post_shutdown : GuestState

-- What the wait reads of the manager.
pub record Watching : Type 0 where
  pub first_release_watch : Bool
  pub first_control_command : Bool
  pub guest_state : GuestState
  pub stopped : Bool

-- The path of a watch of the manager's own.
pub data WatchPath : Type 0 where
  device_model control release_domain other_path : WatchPath

-- What the wait comes to: poll() times out, is interrupted, or fails; or an event of XenStore, an
-- event of the channel, both or neither. `directory` is whether the domain's device model still has
-- its directory.
pub data Polled : Type 0 where
  timeout interrupted poll_failed : Polled
  events : Bool → Bool → Polled

pub record Event : Type 0 where
  pub polled : Polled
  pub own_watch : Option WatchPath
  pub directory : Bool
  pub introduced : Bool
  pub says_shutdown : Bool
  pub pending : ℤ
  pub unmasks : Bool

pub data Waited : Type 0 where
  port_event : ℤ → Waited
  nothing : Waited
  failed : Waited

abbrev pub stop_in : GuestState → Watching → Watching
stop_in g s = record s { guest_state = g; stopped = true }

unfoldable pub take_watch : WatchPath → Event → Watching → Watching
take_watch device_model e s =
    if s.first_release_watch
    then record s { first_release_watch = false }
    else if e.directory
    then s
    else stop_in (if e.introduced then running else shutdown_in_progress) s
take_watch control e s =
    if s.first_control_command
    then record s { first_control_command = false }
    else if e.says_shutdown
    then stop_in running s
    else s
take_watch release_domain e s = if e.introduced then s else stop_in post_shutdown s
take_watch other_path e s = s

unfoldable pub take_port : Bool → Event → Watching → Waited × Watching
take_port ready e s =
    if not ready
    then (failed, s)
    else if is_negative e.pending || not e.unmasks
    then (failed, s)
    else (port_event e.pending, s)

-- An event of XenStore goes first; the channel's is left for the next wait.
unfoldable pub wait_for_event_or_timeout : Event → Watching → Waited × Watching
unfolding take_watch take_port
wait_for_event_or_timeout e s = elim e.polled [
  | timeout ↦ (nothing, s)
  | interrupted ↦ (nothing, s)
  | poll_failed ↦ (failed, s)
  | events from_xs from_channel ↦ elim e.own_watch [
    | none ↦ take_port from_channel e s
    | some p ↦ if from_xs then (nothing, take_watch p e s) else take_port from_channel e s
  ]
]
