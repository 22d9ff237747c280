-- ===== src/Xen/Events/Life/Checks.antt =====
-- A manager that is made, and one that is not (src/xeneventmanager.cpp).
use libbdvmi.Common.{◌≡◌, refl, true, none, some, arith, pos, negsuc}
use libbdvmi.Xen.Events.Life.{Answers, Session, made, refused, cleanup, has_filter, create_manager}
use libbdvmi.Xen.Events.Life.Released.{all_off, create_manager-refused, cleanup-create_manager}

abbrev granting : Answers
granting = record {
  altp2m = true;
  writes_key = true;
  watches_release = true;
  watches_model = true;
  watches_control = true;
  singlesteps = true;
  emul_unimplemented_of = some true;
  enables_monitor = true;
  opens = true;
  port = pos 7;
  filters_pagefaults = none;
}

abbrev unbound : Answers
unbound = record granting { port = negsuc 0 }

abbrev session_of : Answers → Session
session_of w = elim (create_manager w all_off) [ made s ↦ s | refused e s ↦ s ]

create_manager-refused_example : (session_of unbound).other ≡ all_off
unfolding create_manager cleanup
create_manager-refused_example = create_manager-refused unbound refl (ground arith)

cleanup-create_manager_example :
    let s = session_of granting in
    (s.other.monitor ≡ true)
    × (s.other.channel_bound ≡ true)
    × (s.other.singlestep ≡ true)
    × ((cleanup (has_filter granting) s).other ≡ all_off)
unfolding create_manager
cleanup-create_manager_example = cleanup-create_manager granting refl
