-- ===== src/Xen/Events/Life/Released.antt =====
-- What a manager that is not made, or is taken down, leaves on the other side
-- (src/xeneventmanager.cpp).
use libbdvmi.Common.{◌≡◌, ◌≢◌, true, false, arith}
use libbdvmi.Xen.Events.Life.{
  OtherSide, Session, Answers, InitError, watch_failed, made, refused, cleanup, has_filter,
  create_manager,
}

abbrev pub all_off : OtherSide
all_off = record {
  singlestep = false;
  emul_unimplemented = false;
  inguest_pagefault = false;
  monitor = false;
  ring_mapped = false;
  channel_open = false;
  channel_bound = false;
  release_watch = false;
  model_watch = false;
  control_watch = false;
  control_key = false;
}

-- If the constructor throws for another reason than a watch that is refused, it leaves nothing on,
-- open, bound, mapped, watched or written.
pub create_manager-refused :
    (w : Answers) {e : InitError} {s : Session}
    → create_manager w all_off ≡ refused e s
    → e ≢ watch_failed
    → s.other ≡ all_off
unfolding create_manager cleanup
create_manager-refused w h ne = ground arith

-- A manager that is made monitors the guest over a bound channel, and its cleanup leaves nothing on,
-- open, bound, mapped, watched or written.
pub cleanup-create_manager :
    (w : Answers) {s : Session}
    → create_manager w all_off ≡ made s
    → (s.other.monitor ≡ true)
      × (s.other.channel_bound ≡ true)
      × (s.other.singlestep ≡ w.altp2m)
      × ((cleanup (has_filter w) s).other ≡ all_off)
unfolding create_manager cleanup
cleanup-create_manager w h = ground arith

-- If a watch is refused, the key that tells the guest of the introspection stays where it was
-- written.
pub create_manager-watch_failed :
    (w : Answers) {s : Session}
    → create_manager w all_off ≡ refused watch_failed s
    → s.other.control_key ≡ w.writes_key
unfolding create_manager
create_manager-watch_failed w h = ground arith
