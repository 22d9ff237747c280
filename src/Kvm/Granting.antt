-- ===== src/Kvm/Granting.antt =====
-- A hypervisor that grants every call, for the tests of the backend for KVM.
use libbdvmi.Common.{ℕ, refl, Bool, true, false, ◌&&◌, arith, ◌==◌, if◌then◌else◌}
use libbdvmi.Kvm.Kvmi.{Control, same_control, Kvmi, Honest}

pub record Machine : Type 0 where
  pub monitored : ℕ → Control → Bool
  pub visible : ℕ → ℕ → Bool
  pub current : ℕ → ℕ

abbrev pub blank : Machine
blank = record { monitored = λ v c. false; visible = λ v i. false; current = λ v. 0 }

abbrev pub granting : Kvmi Machine
granting = record {
  register = λ v c on s. (
    true,
    record s { monitored = λ w d. if (v == w) && same_control c d then on else s.monitored w d },
  );
  control_ept_view = λ v i on s.
      (true, record s { visible = λ w j. if (v == w) && (i == j) then on else s.visible w j });
  switch_ept_view = λ v i s. (true, record s { current = λ w. if v == w then i else s.current w });
}

-- One that refuses to monitor any event, and is else the same.
abbrev pub event_blind : Kvmi Machine
event_blind = record granting { register = λ v c on s. (false, s) }

-- One that can show no view.
abbrev pub view_blind : Kvmi Machine
view_blind = record granting { control_ept_view = λ v i on s. (false, s) }

pub granting-Honest : Honest granting (λ s. s.monitored) (λ s. s.visible) (λ s. s.current)
granting-Honest = record {
  registers_one = λ v w c d on s. ground arith;
  shows_one = λ v w i j on s. ground arith;
  switches_one = λ v w i s. ground arith;
  show_monitored = λ v i w on d s. refl;
  show_current = λ v i w on s. refl;
  switch_monitored = λ v i w d s. refl;
  switch_visible = λ v i w j s. refl;
}

pub event_blind-Honest : Honest event_blind (λ s. s.monitored) (λ s. s.visible) (λ s. s.current)
event_blind-Honest = record {
  registers_one = λ v w c d on s. ground arith;
  shows_one = λ v w i j on s. ground arith;
  switches_one = λ v w i s. ground arith;
  show_monitored = λ v i w on d s. refl;
  show_current = λ v i w on s. refl;
  switch_monitored = λ v i w d s. refl;
  switch_visible = λ v i w j s. refl;
}
