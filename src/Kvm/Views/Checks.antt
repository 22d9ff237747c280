-- ===== src/Kvm/Views/Checks.antt =====
-- The views of src/kvmdriver.cpp on concrete states.
use libbdvmi.Common.{ℕ, ◌≡◌, ◌≢◌, refl, true, false, some, [], ◌∷◌, contains, add_id, remove_id}
use libbdvmi.Kvm.Granting.{blank, granting, view_blind, granting-Honest}
use libbdvmi.Kvm.Views.{
  Views, first_free, get_next_available_view, show_to_all, create_ept, destroy_ept, is_pending,
  initial_view_setup,
}
use libbdvmi.Kvm.Views.Handout.{destroy-create_ept, create_ept-leaks}
use libbdvmi.Kvm.Views.Setup.{Counted, initial_view_setup-Counted, initial_view_setup-uncounted}

-- View 1 is the untrusted view, and no processor waits.
abbrev two_views : Views
two_views = record {
  eptp_supported = true;
  ve_supported = true;
  untrusted_view = 1;
  visible = 1 ∷ [];
  pending_vcpus = [];
  pending_switch_count = 0;
}

abbrev one_waits : Views
one_waits = record two_views { pending_vcpus = 1 ∷ []; pending_switch_count = 1 }

second_view : (get_next_available_view two_views).0 ≡ some 2
unfolding get_next_available_view first_free contains
second_view = refl

destroy-create_ept_run :
    (v : ℕ) × (contains v (create_ept granting 2 two_views blank).2.visible ≡ true)
unfolding create_ept show_to_all get_next_available_view first_free contains destroy_ept add_id
    remove_id
destroy-create_ept_run =
    let made =
      destroy-create_ept granting (λ s. s.monitored) (λ s. s.visible) (λ s. s.current)
        granting-Honest 2 two_views blank refl in
    (made.0, made.1.4)

create_ept-leaks_example :
    (get_next_available_view (create_ept view_blind 2 two_views blank).2).0 ≢ some 2
unfolding create_ept show_to_all get_next_available_view first_free contains
create_ept-leaks_example = (create_ept-leaks view_blind 2 2 two_views blank refl refl).2

one_waits-Counted : Counted one_waits
unfolding contains
one_waits-Counted = record { distinct = (refl, tt); counted = refl }

initial_view_setup-Counted_run : (initial_view_setup granting 1 0 one_waits blank).3.current 1 ≡ 1
unfolding initial_view_setup contains
initial_view_setup-Counted_run =
    (initial_view_setup-Counted granting (λ s. s.monitored) (λ s. s.visible) (λ s. s.current)
      granting-Honest 1 1 one_waits blank one_waits-Counted refl refl).2

initial_view_setup-uncounted_example :
    is_pending 1 (initial_view_setup granting 7 0 one_waits blank).2 ≡ false
unfolding initial_view_setup contains
initial_view_setup-uncounted_example =
    (initial_view_setup-uncounted granting 7 1 one_waits blank refl refl refl refl).1
