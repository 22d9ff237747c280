-- ===== src/Kvm/Memory/Checks.antt =====
-- The calls of the KVM driver on concrete answers (src/kvmdriver.cpp).
use libbdvmi.Common.{◌≡◌, refl, true, false, [], ◌∷◌, pos, negsuc, if◌then◌else◌, ◌==◌}
use libbdvmi.Kvm.Memory.{
  set_ept_page_conv, set_page_convertible_impl, get_xsave_size, get_cpuid, max_gpfn_impl,
  get_maximum_gfn, start_time,
}

-- The first of two pages is refused; the second is asked for all the same.
one_refused :
    set_page_convertible_impl
      (λ gfn. if gfn == 3 then negsuc 0 else pos 0)
      ((3, true) ∷ (4, false) ∷ [])
      2
      []
    ≡ (false, set_ept_page_conv 2 16384 false ∷ set_ept_page_conv 2 12288 true ∷ [])
unfolding set_page_convertible_impl
one_refused = refl

no_cpuid : get_xsave_size (pos 0, 0) 1 [] ≡ (true, 576, get_cpuid 1 0xD 0 ∷ [])
unfolding get_xsave_size
no_cpuid = refl

no_frames : max_gpfn_impl (negsuc 0, 0) [] ≡ (false, 18446744073709551615, get_maximum_gfn ∷ [])
unfolding max_gpfn_impl
no_frames = refl

a_second_and_a_half : start_time 1500 ≡ 1
unfolding start_time
a_second_and_a_half = refl
