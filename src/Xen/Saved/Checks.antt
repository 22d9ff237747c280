-- ===== src/Xen/Saved/Checks.antt =====
-- The saved state of a guest with an entry of a processor, the XSAVE entries of two VCPUs and the last
-- entry (src/xendriver.cpp).
use libbdvmi.Common.{ℕ, ◌≡◌, refl, true, some, List, [], ◌∷◌, pos, arith}
use libbdvmi.Xen.Saved.{SavedAnswers, get_xcr0, get_xsave_info, domain_pause, domain_unpause}
use libbdvmi.Xen.Saved.Scanned.{Saved, encode_all, get_xcr0-encode_all, completes}

abbrev entries : List Saved
entries =
    record { code = 2; number = 0; body = 5 ∷ 5 ∷ [] }
    ∷ record { code = 16; number = 0; body = 3 ∷ [] }
    ∷ record { code = 16; number = 1; body = 7 ∷ [] }
    ∷ record { code = 0; number = 0; body = [] }
    ∷ []

abbrev answers : SavedAnswers
answers = record { pause = pos 0; size = pos 36; context = pos 36; bytes = encode_all entries }

abbrev first_byte : List ℕ → ℕ
first_byte [] = 0
first_byte (b ∷ bs) = b

get_xcr0-encode_all_example :
    (get_xcr0 0 16 first_byte answers 1 ≡ some 7)
    × (completes (get_xsave_info 0 16 answers 1).0 ≡ true)
    × ((get_xsave_info 0 16 answers 1).1 ≡ domain_pause ∷ domain_unpause ∷ [])
get_xcr0-encode_all_example =
    get_xcr0-encode_all 0 16 1 first_byte answers entries refl refl refl refl (omega arith)
