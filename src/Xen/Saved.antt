-- ===== src/Xen/Saved.antt =====
-- getXSAVEInfo() and getXCR0() of src/xendriver.cpp: the scan of the saved state of a guest, a buffer
-- of bytes that the hypervisor fills. The codes of the last entry and of the XSAVE entry come from
-- Xen's headers and are arguments, and so is the place of XCR0 in an entry.
mod Scanned
mod Checks
use libbdvmi.Common.{
  ℕ, zero, suc, ◌+◌, ◌*◌, ◌%◌, ◌^◌, Bool, true, false, ◌&&◌, Option, none, some, List, [], ◌∷◌,
  ◌==◌, ltb, if◌then◌else◌, length, ℤ, is_negative,
}

abbrev pub drop : ℕ → List ℕ → List ℕ
drop zero bs = bs
drop (suc n) [] = []
drop (suc n) (b ∷ bs) = drop n bs

-- struct hvm_save_descriptor: two 16-bit words and one of 32 bits, in the order of the bytes on x86.
pub record Descriptor : Type 0 where
  pub typecode : ℕ
  pub instance_of : ℕ
  pub length_of : ℕ

unfoldable pub descriptor : List ℕ → Option Descriptor
descriptor (a ∷ b ∷ c ∷ d ∷ e ∷ f ∷ g ∷ h ∷ rest) = some (record {
  typecode = a + 256 * b;
  instance_of = c + 256 * d;
  length_of = e + 256 * f + 65536 * g + 16777216 * h;
})
descriptor _ = none

-- Where the scan ends: at the contents of an entry, with nothing, with a read beyond the buffer, or
-- not within the fuel.
pub data Scan : Type 0 where
  found_at : ℕ → Scan
  missing beyond endless : Scan

module _ (end_code xsave_code vcpu : ℕ) (buf : List ℕ) where
  unfoldable pub scan : ℕ → ℕ → Scan
  unfolding descriptor
  scan zero off = endless
  scan (suc fuel) off =
      if ltb off (length buf)
      then elim (descriptor (drop off buf)) [
        | none ↦ beyond
        | some d ↦
            let next = scan fuel ((off + 8 + d.length_of) % 2 ^ 32) in
            if d.typecode == end_code
            then missing
            else if (d.typecode == xsave_code) && (d.instance_of == vcpu)
            then found_at ((off + 8) % 2 ^ 32)
            else next
      ]
      else missing

-- The calls that stop the guest and let it go on.
pub data PauseCall : Type 0 where
  domain_pause domain_unpause : PauseCall

-- What the hypervisor answers: to the pause, to the question for the size, and for the bytes.
pub record SavedAnswers : Type 0 where
  pub pause : ℤ
  pub size : ℤ
  pub context : ℤ
  pub bytes : List ℕ  -- the buffer of that size, as it is filled

-- Whether the entry was found, where, and the calls, in their order.
unfoldable pub get_xsave_info : ℕ → ℕ → SavedAnswers → ℕ → Scan × List PauseCall
get_xsave_info end_code xsave_code w vcpu =
    if is_negative w.pause
    then (missing, domain_pause ∷ [])
    else if is_negative w.size
    then (missing, domain_pause ∷ domain_unpause ∷ [])
    else if is_negative w.context
    then (missing, domain_pause ∷ domain_unpause ∷ [])
    else (
      scan end_code xsave_code vcpu w.bytes (suc (length w.bytes)) 0,
      domain_pause ∷ domain_unpause ∷ [],
    )

-- `xcr0_of` reads XCR0 out of the bytes of an entry.
abbrev pub read_entry : (List ℕ → ℕ) → List ℕ → Scan → Option ℕ
read_entry xcr0_of buf (found_at off) = some (xcr0_of (drop off buf))
read_entry xcr0_of buf missing = none
read_entry xcr0_of buf beyond = none
read_entry xcr0_of buf endless = none

unfoldable pub get_xcr0 : ℕ → ℕ → (List ℕ → ℕ) → SavedAnswers → ℕ → Option ℕ
get_xcr0 end_code xsave_code xcr0_of w vcpu =
    read_entry xcr0_of w.bytes (get_xsave_info end_code xsave_code w vcpu).0
