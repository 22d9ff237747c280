-- ===== src/Xen/Saved/Scanned.antt =====
-- The scan against the entries that are in the buffer (src/xendriver.cpp, getXSAVEInfo()).
use mathlib.Core.List.{append-nil, append_assoc}
use mathlib.Core.Option
use libbdvmi.Common.{
  ℕ, zero, suc, ◌+◌, ◌%◌, ◌/◌, ◌<◌, ◌≤◌, ◌≡◌, refl, sym, Bool, true, false, ◌&&◌, Option, none,
  some, List, [], ◌∷◌, ◌++◌, ◌==◌, if◌then◌else◌, length, is_negative, arith,
}
use libbdvmi.Xen.Saved.{
  drop, descriptor, Scan, found_at, missing, beyond, endless, scan, read_entry, SavedAnswers,
  get_xcr0, get_xsave_info, domain_pause, domain_unpause,
}

-- An entry of the saved state.
pub record Saved : Type 0 where
  pub code : ℕ
  pub number : ℕ
  pub body : List ℕ

abbrev pub header : ℕ → ℕ → ℕ → List ℕ
header c n l =
    c % 256
    ∷ c / 256
    ∷ n % 256
    ∷ n / 256
    ∷ l % 256
    ∷ l / 256 % 256
    ∷ l / 65536 % 256
    ∷ l / 16777216
    ∷ []

abbrev pub encode : Saved → List ℕ
encode e = header e.code e.number (length e.body) ++ e.body

abbrev pub encode_all : List Saved → List ℕ
encode_all [] = []
encode_all (e ∷ es) = encode e ++ encode_all es

-- The entry that is looked for: the first of the code and the VCPU, before the last entry.
abbrev pub first_entry : ℕ → ℕ → ℕ → List Saved → Option (List ℕ)
first_entry end_code xsave_code vcpu [] = none
first_entry end_code xsave_code vcpu (e ∷ es) =
    let rest = first_entry end_code xsave_code vcpu es in
    if e.code == end_code
    then none
    else if (e.code == xsave_code) && (e.number == vcpu)
    then some (e.body ++ encode_all es)
    else rest

length-append : (xs ys : List ℕ) → length (xs ++ ys) ≡ length xs + length ys
length-append [] ys = omega arith
length-append (x ∷ xs) ys = omega (arith, length-append xs ys)

drop-append : (xs ys : List ℕ) → drop (length xs) (xs ++ ys) ≡ ys
drop-append [] ys = refl
drop-append (x ∷ xs) ys = drop-append xs ys

drop_past : (n k : ℕ) (xs ys : List ℕ) → n ≡ length xs + k → drop n (xs ++ ys) ≡ drop k ys
drop_past n k [] ys h = let same : n ≡ k = omega arith in rw same (refl)
drop_past zero k (x ∷ xs) ys h = absurd (omega arith)
drop_past (suc n) k (x ∷ xs) ys h = drop_past n k xs ys (omega arith)

descriptor-encode :
    (e : Saved) (rest : List ℕ)
    → descriptor (encode e ++ rest)
      ≡ some (record { typecode = e.code; instance_of = e.number; length_of = length e.body })
unfolding descriptor
descriptor-encode e rest = ground arith

-- What the scan has found in the buffer.
abbrev contents : Scan → List ℕ → Option (List ℕ)
contents (found_at off) buf = some (drop off buf)
contents _ buf = none

-- Whether the scan has ended, within the buffer.
abbrev pub completes : Scan → Bool
completes (found_at off) = true
completes missing = true
completes _ = false

length-encode : (e : Saved) → length (encode e) ≡ 8 + length e.body
length-encode e = omega arith

module _ (end_code xsave_code vcpu : ℕ) where
  abbrev Scans : List ℕ → ℕ → ℕ → Option (List ℕ) → Type 0
  Scans buf fuel off expected =
      let r = scan end_code xsave_code vcpu buf fuel off in
      (completes r ≡ true) × (contents r buf ≡ expected)

  scan_end : (buf : List ℕ) (fuel off : ℕ) → length buf ≤ off → Scans buf (suc fuel) off none
  unfolding scan
  scan_end buf fuel off h = ground arith

  scan_step :
      (buf : List ℕ) (fuel off : ℕ) (e : Saved)
      → off < length buf
      → descriptor (drop off buf)
        ≡ some (record { typecode = e.code; instance_of = e.number; length_of = length e.body })
      → scan end_code xsave_code vcpu buf (suc fuel) off ≡ (
          if e.code == end_code
          then missing
          else if (e.code == xsave_code) && (e.number == vcpu)
          then found_at ((off + 8) % 4294967296)
          else scan end_code xsave_code vcpu buf fuel ((off + 8 + length e.body) % 4294967296))
  unfolding scan
  scan_step buf fuel off e h d = ground arith

  Scans-step :
      (buf : List ℕ) (fuel off : ℕ) (e : Saved) (es : List Saved)
      → off + 8 + length e.body ≤ length buf
      → length buf < 4294967296
      → descriptor (drop off buf)
        ≡ some (record { typecode = e.code; instance_of = e.number; length_of = length e.body })
      → drop (off + 8) buf ≡ e.body ++ encode_all es
      → Scans buf fuel (off + 8 + length e.body) (first_entry end_code xsave_code vcpu es)
      → Scans buf (suc fuel) off (first_entry end_code xsave_code vcpu (e ∷ es))
  Scans-step buf fuel off e es within small d body i =
      let near : (off + 8) % 4294967296 ≡ off + 8 = omega arith in
      let far : (off + 8 + length e.body) % 4294967296 ≡ off + 8 + length e.body = omega arith in
      rw (scan_step buf fuel off e (omega arith) d, near, far) (ground (arith, i, body))

  scan-encode_all :
      (es : List Saved) (pre : List ℕ) (fuel : ℕ)
      → length (pre ++ encode_all es) < 4294967296
      → length es < fuel
      → Scans (pre ++ encode_all es) fuel (length pre) (first_entry end_code xsave_code vcpu es)
  scan-encode_all es pre zero h f = absurd (omega arith)
  scan-encode_all [] pre (suc fuel) h f =
      scan_end (pre ++ []) fuel (length pre) (rw (append-nil pre) (omega arith))
  scan-encode_all (e ∷ es) pre (suc fuel) h f =
      let rest = encode_all es in
      let head = header e.code e.number (length e.body) in
      let buf = pre ++ (encode e ++ rest) in
      let pre' = pre ++ encode e in
      let same : buf ≡ pre' ++ rest = sym (append_assoc pre (encode e) rest) in
      let i = scan-encode_all es pre' fuel (rw same at h) (omega arith) in
      let len : length pre' ≡ length pre + 8 + length e.body =
        omega (arith, length-append pre (encode e)) in
      let i' : Scans buf fuel (length pre + 8 + length e.body)
          (first_entry end_code xsave_code vcpu es) =
        rw (same, ← len) i in
      let d : descriptor (drop (length pre) buf)
          ≡ some (record { typecode = e.code; instance_of = e.number; length_of = length e.body }) =
        rw (drop-append pre (encode e ++ rest)) (descriptor-encode e rest) in
      let body : drop (length pre + 8) buf ≡ e.body ++ rest =
        drop_past (length pre + 8) 8 pre (encode e ++ rest) refl in
      let whole = length-append pre (encode e ++ rest) in
      Scans-step buf fuel (length pre) e es (omega (arith, whole, length-append (e.body) rest)) h d
        body i'

read_contents :
    (xcr0_of : List ℕ → ℕ) (r : Scan) (buf : List ℕ)
    → read_entry xcr0_of buf r ≡ Option.map xcr0_of (contents r buf)
read_contents xcr0_of (found_at off) buf = refl
read_contents xcr0_of missing buf = refl
read_contents xcr0_of beyond buf = refl
read_contents xcr0_of endless buf = refl

length-le-encode_all : (es : List Saved) → length es ≤ length (encode_all es)
length-le-encode_all [] = omega arith
length-le-encode_all (e ∷ es) =
    omega (arith, length-le-encode_all es, length-append (encode e) (encode_all es))

-- If the hypervisor gives the state of the guest as entries one after the other, in less than 4 GiB,
-- the scan ends within the buffer, XCR0 is that of the first XSAVE entry of the VCPU before the last
-- entry, or none if there is no such entry, and the guest is let go on after it was paused.
pub get_xcr0-encode_all :
    (end_code xsave_code vcpu : ℕ) (xcr0_of : List ℕ → ℕ) (w : SavedAnswers) (es : List Saved)
    → is_negative w.pause ≡ false
    → is_negative w.size ≡ false
    → is_negative w.context ≡ false
    → w.bytes ≡ encode_all es
    → length (encode_all es) < 4294967296
    → let r = get_xsave_info end_code xsave_code w vcpu in
      (get_xcr0 end_code xsave_code xcr0_of w vcpu
        ≡ Option.map xcr0_of (first_entry end_code xsave_code vcpu es))
      × (completes r.0 ≡ true)
      × (r.1 ≡ domain_pause ∷ domain_unpause ∷ [])
unfolding get_xcr0
get_xcr0-encode_all end_code xsave_code vcpu xcr0_of w es p s c b small =
    let buf = encode_all es in
    let i =
      scan-encode_all end_code xsave_code vcpu es [] (suc (length buf)) small
        (omega (arith, length-le-encode_all es)) in
    let r = scan end_code xsave_code vcpu buf (suc (length buf)) 0 in
    let info : get_xsave_info end_code xsave_code w vcpu ≡ (r, domain_pause ∷ domain_unpause ∷ []) =
      unfold get_xsave_info in rw (p, s, c, b) (refl) in
    (rw (info, b, ← i.1) (read_contents xcr0_of r buf), rw info (i.0), rw info (refl))
