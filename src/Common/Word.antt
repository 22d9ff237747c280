-- ===== src/Common/Word.antt =====
-- Machine words as native numbers, and single bits of them.
use Prim.Native.Nat.{ℕ, ◌+◌, ◌-◌, ◌*◌, ◌/◌, ◌%◌, ◌^◌}
use mathlib.Core.Bool.{Bool, true, false}
use libbdvmi.Common.Tests.{ltb, ◌==◌, if◌then◌else◌}

-- A C `int` as far as the code looks at one.
pub data ℤ : Type 0 where
  pos : ℕ → ℤ
  negsuc : ℕ → ℤ

abbrev pub is_negative : ℤ → Bool
is_negative (pos n) = false
is_negative (negsuc n) = true

-- `a < n` for a natural n.
abbrev pub below : ℤ → ℕ → Bool
below (pos a) n = ltb a n
below (negsuc a) n = true

-- Bit k of a word.
abbrev pub bit : ℕ → ℕ → Bool
bit k w = w / 2 ^ k % 2 == 1

-- `w |= 1 << k`.
abbrev pub set_bit : ℕ → ℕ → ℕ
set_bit k w = if bit k w then w else w + 2 ^ k

-- `w &= ~( 1 << k )`.
abbrev pub clear_bit : ℕ → ℕ → ℕ
clear_bit k w = if bit k w then w - 2 ^ k else w

abbrev pub page_shift : ℕ
page_shift = 12

abbrev pub page_size : ℕ
page_size = 4096

-- `gpa_to_gfn` and `gfn_to_gpa` of driver.h, over 64-bit words.
abbrev pub gpa_to_gfn : ℕ → ℕ
gpa_to_gfn pa = pa / page_size

abbrev pub gfn_to_gpa : ℕ → ℕ
gfn_to_gpa fn = fn * page_size % 2 ^ 64
