-- ===== src/Common/IdSet.antt =====
-- A set of numbers: std::set.
use Prim.Native.Nat.{ℕ, suc}
use mathlib.Core.Path.{◌≡◌, refl}
use mathlib.Core.Bool.{Bool, true, false}
use mathlib.Core.List.{List, [], ◌∷◌}
use native.Mathlib.Omega.{arith}
use libbdvmi.Common.Tests.{◌==◌, if◌then◌else◌, length}

unfoldable pub contains : ℕ → List ℕ → Bool
contains k [] = false
contains k (j ∷ s) = if j == k then true else contains k s

-- `s.insert(k)`: nothing happens to a set that has the key.
unfoldable pub add_id : ℕ → List ℕ → List ℕ
add_id k s = if contains k s then s else k ∷ s

unfoldable pub remove_id : ℕ → List ℕ → List ℕ
remove_id k [] = []
remove_id k (j ∷ s) = if j == k then remove_id k s else j ∷ remove_id k s

pub contains-add_id :
    (k j : ℕ) (s : List ℕ) → contains j (add_id k s) ≡ (if k == j then true else contains j s)
unfolding contains add_id
contains-add_id k j [] = refl
contains-add_id k j (i ∷ s) = ground (arith, contains-add_id k j s)

pub contains-remove_id :
    (k j : ℕ) (s : List ℕ) → contains j (remove_id k s) ≡ (if k == j then false else contains j s)
unfolding contains remove_id
contains-remove_id k j [] = ground arith
contains-remove_id k j (i ∷ s) = ground (arith, contains-remove_id k j s)

-- No number stands twice.
abbrev pub Distinct : List ℕ → Type 0
Distinct [] = Unit
Distinct (k ∷ ks) = (contains k ks ≡ false) × Distinct ks

pub add_id-Distinct : (k : ℕ) (s : List ℕ) → Distinct s → Distinct (add_id k s)
unfolding add_id
add_id-Distinct k s d = ground arith

pub remove_id-Distinct : (k : ℕ) (s : List ℕ) → Distinct s → Distinct (remove_id k s)
unfolding remove_id
remove_id-Distinct k [] d = tt
remove_id-Distinct k (j ∷ s) d =
    ground (arith, remove_id-Distinct k s d.1, contains-remove_id k j s)

remove_id_absent : (k : ℕ) (s : List ℕ) → contains k s ≡ false → remove_id k s ≡ s
unfolding contains remove_id
remove_id_absent k [] e = refl
remove_id_absent k (j ∷ s) e = ground (arith, remove_id_absent k s)

pub length-remove_id :
    (k : ℕ) (s : List ℕ)
    → Distinct s
    → contains k s ≡ true
    → length s ≡ suc (length (remove_id k s))
unfolding contains remove_id
length-remove_id k [] d e = cc
length-remove_id k (j ∷ s) d e = ground (arith, length-remove_id k s d.1, remove_id_absent k s)
