-- ===== src/Common/Maps.antt =====
-- A map from numbers: std::unordered_map and boost's flat_map. Kept in the order of the keys, which
-- is flat_map's order of iteration; unordered_map leaves its order open.
use Prim.Native.Nat.{ℕ, suc, ◌≤◌, ◌<◌}
use mathlib.Core.Path.{◌≡◌, refl}
use mathlib.Core.Logic.{◌≢◌}
use mathlib.Core.Option.{Option, none, some}
use mathlib.Core.List.{List, [], ◌∷◌}
use native.Mathlib.Omega.{arith}
use libbdvmi.Common.Tests.{length, ltb, ◌==◌, if◌then◌else◌}

abbrev pub Map {ℓ} : Type ℓ → Type ℓ
Map V = List (ℕ × V)

module _ {ℓ} {V : Type ℓ} where
  unfoldable pub find : ℕ → Map V → Option V
  find k [] = none
  find k ((j, v) ∷ m) = if j == k then some v else find k m

  -- `m[k] = v`.
  unfoldable pub insert : ℕ → V → Map V → Map V
  insert k v [] = (k, v) ∷ []
  insert k v ((j, w) ∷ m) =
      let rest = insert k v m in
      if ltb k j then (k, v) ∷ (j, w) ∷ m else if j == k then (k, v) ∷ m else (j, w) ∷ rest

  unfoldable pub erase : ℕ → Map V → Map V
  erase k [] = []
  erase k ((j, v) ∷ m) = if j == k then erase k m else (j, v) ∷ erase k m

  pub find-insert :
      (k j : ℕ) (v : V) (m : Map V) → find j (insert k v m) ≡ (if k == j then some v else find j m)
  unfolding find insert
  find-insert k j v [] = refl
  find-insert k j v ((i, w) ∷ m) = ground (arith, find-insert k j v m)

  pub find-erase : (k j : ℕ) (m : Map V) → find j (erase k m) ≡ (if k == j then none else find j m)
  unfolding find erase
  find-erase k j [] = ground arith
  find-erase k j ((i, w) ∷ m) = ground (arith, find-erase k j m)

  pub find-insert_self : (k : ℕ) (v : V) (m : Map V) → find k (insert k v m) ≡ some v
  find-insert_self k v m = ground (arith, find-insert k k v m)

  pub find-insert_ne : (k j : ℕ) (v : V) (m : Map V) → k ≢ j → find j (insert k v m) ≡ find j m
  find-insert_ne k j v m h = ground (arith, find-insert k j v m)

module _ {ℓ} {V : Type ℓ} where
  -- The keys ascend, and are at least `b`; so none stands twice.
  abbrev pub OrderedFrom : ℕ → Map V → Type 0
  OrderedFrom b [] = Unit
  OrderedFrom b ((k, v) ∷ m) = (b ≤ k) × OrderedFrom (suc k) m

  abbrev pub Ordered : Map V → Type 0
  Ordered m = OrderedFrom 0 m

  pub OrderedFrom-mono : (a b : ℕ) (m : Map V) → a ≤ b → OrderedFrom b m → OrderedFrom a m
  OrderedFrom-mono a b [] h o = tt
  OrderedFrom-mono a b ((k, v) ∷ m) h o = (omega arith, o.1)

  pub find_below : (b k : ℕ) (m : Map V) → OrderedFrom b m → k < b → find k m ≡ none
  unfolding find
  find_below b k [] o h = refl
  find_below b k ((j, v) ∷ m) o h = ground (arith, find_below (suc j) k m o.1)

  pub insert-OrderedFrom :
      (b k : ℕ) (v : V) (m : Map V) → OrderedFrom b m → b ≤ k → OrderedFrom b (insert k v m)
  unfolding insert
  insert-OrderedFrom b k v [] o h = (h, tt)
  insert-OrderedFrom b k v ((j, w) ∷ m) o h = ground (arith, insert-OrderedFrom (suc j) k v m o.1)

  pub erase-OrderedFrom : (b k : ℕ) (m : Map V) → OrderedFrom b m → OrderedFrom b (erase k m)
  unfolding erase
  erase-OrderedFrom b k [] o = tt
  erase-OrderedFrom b k ((j, w) ∷ m) o =
      ground (arith, erase-OrderedFrom (suc j) k m o.1, OrderedFrom-mono b (suc j) (erase k m))

  erase_absent : (b k : ℕ) (m : Map V) → OrderedFrom b m → k < b → erase k m ≡ m
  unfolding erase
  erase_absent b k [] o h = refl
  erase_absent b k ((j, w) ∷ m) o h = ground (arith, erase_absent (suc j) k m o.1)

  -- Erasing a key that is there takes one entry away.
  pub length-erase :
      (b k : ℕ) (v : V) (m : Map V)
      → OrderedFrom b m
      → find k m ≡ some v
      → length m ≡ suc (length (erase k m))
  unfolding find erase
  length-erase b k v [] o e = cc
  length-erase b k v ((j, w) ∷ m) o e =
      ground (arith, length-erase (suc j) k v m o.1, erase_absent (suc j) k m o.1)
