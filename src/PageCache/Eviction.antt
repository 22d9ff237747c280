-- ===== src/PageCache/Eviction.antt =====
-- What cleanup() of src/pagecache.cpp takes out of the cache, and what it leaves.
use libbdvmi.Common.{
  ℕ, zero, suc, ◌+◌, ◌/◌, ◌≡◌, refl, sym, ◌≢◌, ◌∙◌, inl, inr, false, none, some, List, [], ◌∷◌,
  arith, leb, Bool-cases, Option-cases, Map, find, find-insert, find-insert_ne, find-erase, length,
  length-erase, Ordered, OrderedFrom, find_below, erase-OrderedFrom, insert-OrderedFrom,
}
use Prim.Native.Nat.{min}
use libbdvmi.PageCache.{
  CacheInfo, PageCache, Mincore, evict_one, evict, cleanup, unused, insert_by_age, sort_by_age,
  make_room, store_new, insert_new, touch, update, is_unused,
}

-- No entry of the list is for the page g.
abbrev pub Without : ℕ → List (ℕ × ℕ) → Type 0
Without g [] = Unit
Without g ((a, k) ∷ l) = (k ≢ g) × Without g l

insert_by_age-Without :
    (g a k : ℕ) (l : List (ℕ × ℕ)) → k ≢ g → Without g l → Without g (insert_by_age (a, k) l)
unfolding insert_by_age
insert_by_age-Without g a k [] h w = (h, tt)
insert_by_age-Without g a k ((b, j) ∷ l) h w = ground (arith, insert_by_age-Without g a k l h w.1)

sort_by_age-Without : (g : ℕ) (l : List (ℕ × ℕ)) → Without g l → Without g (sort_by_age l)
unfolding sort_by_age
sort_by_age-Without g [] w = tt
sort_by_age-Without g ((a, k) ∷ l) w =
    insert_by_age-Without g a k (sort_by_age l) w.0 (sort_by_age-Without g l w.1)

unused-absent : (g : ℕ) (m : Map CacheInfo) → find g m ≡ none → Without g (unused m)
unfolding unused find
unused-absent g [] e = tt
unused-absent g ((k, ci) ∷ m) e = ground (arith, unused-absent g m)

-- A page in use is not among the candidates.
unused-used :
    (b g : ℕ) (ci : CacheInfo) (m : Map CacheInfo)
    → OrderedFrom b m
    → find g m ≡ some ci
    → is_unused ci ≡ false
    → Without g (unused m)
unfolding unused find
unused-used b g ci [] o e u = tt
unused-used b g ci ((k, di) ∷ m) o e u =
    ground (arith, unused-used (suc k) g ci m o.1, unused-absent g m, find_below (suc k) k m o.1)

pub evict_one-ne : (g k : ℕ) (c : PageCache) → k ≢ g → find g (evict_one k c).cache ≡ find g c.cache
unfolding evict_one
evict_one-ne g k c h = elim (Option-cases (find k c.cache)) [
  | inl e ↦ rw (e, evict_one) refl
  | inr (ci, e) ↦ rw (e, evict_one) (ground (arith, find-erase k g c.cache))
]

evict-Without :
    (g n : ℕ) (l : List (ℕ × ℕ)) (c : PageCache)
    → Without g l
    → find g (evict n l c).cache ≡ find g c.cache
unfolding evict
evict-Without g n [] c w = refl
evict-Without g zero ((a, k) ∷ l) c w = refl
evict-Without g (suc n) ((a, k) ∷ l) c w =
    evict-Without g n l (evict_one k c) w.1 ∙ evict_one-ne g k c w.0

-- cleanup() leaves a page in use where it is: the page stays cached, with its pointer, its count
-- and its stamp.
pub cleanup-used :
    (g : ℕ) (ci : CacheInfo) (c : PageCache)
    → Ordered c.cache
    → find g c.cache ≡ some ci
    → is_unused ci ≡ false
    → find g (cleanup c).cache ≡ some ci
unfolding cleanup
cleanup-used g ci c o e u =
    let rest = sort_by_age-Without g (unused c.cache) (unused-used 0 g ci c.cache o e u) in
    ground (arith, evict-Without g (c.cache_limit / 2) (sort_by_age (unused c.cache)) c rest)

evict_one-Ordered : (k : ℕ) (c : PageCache) → Ordered c.cache → Ordered (evict_one k c).cache
unfolding evict_one
evict_one-Ordered k c o = elim (Option-cases (find k c.cache)) [
  | inl e ↦ rw (e, evict_one) o
  | inr (ci, e) ↦ rw (e, evict_one) (erase-OrderedFrom 0 k c.cache o)
]

evict-Ordered :
    (n : ℕ) (l : List (ℕ × ℕ)) (c : PageCache) → Ordered c.cache → Ordered (evict n l c).cache
unfolding evict
evict-Ordered n [] c o = o
evict-Ordered zero ((a, k) ∷ l) c o = o
evict-Ordered (suc n) ((a, k) ∷ l) c o = evict-Ordered n l (evict_one k c) (evict_one-Ordered k c o)

make_room-Ordered : (c : PageCache) → Ordered c.cache → Ordered (make_room c).cache
unfolding make_room cleanup
make_room-Ordered c o =
    ground (arith, evict-Ordered (c.cache_limit / 2) (sort_by_age (unused c.cache)) c o)

-- update() keeps the entries in the order of their keys.
pub update-Ordered :
    (g mapped : ℕ) (m : Mincore) (c : PageCache)
    → Ordered c.cache
    → Ordered (update g mapped m c).2.cache
unfolding update touch insert_new store_new
update-Ordered g mapped m c o = elim (Option-cases (find g c.cache)) [
  | inl e ↦
      rw (e, update)
        (ground (
          arith,
          make_room-Ordered c o,
          insert-OrderedFrom 0 g
              (record { accessed = (make_room c).next_index; pointer = mapped; in_use = 1 })
              (make_room c).cache,
        ))
  | inr (ci, e) ↦ rw (e, update) (insert-OrderedFrom 0 g _ c.cache o (omega arith))
]

-- A call of update() for one page, with all the evictions that it may cause, does not touch
-- another page that is in use: its pointer, its count and its stamp stay.
pub update-used :
    (g k mapped : ℕ) (m : Mincore) (ci : CacheInfo) (c : PageCache)
    → Ordered c.cache
    → find g c.cache ≡ some ci
    → is_unused ci ≡ false
    → k ≢ g
    → find g (update k mapped m c).2.cache ≡ some ci
unfolding update touch insert_new store_new make_room
update-used g k mapped m ci c o e u ne = elim (Option-cases (find k c.cache)) [
  | inl f ↦
      rw (f, update)
        (ground (
          arith,
          cleanup-used g ci c o e u,
          find-insert k g
              (record { accessed = (make_room c).next_index; pointer = mapped; in_use = 1 })
              (make_room c).cache,
        ))
  | inr (di, f) ↦ rw (f, update) (find-insert_ne k g _ c.cache ne ∙ e)
]

-- Every entry is cached, and none twice.
abbrev pub Present : List (ℕ × ℕ) → Map CacheInfo → Type 0
Present [] m = Unit
Present ((a, k) ∷ l) m = ((ci : CacheInfo) × (find k m ≡ some ci)) × Without k l × Present l m

insert_by_age-Present :
    (a k : ℕ) (ci : CacheInfo) (l : List (ℕ × ℕ)) (m : Map CacheInfo)
    → find k m ≡ some ci
    → Without k l
    → Present l m
    → Present (insert_by_age (a, k) l) m
unfolding insert_by_age
insert_by_age-Present a k ci [] m e w p = ((ci, e), tt, tt)
insert_by_age-Present a k ci ((b, j) ∷ l) m e w p = elim (Bool-cases (leb a b)) [
  | inl le ↦ rw le ((ci, e), w, p)
  | inr gt ↦ rw gt (
    p.0,
    insert_by_age-Without j a k l (λ q. w.0 (sym q)) p.1,
    insert_by_age-Present a k ci l m e w.1 p.2,
  )
]

pub sort_by_age-Present :
    (l : List (ℕ × ℕ)) (m : Map CacheInfo) → Present l m → Present (sort_by_age l) m
unfolding sort_by_age
sort_by_age-Present [] m p = tt
sort_by_age-Present ((a, k) ∷ l) m p =
    insert_by_age-Present a k p.0.0 (sort_by_age l) m p.0.1 (sort_by_age-Without k l p.1)
      (sort_by_age-Present l m p.2)

Present-cons :
    (k : ℕ) (ci : CacheInfo) (l : List (ℕ × ℕ)) (m : Map CacheInfo)
    → Without k l
    → Present l m
    → Present l ((k, ci) ∷ m)
unfolding find
Present-cons k ci [] m w p = tt
Present-cons k ci ((a, j) ∷ l) m w p =
    ((p.0.0, ground (arith, p.0.1)), p.1, Present-cons k ci l m w.1 p.2)

pub unused-Present : (b : ℕ) (m : Map CacheInfo) → OrderedFrom b m → Present (unused m) m
unfolding unused find
unused-Present b [] o = tt
unused-Present b ((k, ci) ∷ m) o =
    let apart = unused-absent k m (find_below (suc k) k m o.1 (omega arith)) in
    let rest = Present-cons k ci (unused m) m apart (unused-Present (suc k) m o.1) in
    elim (Bool-cases (is_unused ci)) [
      | inl free ↦ rw free ((ci, ground arith), apart, rest)
      | inr used ↦ rw used rest
    ]

length-insert_by_age : (x : ℕ × ℕ) (l : List (ℕ × ℕ)) → length (insert_by_age x l) ≡ suc (length l)
unfolding insert_by_age
length-insert_by_age (a, k) [] = refl
length-insert_by_age (a, k) ((b, j) ∷ l) = ground (arith, length-insert_by_age (a, k) l)

length-sort_by_age : (l : List (ℕ × ℕ)) → length (sort_by_age l) ≡ length l
unfolding sort_by_age
length-sort_by_age [] = refl
length-sort_by_age (x ∷ l) =
    omega (arith, length-insert_by_age x (sort_by_age l), length-sort_by_age l)

pub evict_one-Present :
    (k : ℕ) (l : List (ℕ × ℕ)) (c : PageCache)
    → Without k l
    → Present l c.cache
    → Present l (evict_one k c).cache
evict_one-Present k [] c w p = tt
evict_one-Present k ((a, j) ∷ l) c w p =
    ((p.0.0, evict_one-ne j k c (λ q. w.0 (sym q)) ∙ p.0.1), p.1, evict_one-Present k l c w.1 p.2)

length-evict_one :
    (k : ℕ) (ci : CacheInfo) (c : PageCache)
    → Ordered c.cache
    → find k c.cache ≡ some ci
    → length c.cache ≡ suc (length (evict_one k c).cache)
unfolding evict_one
length-evict_one k ci c o e = rw (e, evict_one) (length-erase 0 k ci c.cache o e)

length-evict :
    (n : ℕ) (l : List (ℕ × ℕ)) (c : PageCache)
    → Ordered c.cache
    → Present l c.cache
    → length (evict n l c).cache + min n (length l) ≡ length c.cache
unfolding evict
length-evict n [] c o p = omega arith
length-evict zero ((a, k) ∷ l) c o p = omega arith
length-evict (suc n) ((a, k) ∷ l) c o p = omega (
  arith,
  length-evict n l (evict_one k c) (evict_one-Ordered k c o) (evict_one-Present k l c p.1 p.2),
  length-evict_one k p.0.0 c o p.0.1,
)

-- cleanup() takes out as many pages as half the limit allows, or all that are not in use if these
-- are fewer.
pub length-cleanup :
    (c : PageCache)
    → Ordered c.cache
    → length (cleanup c).cache + min (c.cache_limit / 2) (length (unused c.cache)) ≡ length c.cache
unfolding cleanup
length-cleanup c o = ground (
  arith,
  length-evict (c.cache_limit / 2) (sort_by_age (unused c.cache)) c o
      (sort_by_age-Present (unused c.cache) c.cache (unused-Present 0 c.cache o)),
  length-sort_by_age (unused c.cache),
)
