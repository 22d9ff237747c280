-- ===== src/PageCache/Coherence.antt =====
-- The two maps of the page cache (src/pagecache.cpp) are inverse to one another.
use libbdvmi.Common.{
  ℕ, zero, suc, ◌/◌, ◌<◌, ◌≡◌, refl, ap, inl, inr, true, none, some, List, [], ◌∷◌, arith, ◌==◌,
  if◌then◌else◌, Bool-cases, Option-cases, Map, find, insert, erase, find-insert, find-erase,
  find-insert_self, ◌∙◌, ◌+◌, ◌%◌,
}
use libbdvmi.PageCache.{
  CacheInfo, PageCache, Mincore, map_success, evict_one, evict, cleanup, unused, sort_by_age,
  make_room, store_new, insert_new, touch, update, drop_use, release,
}

-- Every cached page is found under its pointer, and every pointer leads to the page that it maps.
pub record Coherent (cache : Map CacheInfo) (reverse : Map ℕ) : Type 0 where
  pub forward : (g : ℕ) (ci : CacheInfo) → find g cache ≡ some ci → find ci.pointer reverse ≡ some g
  pub backward :
      (p g : ℕ)
      → find p reverse ≡ some g
      → (ci : CacheInfo) × (find g cache ≡ some ci) × (ci.pointer ≡ p)

abbrev pub IsCoherent : PageCache → Type 0
IsCoherent c = Coherent c.cache c.reverse_cache

module _ (cache : Map CacheInfo) (reverse : Map ℕ) (h : Coherent cache reverse) where
  pub pointer_unique :
      (g k : ℕ) (ci di : CacheInfo)
      → find g cache ≡ some ci
      → find k cache ≡ some di
      → ci.pointer ≡ di.pointer
      → g ≡ k
  pointer_unique g k ci di a b e = ground (arith, h.forward g ci a, h.forward k di b)

  -- Taking a page out of both maps.
  pub erase-Coherent :
      (g : ℕ) (ci : CacheInfo)
      → find g cache ≡ some ci
      → Coherent (erase g cache) (erase ci.pointer reverse)
  erase-Coherent g ci e = record {
    forward = λ k di a. ground (
      arith,
      find-erase g k cache,
      find-erase ci.pointer di.pointer reverse,
      h.forward k di,
      pointer_unique g k ci di e,
    );
    backward = λ p k a. back p k a;
  }
    where
      back :
          (p k : ℕ)
          → find p (erase ci.pointer reverse) ≡ some k
          → (di : CacheInfo) × (find k (erase g cache) ≡ some di) × (di.pointer ≡ p)
      back p k a =
          let old : find p reverse ≡ some k = ground (arith, find-erase ci.pointer p reverse) in
          let (di, b, q) = h.backward p k old in
          (di, ground (arith, find-erase g k cache, find-erase ci.pointer p reverse), q)

  -- A page that is cached anew, under a pointer that the cache does not hold.
  pub insert-Coherent :
      (g : ℕ) (ci : CacheInfo)
      → find g cache ≡ none
      → find ci.pointer reverse ≡ none
      → Coherent (insert g ci cache) (insert ci.pointer g reverse)
  insert-Coherent g ci free fresh = record {
    forward = λ k di a. ground (
      arith,
      find-insert g k ci cache,
      find-insert ci.pointer di.pointer g reverse,
      h.forward k di,
    );
    backward = λ p k a. back p k a;
  }
    where
      back :
          (p k : ℕ)
          → find p (insert ci.pointer g reverse) ≡ some k
          → (di : CacheInfo) × (find k (insert g ci cache) ≡ some di) × (di.pointer ≡ p)
      back p k a = elim (Bool-cases (ci.pointer == p)) [
        | inl same ↦ (
          ci,
          ground (arith, find-insert ci.pointer p g reverse, find-insert g k ci cache),
          ground arith,
        )
        | inr other ↦
            let old : find p reverse ≡ some k =
              ground (arith, find-insert ci.pointer p g reverse) in
            let (di, b, q) = h.backward p k old in (di, ground (arith, find-insert g k ci cache), q)
      ]

  -- A page that keeps its pointer.
  pub renew-Coherent :
      (g : ℕ) (ci di : CacheInfo)
      → find g cache ≡ some ci
      → di.pointer ≡ ci.pointer
      → Coherent (insert g di cache) reverse
  renew-Coherent g ci di e q = record {
    forward = λ k fi a. ground (arith, find-insert g k di cache, h.forward k fi, h.forward g ci e);
    backward = λ p k a. back p k a;
  }
    where
      back :
          (p k : ℕ)
          → find p reverse ≡ some k
          → (fi : CacheInfo) × (find k (insert g di cache) ≡ some fi) × (fi.pointer ≡ p)
      back p k a = elim (Bool-cases (g == k)) [
        | inl same ↦
            (di, ground (arith, find-insert g k di cache), ground (arith, h.backward p k a))
        | inr other ↦
            let (fi, b, r) = h.backward p k a in (fi, ground (arith, find-insert g k di cache), r)
      ]

evict_one-Coherent : (g : ℕ) (c : PageCache) → IsCoherent c → IsCoherent (evict_one g c)
unfolding evict_one
evict_one-Coherent g c h = elim (Option-cases (find g c.cache)) [
  | inl e ↦ rw (e, evict_one) h
  | inr (ci, e) ↦ rw (e, evict_one) (erase-Coherent c.cache c.reverse_cache h g ci e)
]

evict-Coherent :
    (n : ℕ) (l : List (ℕ × ℕ)) (c : PageCache) → IsCoherent c → IsCoherent (evict n l c)
unfolding evict
evict-Coherent n [] c h = h
evict-Coherent zero ((a, g) ∷ l) c h = h
evict-Coherent (suc n) ((a, g) ∷ l) c h =
    evict-Coherent n l (evict_one g c) (evict_one-Coherent g c h)

pub make_room-Coherent : (c : PageCache) → IsCoherent c → IsCoherent (make_room c)
unfolding make_room cleanup
make_room-Coherent c h =
    ground (arith, evict-Coherent (c.cache_limit / 2) (sort_by_age (unused c.cache)) c h)

-- Eviction only takes away.
evict_one-absent :
    (k : ℕ) (c : PageCache) (g p : ℕ)
    → find g c.cache ≡ none
    → find p c.reverse_cache ≡ none
    → (find g (evict_one k c).cache ≡ none) × (find p (evict_one k c).reverse_cache ≡ none)
unfolding evict_one
evict_one-absent k c g p a b = elim (Option-cases (find k c.cache)) [
  | inl e ↦ rw (e, evict_one) (a, b)
  | inr (ci, e) ↦
      rw (e, evict_one)
        (
          ground (arith, find-erase k g c.cache),
          ground (arith, find-erase ci.pointer p c.reverse_cache),
        )
]

evict-absent :
    (n : ℕ) (l : List (ℕ × ℕ)) (c : PageCache) (g p : ℕ)
    → find g c.cache ≡ none
    → find p c.reverse_cache ≡ none
    → (find g (evict n l c).cache ≡ none) × (find p (evict n l c).reverse_cache ≡ none)
unfolding evict
evict-absent n [] c g p a b = (a, b)
evict-absent zero ((t, k) ∷ l) c g p a b = (a, b)
evict-absent (suc n) ((t, k) ∷ l) c g p a b =
    let (a', b') = evict_one-absent k c g p a b in evict-absent n l (evict_one k c) g p a' b'

pub make_room-absent :
    (c : PageCache) (g p : ℕ)
    → find g c.cache ≡ none
    → find p c.reverse_cache ≡ none
    → (find g (make_room c).cache ≡ none) × (find p (make_room c).reverse_cache ≡ none)
unfolding make_room cleanup
make_room-absent c g p a b =
    ground (arith, evict-absent (c.cache_limit / 2) (sort_by_age (unused c.cache)) c g p a b)

store_new-Coherent :
    (g mapped : ℕ) (m : Mincore) (c : PageCache)
    → IsCoherent c
    → find g c.cache ≡ none
    → find mapped c.reverse_cache ≡ none
    → IsCoherent (store_new g mapped m c).2
unfolding store_new
store_new-Coherent g mapped m c h free fresh =
    let new : CacheInfo = record { accessed = c.next_index; pointer = mapped; in_use = 1 } in
    let stored = insert-Coherent c.cache c.reverse_cache h g new free fresh in
    ground (arith, stored)

-- A call of update() keeps the two maps inverse, on a hit, on an insertion with or without an
-- eviction, and on every failure, if the driver maps a missing page at an address which the cache
-- does not hold.
pub update-Coherent :
    (g mapped : ℕ) (m : Mincore) (c : PageCache)
    → IsCoherent c
    → (find g c.cache ≡ none → find mapped c.reverse_cache ≡ none)
    → IsCoherent (update g mapped m c).2
unfolding update insert_new touch
update-Coherent g mapped m c h fresh = elim (Option-cases (find g c.cache)) [
  | inl e ↦
      let (a, b) = make_room-absent c g mapped e (fresh e) in
      let stored = store_new-Coherent g mapped m (make_room c) (make_room-Coherent c h) a b in
      rw (e, update) (ground (arith, stored))
  | inr (ci, e) ↦ rw (e, update) (renew-Coherent c.cache c.reverse_cache h g ci _ e refl)
]

-- A call of release() keeps the two maps inverse, whether it finds the pointer or not.
pub release-Coherent : (p : ℕ) (c : PageCache) → IsCoherent c → IsCoherent (release p c).1
unfolding release drop_use
release-Coherent p c h = elim (Option-cases (find p c.reverse_cache)) [
  | inl e ↦ rw (e, release) h
  | inr (g, e) ↦ elim (Option-cases (find g c.cache)) [
    | inl f ↦ rw (e, release) (rw (f, release) h)
    | inr (ci, f) ↦
        rw (e, release) (rw (f, release) (renew-Coherent c.cache c.reverse_cache h g ci _ f refl))
  ]
]

-- The reverse map still leads from the pointer of a page that was touched to the page, and what
-- release() finds there is the page as it was touched.
release-touch :
    (g p : ℕ) (c : PageCache) (ci : CacheInfo)
    → find p c.reverse_cache ≡ some g
    → find g c.cache ≡ some ci
    → release p c ≡ (true, drop_use g ci c)
unfolding release
release-touch g p c ci e f = rw (e, release) (rw (f, release))

-- For a page that is in the cache, release() of the pointer that update() hands out takes back
-- exactly the use that was added: the call succeeds, and each page has the pointer and the count
-- that it had before, only the page itself has a new stamp.
pub release-update :
    (g k mapped : ℕ) (m : Mincore) (c : PageCache) (ci : CacheInfo)
    → IsCoherent c
    → find g c.cache ≡ some ci
    → ci.in_use < 65536
    → ((update g mapped m c).0 ≡ map_success)
      × ((update g mapped m c).1 ≡ ci.pointer)
      × ((release ci.pointer (update g mapped m c).2).0 ≡ true)
      × (find k (release ci.pointer (update g mapped m c).2).1.cache
          ≡ (if g == k then some (record ci { accessed = c.next_index }) else find k c.cache))
unfolding update touch drop_use
release-update g k mapped m c ci h e small =
    let used : CacheInfo = record ci {
      accessed = c.next_index;
      in_use = (ci.in_use + 1) % 65536;
    } in
    let after : PageCache = (touch g ci c).2 in
    let hit : update g mapped m c ≡ touch g ci c = rw (e, update) refl in
    let back =
      release-touch g ci.pointer after used (h.forward g ci e) (find-insert_self g used c.cache) in
    rw hit (
      refl,
      refl,
      ap (λ r. r.0) back,
      ap (λ r. find k r.1.cache) back
          ∙ (find-insert g k _ (insert g used c.cache)
              ∙ ground (arith, find-insert g k used c.cache)),
    )
