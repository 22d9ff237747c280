-- ===== src/PageCache/Oldest.antt =====
-- Which of the unused pages cleanup() of src/pagecache.cpp takes: the least recently used.
use libbdvmi.Common.{
  ℕ, zero, suc, ◌/◌, ◌≤◌, ◌≡◌, refl, sym, ◌≢◌, ◌∙◌, ◌⊎◌, inl, inr, true, none, some, List, [], ◌∷◌,
  arith, leb, ◌==◌, Bool-cases, Option-cases, Map, find, find-erase, Ordered, is_empty,
}
use libbdvmi.PageCache.{
  CacheInfo, PageCache, evict_one, evict, cleanup, unused, insert_by_age, sort_by_age, is_unused,
}
use libbdvmi.PageCache.Eviction.{
  Without, Present, evict_one-ne, evict_one-Present, unused-Present, sort_by_age-Present,
}

abbrev AtLeast : ℕ → List (ℕ × ℕ) → Type 0
AtLeast a [] = Unit
AtLeast a ((b, k) ∷ l) = (a ≤ b) × AtLeast a l

abbrev IsSorted : List (ℕ × ℕ) → Type 0
IsSorted [] = Unit
IsSorted ((a, k) ∷ l) = AtLeast a l × IsSorted l

AtLeast-mono : (a b : ℕ) (l : List (ℕ × ℕ)) → a ≤ b → AtLeast b l → AtLeast a l
AtLeast-mono a b [] h s = tt
AtLeast-mono a b ((x, k) ∷ l) h s = (omega arith, AtLeast-mono a b l h s.1)

insert_by_age-AtLeast :
    (b a k : ℕ) (l : List (ℕ × ℕ)) → b ≤ a → AtLeast b l → AtLeast b (insert_by_age (a, k) l)
unfolding insert_by_age
insert_by_age-AtLeast b a k [] h s = (h, tt)
insert_by_age-AtLeast b a k ((x, j) ∷ l) h s = ground (arith, insert_by_age-AtLeast b a k l h s.1)

insert_by_age-IsSorted :
    (a k : ℕ) (l : List (ℕ × ℕ)) → IsSorted l → IsSorted (insert_by_age (a, k) l)
unfolding insert_by_age
insert_by_age-IsSorted a k [] s = (tt, tt)
insert_by_age-IsSorted a k ((b, j) ∷ l) s =
    ground
      (arith, insert_by_age-IsSorted a k l s.1, insert_by_age-AtLeast b a k l, AtLeast-mono a b l)

sort_by_age-IsSorted : (l : List (ℕ × ℕ)) → IsSorted (sort_by_age l)
unfolding sort_by_age
sort_by_age-IsSorted [] = tt
sort_by_age-IsSorted ((a, k) ∷ l) =
    insert_by_age-IsSorted a k (sort_by_age l) (sort_by_age-IsSorted l)

abbrev Listed : ℕ → ℕ → List (ℕ × ℕ) → Type 0
Listed g a [] = ⊥
Listed g a ((b, k) ∷ l) = ((b ≡ a) × (k ≡ g)) ⊎ Listed g a l

insert_by_age-Listed :
    (a k g b : ℕ) (l : List (ℕ × ℕ))
    → ((a ≡ b) × (k ≡ g)) ⊎ Listed g b l
    → Listed g b (insert_by_age (a, k) l)
unfolding insert_by_age
insert_by_age-Listed a k g b [] h = h
insert_by_age-Listed a k g b ((x, j) ∷ l) (inl e) = elim (Bool-cases (leb a x)) [
  | inl t ↦ rw t (inl e)
  | inr t ↦ rw t (inr (insert_by_age-Listed a k g b l (inl e)))
]
insert_by_age-Listed a k g b ((x, j) ∷ l) (inr (inl e)) = elim (Bool-cases (leb a x)) [
  | inl t ↦ rw t (inr (inl e))
  | inr t ↦ rw t (inl e)
]
insert_by_age-Listed a k g b ((x, j) ∷ l) (inr (inr m)) = elim (Bool-cases (leb a x)) [
  | inl t ↦ rw t (inr (inr m))
  | inr t ↦ rw t (inr (insert_by_age-Listed a k g b l (inr m)))
]

sort_by_age-Listed : (g a : ℕ) (l : List (ℕ × ℕ)) → Listed g a l → Listed g a (sort_by_age l)
unfolding sort_by_age
sort_by_age-Listed g a [] h = h
sort_by_age-Listed g a ((b, k) ∷ l) (inl e) = insert_by_age-Listed b k g a (sort_by_age l) (inl e)
sort_by_age-Listed g a ((b, k) ∷ l) (inr m) =
    insert_by_age-Listed b k g a (sort_by_age l) (inr (sort_by_age-Listed g a l m))

unused-Listed :
    (g : ℕ) (ci : CacheInfo) (m : Map CacheInfo)
    → find g m ≡ some ci
    → is_unused ci ≡ true
    → Listed g ci.accessed (unused m)
unfolding unused find
unused-Listed g ci [] e u = cc
unused-Listed g ci ((k, di) ∷ m) e u = elim (Bool-cases (k == g)) [
  | inl same ↦ let q : di ≡ ci = ground arith in rw q (rw u (inl (refl, ground arith)))
  | inr other ↦
      let rest = unused-Listed g ci m (ground arith) u in
      elim (Bool-cases (is_unused di)) [ inl t ↦ rw t (inr rest) | inr t ↦ rw t rest ]
]

Listed-AtLeast : (g a b : ℕ) (l : List (ℕ × ℕ)) → AtLeast b l → Listed g a l → b ≤ a
Listed-AtLeast g a b [] s m = absurd m
Listed-AtLeast g a b ((x, k) ∷ l) s (inl e) = omega arith
Listed-AtLeast g a b ((x, k) ∷ l) s (inr m) = Listed-AtLeast g a b l s.1 m

Listed-Without : (g a k : ℕ) (l : List (ℕ × ℕ)) → Without k l → Listed g a l → k ≢ g
Listed-Without g a k [] w m = absurd m
Listed-Without g a k ((x, j) ∷ l) w (inl e) = λ q. w.0 (e.1 ∙ sym q)
Listed-Without g a k ((x, j) ∷ l) w (inr m) = Listed-Without g a k l w.1 m

evict_one_self : (g : ℕ) (c : PageCache) → find g (evict_one g c).cache ≡ none
unfolding evict_one
evict_one_self g c = elim (Option-cases (find g c.cache)) [
  | inl e ↦ rw (e, evict_one) e
  | inr (ci, e) ↦ rw (e, evict_one) (ground (arith, find-erase g g c.cache))
]

evict_one-none :
    (k g : ℕ) (c : PageCache) → find g c.cache ≡ none → find g (evict_one k c).cache ≡ none
unfolding evict_one
evict_one-none k g c h = elim (Option-cases (find k c.cache)) [
  | inl e ↦ rw (e, evict_one) h
  | inr (ci, e) ↦ rw (e, evict_one) (ground (arith, find-erase k g c.cache))
]

evict-none :
    (n : ℕ) (l : List (ℕ × ℕ)) (g : ℕ) (c : PageCache)
    → find g c.cache ≡ none
    → find g (evict n l c).cache ≡ none
unfolding evict
evict-none n [] g c h = h
evict-none zero ((a, k) ∷ l) g c h = h
evict-none (suc n) ((a, k) ∷ l) g c h = evict-none n l g (evict_one k c) (evict_one-none k g c h)

module _ (g k a b : ℕ) (ci di : CacheInfo) where
  evict_oldest :
      (n : ℕ) (l : List (ℕ × ℕ)) (c : PageCache)
      → IsSorted l
      → Present l c.cache
      → Listed g a l
      → Listed k b l
      → find g c.cache ≡ some ci
      → find g (evict n l c).cache ≡ none
      → find k (evict n l c).cache ≡ some di
      → a ≤ b
  unfolding evict
  evict_oldest n [] c s p lg lk e out stay = absurd lg
  evict_oldest zero ((x, j) ∷ l) c s p lg lk e out stay = cc
  evict_oldest (suc n) ((x, j) ∷ l) c s p (inl q) (inl r) e out stay = omega arith
  evict_oldest (suc n) ((x, j) ∷ l) c s p (inl q) (inr lk) e out stay =
      omega (arith, Listed-AtLeast k b x l s.0 lk)
  evict_oldest (suc n) ((x, j) ∷ l) c s p (inr lg) (inl r) e out stay =
      let gone : find k (evict_one j c).cache ≡ none = rw r.1 (evict_one_self k c) in
      cc (evict-none n l k (evict_one j c) gone)
  evict_oldest (suc n) ((x, j) ∷ l) c s p (inr lg) (inr lk) e out stay =
      evict_oldest n l (evict_one j c) s.1 (evict_one-Present j l c p.1 p.2) lg lk
        (evict_one-ne g j c (Listed-Without g a j l p.1 lg) ∙ e) out stay

-- Of two unused pages, one that cleanup() takes out was not used after one that it leaves.
pub cleanup_oldest :
    (g k : ℕ) (ci di : CacheInfo) (c : PageCache)
    → Ordered c.cache
    → find g c.cache ≡ some ci
    → is_unused ci ≡ true
    → find k c.cache ≡ some di
    → is_unused di ≡ true
    → find g (cleanup c).cache ≡ none
    → find k (cleanup c).cache ≡ some di
    → ci.accessed ≤ di.accessed
unfolding cleanup
cleanup_oldest g k ci di c o e u f w out stay =
    let l = sort_by_age (unused c.cache) in
    let lg = sort_by_age-Listed g ci.accessed (unused c.cache) (unused-Listed g ci c.cache e u) in
    let lk = sort_by_age-Listed k di.accessed (unused c.cache) (unused-Listed k di c.cache f w) in
    let p = sort_by_age-Present (unused c.cache) c.cache (unused-Present 0 c.cache o) in
    let s = sort_by_age-IsSorted (unused c.cache) in
    let main = evict_oldest g k ci.accessed di.accessed ci di (c.cache_limit / 2) l c s p lg lk e in
    elim (Bool-cases (is_empty (unused c.cache))) [
      | inl t ↦ cc (rw (t) at out)
      | inr t ↦ main (rw (t) at out) (rw (t) at stay)
    ]
