-- ===== src/PageCache/Counts.antt =====
-- Where the counts and the reverse map of src/pagecache.cpp go wrong.
use libbdvmi.Common.{
  ℕ, ◌+◌, ◌%◌, ◌<◌, ◌≡◌, ◌≢◌, true, false, some, [], ◌∷◌, Map, arith, find, insert, find-insert,
  find-insert_self,
}
use libbdvmi.PageCache.{
  CacheInfo, PageCache, Mincore, map_success, update, touch, insert_new, store_new, make_room,
  release, drop_use, reset, log_used, check_pages, is_unused,
}

-- The count is a short: the 32768th use of a page makes it a negative number, so that cleanup()
-- takes the page, which is in use, for an unused one.
pub update-wraps :
    (g mapped : ℕ) (m : Mincore) (c : PageCache) (ci : CacheInfo)
    → find g c.cache ≡ some ci
    → ci.in_use ≡ 32767
    → (di : CacheInfo) × (find g (update g mapped m c).2.cache ≡ some di)
      × (is_unused ci ≡ false)
      × (is_unused di ≡ true)
unfolding update touch
update-wraps g mapped m c ci e full =
    let di : CacheInfo = record ci { accessed = c.next_index; in_use = (ci.in_use + 1) % 65536 } in
    (di, rw (e, update) (find-insert_self g di c.cache), ground arith, ground arith)

log_used-kept :
    (p g : ℕ) (m : Map CacheInfo) (r : Map ℕ) → find p r ≡ some g → find p (log_used m r) ≡ some g
unfolding log_used
log_used-kept p g [] r e = e
log_used-kept p g ((k, ci) ∷ m) r e = ground (
  arith,
  log_used-kept p g m r e,
  log_used-kept p g m (insert ci.pointer 0 r),
  find-insert ci.pointer p 0 r,
)

-- reset() does not clear the reverse map. If a page g was cached at p, and is cached again after the
-- reset at another address q, then a release of p, which the cache no longer maps, is accepted,
-- and takes away the only use of the mapping at q.
pub reset_stale :
    (g p q : ℕ) (m : Mincore) (c : PageCache)
    → c.has_driver ≡ true
    → 0 < c.cache_limit
    → find p c.reverse_cache ≡ some g
    → p ≢ q
    → q ≢ 0
    → check_pages c m ≡ true
    → let after = (update g q m (reset c)).2 in
      ((update g q m (reset c)).0 ≡ map_success)
      × ((release p after).0 ≡ true)
      × (find g (release p after).1.cache
          ≡ some (record { accessed = c.next_index; pointer = q; in_use = 0 }))
unfolding update reset insert_new store_new make_room release drop_use find check_pages insert
reset_stale g p q m c d l e ne nz ok =
    let kept = log_used c.cache c.reverse_cache in
    ground (arith, find-insert q p g kept, log_used-kept p g c.cache c.reverse_cache e)
