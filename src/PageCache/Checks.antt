-- ===== src/PageCache/Checks.antt =====
-- The page cache of src/pagecache.cpp on concrete inputs.
use libbdvmi.Common.{
  ℕ, ◌≤◌, ◌≡◌, refl, true, false, none, some, [], ◌∷◌, arith, find, insert, erase, pos,
}
use libbdvmi.PageCache.{
  CacheInfo, PageCache, Mincore, map_page_not_present, update, release, reset, store_new, make_room,
  evict, evict_one, sort_by_age, cleanup, unused, is_unused, check_pages, insert_new,
}
use libbdvmi.PageCache.Coherence.{
  Coherent, IsCoherent, insert-Coherent, update-Coherent, release-update,
}
use libbdvmi.PageCache.Eviction.{update-used}
use libbdvmi.PageCache.Oldest.{cleanup_oldest}
use libbdvmi.PageCache.Counts.{update-wraps, reset_stale}

abbrev resident : Mincore
resident = record { fails = false; vec = 1 }

abbrev swapped : Mincore
swapped = record { fails = false; vec = 0 }

abbrev info : ℕ → ℕ → ℕ → CacheInfo
info accessed pointer in_use = record { accessed = accessed; pointer = pointer; in_use = in_use }

-- Page 3 is in use, pages 5 and 7 are not, and 7 was used before 5.
abbrev three_pages : PageCache
three_pages = record {
  has_driver = true;
  cache = (3, info 0 12288 1) ∷ (5, info 9 20480 0) ∷ (7, info 4 28672 0) ∷ [];
  reverse_cache = (12288, 3) ∷ (20480, 5) ∷ (28672, 7) ∷ [];
  cache_limit = 3;
  linux_maj_version = pos 3;
  next_index = 10;
  unmapped = [];
}

empty-Coherent : Coherent [] []
unfolding find
empty-Coherent = record { forward = λ g ci e. cc; backward = λ p g e. absurd (cc) }

three_pages-Coherent : IsCoherent three_pages
unfolding find insert
three_pages-Coherent =
    let one = insert-Coherent [] [] empty-Coherent 7 (info 4 28672 0) refl refl in
    let two = insert-Coherent _ _ one 5 (info 9 20480 0) refl refl in
    insert-Coherent _ _ two 3 (info 0 12288 1) refl refl

-- A page that is swapped out is unmapped again, and the oldest unused page has made room for it.
swapped_out : (update 8 32768 swapped three_pages).0 ≡ map_page_not_present
unfolding update find insert erase insert_new store_new make_room cleanup unused evict sort_by_age
    evict_one
swapped_out = refl

oldest_goes : find 7 (update 8 32768 resident three_pages).2.cache ≡ none
unfolding update find insert erase insert_new store_new make_room cleanup unused evict sort_by_age
    evict_one
oldest_goes = refl

update-Coherent_example : IsCoherent (update 8 32768 resident three_pages).2
unfolding find
update-Coherent_example =
    update-Coherent 8 32768 resident three_pages three_pages-Coherent (λ e. refl)

release-update_run : (release 12288 (update 3 0 resident three_pages).2).0 ≡ true
unfolding find
release-update_run =
    (release-update 3 3 0 resident three_pages (info 0 12288 1) three_pages-Coherent refl
      (omega arith)).2

update-used_example : find 3 (update 8 32768 resident three_pages).2.cache ≡ some (info 0 12288 1)
unfolding find
update-used_example =
    update-used 3 8 32768 resident (info 0 12288 1) three_pages (omega arith) refl refl
      (omega arith)

cleanup_oldest_run : 4 ≤ (info 9 0 0).accessed
unfolding update find insert erase insert_new store_new make_room cleanup unused evict sort_by_age
    evict_one
cleanup_oldest_run =
    cleanup_oldest 7 5 (info 4 28672 0) (info 9 20480 0) three_pages (omega arith) refl refl refl
      refl refl refl

abbrev full_count : PageCache
full_count = record three_pages { cache = (3, info 0 12288 32767) ∷ [] }

update-wraps_example :
    (di : CacheInfo) × (find 3 (update 3 0 resident full_count).2.cache ≡ some di)
    × (is_unused (info 0 12288 32767) ≡ false)
    × (is_unused di ≡ true)
unfolding find
update-wraps_example = update-wraps 3 0 resident full_count (info 0 12288 32767) refl refl

reset_stale_example : (release 12288 (update 3 65536 resident (reset three_pages)).2).0 ≡ true
unfolding find check_pages
reset_stale_example =
    (reset_stale 3 12288 65536 resident three_pages refl (omega arith) refl (omega arith)
      (omega arith) refl).1
