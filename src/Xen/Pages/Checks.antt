-- ===== src/Xen/Pages/Checks.antt =====
-- The mapping of guest memory (src/xendriver.cpp) on concrete inputs.
use libbdvmi.Common.{◌≡◌, refl, true, false, some, [], ◌∷◌, arith, find, insert, pos}
use libbdvmi.PageCache.{CacheInfo, PageCache, Mincore}
use libbdvmi.PageCache.Coherence.{Coherent, IsCoherent, insert-Coherent}
use libbdvmi.Xen.Pages.{map_phys_mem_to_host}
use libbdvmi.Xen.Pages.Mapping.{unmap-map_phys_mem}

abbrev resident : Mincore
resident = record { fails = false; vec = 1 }

abbrev page_three : CacheInfo
page_three = record { accessed = 0; pointer = 12288; in_use = 1 }

abbrev one_page : PageCache
one_page = record {
  has_driver = true;
  cache = (3, page_three) ∷ [];
  reverse_cache = (12288, 3) ∷ [];
  cache_limit = 50;
  linux_maj_version = pos 5;
  next_index = 1;
  unmapped = [];
}

none-Coherent : Coherent [] []
unfolding find
none-Coherent = record { forward = λ g ci e. cc; backward = λ p g e. absurd (cc) }

one_page-Coherent : IsCoherent one_page
unfolding find insert
one_page-Coherent = insert-Coherent [] [] none-Coherent 3 page_three refl refl

unmap-map_phys_mem_run : (map_phys_mem_to_host 12300 16 false 0 resident one_page).1 ≡ some 12300
unfolding find
unmap-map_phys_mem_run =
    (unmap-map_phys_mem 12300 16 0 resident one_page page_three refl one_page-Coherent refl
      (omega arith) (omega arith) (omega arith) refl).1
