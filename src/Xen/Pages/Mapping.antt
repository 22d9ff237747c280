-- ===== src/Xen/Pages/Mapping.antt =====
-- Mapping and unmapping of guest memory by way of the page cache (src/xendriver.cpp).
use libbdvmi.Common.{
  ℕ, ◌+◌, ◌%◌, ◌<◌, ◌≡◌, ap, refl, subst, ◌∙◌, true, false, some, arith, gpa_to_gfn, find,
}
use libbdvmi.PageCache.{CacheInfo, PageCache, Mincore, map_success, update, release}
use libbdvmi.PageCache.Coherence.{IsCoherent, release-update}
use libbdvmi.Xen.Pages.{map_phys_mem_to_host, unmap_phys_mem, page_start, point_into}

map_phys_mem_hit :
    (address length mapped q : ℕ) (m : Mincore) (c : PageCache)
    → page_start address
      ≡ page_start ((address + length + 18446744073709551615) % 18446744073709551616)
    → (update (gpa_to_gfn address) mapped m c).0 ≡ map_success
    → (update (gpa_to_gfn address) mapped m c).1 ≡ q
    → 0 < q
    → q < 18446744073709547520
    → map_phys_mem_to_host address length false mapped m c
      ≡ (map_success, some (q + address % 4096), (update (gpa_to_gfn address) mapped m c).2)
unfolding map_phys_mem_to_host point_into
map_phys_mem_hit address length mapped q m c one done at nz low = ground arith

unmap_phys_mem_hit :
    (p q : ℕ) (c : PageCache)
    → page_start p ≡ q
    → (release q c).0 ≡ true
    → unmap_phys_mem p c ≡ (release q c).1
unfolding unmap_phys_mem
unmap_phys_mem_hit p q c e took =
    subst (λ x. (release x c).0 ≡ true → unmap_phys_mem p c ≡ (release x c).1) e (λ t. rw t refl)
      took

-- Memory within one page that the cache holds at a page boundary is mapped at the same offset into
-- the page, and the unmapping of that pointer takes back exactly the use that the mapping added.
pub unmap-map_phys_mem :
    (address length mapped : ℕ) (m : Mincore) (c : PageCache) (ci : CacheInfo)
    → page_start address
      ≡ page_start ((address + length + 18446744073709551615) % 18446744073709551616)
    → IsCoherent c
    → find (gpa_to_gfn address) c.cache ≡ some ci
    → ci.in_use < 65536
    → 0 < ci.pointer
    → ci.pointer < 18446744073709547520
    → ci.pointer % 4096 ≡ 0
    → let r = map_phys_mem_to_host address length false mapped m c in
      let p = ci.pointer + address % 4096 in
      (r.0 ≡ map_success)
      × (r.1 ≡ some p)
      × (find (gpa_to_gfn address) (unmap_phys_mem p r.2).cache
          ≡ some (record ci { accessed = c.next_index }))
unmap-map_phys_mem address length mapped m c ci one h e used nz low aligned =
    let g = gpa_to_gfn address in
    let (done, at, took, back) = release-update g g mapped m c ci h e used in
    let start : page_start (ci.pointer + address % 4096) ≡ ci.pointer = omega arith in
    let hit = map_phys_mem_hit address length mapped ci.pointer m c one done at nz low in
    let gone =
      unmap_phys_mem_hit (ci.pointer + address % 4096) ci.pointer (update g mapped m c).2 start
        took in
    rw hit (refl, refl, ap (λ d. find g d.cache) gone ∙ back ∙ ground arith)
