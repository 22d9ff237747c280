-- ===== src/PageCache.antt =====
-- src/pagecache.cpp and include/bdvmi/pagecache.h: guest pages kept mapped into the host, with a use
-- count each. A pointer is an address, 0 is nullptr. What the driver answers to mapGuestPageImpl is
-- an argument of a call (the page's address), and so is mincore's verdict; the calls of
-- unmapGuestPageImpl are recorded, newest first, in `unmapped`. The static counter of
-- generateIndex() is the field `next_index`; only one cache lives in a process.
pub mod Coherence
pub mod Eviction
pub mod Oldest
pub mod Counts
mod Checks
use libbdvmi.Common.{
  ℕ, zero, suc, ◌+◌, ◌-◌, ◌*◌, ◌/◌, ◌%◌, ◌^◌, ◌≤◌, ◌<◌, ◌≡◌, refl, Bool, true, false, ◌&&◌, ◌||◌,
  not, Option, none, some, List, [], ◌∷◌, ◌++◌, ltb, leb, ◌==◌, if◌then◌else◌, length, is_empty,
  Map, find, insert, erase, ℤ, pos, negsuc, is_negative, below,
}

pub record CacheInfo : Type 0 where
  pub accessed : ℕ
  pub pointer : ℕ
  pub in_use : ℕ  -- a `short`, as its bit pattern below 2 ^ 16

-- `inUse < 1` for the signed 16-bit number.
abbrev pub is_unused : CacheInfo → Bool
is_unused ci = if leb 32768 ci.in_use then true else ltb ci.in_use 1

pub data MapReturnCode : Type 0 where
  map_success map_failed_generic map_page_not_present map_invalid_parameter : MapReturnCode

pub record PageCache : Type 0 where
  pub has_driver : Bool
  pub cache : Map CacheInfo
  pub reverse_cache : Map ℕ
  pub cache_limit : ℕ
  pub linux_maj_version : ℤ
  pub next_index : ℕ
  pub unmapped : List (ℕ × ℕ)

-- What the kernel says of a page: whether mincore() fails, and the byte that it writes.
pub record Mincore : Type 0 where
  pub fails : Bool
  pub vec : ℕ

-- The constructor; the version is -1 if /proc/sys/kernel/osrelease cannot be opened.
pub create : Bool → Option ℤ → PageCache
create has_driver version = record {
  has_driver = has_driver;
  cache = [];
  reverse_cache = [];
  cache_limit = 1536;
  linux_maj_version = elim version [ none ↦ negsuc 0 | some v ↦ v ];
  next_index = 0;
  unmapped = [];
}

-- `vec[0] & 0x01` is the remainder by two.
unfoldable pub check_pages : PageCache → Mincore → Bool
check_pages c m =
    if below c.linux_maj_version 4 && (m.fails || (m.vec % 2 == 0)) then false else true

pub set_limit : ℕ → PageCache → ℕ × PageCache
set_limit limit c =
    let c' : PageCache = if leb 50 limit then record c { cache_limit = limit } else c in
    (c'.cache_limit, c')

-- The unmap calls of a loop over the entries.
pub unmap_all : Map CacheInfo → List (ℕ × ℕ) → List (ℕ × ℕ)
unmap_all [] log = log
unmap_all ((gfn, ci) ∷ m) log = unmap_all m ((ci.pointer, gfn) ∷ log)

-- The message on a page in use names `reverseCache_[pointer]`, a subscript that makes a missing
-- entry.
pub log_used : Map CacheInfo → Map ℕ → Map ℕ
log_used [] r = r
log_used ((gfn, ci) ∷ m) r = if ci.in_use == 0 then log_used m r else elim (find ci.pointer r) [
  | none ↦ log_used m (insert ci.pointer 0 r)
  | some g ↦ log_used m r
]

-- `reverseCache_` is not cleared.
pub reset : PageCache → PageCache
unfolding unmap_all log_used
reset c = record c {
  cache = [];
  reverse_cache = if c.has_driver then log_used c.cache c.reverse_cache else c.reverse_cache;
  unmapped = if c.has_driver then unmap_all c.cache c.unmapped else c.unmapped;
}

-- `return index++`, of an unsigned long.
abbrev pub bump_index : ℕ → ℕ
bump_index i = (i + 1) % 2 ^ 64

-- The entries that nobody uses, as (accessed, gfn).
pub unused : Map CacheInfo → List (ℕ × ℕ)
unused [] = []
unused ((gfn, ci) ∷ m) = if is_unused ci then (ci.accessed, gfn) ∷ unused m else unused m

-- std::sort by the first component.
pub insert_by_age : ℕ × ℕ → List (ℕ × ℕ) → List (ℕ × ℕ)
insert_by_age (a, g) [] = (a, g) ∷ []
insert_by_age (a, g) ((b, h) ∷ l) =
    let rest = insert_by_age (a, g) l in if leb a b then (a, g) ∷ (b, h) ∷ l else (b, h) ∷ rest

pub sort_by_age : List (ℕ × ℕ) → List (ℕ × ℕ)
unfolding insert_by_age
sort_by_age [] = []
sort_by_age (x ∷ l) = insert_by_age x (sort_by_age l)

-- One round of the loop of cleanup().
pub evict_one : ℕ → PageCache → PageCache
evict_one gfn c = elim (find gfn c.cache) [
  | none ↦ c
  | some ci ↦ record c {
    cache = erase gfn c.cache;
    reverse_cache = erase ci.pointer c.reverse_cache;
    unmapped = (ci.pointer, gfn) ∷ c.unmapped;
  }
]

-- At most `n` rounds.
pub evict : ℕ → List (ℕ × ℕ) → PageCache → PageCache
evict n [] c = c
evict zero ((a, gfn) ∷ l) c = c
evict (suc n) ((a, gfn) ∷ l) c = evict n l (evict_one gfn c)

pub cleanup : PageCache → PageCache
cleanup c =
    let time_ordered_gfns = unused c.cache in
    if is_empty time_ordered_gfns
    then c
    else evict (c.cache_limit / 2) (sort_by_age time_ordered_gfns) c

-- The cleanup at the head of insertNew().
pub make_room : PageCache → PageCache
make_room c = if leb c.cache_limit (length c.cache) then cleanup c else c

-- The rest of insertNew(), once the driver has answered with the address `mapped`.
pub store_new : ℕ → ℕ → Mincore → PageCache → MapReturnCode × ℕ × PageCache
unfolding check_pages
store_new gfn mapped m c =
    let stamped = record c { next_index = bump_index c.next_index } in
    if mapped == 0
    then (map_failed_generic, 0, stamped)
    else if check_pages c m
    then (
      map_success,
      mapped,
      record stamped {
        cache =
            insert gfn (record { accessed = c.next_index; pointer = mapped; in_use = 1 }) c.cache;
        reverse_cache = insert mapped gfn c.reverse_cache;
      },
    )
    else (map_page_not_present, 0, record stamped { unmapped = (mapped, gfn) ∷ c.unmapped })

pub insert_new : ℕ → ℕ → Mincore → PageCache → MapReturnCode × ℕ × PageCache
insert_new gfn mapped m c =
    if c.has_driver then store_new gfn mapped m (make_room c) else (map_failed_generic, 0, c)

-- A page that is in the cache: a new stamp, and `++inUse` on a short.
pub touch : ℕ → CacheInfo → PageCache → MapReturnCode × ℕ × PageCache
touch gfn ci c = (
  map_success,
  ci.pointer,
  record c {
    cache =
        insert gfn (record ci { accessed = c.next_index; in_use = (ci.in_use + 1) % 2 ^ 16 })
          c.cache;
    next_index = bump_index c.next_index;
  },
)

pub update : ℕ → ℕ → Mincore → PageCache → MapReturnCode × ℕ × PageCache
update gfn mapped m c = elim (find gfn c.cache) [
  | none ↦ insert_new gfn mapped m c
  | some ci ↦ touch gfn ci c
]

-- `--inUse` on a short.
pub drop_use : ℕ → CacheInfo → PageCache → PageCache
drop_use gfn ci c = record c {
  cache = insert gfn (record ci { in_use = (ci.in_use + 65535) % 2 ^ 16 }) c.cache;
}

pub release : ℕ → PageCache → Bool × PageCache
release pointer c = elim (find pointer c.reverse_cache) [
  | none ↦ (false, c)
  | some gfn ↦ elim (find gfn c.cache) [ none ↦ (false, c) | some ci ↦ (true, drop_use gfn ci c) ]
]
