-- ===== src/Driver.antt =====
-- src/driver.cpp and the part of include/bdvmi/driver.h that it implements: page protections and
-- convertible bits, cached and written to the hypervisor in batches, and the search for the last
-- guest page. The virtual functions of a backend are arguments (what they answer) or results (the
-- calls that are made of them). The mutexes make each function one step.
pub mod Protection
pub mod WriteBack
pub mod SearchLoops
pub mod MaxGpfn
mod Checks
use Prim.Native.Nat.{bit_and, bit_or}
use libbdvmi.Common.{
  ℕ, zero, suc, ◌+◌, ◌-◌, ◌*◌, ◌/◌, ◌%◌, ◌^◌, ◌≡◌, Bool, true, false, ◌&&◌, ◌||◌, not, Option, none,
  some, List, [], ◌∷◌, ltb, leb, ◌==◌, if◌then◌else◌, Map, find, insert, gpa_to_gfn, page_size,
}

pub record Access : Type 0 where
  pub read : Bool
  pub write : Bool
  pub execute : Bool

pub record Driver : Type 0 where
  pub mem_access_cache : Map (Map ℕ)
  pub delayed_mem_access_write : Map (Map ℕ)
  pub delayed_convertible_write : Map (Map Bool)
  pub max_gpfn : ℕ

-- PAGE_READ, PAGE_WRITE and PAGE_EXECUTE joined, as the code does it in two places.
pub access_bits : Access → ℕ
access_bits a =
    bit_or (bit_or (if a.read then 1 else 0) (if a.write then 2 else 0))
      (if a.execute then 4 else 0)

unfoldable pub access_of_bits : ℕ → Access
access_of_bits m = record {
  read = not (bit_and m 1 == 0);
  write = not (bit_and m 2 == 0);
  execute = not (bit_and m 4 == 0);
}

-- `m[view]` of a map of maps: a missing map is made, and is empty.
pub slot {ℓ} : {V : Type ℓ} → ℕ → Map (Map V) → Map V
slot view m = elim (find view m) [ none ↦ [] | some s ↦ s ]

pub open_slot {ℓ} : {V : Type ℓ} → ℕ → Map (Map V) → Map (Map V)
unfolding slot
open_slot view m = insert view (slot view m) m

-- `m[view][gfn] = v`.
pub write_slot {ℓ} : {V : Type ℓ} → ℕ → ℕ → V → Map (Map V) → Map (Map V)
unfolding slot
write_slot view gfn v m = insert view (insert gfn v (slot view m)) m

-- Both maps get the new bits.
pub store_access : ℕ → ℕ → ℕ → Driver → Driver
store_access view gfn bits d = record d {
  mem_access_cache = write_slot view gfn bits d.mem_access_cache;
  delayed_mem_access_write = write_slot view gfn bits d.delayed_mem_access_write;
}

-- Whether the cache makes a write needless: the page has these bits, or it is not known and all
-- rights are asked for.
pub needless : Option ℕ → Access → Bool
unfolding access_bits
needless none a = a.read && (a.write && a.execute)
needless (some bits) a = bits == access_bits a

pub set_page_protection : ℕ → Access → ℕ → Driver → Bool × Driver
set_page_protection guest_address a view d =
    let gfn = gpa_to_gfn guest_address in
    if a.write && not a.read
    then (false, d)
    else if needless (find gfn (slot view d.mem_access_cache)) a
    then (true, record d { mem_access_cache = open_slot view d.mem_access_cache })
    else (true, store_access view gfn (access_bits a) d)

-- `impl` is what getPageProtectionImpl would answer, none for a failure.
pub get_page_protection : ℕ → ℕ → Option Access → Driver → Option Access × Driver
get_page_protection guest_address view impl d =
    let gfn = gpa_to_gfn guest_address in
    let opened : Driver = record d { mem_access_cache = open_slot view d.mem_access_cache } in
    elim (find gfn (slot view d.mem_access_cache)) [
      | some bits ↦ (some (access_of_bits bits), opened)
      | none ↦ elim impl [
        | none ↦ (none, opened)
        | some a ↦ (
          some a,
          record d { mem_access_cache = write_slot view gfn (access_bits a) d.mem_access_cache },
        )
      ]
    ]

pub set_ept_page_convertible : ℕ → ℕ → Bool → Driver → Bool × Driver
set_ept_page_convertible view guest_address convertible d = (
  true,
  record d {
    delayed_convertible_write =
        write_slot view (gpa_to_gfn guest_address) convertible d.delayed_convertible_write;
  },
)

-- The calls that a flush makes, in order: a view and its writes, the empty ones left out.
unfoldable pub flush_calls {ℓ} : {V : Type ℓ} → Map (Map V) → List (ℕ × Map V)
flush_calls [] = []
flush_calls ((view, []) ∷ m) = flush_calls m
flush_calls ((view, w ∷ ws) ∷ m) = (view, w ∷ ws) ∷ flush_calls m

-- What a flush leaves: every view with no write.
pub emptied {ℓ} : {V : Type ℓ} → Map (Map V) → Map (Map V)
emptied [] = []
emptied ((view, ws) ∷ m) = (view, []) ∷ emptied m

-- The calls of setPageProtectionImpl, those of setPageConvertibleImpl, and the new state. What the
-- calls answer is not looked at.
unfoldable pub flush_page_protections : Driver → List (ℕ × Map ℕ) × List (ℕ × Map Bool) × Driver
flush_page_protections d = (
  flush_calls d.delayed_mem_access_write,
  flush_calls d.delayed_convertible_write,
  record d {
    delayed_mem_access_write = emptied d.delayed_mem_access_write;
    delayed_convertible_write = emptied d.delayed_convertible_write;
  },
)

-- MAX_GPA_SEARCH_COUNT.
abbrev pub max_gpa_search_count : ℕ
max_gpa_search_count = 256

abbrev pub next_gpa : ℕ → ℕ
next_gpa gpa = (gpa + page_size) % 2 ^ 64

abbrev pub previous_gpa : ℕ → ℕ
previous_gpa gpa = (gpa + 2 ^ 64 - page_size) % 2 ^ 64

-- The variables of the first loop of maxGPFN().
pub record Search : Type 0 where
  pub last_ok_gpa : ℕ
  pub test_gpa : ℕ
  pub invalid_count : ℕ
  pub at_least_one_valid : Bool

-- One round. `maps gpa` says whether mapPhysMemToHost succeeds; the page is unmapped at once.
pub probe : (ℕ → Bool) → Search → Search
probe maps s =
    if maps s.test_gpa
    then record {
      last_ok_gpa = s.test_gpa;
      test_gpa = next_gpa s.test_gpa;
      invalid_count = 0;
      at_least_one_valid = true;
    }
    else record s { test_gpa = next_gpa s.test_gpa; invalid_count = s.invalid_count + 1 }

-- `none`: out of fuel.
pub search_up : ℕ → (ℕ → Bool) → Search → Option Search
search_up zero maps s = none
search_up (suc fuel) maps s =
    let rest = search_up fuel maps (probe maps s) in
    if ltb s.invalid_count max_gpa_search_count then rest else some s

-- The second loop, down from a page; some none: no page was found; none: out of fuel.
pub search_down : ℕ → (ℕ → Bool) → ℕ → Option (Option ℕ)
search_down zero maps gpa = none
search_down (suc fuel) maps gpa =
    let rest = search_down fuel maps (previous_gpa gpa) in
    if maps gpa then some (some gpa) else if previous_gpa gpa == 0 then some none else rest

-- The start of the first loop.
pub first_probe : ℕ → Search
first_probe gpfn =
    let gpa = gpfn * 4096 % 2 ^ 64 in
    record {
      last_ok_gpa = gpa;
      test_gpa = next_gpa gpa;
      invalid_count = 0;
      at_least_one_valid = false;
    }

-- The second loop runs only if the first one has found nothing.
pub last_valid_gpa : ℕ → (ℕ → Bool) → Search → Option (Option ℕ)
last_valid_gpa fuel maps s =
    if s.at_least_one_valid then some (some s.last_ok_gpa) else search_down fuel maps s.last_ok_gpa

-- The frame number, if one is found, and the state, in which it is kept.
pub keep_gpfn : Option ℕ → Driver → Option ℕ × Driver
keep_gpfn none d = (none, d)
keep_gpfn (some gpa) d = (some (gpa_to_gfn gpa), record d { max_gpfn = gpa_to_gfn gpa })

-- `impl` is what maxGPFNImpl answers; the outer `none` means that the fuel ran out.
pub find_max_gpfn : ℕ → (ℕ → Bool) → Option ℕ → Driver → Option (Option ℕ × Driver)
unfolding keep_gpfn
find_max_gpfn fuel maps none d = some (none, d)
find_max_gpfn fuel maps (some gpfn) d = elim (search_up fuel maps (first_probe gpfn)) [
  | none ↦ none
  | some s ↦ elim (last_valid_gpa fuel maps s) [ none ↦ none | some r ↦ some (keep_gpfn r d) ]
]

pub max_gpfn_of : ℕ → (ℕ → Bool) → Option ℕ → Driver → Option (Option ℕ × Driver)
max_gpfn_of fuel maps impl d =
    if d.max_gpfn == 0 then find_max_gpfn fuel maps impl d else some (some d.max_gpfn, d)
