-- ===== src/Driver/Protection.antt =====
-- What a reader of page protections sees after a writer (src/driver.cpp).
use libbdvmi.Common.{
  ℕ, ◌≡◌, refl, sym, ap, ◌≢◌, ◌∙◌, ◌⊎◌, inl, inr, Bool, true, false, ◌&&◌, not, Option, none, some,
  arith, ◌==◌, if◌then◌else◌, Bool-cases, Map, find, insert, find-insert, gpa_to_gfn,
}
use libbdvmi.Driver.{
  Access, Driver, access_bits, access_of_bits, slot, open_slot, write_slot, store_access, needless,
  set_page_protection, get_page_protection,
}

-- What the map of maps holds for a page of a view.
unfoldable pub find_in {ℓ} : {V : Type ℓ} → ℕ → ℕ → Map (Map V) → Option V
find_in view gfn m = find gfn (slot view m)

module _ {ℓ} {V : Type ℓ} (view gfn v g : ℕ) (m : Map (Map V)) where
  pub find_in-write_slot :
      (x : V)
      → find_in v g (write_slot view gfn x m)
        ≡ (if (view == v) && (gfn == g) then some x else find_in v g m)
  unfolding find_in slot write_slot
  find_in-write_slot x =
      ground (
        arith,
        find-insert view v (insert gfn x (slot view m)) m,
        find-insert gfn g x (slot view m),
      )

pub find_in-open_slot {ℓ} :
    {V : Type ℓ} (view v g : ℕ) (m : Map (Map V)) → find_in v g (open_slot view m) ≡ find_in v g m
unfolding find_in slot open_slot
find_in-open_slot view v g m = ground (arith, find-insert view v (slot view m) m)

-- Reading the bits of an access gives the access.
pub access_of_bits-access_bits : (a : Access) → access_of_bits (access_bits a) ≡ a
unfolding access_of_bits access_bits
access_of_bits-access_bits a = by_cases a.read a.write a.execute
  where
    by_cases :
        (r w x : Bool)
        → access_of_bits (access_bits (record { read = r; write = w; execute = x }))
          ≡ record { read = r; write = w; execute = x }
    by_cases false false false = refl
    by_cases false false true = refl
    by_cases false true false = refl
    by_cases false true true = refl
    by_cases true false false = refl
    by_cases true false true = refl
    by_cases true true false = refl
    by_cases true true true = refl

-- The protection is set exactly when it is no write access without read access, and a refused one
-- changes nothing.
pub set_page_protection_iff :
    (addr : ℕ) (a : Access) (view : ℕ) (d : Driver)
    → ((set_page_protection addr a view d).0 ≡ not (a.write && not a.read))
      × ((set_page_protection addr a view d).0 ≡ false → (set_page_protection addr a view d).1 ≡ d)
unfolding set_page_protection
set_page_protection_iff addr a view d = ground arith

module _ (addr : ℕ) (a : Access) (view : ℕ) (d : Driver) where
  -- The cache after a call that is not refused.
  pub find_in-set_page_protection :
      (v g : ℕ)
      → (set_page_protection addr a view d).0 ≡ true
      → find_in v g (set_page_protection addr a view d).1.mem_access_cache ≡ (
          if needless (find_in view (gpa_to_gfn addr) d.mem_access_cache) a
          then find_in v g d.mem_access_cache
          else if (view == v) && (gpa_to_gfn addr == g)
          then some (access_bits a)
          else find_in v g d.mem_access_cache)
  unfolding set_page_protection store_access find_in
  find_in-set_page_protection v g done = ground (
    arith,
    find_in-write_slot view (gpa_to_gfn addr) v g d.mem_access_cache (access_bits a),
    find_in-open_slot view v g d.mem_access_cache,
  )

-- A reader's answer is made of what the cache and the hypervisor know.
abbrev seen : Option ℕ → Option Access → Option Access
seen none impl = impl
seen (some bits) impl = some (access_of_bits bits)

get-seen :
    (addr view : ℕ) (impl : Option Access) (d : Driver)
    → (get_page_protection addr view impl d).0
      ≡ seen (find_in view (gpa_to_gfn addr) d.mem_access_cache) impl
unfolding get_page_protection find_in
get-seen addr view impl d = ground arith

-- After an accepted write, a reader of the page gets what was written, whatever the hypervisor
-- would answer, unless all rights were asked for on a page that is not cached.
pub get-set_page_protection :
    (addr view : ℕ) (a : Access) (impl : Option Access) (d : Driver)
    → (set_page_protection addr a view d).0 ≡ true
    → (find_in view (gpa_to_gfn addr) d.mem_access_cache ≢ none)
      ⊎ (a.read && (a.write && a.execute) ≡ false)
    → (get_page_protection addr view impl (set_page_protection addr a view d).1).0 ≡ some a
unfolding needless
get-set_page_protection addr view a impl d done known =
    let gfn = gpa_to_gfn addr in
    let d' = (set_page_protection addr a view d).1 in
    let cached : find_in view gfn d'.mem_access_cache ≡ some (access_bits a) =
      ground (arith, find_in-set_page_protection addr a view d view gfn done) in
    get-seen addr view impl d'
    ∙ ap (λ o. seen o impl) cached
    ∙ ap some (access_of_bits-access_bits a)

-- A write does not change what is read of another page, or of the page in another view.
pub get-set_other_page :
    (addr view other v : ℕ) (a : Access) (impl : Option Access) (d : Driver)
    → (gpa_to_gfn addr ≢ gpa_to_gfn other) ⊎ (view ≢ v)
    → (get_page_protection other v impl (set_page_protection addr a view d).1).0
      ≡ (get_page_protection other v impl d).0
unfolding set_page_protection
get-set_other_page addr view other v a impl d apart =
    let d' = (set_page_protection addr a view d).1 in
    let same : find_in v (gpa_to_gfn other) d'.mem_access_cache
        ≡ find_in v (gpa_to_gfn other) d.mem_access_cache =
      elim (Bool-cases (a.write && not a.read)) [
        | inl refused ↦ rw refused refl
        | inr fine ↦
            let done : (set_page_protection addr a view d).0 ≡ true = ground arith in
            ground (arith, find_in-set_page_protection addr a view d v (gpa_to_gfn other) done)
      ] in
    get-seen other v impl d' ∙ (ap (λ o. seen o impl) same ∙ sym (get-seen other v impl d))
