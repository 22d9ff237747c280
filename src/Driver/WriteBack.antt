-- ===== src/Driver/WriteBack.antt =====
-- The caches of src/driver.cpp as a write-back cache of the hypervisor's tables.
use libbdvmi.Common.{
  ℕ, suc, ◌<◌, ◌≡◌, refl, sym, ◌∙◌, inl, inr, Bool, ◌&&◌, Option, none, some, List, [], ◌∷◌, arith,
  ◌==◌, if◌then◌else◌, Option-cases, Map, find, insert, Ordered, OrderedFrom, find_below,
  insert-OrderedFrom, gpa_to_gfn,
}
use libbdvmi.Driver.{
  Access, Driver, access_bits, slot, open_slot, write_slot, store_access, emptied,
  set_page_protection, get_page_protection, set_ept_page_convertible, flush_page_protections,
  flush_calls,
}
use libbdvmi.Driver.Protection.{find_in, find_in-write_slot, find_in-open_slot}

-- What the hypervisor holds for a view and a page.
abbrev pub Table {ℓ} : Type ℓ → Type ℓ
Table V = ℕ → ℕ → V

abbrev or_else {ℓ} : {V : Type ℓ} → Option V → V → V
or_else none b = b
or_else (some a) b = a

-- The table after calls that all succeed: each sets the pages of its map in its view.
abbrev pub accept {ℓ} : {V : Type ℓ} → List (ℕ × Map V) → Table V → Table V
accept [] t = t
accept ((view, m) ∷ cs) t =
    accept cs (λ v g. if view == v then or_else (find g m) (t v g) else t v g)

module _ {ℓ} {V : Type ℓ} where
  find_in_below :
      (b view g : ℕ) (m : Map (Map V)) → OrderedFrom b m → view < b → find_in view g m ≡ none
  unfolding find_in slot find
  find_in_below b view g m o h = ground (arith, find_below b view m o h)

  find_in-cons :
      (v g view : ℕ) (ws : Map V) (m : Map (Map V))
      → find_in v g ((view, ws) ∷ m) ≡ (if view == v then find g ws else find_in v g m)
  unfolding find_in slot find
  find_in-cons v g view ws m = ground arith

  find-nil : (g : ℕ) → find {V = V} g [] ≡ none
  unfolding find
  find-nil g = refl

  -- Of ordered views, a flush writes each pending value to the table and nothing else.
  pub accept-flush_calls :
      (b v g : ℕ) (m : Map (Map V)) (t : Table V)
      → OrderedFrom b m
      → accept (flush_calls m) t v g ≡ or_else (find_in v g m) (t v g)
  unfolding flush_calls
  accept-flush_calls b v g [] t o = ground (arith, find_in_below (suc v) v g [] tt)
  accept-flush_calls b v g ((view, []) ∷ m) t o = ground (
    arith,
    accept-flush_calls (suc view) v g m t o.1,
    find_in-cons v g view [] m,
    find_in_below (suc view) v g m o.1,
    find-nil g,
  )
  accept-flush_calls b v g ((view, w ∷ ws) ∷ m) t o =
      accept-flush_calls (suc view) v g m _ o.1
      ∙ ground (arith, find_in-cons v g view (w ∷ ws) m, find_in_below (suc view) v g m o.1)

  pub find_in-emptied : (v g : ℕ) (m : Map (Map V)) → find_in v g (emptied m) ≡ none
  unfolding find_in slot emptied find
  find_in-emptied v g [] = refl
  find_in-emptied v g ((view, ws) ∷ m) = ground (arith, find_in-emptied v g m)

  emptied-OrderedFrom : (b : ℕ) (m : Map (Map V)) → OrderedFrom b m → OrderedFrom b (emptied m)
  unfolding emptied
  emptied-OrderedFrom b [] o = tt
  emptied-OrderedFrom b ((v, ws) ∷ m) o = (o.0, emptied-OrderedFrom (suc v) m o.1)

-- The table `t` is what the hypervisor holds now. What the cache says of a page is what the table
-- will hold once the pending writes are made, and each pending write is in the cache.
pub record InStep (d : Driver) (t : Table ℕ) : Type 0 where
  pub cached :
      (v g bits : ℕ)
      → find_in v g d.mem_access_cache ≡ some bits
      → or_else (find_in v g d.delayed_mem_access_write) (t v g) ≡ bits
  pub pending :
      (v g bits : ℕ)
      → find_in v g d.delayed_mem_access_write ≡ some bits
      → find_in v g d.mem_access_cache ≡ some bits
  pub ordered : Ordered d.delayed_mem_access_write

write_slot-Ordered {ℓ} :
    {V : Type ℓ} (view gfn : ℕ) (x : V) (m : Map (Map V))
    → Ordered m
    → Ordered (write_slot view gfn x m)
unfolding write_slot
write_slot-Ordered view gfn x m o =
    insert-OrderedFrom 0 view (insert gfn x (slot view m)) m o (omega arith)

module _ (view gfn : ℕ) (d : Driver) (t : Table ℕ) (h : InStep d t) where
  -- Making an empty map for a view.
  open-InStep : InStep (record d { mem_access_cache = open_slot view d.mem_access_cache }) t
  open-InStep = record {
    cached =
        λ v g bits e. h.cached v g bits (sym (find_in-open_slot view v g d.mem_access_cache) ∙ e);
    pending = λ v g bits e. find_in-open_slot view v g d.mem_access_cache ∙ h.pending v g bits e;
    ordered = h.ordered;
  }

  -- Writing to both maps.
  store-InStep : (bits : ℕ) → InStep (store_access view gfn bits d) t
  unfolding store_access
  store-InStep x = record {
    cached = λ v g bits e. ground (
      arith,
      h.cached v g bits,
      find_in-write_slot view gfn v g d.mem_access_cache x,
      find_in-write_slot view gfn v g d.delayed_mem_access_write x,
    );
    pending = λ v g bits e. ground (
      arith,
      h.pending v g bits,
      find_in-write_slot view gfn v g d.mem_access_cache x,
      find_in-write_slot view gfn v g d.delayed_mem_access_write x,
    );
    ordered = write_slot-Ordered view gfn x d.delayed_mem_access_write h.ordered;
  }

  -- Caching what the table holds for a page that is not cached.
  learn-InStep :
      find_in view gfn d.mem_access_cache ≡ none
      → InStep
          (record d { mem_access_cache = write_slot view gfn (t view gfn) d.mem_access_cache })
          t
  learn-InStep new = record {
    cached = λ v g bits e. known v g bits e;
    pending = λ v g bits e. ground (
      arith,
      h.pending v g bits,
      find_in-write_slot view gfn v g d.mem_access_cache (t view gfn),
    );
    ordered = h.ordered;
  }
    where
      quiet : find_in view gfn d.delayed_mem_access_write ≡ none
      quiet = elim (Option-cases (find_in view gfn d.delayed_mem_access_write)) [
        | inl e ↦ e
        | inr (bits, e) ↦ absurd (cc (h.pending view gfn bits e))
      ]

      known :
          (v g bits : ℕ)
          → find_in v g (write_slot view gfn (t view gfn) d.mem_access_cache) ≡ some bits
          → or_else (find_in v g d.delayed_mem_access_write) (t v g) ≡ bits
      known v g bits e = ground (
        arith,
        quiet,
        h.cached v g bits,
        find_in-write_slot view gfn v g d.mem_access_cache (t view gfn),
      )

-- A page that is not cached has no pending write.
quiet :
    (d : Driver) (t : Table ℕ)
    → InStep d t
    → (v g : ℕ) → find_in v g d.mem_access_cache ≡ none
    → or_else (find_in v g d.delayed_mem_access_write) (t v g) ≡ t v g
quiet d t h v g e = elim (Option-cases (find_in v g d.delayed_mem_access_write)) [
  | inl p ↦ rw p refl
  | inr (bits, p) ↦ absurd (cc (h.pending v g bits p))
]

-- Setting a protection, refused, needless or stored, keeps the cache in step with the hypervisor.
pub set_page_protection-InStep :
    (addr view : ℕ) (a : Access) (d : Driver) (t : Table ℕ)
    → InStep d t
    → InStep (set_page_protection addr a view d).1 t
unfolding set_page_protection
set_page_protection-InStep addr view a d t h =
    let opened = open-InStep view 0 d t h in
    let stored = store-InStep view (gpa_to_gfn addr) d t h (access_bits a) in
    ground (arith, opened, stored)

-- Reading a protection keeps the cache in step with the hypervisor, if the hypervisor answers, where
-- it does, with what it holds.
pub get_page_protection-InStep :
    (addr view : ℕ) (impl : Option Access) (d : Driver) (t : Table ℕ)
    → ((a : Access) → impl ≡ some a → t view (gpa_to_gfn addr) ≡ access_bits a)
    → InStep d t
    → InStep (get_page_protection addr view impl d).1 t
unfolding get_page_protection find_in
get_page_protection-InStep addr view impl d t truthful h =
    let gfn = gpa_to_gfn addr in
    elim (Option-cases (find gfn (slot view d.mem_access_cache))) [
      | inr (bits, e) ↦ rw (e, get_page_protection) (open-InStep view 0 d t h)
      | inl e ↦ elim (Option-cases impl) [
        | inl none_e ↦ rw (e, get_page_protection) (rw (none_e) (open-InStep view 0 d t h))
        | inr (a, some_e) ↦
            rw (e, get_page_protection)
              (rw (some_e) (rw (← truthful a some_e) (learn-InStep view gfn d t h e)))
      ]
    ]

-- A flush whose calls succeed brings the hypervisor in step: each page that is cached has there
-- what the cache says, each other page has what it had, and nothing is left to write.
pub flush_page_protections-InStep :
    (d : Driver) (t : Table ℕ)
    → InStep d t
    → let (calls, _, d') = flush_page_protections d in
      let t' = accept calls t in
      InStep d' t'
      × ((v g bits : ℕ) → find_in v g d.mem_access_cache ≡ some bits → t' v g ≡ bits)
      × ((v g : ℕ) → find_in v g d.mem_access_cache ≡ none → t' v g ≡ t v g)
      × ((v g : ℕ) → find_in v g d'.delayed_mem_access_write ≡ none)
unfolding flush_page_protections
flush_page_protections-InStep d t h =
    let clean = λ (v g : ℕ). find_in-emptied v g d.delayed_mem_access_write in
    let written = λ (v g : ℕ). accept-flush_calls 0 v g d.delayed_mem_access_write t h.ordered in
    (
      record {
        cached = λ v g bits e. ground (arith, clean v g, written v g, h.cached v g bits);
        pending = λ v g bits e. absurd (cc (clean v g));
        ordered = emptied-OrderedFrom 0 d.delayed_mem_access_write h.ordered;
      },
      λ v g bits e. written v g ∙ h.cached v g bits e,
      λ v g e. written v g ∙ quiet d t h v g e,
      clean,
    )

-- The convertible bit that was set last for a page is what the flush writes for it, the pending
-- bits of the other pages are written as they were, and no other bit changes.
pub flush-set_ept_page_convertible :
    (view addr v g : ℕ) (x : Bool) (d : Driver) (t : Table Bool)
    → Ordered d.delayed_convertible_write
    → let d' = (set_ept_page_convertible view addr x d).1 in
      accept (flush_page_protections d').1 t v g ≡ (
        if (view == v) && (gpa_to_gfn addr == g)
        then x
        else or_else (find_in v g d.delayed_convertible_write) (t v g))
unfolding set_ept_page_convertible flush_page_protections
flush-set_ept_page_convertible view addr v g x d t o =
    let gfn = gpa_to_gfn addr in
    let m = write_slot view gfn x d.delayed_convertible_write in
    accept-flush_calls 0 v g m t (write_slot-Ordered view gfn x d.delayed_convertible_write o)
    ∙ ground (arith, find_in-write_slot view gfn v g d.delayed_convertible_write x)
