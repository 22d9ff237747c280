-- ===== src/Kvm/Batch/Chunks.antt =====
-- The page protections of a view as messages of limited size (src/kvmdriver.cpp).
use Prim.Native.Nat.{bit_and}
use mathlib.Core.List.{append-nil, append_assoc}
use libbdvmi.Common.{
  ℕ, zero, suc, ◌≤◌, ◌<◌, ◌≡◌, refl, sym, ap, ◌∙◌, Bool, true, false, Option, some, List, [], ◌∷◌,
  ◌++◌, ◌*◌, ◌%◌, ◌^◌, ◌==◌, not, gfn_to_gpa, arith, length, Map, Bool-cases, inl, inr,
}
use libbdvmi.Driver.{Access, access_of_bits}
use libbdvmi.Kvm.Batch.{
  EventReply, Message, page_access, queue_registers, reply_event_message, take, drop, page_entries,
  add_chunks, set_page_protection_impl, queue_protections,
}

-- The single accesses that messages set, in order: view, address, access.
abbrev pub tag : ℕ → List (ℕ × Access) → List (ℕ × ℕ × Access)
tag view [] = []
tag view ((gpa, a) ∷ es) = (view, gpa, a) ∷ tag view es

abbrev pub accesses : List Message → List (ℕ × ℕ × Access)
accesses [] = []
accesses (page_access view es ∷ ms) = tag view es ++ accesses ms
accesses (queue_registers v r ∷ ms) = accesses ms
accesses (reply_event_message r ∷ ms) = accesses ms

-- What a view's map of page frames to bits asks for: at the address of each of its pages, 4096 times
-- the frame in 64 bits, read for bit 0, write for bit 1 and execute for bit 2.
abbrev pub protections : ℕ → Map ℕ → List (ℕ × ℕ × Access)
protections view [] = []
protections view ((gfn, bits) ∷ m) =
    (
      view,
      gfn * 4096 % 2 ^ 64,
      record {
        read = not (bit_and bits 1 == 0);
        write = not (bit_and bits 2 == 0);
        execute = not (bit_and bits 4 == 0);
      },
    )
    ∷ protections view m

-- What all views ask for.
abbrev pub all_protections : Map (Map ℕ) → List (ℕ × ℕ × Access)
all_protections [] = []
all_protections ((view, m) ∷ ms) = protections view m ++ all_protections ms

tag-page_entries : (view : ℕ) (m : Map ℕ) → tag view (page_entries m) ≡ protections view m
unfolding page_entries access_of_bits
tag-page_entries view [] = refl
tag-page_entries view ((gfn, bits) ∷ m) =
    ap (λ l. (view, gfn_to_gpa gfn, access_of_bits bits) ∷ l) (tag-page_entries view m)

-- The replies among messages, in order.
abbrev pub replies : List Message → List EventReply
replies [] = []
replies (page_access view es ∷ ms) = replies ms
replies (queue_registers v r ∷ ms) = replies ms
replies (reply_event_message r ∷ ms) = r ∷ replies ms

-- No message is empty or longer than the limit.
abbrev pub Fits : ℕ → List Message → Type 0
Fits max [] = Unit
Fits max (page_access view es ∷ ms) = (0 < length es) × (length es ≤ max) × Fits max ms
Fits max (queue_registers v r ∷ ms) = Fits max ms
Fits max (reply_event_message r ∷ ms) = Fits max ms

pub accesses-append : (xs ys : List Message) → accesses (xs ++ ys) ≡ accesses xs ++ accesses ys
accesses-append [] ys = refl
accesses-append (page_access view es ∷ xs) ys =
    ap (λ l. tag view es ++ l) (accesses-append xs ys)
    ∙ sym (append_assoc (tag view es) (accesses xs) (accesses ys))
accesses-append (queue_registers v r ∷ xs) ys = accesses-append xs ys
accesses-append (reply_event_message r ∷ xs) ys = accesses-append xs ys

pub replies-append : (xs ys : List Message) → replies (xs ++ ys) ≡ replies xs ++ replies ys
replies-append [] ys = refl
replies-append (page_access view es ∷ xs) ys = replies-append xs ys
replies-append (queue_registers v r ∷ xs) ys = replies-append xs ys
replies-append (reply_event_message r ∷ xs) ys = ap (λ l. r ∷ l) (replies-append xs ys)

pub Fits-append : (max : ℕ) (xs ys : List Message) → Fits max xs → Fits max ys → Fits max (xs ++ ys)
Fits-append max [] ys a b = b
Fits-append max (page_access view es ∷ xs) ys a b = (a.0, a.1, Fits-append max xs ys a.2 b)
Fits-append max (queue_registers v r ∷ xs) ys a b = Fits-append max xs ys a b
Fits-append max (reply_event_message r ∷ xs) ys a b = Fits-append max xs ys a b

tag-take :
    (n view : ℕ) (es : List (ℕ × Access))
    → tag view (take n es) ++ tag view (drop n es) ≡ tag view es
tag-take zero view es = refl
tag-take (suc n) view [] = refl
tag-take (suc n) view ((g, a) ∷ es) = ap (λ l. (view, g, a) ∷ l) (tag-take n view es)

length-take_le : (n : ℕ) (es : List (ℕ × Access)) → length (take n es) ≤ n
length-take_le zero es = omega arith
length-take_le (suc n) [] = omega arith
length-take_le (suc n) (e ∷ es) = omega (arith, length-take_le n es)

length-take_pos :
    (n : ℕ) (e : ℕ × Access) (es : List (ℕ × Access)) → 0 < n → 0 < length (take n (e ∷ es))
length-take_pos zero e es h = elim h [ ]
length-take_pos (suc n) e es h = omega arith

length-drop_le : (n : ℕ) (es : List (ℕ × Access)) → length (drop n es) ≤ length es
length-drop_le zero es = omega arith
length-drop_le (suc n) [] = omega arith
length-drop_le (suc n) (e ∷ es) = omega (arith, length-drop_le n es)

length-drop_lt :
    (n : ℕ) (e : ℕ × Access) (es : List (ℕ × Access)) → 0 < n → length (drop n (e ∷ es)) ≤ length es
length-drop_lt zero e es h = elim h [ ]
length-drop_lt (suc n) e es h = length-drop_le n es

-- A batch with one more message, which sets the first of the accesses that are left.
accesses_chunk :
    (n view : ℕ) (es : List (ℕ × Access)) (batch : List Message)
    → accesses (batch ++ page_access view (take n es) ∷ []) ++ tag view (drop n es)
      ≡ accesses batch ++ tag view es
accesses_chunk n view es batch =
    let head = tag view (take n es) in
    ap (λ l. l ++ tag view (drop n es))
      (accesses-append batch (page_access view (take n es) ∷ [])
        ∙ ap (λ l. accesses batch ++ l) (append-nil head))
    ∙ append_assoc (accesses batch) head (tag view (drop n es))
    ∙ ap (λ l. accesses batch ++ l) (tag-take n view es)

module _ (queues : Message → Bool) (max : ℕ) where
  -- The loop ends; the accesses that were to go have been added to the batch, in order, unless a
  -- message was refused.
  pub record Queued (wanted : List (ℕ × ℕ × Access)) (batch : List Message)
      (r : Option (Bool × List Message)) : Type 0 where
    pub ok : Bool
    pub after : List Message
    pub ends : r ≡ some (ok, after)
    pub all : ok ≡ true → accesses after ≡ accesses batch ++ wanted
    pub fits : Fits max batch → Fits max after
    pub quiet : replies after ≡ replies batch
    pub taken : ((c : Message) → queues c ≡ true) → ok ≡ true

  add_chunks_lem :
      (fuel view : ℕ) (left : List (ℕ × Access)) (batch : List Message)
      → 0 < max
      → length left < fuel
      → Queued (tag view left) batch (add_chunks queues max fuel view left batch)
  unfolding add_chunks
  add_chunks_lem zero view left batch pos short = absurd (omega arith)
  add_chunks_lem (suc fuel) view [] batch pos short = record {
    ok = true;
    after = batch;
    ends = refl;
    all = λ o. sym (append-nil (accesses batch));
    fits = λ f. f;
    quiet = refl;
    taken = λ q. refl;
  }
  add_chunks_lem (suc fuel) view (e ∷ left) batch pos short =
      let es = e ∷ left in
      let chunk = page_access view (take max es) in
      let small : length (drop max es) < fuel = omega (arith, length-drop_lt max e left pos) in
      let ih = add_chunks_lem fuel view (drop max es) (batch ++ chunk ∷ []) pos small in
      elim (Bool-cases (queues chunk)) [
        | inr refused ↦ record {
          ok = false;
          after = batch;
          ends = rw (refused, add_chunks);
          all = λ o. cc;
          fits = λ f. f;
          quiet = refl;
          taken = λ q. sym refused ∙ q chunk;
        }
        | inl queued ↦ record {
          ok = ih.ok;
          after = ih.after;
          ends = rw (queued, add_chunks) ih.ends;
          all = λ o. ih.all o ∙ accesses_chunk max view es batch;
          fits = λ f. ih.fits (
              Fits-append max batch (chunk ∷ []) f
                (length-take_pos max e left pos, length-take_le max es, tt));
          quiet = ih.quiet ∙ replies-append batch (chunk ∷ []) ∙ append-nil (replies batch);
          taken = ih.taken;
        }
      ]

  -- A view's map of page frames to bits, with a limit of at least one page to a message and a
  -- hypervisor that takes every message: the loop of setPageProtectionImpl ends, and the messages of
  -- the batch set what they did before and then, for each entry of the map, in order, in that view at
  -- the address 4096 times the frame (in 64 bits), read, write and execute by the bits 1, 2 and 4;
  -- no message is empty or beyond the limit if none was before.
  pub set_page_protection_impl-accesses :
      (m : Map ℕ) (view : ℕ) (batch : List Message)
      → 0 < max
      → Fits max batch
      → ((c : Message) → queues c ≡ true)
      → (after : List Message) × (set_page_protection_impl queues max m view batch
          ≡ some (true, after))
        × (accesses after ≡ accesses batch ++ protections view m)
        × Fits max after
  unfolding set_page_protection_impl
  set_page_protection_impl-accesses m view batch pos fits all =
      let es = page_entries m in
      let q = add_chunks_lem (suc (length es)) view es batch pos (omega arith) in
      let ok = q.taken all in
      (
        q.after,
        q.ends ∙ ap (λ o. some (o, q.after)) ok,
        q.all ok ∙ ap (λ l. accesses batch ++ l) (tag-page_entries view m),
        q.fits fits,
      )

  pub queue_protections-accesses :
      (calls : List (ℕ × Map ℕ)) (batch : List Message)
      → 0 < max
      → ((c : Message) → queues c ≡ true)
      → (after : List Message) × (queue_protections queues max calls batch ≡ some after)
        × (accesses after ≡ accesses batch ++ all_protections calls)
        × (Fits max batch → Fits max after)
        × (replies after ≡ replies batch)
  unfolding queue_protections
  queue_protections-accesses [] batch pos all =
      (batch, refl, sym (append-nil (accesses batch)), λ f. f, refl)
  queue_protections-accesses ((view, m) ∷ calls) batch pos all =
      let es = page_entries m in
      let q = add_chunks_lem (suc (length es)) view es batch pos (omega arith) in
      let (after, ends, has, fits, quiet) = queue_protections-accesses calls q.after pos all in
      let first : set_page_protection_impl queues max m view batch ≡ some (q.ok, q.after) =
        unfold set_page_protection_impl in q.ends in
      (
        after,
        rw (first, queue_protections) ends,
        has
            ∙ ap (λ l. l ++ all_protections calls) (q.all (q.taken all))
            ∙ append_assoc (accesses batch) (tag view es) (all_protections calls)
            ∙ ap (λ l. accesses batch ++ (l ++ all_protections calls)) (tag-page_entries view m),
        λ f. fits (q.fits f),
        quiet ∙ q.quiet,
      )
