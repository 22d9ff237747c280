-- ===== src/Xen/Watcher/News.antt =====
-- The new guests that Xen lists (src/xendomainwatcher.cpp, getNewDomains()).
use mathlib.Core.List.{append-nil, append_assoc}
use libbdvmi.Common.{
  ℕ, suc, ◌≡◌, refl, Bool, true, false, ◌&&◌, ◌||◌, not, Option, some, List, [], ◌∷◌, ◌++◌, ◌==◌,
  arith, is_some, is_empty, if◌then◌else◌, Map, find, find-insert, insert, contains, ◌<◌, ◌≤◌,
  Bool-cases, inl, inr, ◌∙◌,
}
use libbdvmi.Watcher.{DomainInfo, is_new}
use libbdvmi.Xen.Watcher.{
  Text, name_key, pre_resume_key, Store, XenWatcher, is_temporary, text_or_empty, uuid_of, is_self,
  Seen, init_control_key, resumed, process_new_domain, meet, look_at, look_at_all, Listing,
  get_new_domains,
}

-- Whether the guest is one to tell of: introduced, not going to resume, named, not the introspector's
-- own, and with a UUID that is not temporary.
unfoldable pub is_ready : Store → Text → ℕ → Bool
is_ready st own n =
    not (is_some (st.read (pre_resume_key n)))
    && st.introduced n
    && is_some (st.read (name_key n))
    && not (is_self st own n)
    && not (is_temporary (uuid_of st n))

-- The guests of a listing that are to be told of, in its order, by what was known before.
abbrev pub news : Store → Text → Map Text → List ℕ → List (DomainInfo Text)
news st own known [] = []
news st own known (n ∷ ns) =
    let rest = news st own known ns in
    if is_ready st own n && not (is_some (find n known))
    then is_new (uuid_of st n) (text_or_empty (st.read (name_key n))) ∷ rest
    else rest

-- The listing ascends from `b` on.
abbrev pub Ascends : ℕ → List ℕ → Type 0
Ascends b [] = Unit
Ascends b (n ∷ ns) = (b ≤ n) × Ascends (suc n) ns

-- What is told of one guest, and what is known after it.
abbrev Told : Store → ℕ → Bool → Seen → Seen → Type 0
Told st n fresh r r' =
    (r'.watcher.own_uuid ≡ r.watcher.own_uuid)
    × (r'.ret ≡ (r.ret || fresh))
    × (r'.domains ≡ (
        if fresh
        then r.domains ++ is_new (uuid_of st n) (text_or_empty (st.read (name_key n))) ∷ []
        else r.domains))
    × (r'.watcher.dom_ids
        ≡ (if fresh then insert n (uuid_of st n) r.watcher.dom_ids else r.watcher.dom_ids))

abbrev told_of : Store → Text → ℕ → Bool
told_of st own n =
    is_some (st.read (name_key n)) && not (is_self st own n) && not (is_temporary (uuid_of st n))

meet-Told :
    (st : Store) (n : ℕ) (r : Seen) → Told st n (told_of st r.watcher.own_uuid n) r (meet st n r)
unfolding meet process_new_domain init_control_key
meet-Told st n r = ground arith

look_at-Told :
    (st : Store) (n : ℕ) (r : Seen)
    → Told st n
        (is_ready st r.watcher.own_uuid n && not (is_some (find n r.watcher.dom_ids)))
        r
        (look_at st n r)
unfolding look_at is_ready
look_at-Told st n r = ground (arith, meet-Told st n (record r { watcher = resumed n r.watcher }))

-- What is known of a guest after a listing.
abbrev pub known_after : Store → Text → Map Text → List ℕ → ℕ → Option Text
known_after st own known ns k =
    if contains k ns && is_ready st own k && not (is_some (find k known))
    then some (uuid_of st k)
    else find k known

news-insert :
    (st : Store) (own u : Text) (b n : ℕ) (known : Map Text) (ns : List ℕ)
    → Ascends b ns
    → n < b
    → news st own (insert n u known) ns ≡ news st own known ns
news-insert st own u b n known [] a h = refl
news-insert st own u b n known (m ∷ ns) a h =
    ground (arith, news-insert st own u (suc m) n known ns a.1, find-insert n m u known)

contains-above : (b k : ℕ) (ns : List ℕ) → Ascends b ns → k < b → contains k ns ≡ false
unfolding contains
contains-above b k [] a h = refl
contains-above b k (m ∷ ns) a h = ground (arith, contains-above (suc m) k ns a.1)

look_at_all_lem :
    (st : Store) (b : ℕ) (ns : List ℕ) (r : Seen)
    → Ascends b ns
    → let own = r.watcher.own_uuid in
      let known = r.watcher.dom_ids in
      let new = news st own known ns in
      let r' = look_at_all st ns r in
      (r'.watcher.own_uuid ≡ own)
      × (r'.ret ≡ (r.ret || not (is_empty new)))
      × (r'.domains ≡ r.domains ++ new)
unfolding look_at_all
look_at_all_lem st b [] r a = ground (arith, append-nil r.domains)
look_at_all_lem st b (n ∷ ns) r a =
    let r' = look_at st n r in
    let t = look_at-Told st n r in
    let i = look_at_all_lem st (suc n) ns r' a.1 in
    let u = uuid_of st n in
    let d = is_new u (text_or_empty (st.read (name_key n))) in
    ground (
      arith,
      t,
      i,
      news-insert st r.watcher.own_uuid u (suc n) n r.watcher.dom_ids ns a.1,
      append_assoc r.domains (d ∷ []) (news st r.watcher.own_uuid r.watcher.dom_ids ns),
    )

look_at_all-dom_ids :
    (st : Store) (b : ℕ) (ns : List ℕ) (r : Seen) (k : ℕ)
    → Ascends b ns
    → find k (look_at_all st ns r).watcher.dom_ids
      ≡ known_after st r.watcher.own_uuid r.watcher.dom_ids ns k
unfolding look_at_all contains
look_at_all-dom_ids st b [] r k a = refl
look_at_all-dom_ids st b (n ∷ ns) r k a =
    let r' = look_at st n r in
    let t = look_at-Told st n r in
    let i = look_at_all-dom_ids st (suc n) ns r' k a.1 in
    let put = find-insert n k (uuid_of st n) r.watcher.dom_ids in
    elim (Bool-cases (n == k)) [
      | inl same ↦
          let at : n ≡ k = ground arith in
          let past : contains k ns ≡ false = contains-above (suc n) k ns a.1 (omega arith) in
          ground (arith, i, t, past, at, put)
      | inr other ↦ ground (arith, i, t, put)
    ]

news_known :
    (st : Store) (own : Text) (known : Map Text) (ns : List ℕ)
    → ((k : ℕ) → contains k ns ≡ true → is_ready st own k ≡ true → is_some (find k known) ≡ true)
    → news st own known ns ≡ []
unfolding contains
news_known st own known [] h = refl
news_known st own known (n ∷ ns) h =
    let i = news_known st own known ns (λ k c. h k (ground arith)) in ground (arith, i, h n)

-- getNewDomains() tells of the guests of the listing that are ready and were not known, in their
-- order, and of no other; it returns true exactly if there is one, and throws exactly if Xen refuses
-- the access. After it those guests are known, and what was known stays so.
pub get_new_domains_lem :
    (st : Store) (l : Listing) (s : XenWatcher)
    → Ascends 0 l.domids
    → let (threw, r) = get_new_domains st l s in
      let new = news st s.own_uuid s.dom_ids l.domids in
      (r.domains ≡ new)
      × (r.ret ≡ not (is_empty new))
      × (threw ≡ l.denied)
      × (r.watcher.own_uuid ≡ s.own_uuid)
      × ((k : ℕ) → find k r.watcher.dom_ids ≡ known_after st s.own_uuid s.dom_ids l.domids k)
unfolding get_new_domains
get_new_domains_lem st l s a =
    let r : Seen = record { ret = false; domains = []; watcher = s } in
    let t = look_at_all_lem st 0 l.domids r a in
    (t.2, t.1, refl, t.0, λ k. look_at_all-dom_ids st 0 l.domids r k a)

-- The guests that one listing takes for known are not told of by the next, whichever of the two
-- calls throws.
pub get_new_domains-again :
    (st : Store) (l : Listing) (again : Bool) (s : XenWatcher)
    → Ascends 0 l.domids
    → let s' = (get_new_domains st l s).1.watcher in
      (get_new_domains st (record l { denied = again }) s').1.domains ≡ []
unfolding get_new_domains
get_new_domains-again st l again s a =
    let r : Seen = record { ret = false; domains = []; watcher = s } in
    let s' = (look_at_all st l.domids r).watcher in
    let own = (look_at_all_lem st 0 l.domids r a).0 in
    let known = news_known st s'.own_uuid s'.dom_ids l.domids (λ k c e.
      rw (look_at_all-dom_ids st 0 l.domids r k a)
        (let e' : is_ready st s.own_uuid k ≡ true = rw own at e in ground arith)) in
    (get_new_domains_lem st (record l { denied = again }) s' a).0 ∙ known
