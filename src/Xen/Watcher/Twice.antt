-- ===== src/Xen/Watcher/Twice.antt =====
-- A guest whose name comes while it is being listed (src/xendomainwatcher.cpp,
-- src/domainwatcher.cpp).
use libbdvmi.Common.{
  ℕ, suc, ◌≤◌, ◌≡◌, refl, true, false, not, none, some, List, [], ◌∷◌, arith, is_some, is_empty,
  if◌then◌else◌, Map, find, contains, ◌∙◌, inl, inr, Option-cases,
}
use libbdvmi.Watcher.{
  DomainInfo, is_new, is_finished, HandlerCall, domain_found, domain_finished, cleanup, Watcher,
  tell, round,
}
use libbdvmi.Xen.Watcher.{
  Text, equal, Key, name_key, Store, XenWatcher, is_self, uuid_of, dom, introduce, text_or_empty,
  get_new_domains, process_new_domain,
}
use libbdvmi.Xen.Watcher.Wait.{
  Moment, wait_for_domains_or_timeout, take_event, waited, name_arrived,
}
use libbdvmi.Watcher.Told.{round_lem}
use libbdvmi.Xen.Watcher.Releases.{Arrives}
use libbdvmi.Xen.Watcher.News.{is_ready, news, Ascends, get_new_domains_lem}

-- How often a guest with this UUID was found.
abbrev pub finds : Text → List (HandlerCall Text) → ℕ
finds u [] = 0
finds u (domain_found v n ∷ cs) = if equal v u then suc (finds u cs) else finds u cs
finds u (domain_finished v ∷ cs) = finds u cs
finds u (cleanup b ∷ cs) = finds u cs

equal_refl : (t : Text) → equal t t ≡ true
equal_refl [] = refl
equal_refl (b ∷ bs) = ground (arith, equal_refl bs)

finds-le-tell :
    (u : Text) (ds : List (DomainInfo Text)) (cs : List (HandlerCall Text))
    → finds u cs ≤ finds u (tell true ds cs)
finds-le-tell u [] cs = omega arith
finds-le-tell u (is_new v n ∷ ds) cs = ground (arith, finds-le-tell u ds (domain_found v n ∷ cs))
finds-le-tell u (is_finished v ∷ ds) cs =
    ground (arith, finds-le-tell u ds (domain_finished v ∷ cs))

-- A guest that is among the news is found.
finds-news :
    (st : Store) (own : Text) (known : Map Text) (n : ℕ) (ns : List ℕ)
    (cs : List (HandlerCall Text))
    → contains n ns ≡ true
    → is_ready st own n ≡ true
    → find n known ≡ none
    → 1 ≤ finds (uuid_of st n) (tell true (news st own known ns) cs)
unfolding contains
finds-news st own known n [] cs c r k = cc
finds-news st own known n (m ∷ ns) cs c r k =
    let called = text_or_empty (st.read (name_key m)) in
    let told = domain_found (uuid_of st m) called ∷ cs in
    ground (
      arith,
      equal_refl (uuid_of st n),
      finds-le-tell (uuid_of st n) (news st own known ns) told,
      finds-news st own known n ns cs,
      finds-news st own known n ns told,
    )

introduce_lem :
    (t : Moment) (key : Key) (ms : ℕ) (s : XenWatcher)
    → Arrives t key introduce
    → let (threw, r) = get_new_domains t.store t.listing s in
      wait_for_domains_or_timeout t ms s ≡ waited threw false r
unfolding wait_for_domains_or_timeout take_event
introduce_lem t key ms s a = rw (a.in_time, a.readable, a.read) (refl)

name_lem :
    (t : Moment) (key : Key) (n ms : ℕ) (s : XenWatcher)
    → Arrives t key (dom n)
    → wait_for_domains_or_timeout t ms s
      ≡ waited false false
          (name_arrived t.store key n (record { ret = false; domains = []; watcher = s }))
unfolding wait_for_domains_or_timeout take_event
name_lem t key n ms s a = rw (a.in_time, a.readable, a.read) (refl)

name_arrived_lem :
    (st : Store) (key : Key) (n : ℕ) (called : Text) (s : XenWatcher)
    → st.read key ≡ some called
    → is_self st s.own_uuid n ≡ false
    → let r = name_arrived st key n (record { ret = false; domains = []; watcher = s }) in
      (r.ret ≡ true) × (r.domains ≡ is_new (uuid_of st n) called ∷ [])
unfolding name_arrived process_new_domain
name_arrived_lem st key n called s e other = ground arith

tell_if :
    (ds : List (DomainInfo Text)) (cs : List (HandlerCall Text))
    → (if not (is_empty ds) then tell true ds cs else cs) ≡ tell true ds cs
tell_if [] cs = refl
tell_if (d ∷ ds) cs = refl

ready-named :
    (st : Store) (own : Text) (n : ℕ)
    → is_ready st own n ≡ true
    → (is_some (st.read (name_key n)) ≡ true) × (is_self st own n ≡ false)
unfolding is_ready
ready-named st own n r = ground arith

abbrev XenLoop : Type 0
XenLoop = Watcher Text XenWatcher

listed_round :
    (w : XenLoop) (t : Moment) (key : Key)
    → w.stopped ≡ false
    → w.has_handler ≡ true
    → Arrives t key introduce
    → Ascends 0 t.listing.domids
    → t.listing.denied ≡ false
    → let w' = round wait_for_domains_or_timeout false t w in
      (w'.calls
        ≡ tell true (news t.store w.backend.own_uuid w.backend.dom_ids t.listing.domids) w.calls)
      × (w'.backend.own_uuid ≡ w.backend.own_uuid)
      × (w'.stopped ≡ false)
      × (w'.has_handler ≡ true)
listed_round w t key on has at up granted =
    let q = introduce_lem t key w.ms w.backend at in
    let g = get_new_domains_lem t.store t.listing w.backend up in
    let threw : (wait_for_domains_or_timeout t w.ms w.backend).threw ≡ false =
      rw q (g.2 ∙ granted) in
    let l = round_lem wait_for_domains_or_timeout t w on has threw in
    let new = news t.store w.backend.own_uuid w.backend.dom_ids t.listing.domids in
    (rw (l.0, q, g.1, g.0) (tell_if new w.calls), rw (l.1, q) (g.3), rw (l.2, q) (refl), l.3)

named_round :
    (w : XenLoop) (t : Moment) (key : Key) (n : ℕ) (called : Text)
    → w.stopped ≡ false
    → w.has_handler ≡ true
    → Arrives t key (dom n)
    → t.store.read key ≡ some called
    → is_self t.store w.backend.own_uuid n ≡ false
    → (round wait_for_domains_or_timeout false t w).calls
      ≡ domain_found (uuid_of t.store n) called ∷ w.calls
named_round w t key n called on has at e other =
    let q = name_lem t key n w.ms w.backend at in
    let g = name_arrived_lem t.store key n called w.backend e other in
    let threw : (wait_for_domains_or_timeout t w.ms w.backend).threw ≡ false = rw q (refl) in
    let l = round_lem wait_for_domains_or_timeout t w on has threw in rw (l.0, q, g.0, g.1) (refl)

-- A guest of the listing that is ready and was not known is found twice if its name has been watched
-- and the event of that comes after the listing.
pub found_twice :
    (w : XenLoop) (t t' : Moment) (key : Key) (n : ℕ)
    → w.has_handler ≡ true
    → w.stopped ≡ false
    → Arrives t key introduce
    → Ascends 0 t.listing.domids
    → t.listing.denied ≡ false
    → contains n t.listing.domids ≡ true
    → is_ready t.store w.backend.own_uuid n ≡ true
    → find n w.backend.dom_ids ≡ none
    → Arrives t' (name_key n) (dom n)
    → t'.store ≡ t.store
    → let w' = round wait_for_domains_or_timeout false t w in
      2 ≤ finds (uuid_of t.store n) (round wait_for_domains_or_timeout false t' w').calls
found_twice w t t' key n has on at up granted there ready unknown at' same =
    let w' = round wait_for_domains_or_timeout false t w in
    let own = w.backend.own_uuid in
    let l = listed_round w t key on has at up granted in
    let r = ready-named t.store own n ready in
    let once =
      finds-news t.store own w.backend.dom_ids n t.listing.domids w.calls there ready unknown in
    elim (Option-cases (t.store.read (name_key n))) [
      | inl nameless ↦ absurd (ground arith)
      | inr (called, e) ↦
          let other : is_self t'.store w'.backend.own_uuid n ≡ false = rw (same, l.1) (r.1) in
          let named : t'.store.read (name_key n) ≡ some called = rw same e in
          let twice = named_round w' t' (name_key n) n called l.2 l.3 at' named other in
          rw (twice, same, l.0) (ground (arith, once, equal_refl (uuid_of t.store n)))
    ]
