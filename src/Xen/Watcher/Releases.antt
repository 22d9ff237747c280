-- ===== src/Xen/Watcher/Releases.antt =====
-- Guests that were released, and guests whose name or UUID comes later (src/xendomainwatcher.cpp,
-- waitForDomainsOrTimeout()).
use mathlib.Core.List.{append-nil, append_assoc}
use libbdvmi.Common.{
  ℕ, ◌≡◌, refl, true, false, ◌&&◌, ◌||◌, not, none, some, List, [], ◌∷◌, ◌++◌, arith, is_some,
  is_empty, if◌then◌else◌, Map, find, erase, find-erase, contains, remove_id, contains-remove_id,
}
use libbdvmi.Watcher.{DomainInfo, is_finished}
use libbdvmi.Xen.Watcher.{Text, Key, Store, XenWatcher, Seen, Token, release}
use libbdvmi.Xen.Watcher.Wait.{look_for_released, Moment, wait_for_domains_or_timeout}

-- The call has read an event with the token at the path.
pub record Arrives (t : Moment) (key : Key) (token : Token) : Type 0 where
  pub in_time : t.timed_out ≡ false
  pub readable : t.readable ≡ true
  pub read : t.event ≡ some (key, token)

-- The known guests that are not introduced any more.
abbrev pub gone : Store → Map Text → List (DomainInfo Text)
gone st [] = []
gone st ((n, u) ∷ m) =
    let rest = gone st m in if st.introduced n then rest else is_finished u ∷ rest

pub look_for_released_lem :
    (st : Store) (m : Map Text) (r : Seen)
    → let r' = look_for_released st m r in
      (r'.domains ≡ r.domains ++ gone st m)
      × (r'.ret ≡ (r.ret || not (is_empty (gone st m))))
      × ((k : ℕ)
          → find k r'.watcher.dom_ids ≡ (
              if is_some (find k m) && not (st.introduced k)
              then none
              else find k r.watcher.dom_ids))
      × ((k : ℕ)
          → contains k r'.watcher.pre_resume_domains ≡ (
              contains k r.watcher.pre_resume_domains
              && not (is_some (find k m) && not (st.introduced k))))
unfolding look_for_released find
look_for_released_lem st [] r =
    (ground (arith, append-nil r.domains), ground arith, λ k. refl, λ k. ground arith)
look_for_released_lem st ((n, u) ∷ m) r =
    let s = r.watcher in
    let r' : Seen = if st.introduced n then r else record {
      ret = true;
      domains = r.domains ++ is_finished u ∷ [];
      watcher = record s {
        dom_ids = erase n s.dom_ids;
        pre_resume_domains = remove_id n s.pre_resume_domains;
      };
    } in
    let i = look_for_released_lem st m r' in
    (
      ground (arith, i.0, append_assoc r.domains (is_finished u ∷ []) (gone st m)),
      ground (arith, i.1),
      λ k. ground (arith, i.2 k, find-erase n k s.dom_ids),
      λ k. ground (arith, i.3 k, contains-remove_id n k s.pre_resume_domains),
    )

-- After a release the guests that are known and not introduced any more are told of as finished, in
-- their order, and no other; they are not known then, nor awaited to resume, and the others stay.
pub release_lem :
    (t : Moment) (ms : ℕ) (key : Key) (s : XenWatcher)
    → Arrives t key release
    → let r = wait_for_domains_or_timeout t ms s in
      (r.domains ≡ gone t.store s.dom_ids)
      × (r.ready ≡ not (is_empty (gone t.store s.dom_ids)))
      × ((k : ℕ)
          → find k r.backend.dom_ids ≡ (if t.store.introduced k then find k s.dom_ids else none))
      × ((k : ℕ)
          → contains k r.backend.pre_resume_domains ≡ (
              contains k s.pre_resume_domains
              && not (is_some (find k s.dom_ids) && not (t.store.introduced k))))
unfolding wait_for_domains_or_timeout
release_lem t ms key s at =
    let r : Seen = record { ret = false; domains = []; watcher = s } in
    let i = look_for_released_lem t.store s.dom_ids r in
    rw (at.in_time, at.readable, at.read) (ground (arith, i))
