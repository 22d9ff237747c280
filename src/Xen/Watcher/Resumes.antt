-- ===== src/Xen/Watcher/Resumes.antt =====
-- The guests that are going to resume, and the watches for the end of that
-- (src/xendomainwatcher.cpp).
use libbdvmi.Common.{
  ℕ, ◌≡◌, refl, Bool, true, false, some, List, [], ◌∷◌, ◌++◌, ◌==◌, arith, is_some, if◌then◌else◌,
  Map, find, erase, contains, remove_id, contains-add_id, contains-remove_id,
}
use libbdvmi.Xen.Watcher.{
  Text, Key, pre_resume_key, post_resume, release, XsCall, watch, unwatch, Store, XenWatcher, Seen,
  await_resume, resumed, meet, look_at, look_at_all, Listing, get_new_domains, init_control_key,
  process_new_domain,
}
use libbdvmi.Xen.Watcher.Wait.{Moment, wait_for_domains_or_timeout, look_for_released}
use libbdvmi.Watcher.{is_finished}
use libbdvmi.Xen.Watcher.Releases.{Arrives, look_for_released_lem}

-- Whether the watch for the end of the resuming of a guest is set.
abbrev pub awaited : ℕ → List XsCall → Bool
awaited k [] = false
awaited k (watch (pre_resume_key n) post_resume ∷ cs) = if n == k then true else awaited k cs
awaited k (unwatch (pre_resume_key n) post_resume ∷ cs) = if n == k then false else awaited k cs
awaited k (c ∷ cs) = awaited k cs

abbrev pub Awaits : ℕ → XenWatcher → Type 0
Awaits k s = contains k s.pre_resume_domains ≡ awaited k s.xs_calls

await_resume-Awaits : (k n : ℕ) (s : XenWatcher) → Awaits k s → Awaits k (await_resume n s)
unfolding await_resume
await_resume-Awaits k n s a = ground (arith, contains-add_id n k s.pre_resume_domains)

resumed-Awaits : (k n : ℕ) (s : XenWatcher) → Awaits k s → Awaits k (resumed n s)
unfolding resumed
resumed-Awaits k n s a = ground (arith, contains-remove_id n k s.pre_resume_domains)

meet-Awaits :
    (k n : ℕ) (st : Store) (r : Seen) → Awaits k r.watcher → Awaits k (meet st n r).watcher
unfolding meet init_control_key process_new_domain
meet-Awaits k n st r a = ground arith

look_at-Awaits :
    (k n : ℕ) (st : Store) (r : Seen) → Awaits k r.watcher → Awaits k (look_at st n r).watcher
unfolding look_at
look_at-Awaits k n st r a = ground (
  arith,
  await_resume-Awaits k n r.watcher a,
  meet-Awaits k n st (record r { watcher = resumed n r.watcher }),
  resumed-Awaits k n r.watcher a,
)

meet-pre_resume_domains :
    (n : ℕ) (st : Store) (r : Seen)
    → (meet st n r).watcher.pre_resume_domains ≡ r.watcher.pre_resume_domains
unfolding meet init_control_key process_new_domain
meet-pre_resume_domains n st r = ground arith

look_at-pre_resume_domains :
    (k n : ℕ) (st : Store) (r : Seen)
    → contains k (look_at st n r).watcher.pre_resume_domains ≡ (
        if n == k
        then is_some (st.read (pre_resume_key k))
        else contains k r.watcher.pre_resume_domains)
unfolding look_at await_resume resumed
look_at-pre_resume_domains k n st r = ground (
  arith,
  contains-add_id n k r.watcher.pre_resume_domains,
  contains-remove_id n k r.watcher.pre_resume_domains,
  meet-pre_resume_domains n st (record r { watcher = resumed n r.watcher }),
)

look_at_all-resumes :
    (k : ℕ) (st : Store) (ns : List ℕ) (r : Seen)
    → Awaits k r.watcher
    → let s' = (look_at_all st ns r).watcher in
      Awaits k s'
      × (contains k s'.pre_resume_domains ≡ (
          if contains k ns
          then is_some (st.read (pre_resume_key k))
          else contains k r.watcher.pre_resume_domains))
unfolding look_at_all contains
look_at_all-resumes k st [] r a = (a, refl)
look_at_all-resumes k st (n ∷ ns) r a =
    let r' = look_at st n r in
    let i = look_at_all-resumes k st ns r' (look_at-Awaits k n st r a) in
    (i.0, ground (arith, i.1, look_at-pre_resume_domains k n st r))

-- getNewDomains() keeps the set of the guests that are going to resume in step with the watches: in
-- the end the watch of a listed guest is set exactly if its key says that it is going to resume, and
-- that of any other guest exactly if it was set before.
pub get_new_domains-awaited :
    (st : Store) (l : Listing) (s : XenWatcher) (k : ℕ)
    → Awaits k s
    → let s' = (get_new_domains st l s).1.watcher in
      Awaits k s'
      × (awaited k s'.xs_calls ≡ (
          if contains k l.domids
          then is_some (st.read (pre_resume_key k))
          else awaited k s.xs_calls))
unfolding get_new_domains
get_new_domains-awaited st l s k a =
    let i =
      look_at_all-resumes k st l.domids (record { ret = false; domains = []; watcher = s }) a in
    (i.0, ground (arith, i.0, i.1, a))

look_for_released-xs_calls :
    (st : Store) (m : Map Text) (r : Seen)
    → (look_for_released st m r).watcher.xs_calls ≡ r.watcher.xs_calls
unfolding look_for_released
look_for_released-xs_calls st [] r = refl
look_for_released-xs_calls st ((n, u) ∷ m) r =
    let s = r.watcher in
    let r' : Seen = record {
      ret = true;
      domains = r.domains ++ is_finished u ∷ [];
      watcher = record s {
        dom_ids = erase n s.dom_ids;
        pre_resume_domains = remove_id n s.pre_resume_domains;
      };
    } in
    ground (arith, look_for_released-xs_calls st m r, look_for_released-xs_calls st m r')

-- A guest that is released while it is awaited to resume is taken off the set, but its watch stays.
pub release-awaited :
    (t : Moment) (ms : ℕ) (key : Key) (s : XenWatcher) (k : ℕ) {u : Text}
    → Arrives t key release
    → find k s.dom_ids ≡ some u
    → t.store.introduced k ≡ false
    → Awaits k s
    → contains k s.pre_resume_domains ≡ true
    → let s' = (wait_for_domains_or_timeout t ms s).backend in
      (contains k s'.pre_resume_domains ≡ false) × (awaited k s'.xs_calls ≡ true)
unfolding wait_for_domains_or_timeout
release-awaited t ms key s k at known left a resumes =
    let r : Seen = record { ret = false; domains = []; watcher = s } in
    let i = look_for_released_lem t.store s.dom_ids r in
    let same = look_for_released-xs_calls t.store s.dom_ids r in
    rw (at.in_time, at.readable, at.read) (ground (arith, i.3 k, same))
