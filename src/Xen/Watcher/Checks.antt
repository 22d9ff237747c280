-- ===== src/Xen/Watcher/Checks.antt =====
-- A guest that Xen lists, is named, and is released (src/xendomainwatcher.cpp).
use libbdvmi.Common.{
  ◌≤◌, ◌≡◌, refl, true, false, Option, none, some, [], ◌∷◌, ◌==◌, if◌then◌else◌, find, contains,
  arith,
}
use libbdvmi.Watcher.{is_new, is_finished, Watcher, round}
use libbdvmi.Xen.Watcher.{
  Text, Key, pre_resume_key, name_key, vm_key, introduce_key, release_key, introduce, release, dom,
  post_resume, watch, Store, XenWatcher, uuid_of, is_self, is_temporary, Listing, get_new_domains,
}
use libbdvmi.Xen.Watcher.Wait.{Moment, wait_for_domains_or_timeout}
use libbdvmi.Xen.Watcher.News.{is_ready, get_new_domains_lem, get_new_domains-again}
use libbdvmi.Xen.Watcher.Releases.{Arrives, release_lem}
use libbdvmi.Xen.Watcher.Twice.{finds, found_twice}
use libbdvmi.Xen.Watcher.Resumes.{awaited, get_new_domains-awaited, release-awaited}

-- Guest 5 has the UUID "ab" and the name "x"; guest 7 is going to resume.
abbrev read : Key → Option Text
read (pre_resume_key n) = if n == 7 then some [] else none
read (name_key n) = if n == 5 then some (b'x' ∷ []) else none
read (vm_key n) = some (b'/' ∷ b'v' ∷ b'm' ∷ b'/' ∷ b'a' ∷ b'b' ∷ [])
read _ = none

abbrev store : Store
store = record { read = read; introduced = λ n. n == 5 }

abbrev listing : Listing
listing = record { domids = 5 ∷ 7 ∷ []; denied = false }

abbrev idle : XenWatcher
idle = record {
  own_uuid = b'm' ∷ [];
  control_path = none;
  dom_ids = [];
  first_control_command = true;
  key_created = false;
  pre_resume_domains = [];
  xs_calls = [];
}

get_new_domains_lem_example :
    (get_new_domains store listing idle).1.domains ≡ is_new (b'a' ∷ b'b' ∷ []) (b'x' ∷ []) ∷ []
unfolding is_ready is_self is_temporary uuid_of find
get_new_domains_lem_example = (get_new_domains_lem store listing idle (omega arith)).0

get_new_domains-again_run :
    let s' = (get_new_domains store listing idle).1.watcher in
    (get_new_domains store (record listing { denied = true }) s').1.domains ≡ []
get_new_domains-again_run = get_new_domains-again store listing true idle (omega arith)

get_new_domains-awaited_run :
    awaited 7 (get_new_domains store listing idle).1.watcher.xs_calls ≡ true
unfolding contains
get_new_domains-awaited_run = (get_new_domains-awaited store listing idle 7 refl).1

-- Guest 9 is known and not introduced any more, and is awaited to resume.
abbrev with_old : XenWatcher
with_old = record idle {
  dom_ids = (9, b'o' ∷ []) ∷ [];
  pre_resume_domains = 9 ∷ [];
  xs_calls = watch (pre_resume_key 9) post_resume ∷ [];
}

abbrev released : Moment
released = record {
  timed_out = false;
  readable = true;
  event = some (release_key, release);
  store = store;
  listing = listing;
}

release-Arrives : Arrives released release_key release
release-Arrives = record { in_time = refl; readable = refl; read = refl }

release_lem_example :
    (wait_for_domains_or_timeout released 100 with_old).domains ≡ is_finished (b'o' ∷ []) ∷ []
release_lem_example = (release_lem released 100 release_key with_old release-Arrives).0

release-awaited_run :
    let s' = (wait_for_domains_or_timeout released 100 with_old).backend in
    (contains 9 s'.pre_resume_domains ≡ false) × (awaited 9 s'.xs_calls ≡ true)
unfolding find contains
release-awaited_run =
    release-awaited released 100 release_key with_old 9 release-Arrives refl refl refl refl

abbrev loop : Watcher Text XenWatcher
loop = record {
  stopped = false;
  suspend_introspector_domain = false;
  has_handler = true;
  ms = 100;
  backend = idle;
  calls = [];
  ended = false;
}

abbrev introduced : Moment
introduced = record released { event = some (introduce_key, introduce) }

abbrev named : Moment
named = record released { event = some (name_key 5, dom 5) }

found_twice_example :
    let w' = round wait_for_domains_or_timeout false introduced loop in
    2 ≤ finds (uuid_of store 5) (round wait_for_domains_or_timeout false named w').calls
unfolding is_ready is_self is_temporary uuid_of find contains
found_twice_example =
    found_twice loop introduced named introduce_key 5 refl refl
      (record { in_time = refl; readable = refl; read = refl }) (omega arith) refl refl refl refl
      (record { in_time = refl; readable = refl; read = refl }) refl
