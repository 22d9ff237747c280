-- ===== src/Xen/Watcher/Wait.antt =====
-- src/xendomainwatcher.cpp, waitForDomainsOrTimeout(): what each event of a watch leads to; and the
-- constructor and the destructor.

use libbdvmi.Common.{
  ℕ, Bool, true, false, ◌&&◌, ◌||◌, not, Option, none, some, [], ◌∷◌, ◌++◌, ltb, if◌then◌else◌,
  length, Map, erase, remove_id,
}
use libbdvmi.Watcher.{is_finished, Waited}
use libbdvmi.Xen.Watcher.{
  Key, Listing, Seen, Store, Text, Token, XenWatcher, call_xs, codes, control, dom, drop, equal,
  get_new_domains, introduce, introduce_key, is_self, name_key, other_token, post_resume,
  process_new_domain, release, release_key, rm, temporary_uuid_suffix, unwatch, uuid, uuid_of,
  vm_key, watch, without_prefix,
}

-- The loop over the known domains after a release; `m` has those still to look at.
unfoldable pub look_for_released : Store → Map Text → Seen → Seen
look_for_released st [] r = r
look_for_released st ((n, u) ∷ m) r =
    let s = r.watcher in
    look_for_released st m (
      if st.introduced n then r else record {
        ret = true;
        domains = r.domains ++ is_finished u ∷ [];
        watcher = record s {
          dom_ids = erase n s.dom_ids;
          pre_resume_domains = remove_id n s.pre_resume_domains;
        };
      })

-- The branch for a token "dom<domid>".
unfoldable pub name_arrived : Store → Key → ℕ → Seen → Seen
unfolding process_new_domain
name_arrived st key n r = elim (st.read key) [
  | none ↦ r
  | some called ↦
      let r' =
        if is_self st r.watcher.own_uuid n
        then r
        else process_new_domain n (uuid_of st n) called r in
      record r' { watcher = call_xs (unwatch key (dom n)) r'.watcher }
]

-- A domain has got its UUID: it is told of if it has its name.
unfoldable pub settle : Store → ℕ → Text → Seen → Seen
unfolding process_new_domain
settle st n u r =
    let r' : Seen = record r { watcher = call_xs (unwatch (vm_key n) (uuid n)) r.watcher } in
    elim (st.read (name_key n)) [
      | none ↦ record r' { watcher = call_xs (watch (name_key n) (dom n)) r'.watcher }
      | some called ↦ process_new_domain n u called r'
    ]

-- The branch for a token "uuid<domid>".
unfoldable pub uuid_arrived : Store → Key → ℕ → Seen → Seen
unfolding settle
uuid_arrived st key n r = elim (st.read key) [
  | none ↦ r
  | some value ↦
      let u = without_prefix value in
      if is_self st r.watcher.own_uuid n
      then r
      else if ltb 24 (length u) && not (equal (drop 24 u) temporary_uuid_suffix)
      then settle st n u r
      else r
]

-- What one call of waitForDomainsOrTimeout() meets: what poll() says, the event that readWatch()
-- reads, if it does, and the answers of XenStore and Xen.
pub record Moment : Type 0 where
  pub timed_out : Bool
  pub readable : Bool
  pub event : Option (Key × Token)
  pub store : Store
  pub listing : Listing

abbrev pub waited : Bool → Bool → Seen → Waited Text XenWatcher
waited threw stops r = record {
  threw = threw;
  ready = r.ret;
  domains = r.domains;
  stops = stops;
  suspends = false;
  backend = r.watcher;
}

-- A command that was written under the control key; the first event is no command.
unfoldable pub control_arrived : Store → Listing → Key → XenWatcher → Waited Text XenWatcher
unfolding get_new_domains
control_arrived st l key s =
    let listed = get_new_domains st l s in
    let nothing : Seen = record { ret = false; domains = []; watcher = s } in
    if s.first_control_command
    then waited false false
        (record nothing { watcher = record s { first_control_command = false } })
    else elim (st.read key) [
      | none ↦ waited false false nothing
      | some command ↦
          if equal command (codes "shutdown")
          then waited false true nothing
          else if equal command (codes "scandomains")
          then waited listed.0 false listed.1
          else waited false false nothing
    ]

unfoldable pub take_event : Store → Listing → Key → Token → XenWatcher → Waited Text XenWatcher
unfolding get_new_domains look_for_released name_arrived uuid_arrived control_arrived
take_event st l key token s =
    let nothing : Seen = record { ret = false; domains = []; watcher = s } in
    let listed = get_new_domains st l s in
    elim token [
      | introduce ↦ waited listed.0 false listed.1
      | release ↦ waited false false (look_for_released st s.dom_ids nothing)
      | control ↦ control_arrived st l key s
      | post_resume ↦ waited listed.0 false listed.1
      | dom n ↦ waited false false (name_arrived st key n nothing)
      | uuid n ↦ waited false false (uuid_arrived st key n nothing)
      | other_token ↦ waited false false nothing
    ]

unfoldable pub wait_for_domains_or_timeout : Moment → ℕ → XenWatcher → Waited Text XenWatcher
unfolding take_event
wait_for_domains_or_timeout t ms s =
    let nothing = waited false false (record { ret = false; domains = []; watcher = s }) in
    if t.timed_out || not t.readable then nothing else elim t.event [
      | none ↦ nothing
      | some (key, token) ↦ take_event t.store t.listing key token s
    ]

-- The constructor, by whether the two watches are accepted: if it does not throw, and its calls.
unfoldable pub construct : Text → Bool → Bool → Bool × XenWatcher
construct own introduces releases =
    let s : XenWatcher = record {
      own_uuid = own;
      control_path = none;
      dom_ids = [];
      first_control_command = true;
      key_created = false;
      pre_resume_domains = [];
      xs_calls = watch introduce_key introduce ∷ [];
    } in
    let s' = call_xs (watch release_key release) s in
    if not introduces
    then (false, s)
    else if not releases
    then (false, call_xs (unwatch introduce_key introduce) s')
    else (true, s')

unfoldable pub destruct : XenWatcher → XenWatcher
destruct s =
    let s' = call_xs (unwatch release_key release) (call_xs (unwatch introduce_key introduce) s) in
    elim s.control_path [
      | none ↦ s'
      | some key ↦ call_xs (rm key) (call_xs (unwatch key control) s')
    ]

-- accessGranted(), by whether domainGetInfo() is refused for want of rights.
unfoldable pub access_granted : Bool → Bool
access_granted denied = not denied
