-- ===== src/Kvm/Watcher.antt =====
-- src/kvmdomainwatcher.cpp and src/kvmdomainwatcher.h: the guests that have connected, from the
-- callbacks of libkvmi, the calls of the application around the child process of each guest, and the
-- reading of their sockets. UUIDs and names are numbers, in the order in which the map is gone
-- through; the connection that libkvmi hands over is a number.
mod Alternate
mod System
mod InStep
mod Reach
mod Heard
mod Again
mod Announce
mod Connect
mod Checks
use libbdvmi.Common.{
  ℕ, Bool, true, false, ◌&&◌, ◌||◌, not, Option, none, some, List, [], ◌∷◌, ◌++◌, ◌==◌,
  if◌then◌else◌, is_empty, Map, find, insert,
}
use libbdvmi.Watcher.{DomainInfo, is_new, is_finished, Waited}

pub data DomainState : Type 0 where
  new forked parked resurrected : DomainState

-- class KvmDomain. `closed` has the connections that were closed, each with whether its socket was
-- shut down too, newest first.
pub record KvmDomain : Type 0 where
  pub ctx : Option ℕ
  pub state : DomainState
  pub closed : List (ℕ × Bool)

unfoldable pub close : Bool → KvmDomain → KvmDomain
close shutdown d = elim d.ctx [
  | none ↦ d
  | some c ↦ record { ctx = none; state = new; closed = (c, shutdown) ∷ d.closed }
]

unfoldable pub connect : ℕ → KvmDomain → KvmDomain
connect c d = record d { ctx = some c }

unfoldable pub fork : KvmDomain → KvmDomain
fork d = record d { state = forked }

unfoldable pub park : KvmDomain → KvmDomain
park d = record d { state = parked }

abbrev pub is_forked : DomainState → Bool
is_forked forked = true
is_forked _ = false

unfoldable pub reset_safely : KvmDomain → Bool × KvmDomain
unfolding close
reset_safely d = elim d.ctx [
  | none ↦ (true, d)
  | some c ↦
      if is_forked d.state
      then (false, d)
      else (true, record (close true d) { state = resurrected })
]

-- KvmDomain().
abbrev pub fresh_domain : KvmDomain
fresh_domain = record { ctx = none; state = new; closed = [] }

-- What getEvent() finds on a socket: an event, nothing within no time, or another error.
pub data Poll : Type 0 where
  got_event quiet lost : Poll

pub record Guests : Type 0 where
  pub has_kvmi : Bool
  pub known : Map KvmDomain
  pub own_uuid : ℕ
  pub auth_cookie : ℕ

-- The callback for a connection, refused if the child of an older one is still there.
unfoldable pub queue_connection : ℕ → ℕ → Guests → Bool × Guests
unfolding reset_safely connect
queue_connection u c g =
    let r = reset_safely (elim (find u g.known) [ none ↦ fresh_domain | some d ↦ d ]) in
    if r.0 then (true, record g { known = insert u (connect c r.1) g.known }) else (false, g)

-- What the loop does with one domain: what it has to tell, the domain, and whether it returns early,
-- for an event of the introspector's own guest.
unfoldable pub look : ℕ → ℕ → Poll → ℕ → KvmDomain → List (DomainInfo ℕ) × KvmDomain × Bool
unfolding close park
look own u poll name d = elim d.ctx [
  | none ↦ ([], d, false)
  | some c ↦ elim d.state [
    | new ↦ if u == own then ([], park d, false) else (is_new u name ∷ [], park d, false)
    | resurrected ↦
        if u == own
        then ([], park d, false)
        else (is_finished u ∷ is_new u name ∷ [], park d, false)
    | forked ↦ ([], d, false)
    | parked ↦ elim poll [
      | got_event ↦ if u == own then ([], d, true) else (is_finished u ∷ [], close true d, false)
      | quiet ↦ ([], d, false)
      | lost ↦
          if u == own then ([], close true d, false) else (is_finished u ∷ [], close true d, false)
    ]
  ]
]

-- The loop over the known domains: what is told, the domains, and whether it returned early.
unfoldable pub look_all :
    ℕ → (ℕ → Poll) → (ℕ → ℕ) → Map KvmDomain → List (DomainInfo ℕ) × Map KvmDomain × Bool
unfolding look
look_all own polls names [] = ([], [], false)
look_all own polls names ((u, d) ∷ m) =
    let a = look own u (polls u) (names u) d in
    let rest = look_all own polls names m in
    if a.2 then ([], (u, a.1) ∷ m, true) else (a.0 ++ rest.0, (u, a.1) ∷ rest.1, rest.2)

-- What one call of waitForDomainsOrTimeout() meets: each socket, each guest's name, and whether the
-- wait that ends it is woken in time.
pub record Moment : Type 0 where
  pub polls : ℕ → Poll
  pub names : ℕ → ℕ
  pub woken : Bool

-- Returned early, the domains that it had to tell are not told: `domains` is not looked at then.
unfoldable pub wait_for_domains_or_timeout : Moment → ℕ → Guests → Waited ℕ Guests
unfolding look_all
wait_for_domains_or_timeout t ms g =
    let r = look_all g.own_uuid t.polls t.names g.known in
    let g' : Guests = record g { known = r.1 } in
    if not g.has_kvmi
    then record {
      threw = true;
      ready = false;
      domains = [];
      stops = false;
      suspends = false;
      backend = g;
    }
    else record {
      threw = false;
      ready = if r.2 then false else if is_empty r.0 then t.woken else true;
      domains = r.0;
      stops = r.2;
      suspends = r.2;
      backend = g';
    }

-- A domain that is not known is only reported.
unfoldable pub forking_handler : ℕ → Guests → Guests
unfolding fork
forking_handler u g = elim (find u g.known) [
  | none ↦ g
  | some d ↦ record g { known = insert u (fork d) g.known }
]

unfoldable pub died_handler : ℕ → Guests → Guests
unfolding park
died_handler u g = elim (find u g.known) [
  | none ↦ g
  | some d ↦ record g { known = insert u (park d) g.known }
]

-- What the child process keeps: its own guest. The others are forgotten, with no shutdown of the
-- socket that the parent still uses; the erased domain's destructor finds no connection.
unfoldable pub keep_only : ℕ → Map KvmDomain → List (ℕ × Bool) × Map KvmDomain
unfolding close
keep_only u [] = ([], [])
keep_only u ((k, d) ∷ m) =
    let rest = keep_only u m in
    if k == u then (rest.0, (k, d) ∷ rest.1) else ((close false d).closed ++ rest.0, rest.1)

unfoldable pub forked_handler : ℕ → Bool → Guests → Guests
unfolding keep_only
forked_handler u parent g = if parent then g else record g { known = (keep_only u g.known).1 }

unfoldable pub domain_context : ℕ → Guests → Option ℕ
domain_context u g = elim (find u g.known) [ none ↦ none | some d ↦ d.ctx ]

-- `loaded` is whether kvmi_init_vsock succeeds.
unfoldable pub load_libkvmi_once : Bool → Guests → Bool × Guests
load_libkvmi_once loaded g =
    if g.has_kvmi then (true, g) else (loaded, record g { has_kvmi = loaded })

unfoldable pub set_auth_cookie : ℕ → Guests → Guests
set_auth_cookie cookie g = record g { auth_cookie = cookie }

-- The callback for a handshake: none if it is refused, else the hash of the cookie.
unfoldable pub new_handshake : (ℕ → ℕ) → Bool → Guests → Option ℕ
new_handshake sha1 sig_stop g = if sig_stop then none else some (sha1 g.auth_cookie)

-- The constructor: the own UUID that the system gives, if it does, else an empty text, which stands as
-- 0; a libkvmi that does not load is tried again later.
unfoldable pub construct : Option ℕ → Bool → Guests
unfolding load_libkvmi_once
construct own loaded =
    let g : Guests = record {
      has_kvmi = false;
      known = [];
      own_uuid = elim own [ none ↦ 0 | some u ↦ u ];
      auth_cookie = 0;
    } in
    (load_libkvmi_once loaded g).1

unfoldable pub access_granted : Bool → Guests → Bool × Guests
unfolding load_libkvmi_once
access_granted loaded g = load_libkvmi_once loaded g
