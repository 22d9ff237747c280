-- ===== src/Xen/Watcher.antt =====
-- src/xendomainwatcher.cpp and src/xendomainwatcher.h: the guests that Xen lists, told from the
-- watches on XenStore. What Xen and XenStore answer is an argument: they are taken not to change
-- within one call. A text is the list of its bytes; a XenStore path is a value of Key, and a token
-- one of Token. The watches set and the writes are recorded, newest first.
pub mod Wait
mod News
mod Releases
mod Twice
mod Resumes
mod Checks
use Prim.Native.Char.{code}
use Prim.Native.String.{String}
use libbdvmi.Common.{
  ℕ, zero, suc, Bool, true, false, ◌&&◌, ◌||◌, not, Option, none, some, List, [], ◌∷◌, ◌++◌, ◌==◌,
  ltb, is_some, if◌then◌else◌, length, Map, find, insert, erase, contains, add_id, remove_id,
}
use libbdvmi.Watcher.{DomainInfo, is_new, is_finished, Waited}

abbrev pub Text : Type 0
Text = List ℕ

-- The code points of a text.
abbrev pub codes : String → Text
codes String.[] = []
codes (String.◌∷◌ c s) = code c ∷ codes s

abbrev pub equal : Text → Text → Bool
equal [] [] = true
equal [] (b ∷ ys) = false
equal (a ∷ xs) [] = false
equal (a ∷ xs) (b ∷ ys) = a == b && equal xs ys

abbrev pub drop : ℕ → Text → Text
drop zero bs = bs
drop (suc n) [] = []
drop (suc n) (b ∷ bs) = drop n bs

-- "/local/domain/<domid>/vm-data/pre-resume", …/name, …/vm and …/vm-data/introspection-control, the
-- two events on domains, and any other path.
pub data Key : Type 0 where
  pre_resume_key name_key vm_key control_key : ℕ → Key
  introduce_key release_key : Key
  other_key : Text → Key

pub data Token : Type 0 where
  introduce release control post_resume : Token
  dom uuid : ℕ → Token
  other_token : Token

pub data XsCall : Type 0 where
  watch unwatch : Key → Token → XsCall
  write : Key → XsCall
  rm : Key → XsCall

-- What XenStore has under a path, and whether a domain is introduced.
pub record Store : Type 0 where
  pub read : Key → Option Text
  pub introduced : ℕ → Bool

pub record XenWatcher : Type 0 where
  pub own_uuid : Text
  pub control_path : Option Key
  pub dom_ids : Map Text
  pub first_control_command : Bool
  pub key_created : Bool
  pub pre_resume_domains : List ℕ
  pub xs_calls : List XsCall

-- "000000000001".
abbrev pub temporary_uuid_suffix : Text
temporary_uuid_suffix = codes "000000000001"

unfoldable pub is_temporary : Text → Bool
is_temporary u = ltb 24 (length u) && equal (drop 24 u) temporary_uuid_suffix

abbrev pub text_or_empty : Option Text → Text
text_or_empty none = []
text_or_empty (some t) = t

-- The text after "/vm/".
abbrev pub without_prefix : Text → Text
without_prefix t = if ltb 4 (length t) then drop 4 t else []

unfoldable pub uuid_of : Store → ℕ → Text
uuid_of st n = elim (st.read (vm_key n)) [ none ↦ [] | some path ↦ without_prefix path ]

unfoldable pub is_self : Store → Text → ℕ → Bool
unfolding uuid_of
is_self st own n = equal own (uuid_of st n)

abbrev pub call_xs : XsCall → XenWatcher → XenWatcher
call_xs c s = record s { xs_calls = c ∷ s.xs_calls }

unfoldable pub init_control_key : ℕ → XenWatcher → XenWatcher
init_control_key n s = if s.key_created then s else record s {
  key_created = true;
  control_path = some (control_key n);
  xs_calls = watch (control_key n) control ∷ write (control_key n) ∷ s.xs_calls;
}

-- The domains to tell of, whether there are such as the code notes it, and the watcher.
pub record Seen : Type 0 where
  pub ret : Bool
  pub domains : List (DomainInfo Text)
  pub watcher : XenWatcher

unfoldable pub process_new_domain : ℕ → Text → Text → Seen → Seen
process_new_domain n u called r = record {
  ret = true;
  domains = r.domains ++ is_new u called ∷ [];
  watcher = record r.watcher { dom_ids = insert n u r.watcher.dom_ids };
}

-- What the loop does with a domain that is introduced and is not known.
unfoldable pub meet : Store → ℕ → Seen → Seen
unfolding init_control_key process_new_domain
meet st n r =
    let self = is_self st r.watcher.own_uuid n in
    let s = if self then init_control_key n r.watcher else r.watcher in
    elim (st.read (name_key n)) [
      | none ↦ record r { watcher = call_xs (watch (name_key n) (dom n)) s }
      | some called ↦
          if self
          then record r { watcher = s }
          else if is_temporary (uuid_of st n)
          then record r { watcher = call_xs (watch (vm_key n) (uuid n)) s }
          else process_new_domain n (uuid_of st n) called (record r { watcher = s })
    ]

-- A domain is going to resume: look at it again after that.
unfoldable pub await_resume : ℕ → XenWatcher → XenWatcher
await_resume n s =
    if contains n s.pre_resume_domains
    then s
    else record (call_xs (watch (pre_resume_key n) post_resume) s) {
      pre_resume_domains = add_id n s.pre_resume_domains;
    }

unfoldable pub resumed : ℕ → XenWatcher → XenWatcher
resumed n s =
    if contains n s.pre_resume_domains
    then record (call_xs (unwatch (pre_resume_key n) post_resume) s) {
      pre_resume_domains = remove_id n s.pre_resume_domains;
    }
    else s

-- One round of the loop of getNewDomains().
unfoldable pub look_at : Store → ℕ → Seen → Seen
unfolding await_resume resumed
look_at st n r =
    if is_some (st.read (pre_resume_key n))
    then record r { watcher = await_resume n r.watcher }
    else let r' : Seen = record r { watcher = resumed n r.watcher } in
      if st.introduced n && not (is_some (find n r.watcher.dom_ids)) then meet st n r' else r'

-- The domains that domainGetInfo() gives, one after the other.
unfoldable pub look_at_all : Store → List ℕ → Seen → Seen
look_at_all st [] r = r
look_at_all st (n ∷ ns) r = look_at_all st ns (look_at st n r)

-- What domainGetInfo() answers: domains, and whether the last answer is a refused access.
pub record Listing : Type 0 where
  pub domids : List ℕ
  pub denied : Bool

-- getNewDomains(): whether it throws, and what it has seen.
unfoldable pub get_new_domains : Store → Listing → XenWatcher → Bool × Seen
unfolding look_at_all
get_new_domains st l s =
    (l.denied, look_at_all st l.domids (record { ret = false; domains = []; watcher = s }))
