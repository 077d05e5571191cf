-- ===== src/User/Session.antt =====
-- The accounts from boot on.
use acharya_os.Base.{
  ℕ, refl, arith, List, [], ◌∷◌, Option, replicate, Option-cases, inl, inr, get_or-replicate,
}
use acharya_os.Kstring.{CString, codes, copy_text, copy_loop}
use acharya_os.User.{
  Accounts, Role, admin, guest, blank, entry_max, user_at, init, register, find_free, enrolled, add,
  enable, disable, set_active, set_password, login, logout, create_default_passwords,
}
use acharya_os.User.Invariant.{IsSlot, IsValid, IsActive, update-IsValid, enrolled-IsSlot}
use acharya_os.User.Keep.{IsSound, free-some}
use acharya_os.User.Calls.{
  add-IsSound, enable-IsSound, disable-IsSound, set_active-IsSound, set_password-IsSound,
  login-IsSound, logout-IsSound, default_password-IsSound,
}

register-IsValid :
    (username full_name : CString) (role : Role) (enabled : ℕ) (t : Accounts)
    → IsValid t
    → IsValid (register username full_name role enabled t)
unfolding register
register-IsValid username full_name role enabled t v = elim (Option-cases (find_free t)) [
  | inl e ↦ rw e v
  | inr (i, e) ↦
      let inside = (free-some t i e).0 in
      rw e (
        update-IsValid t i (enrolled username full_name role enabled i) inside
          (enrolled-IsSlot username full_name role enabled i (user_at t i) (omega (arith, v.slots))
            (v.slot i))
          v)
]

blank-IsSlot : (i : ℕ) → IsSlot i blank
blank-IsSlot i = record {
  name_size = refl;
  full_size = refl;
  name_ended = omega arith;
  numbered = λ h. cc;
}

empty-IsValid :
    IsValid (record { users = replicate entry_max blank; active_uid = 0; authenticated = 0 })
empty-IsValid = record {
  slots = refl;
  slot = λ i. rw (get_or-replicate 16 i blank) (blank-IsSlot i);
}

init-IsValid : IsValid init
unfolding init
init-IsValid =
    let v1 = register-IsValid (codes "root") (codes "AcharyaOS Root") admin 1 _ empty-IsValid in
    let v2 = register-IsValid (codes "admin") (codes "System Administrator") admin 1 _ v1 in
    let v3 = register-IsValid (codes "guest") (codes "Guest Session") guest 1 _ v2 in
    record { slots = v3.slots; slot = v3.slot }

init-IsActive : IsActive init
unfolding init register find_free copy_text copy_loop
init-IsActive = record { place = omega arith; named = refl; on = omega arith }

pub init-IsSound : IsSound init
init-IsSound = record { valid = init-IsValid; active = init-IsActive }

default_passwords-IsSound : (t : Accounts) → IsSound t → IsSound (create_default_passwords t)
unfolding create_default_passwords
default_passwords-IsSound t s =
    let s1 = default_password-IsSound t s (codes "root") in
    let s2 = default_password-IsSound _ s1 (codes "admin") in
    default_password-IsSound _ s2 (codes "guest")

-- What the shell does to the accounts after boot.
pub data Call : Type 0 where
  add_user : Option CString → Option CString → Role → Call
  enable_user disable_user activate_user : CString → Call
  set_user_password log_in : CString → Option CString → Call
  log_out : Call

abbrev pub perform : Call → Accounts → Accounts
perform (add_user username full_name role) t = (add username full_name role t).1
perform (enable_user name) t = (enable name t).1
perform (disable_user name) t = (disable name t).1
perform (activate_user name) t = (set_active name t).1
perform (set_user_password name password) t = (set_password name password t).1
perform (log_in name password) t = (login name password t).1
perform log_out t = logout t

abbrev pub perform_all : List Call → Accounts → Accounts
perform_all [] t = t
perform_all (c ∷ cs) t = perform_all cs (perform c t)

perform-IsSound : (c : Call) (t : Accounts) → IsSound t → IsSound (perform c t)
perform-IsSound (add_user username full_name role) t s = add-IsSound t username full_name role s
perform-IsSound (enable_user name) t s = enable-IsSound t s name
perform-IsSound (disable_user name) t s = disable-IsSound t s name
perform-IsSound (activate_user name) t s = set_active-IsSound t s name
perform-IsSound (set_user_password name password) t s = set_password-IsSound t s name password
perform-IsSound (log_in name password) t s = login-IsSound t name password s
perform-IsSound log_out t s = logout-IsSound t s

perform_all-IsSound : (cs : List Call) (t : Accounts) → IsSound t → IsSound (perform_all cs t)
perform_all-IsSound [] t s = s
perform_all-IsSound (c ∷ cs) t s = perform_all-IsSound cs (perform c t) (perform-IsSound c t s)

-- `user_init` and `user_create_default_passwords`, as `kernel_main` calls them.
abbrev pub booted : Accounts
booted = create_default_passwords init

-- After boot, whatever calls change the accounts, in any order, the table keeps its 16 slots, the
-- arrays keep their sizes, every name in it is ended by a NUL and is at most 31 characters long,
-- the account in slot `i` has uid `i + 1`, and the active uid is that of a named account that is
-- enabled: nobody can disable the active account, and no disabled account becomes active.
pub sessions-IsSound : (calls : List Call) → IsSound (perform_all calls booted)
sessions-IsSound calls =
    perform_all-IsSound calls booted (default_passwords-IsSound init init-IsSound)
