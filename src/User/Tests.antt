-- ===== src/User/Tests.antt =====
-- The accounts as they are after boot.
use acharya_os.Base.{
  ◌+◌, ◌≡◌, ◌≢◌, ◌↔◌, refl, arith, some, none, ok, fail, List, [], ◌∷◌, replicate, take,
}
use acharya_os.Kstring.{codes, text, copy_text, copy_loop, str_eq, strcmp, CString}
use acharya_os.User.{
  user, login, add, set_password, user_at, find, find_free, init, hash_password, register,
}
use acharya_os.User.Invariant.{IsValid}
use acharya_os.User.Session.{
  booted, sessions-IsSound, init-IsSound, perform_all, Call, add_user, log_in, disable_user,
  log_out,
}
use acharya_os.User.Keep.{IsSound}
use acharya_os.User.Login.{login_iff, Opens}
use acharya_os.User.Names.{add_lookup, add_long}
use acharya_os.User.Password.{set_password-login}

abbrev session : List Call
session =
    add_user (some (codes "asha")) (some (codes "Asha")) user
    ∷ log_in (codes "root") (some (codes "root"))
    ∷ disable_user (codes "root")
    ∷ log_out
    ∷ []

sessions-IsSound_example : IsSound (perform_all session booted)
sessions-IsSound_example = sessions-IsSound session

init-IsValid : IsValid init
init-IsValid = init-IsSound.valid

root_first : find (codes "root") init ≡ some 0
unfolding init register find find_free copy_text copy_loop str_eq strcmp
root_first = refl

free_fourth : find_free init ≡ some 3
unfolding init register find_free copy_text copy_loop
free_fourth = refl

asha_unknown : find (codes "asha") init ≡ none
unfolding init register find find_free copy_text copy_loop str_eq strcmp
asha_unknown = refl

root_enabled : (user_at init 0).enabled ≡ 1
unfolding init register find_free copy_text copy_loop
root_enabled = refl

-- Before the default passwords are made, nobody can log in.
no_password : (login (codes "root") (some (codes "root")) init).0 ≡ fail
unfolding init register find find_free copy_text copy_loop str_eq strcmp login
no_password = refl

login_iff_example :
    ((login (codes "root") (some (codes "root")) booted).0 ≡ ok)
    ↔ Opens (codes "root") (codes "root") booted
login_iff_example = login_iff (codes "root") (codes "root") booted

add_lookup_example :
    let (result, t') = add (some (codes "asha")) (some (codes "Asha")) user init in
    let u = user_at t' 3 in
    (result ≡ ok)
    × (find (codes "asha") t' ≡ some 3)
    × (text u.username ≡ text (codes "asha"))
    × (text u.full_name ≡ take 63 (text (codes "Asha")))
    × (u.role ≡ user)
    × (u.uid ≡ 3 + 1)
    × (u.enabled ≡ 1)
    × (u.locked ≡ 0)
    × (u.password_hash ≡ 0)
    × (user_at t' 1 ≡ user_at init 1)
add_lookup_example =
    add_lookup (codes "asha") (codes "Asha") user init 3 1 init-IsValid refl (omega arith)
      asha_unknown free_fourth (omega arith)

abbrev long_name : CString
long_name = replicate 40 97

add_long_example :
    let (result, t') = add (some long_name) (some (codes "Asha")) user init in
    (result ≡ ok)
    × (find long_name t' ≡ none)
    × (text (user_at t' 3).username ≡ take 31 (text long_name))
    × (login long_name (some (codes "x")) t' ≡ (fail, t'))
add_long_example =
    add_long long_name (codes "Asha") (codes "x") user init 3 init-IsValid (omega arith) refl
      free_fourth

om_hash : hash_password (codes "om") ≢ 0
unfolding hash_password
om_hash = omega arith

set_password-login_example :
    let (result, t') = set_password (codes "root") (some (codes "om")) init in
    (result ≡ ok)
    × (((login (codes "root") (some (codes "om")) t').0 ≡ ok)
        ↔ (hash_password (codes "om") ≡ hash_password (codes "om")))
set_password-login_example =
    set_password-login (codes "root") (codes "om") (codes "om") init 0 root_first
      (omega (arith, root_enabled)) om_hash
