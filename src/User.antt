-- ===== src/User.antt =====
-- kernel/user/user.c: the account table, the active user and the login. A result through an out
-- pointer is returned; such a pointer is taken to be valid. An input pointer that the code tests
-- for null is an option.
pub mod Invariant
pub mod Keep
pub mod Calls
pub mod Session
pub mod Login
pub mod Names
pub mod Password
mod Tests
use acharya_os.Base.{
  ℕ, ◌+◌, ◌-◌, ◌*◌, ◌%◌, ◌^◌, List, [], ◌∷◌, Bool, true, false, not, ◌&&◌, ◌||◌, Option, none, some,
  Status, ok, fail, ◌==◌, if◌then◌else◌, u8, u32, u64, bit_xor, get_or, replicate, find_index,
  count, collect, modify, is_ok, maybe,
}
use acharya_os.Kstring.{CString, codes, has_text, str_eq, copy_text}

pub data Role : Type 0 where
  guest user admin : Role

-- `user_entry_t`.
pub record Account : Type 0 where
  pub username : CString
  pub full_name : CString
  pub password_hash : ℕ
  pub role : Role
  pub enabled : ℕ
  pub locked : ℕ
  pub uid : ℕ

pub record Accounts : Type 0 where
  pub users : List Account
  pub active_uid : ℕ
  pub authenticated : ℕ

pub record Stats : Type 0 where
  pub total_users : ℕ
  pub enabled_users : ℕ
  pub locked_users : ℕ
  pub active_uid : ℕ
  pub active_username : CString
  pub authenticated : ℕ

abbrev pub name_max : ℕ
name_max = 32

abbrev pub full_max : ℕ
full_max = 64

abbrev pub entry_max : ℕ
entry_max = 16

-- What `memset` to 0 leaves.
abbrev pub blank : Account
blank = record {
  username = replicate name_max 0;
  full_name = replicate full_max 0;
  password_hash = 0;
  role = guest;
  enabled = 0;
  locked = 0;
  uid = 0;
}

-- users[i]
abbrev pub user_at : Accounts → ℕ → Account
user_at t i = get_or t.users i blank

abbrev pub update : ℕ → (Account → Account) → Accounts → Accounts
update i f t = record t { users = modify i f t.users }

hash_from : ℕ → CString → ℕ
hash_from hash [] = hash
hash_from hash (c ∷ cs) =
    let rest = hash_from (u64 (bit_xor hash (u8 c) * 1099511628211)) cs in
    if c == 0 then hash else rest

pub hash_password : CString → ℕ
unfolding hash_from
hash_password password = hash_from 1469598103934665603 password

abbrev pub is_named : CString → Account → Bool
is_named name u = has_text u.username && str_eq u.username name

abbrev pub is_free : Account → Bool
is_free u = not (has_text u.username)

-- `none` is the result -1 of both searches.
pub find : CString → Accounts → Option ℕ
find name t = find_index (is_named name) t.users

pub find_free : Accounts → Option ℕ
find_free t = find_index is_free t.users

pub role_name : Role → CString
role_name guest = codes "guest"
role_name user = codes "user"
role_name admin = codes "admin"

-- The slot that `user_register` and `user_add` fill in.
abbrev pub enrolled : CString → CString → Role → ℕ → ℕ → Account → Account
enrolled username full_name role enabled idx u = record {
  username = copy_text u.username name_max username;
  full_name = copy_text u.full_name full_max full_name;
  password_hash = 0;
  role = role;
  enabled = enabled;
  locked = 0;
  uid = u32 (idx + 1);
}

pub register : CString → CString → Role → ℕ → Accounts → Accounts
register username full_name role enabled t =
    maybe (find_free t) t λ idx. update idx (enrolled username full_name role enabled idx) t

pub init : Accounts
init =
    let t0 : Accounts = record {
      users = replicate entry_max blank;
      active_uid = 0;
      authenticated = 0;
    } in
    let t1 = register (codes "root") (codes "AcharyaOS Root") admin 1 t0 in
    let t2 = register (codes "admin") (codes "System Administrator") admin 1 t1 in
    let t3 = register (codes "guest") (codes "Guest Session") guest 1 t2 in
    record t3 { active_uid = 1; authenticated = 0 }

pub list : ℕ → Accounts → List Account
list max t = collect (λ u. has_text u.username) max t.users

pub info : CString → Accounts → Option Account
info username t = maybe (find username t) none λ idx. some (user_at t idx)

-- The end of `user_add`, with the slot that was found.
pub add_at : CString → CString → Role → Option ℕ → Accounts → Status × Accounts
add_at username full_name role none t = (fail, t)
add_at username full_name role (some idx) t =
    (ok, update idx (enrolled username full_name role 1 idx) t)

pub add : Option CString → Option CString → Role → Accounts → Status × Accounts
add none full_name role t = (fail, t)
add (some username) none role t = (fail, t)
add (some username) (some full_name) role t =
    if not (has_text username)
    then (fail, t)
    else maybe (find username t) (add_at username full_name role (find_free t) t) λ idx. (fail, t)

pub enable : CString → Accounts → Status × Accounts
enable username t =
    maybe (find username t) ((fail, t)) λ idx. (ok, update idx (λ u. record u { enabled = 1 }) t)

pub disable : CString → Accounts → Status × Accounts
disable username t =
    maybe (find username t) (fail, t)
      λ idx.
        if (user_at t idx).uid == t.active_uid
        then (fail, t)
        else (ok, update idx (λ u. record u { enabled = 0 }) t)

pub set_active : CString → Accounts → Status × Accounts
set_active username t =
    maybe (find username t) (fail, t)
      λ idx.
        if (user_at t idx).enabled == 0
        then (fail, t)
        else (ok, record t { active_uid = (user_at t idx).uid })

-- The first named account with the active uid.
pub get_active : Accounts → Option Account
get_active t =
    maybe (find_index (λ u. u.uid == t.active_uid && has_text u.username) t.users) none
      λ idx. some (user_at t idx)

pub get_active_name : CString → ℕ → Accounts → Status × CString
get_active_name out_name out_size t =
    if out_size == 0
    then (fail, out_name)
    else maybe (get_active t) (fail, copy_text out_name 1 [])
        λ active. (ok, copy_text out_name out_size active.username)

pub get_stats : CString → Accounts → Stats
get_stats old_name t =
    let (found, name) = get_active_name (replicate name_max 0) name_max t in
    record {
      total_users = count (λ u. has_text u.username) t.users;
      enabled_users = count (λ u. has_text u.username && not (u.enabled == 0)) t.users;
      locked_users = count (λ u. has_text u.username && not (u.locked == 0)) t.users;
      active_uid = t.active_uid;
      active_username =
          if is_ok found then copy_text old_name name_max name else copy_text old_name 1 [];
      authenticated = t.authenticated;
    }

pub set_password : CString → Option CString → Accounts → Status × Accounts
set_password username password t =
    maybe (find username t) (fail, t)
      λ idx.
        maybe password (fail, t)
          λ p. (ok, update idx (λ u. record u { password_hash = hash_password p; locked = 0 }) t)

pub check_password : CString → Option CString → Accounts → Status
check_password username password t = maybe (find username t) fail λ idx. maybe password fail λ p.
    if (user_at t idx).password_hash == 0
    then fail
    else if (user_at t idx).password_hash == hash_password p
    then ok
    else fail

pub login : CString → Option CString → Accounts → Status × Accounts
login username password t =
    maybe (find username t) (fail, t)
      λ idx.
        if (user_at t idx).enabled == 0
        then (fail, t)
        else if (user_at t idx).password_hash == 0
        then (fail, t)
        else if not (is_ok (check_password username password t))
        then (fail, update idx (λ u. record u { locked = 1 }) t)
        else (
          ok,
          update idx (λ u. record u { locked = 0 })
              (record t { active_uid = (user_at t idx).uid; authenticated = 1 }),
        )

pub logout : Accounts → Accounts
logout t = record t { authenticated = 0 }

pub is_authenticated : Accounts → ℕ
is_authenticated t = t.authenticated

-- One account of `user_create_default_passwords`: its password is its name.
pub default_password : CString → Accounts → Accounts
default_password name t =
    maybe (find name t) (t)
      λ idx. update idx (λ u. record u { password_hash = hash_password name }) t

pub create_default_passwords : Accounts → Accounts
create_default_passwords t =
    default_password (codes "guest")
      (default_password (codes "admin") (default_password (codes "root") t))
