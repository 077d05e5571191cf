-- ===== src/User/Password.antt =====
-- A password that was set opens the account.
use native.Mathlib.Decide.{ℕ_discrete}
use acharya_os.Base.{
  ℕ, ◌≡◌, ◌≢◌, ◌↔◌, refl, ap, ◌∙◌, some, Status, ok, fail, find_index-modify_same,
}
use acharya_os.Kstring.{CString}
use acharya_os.User.{
  Account, Accounts, blank, is_named, user_at, find, update, hash_password, set_password, login,
}
use acharya_os.User.Invariant.{find-some, user_at-update_self}
use acharya_os.User.Login.{login_result}

-- A password set on an account that a search finds.
module _ (name p : CString) (t : Accounts) (i : ℕ) (e : find name t ≡ some i)
    (on : (user_at t i).enabled ≢ 0) (set : hash_password p ≢ 0) where
  abbrev with_password : Account → Account
  with_password u = record u { password_hash = hash_password p; locked = 0 }

  still_found : find name (update i with_password t) ≡ some i
  unfolding find
  still_found = find_index-modify_same (is_named name) blank i with_password t.users (λ x. refl) ∙ e

  password_at : user_at (update i with_password t) i ≡ with_password (user_at t i)
  password_at = user_at-update_self t i with_password (find-some name t i e).inside

  on_still : (user_at (update i with_password t) i).enabled ≢ 0
  on_still = rw password_at on

  login_right :
      (q : CString)
      → hash_password q ≡ hash_password p
      → (login name (some q) (update i with_password t)).0 ≡ ok
  login_right q same =
      ap (λ (r : Status × Accounts). r.0)
        (((login_result name q (update i with_password t)).1 i still_found).2 on_still
          (rw password_at (set, same)))

  login_wrong :
      (q : CString)
      → hash_password q ≢ hash_password p
      → (login name (some q) (update i with_password t)).0 ≡ fail
  login_wrong q other =
      ap (λ (r : Status × Accounts). r.0)
        (((login_result name q (update i with_password t)).1 i still_found).1 on_still
          (rw password_at set) (rw password_at other))

-- After `user_set_password`, an enabled account is open to exactly the passwords with the same
-- hash, where that hash is not 0.
pub set_password-login :
    (name p q : CString) (t : Accounts) (i : ℕ)
    → find name t ≡ some i
    → (user_at t i).enabled ≢ 0
    → hash_password p ≢ 0
    → let (result, t') = set_password name (some p) t in
      (result ≡ ok) × (((login name (some q) t').0 ≡ ok) ↔ (hash_password q ≡ hash_password p))
unfolding set_password
set_password-login name p q t i e on set = rw e (
  refl,
  (
    λ opened. elim (ℕ_discrete (hash_password q) (hash_password p)) [
      | yes same ↦ same
      | no other ↦ let closed = login_wrong name p t i e on set q other in cc
    ],
    login_right name p t i e on set q,
  ),
)
