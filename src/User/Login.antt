-- ===== src/User/Login.antt =====
-- Who can log in, and what a login changes.
use native.Mathlib.Decide.{ℕ_discrete}
use acharya_os.Base.{
  ℕ, ◌≡◌, ◌≢◌, ◌⊎◌, ◌↔◌, inl, inr, ap, arith, none, some, Option-cases, Status, refl, ok, fail,
}
use acharya_os.Kstring.{CString}
use acharya_os.User.{Account, Accounts, user_at, find, update, hash_password, check_password, login}

-- The account's password is set and this is it.
abbrev pub Knows : CString → Account → Type 0
Knows p u = (u.password_hash ≢ 0) × (hash_password p ≡ u.password_hash)

check_password-ok :
    (name p : CString) (t : Accounts) (i : ℕ)
    → find name t ≡ some i
    → Knows p (user_at t i)
    → check_password name (some p) t ≡ ok
unfolding check_password
check_password-ok name p t i e k = rw e (ground arith)

check_password-fail :
    (name p : CString) (t : Accounts) (i : ℕ)
    → find name t ≡ some i
    → ¬ (Knows p (user_at t i))
    → check_password name (some p) t ≡ fail
unfolding check_password
check_password-fail name p t i e k = rw e (
    ground (
      arith,
      λ (a : (user_at t i).password_hash ≢ 0) (b : hash_password p ≡ (user_at t i).password_hash).
          k (a, b),
    ))

-- The branches of `user_login`.
pub login_result :
    (name p : CString) (t : Accounts)
    → (find name t ≡ none → login name (some p) t ≡ (fail, t))
      × ((i : ℕ)
          → find name t ≡ some i
          → (((user_at t i).enabled ≡ 0) ⊎ ((user_at t i).password_hash ≡ 0)
              → login name (some p) t ≡ (fail, t))
            × ((user_at t i).enabled ≢ 0
                → (user_at t i).password_hash ≢ 0
                → hash_password p ≢ (user_at t i).password_hash
                → login name (some p) t ≡ (fail, update i (λ u. record u { locked = 1 }) t))
            × ((user_at t i).enabled ≢ 0
                → Knows p (user_at t i)
                → login name (some p) t ≡ (
                  ok,
                  update i
                      (λ u. record u { locked = 0 })
                      (record t { active_uid = (user_at t i).uid; authenticated = 1 }),
                )))
unfolding login
login_result name p t = (
  λ e. rw e,
  λ i e. (
    λ bad. rw e (ground arith),
    λ on set wrong. rw (e, check_password-fail name p t i e (λ k. wrong k.1)) (ground arith),
    λ on k. rw (e, check_password-ok name p t i e k) (ground arith),
  ),
)

-- The account that a name finds, if it is open to the password.
abbrev pub Opens : CString → CString → Accounts → Type 0
Opens name p t =
    (i : ℕ) × (find name t ≡ some i) × ((user_at t i).enabled ≢ 0) × Knows p (user_at t i)

Opens-ok : (name p : CString) (t : Accounts) → Opens name p t → (login name (some p) t).0 ≡ ok
Opens-ok name p t (i, e, on, k) =
    ap (λ (r : Status × Accounts). r.0) (((login_result name p t).1 i e).2 on k)

-- A failed login leaves the session alone.
abbrev Refused : CString → CString → Accounts → Type 0
Refused name p t =
    ((login name (some p) t).0 ≡ fail)
    × ((login name (some p) t).1.active_uid ≡ t.active_uid)
    × ((login name (some p) t).1.authenticated ≡ t.authenticated)

login_decides : (name p : CString) (t : Accounts) → Opens name p t ⊎ Refused name p t
login_decides name p t = elim (Option-cases (find name t)) [
  | inl e ↦ inr (rw ((login_result name p t).0 e) (refl, refl, refl))
  | inr (i, e) ↦
      let branches = (login_result name p t).1 i e in
      elim (ℕ_discrete (user_at t i).enabled 0) [
        | yes off ↦ inr (rw (branches.0 (inl off)) (refl, refl, refl))
        | no on ↦ elim (ℕ_discrete (user_at t i).password_hash 0) [
          | yes unset ↦ inr (rw (branches.0 (inr unset)) (refl, refl, refl))
          | no has ↦ elim (ℕ_discrete (hash_password p) (user_at t i).password_hash) [
            | yes right ↦ inl (i, e, on, (has, right))
            | no wrong ↦ inr (rw (branches.1 on has wrong) (refl, refl, refl))
          ]
        ]
      ]
]

-- `user_login` with a password succeeds exactly when the name finds an account that is enabled, has
-- a password, and the given one has the same hash; whether the account is marked as locked does not
-- matter.
pub login_iff :
    (name p : CString) (t : Accounts) → ((login name (some p) t).0 ≡ ok) ↔ Opens name p t
login_iff name p t = (
  λ success. elim (login_decides name p t) [
    | inl opens ↦ opens
    | inr refused ↦ let failed = refused.0 in cc
  ],
  Opens-ok name p t,
)

-- A login that fails changes neither the active account nor whether there is a session.
pub login_failed :
    (name p : CString) (t : Accounts)
    → (login name (some p) t).0 ≡ fail
    → ((login name (some p) t).1.active_uid ≡ t.active_uid)
      × ((login name (some p) t).1.authenticated ≡ t.authenticated)
login_failed name p t failed = elim (login_decides name p t) [
  | inl opens ↦ let success = Opens-ok name p t opens in cc
  | inr refused ↦ (refused.1, refused.2)
]
