-- ===== src/User/Calls.antt =====
-- Every call that changes the accounts keeps the invariant.
use acharya_os.Base.{
  ℕ, ◌+◌, ◌-◌, ◌≡◌, ◌≢◌, refl, ◌∙◌, arith, Option, none, some, Option-cases, ◌==◌, Bool-cases, inl,
  inr, is_ok,
}
use acharya_os.Kstring.{CString, has_text}
use acharya_os.User.{
  Accounts, Role, user_at, update, find, find_free, enrolled, register, add, add_at, enable,
  disable, set_active, set_password, check_password, hash_password, login, logout, default_password,
}
use acharya_os.User.Invariant.{update-IsValid, update-IsActive, enrolled-IsSlot}
use acharya_os.User.Keep.{IsSound, free-some, free-not_active, found, keep_slot, keep_on}

module _ (t : Accounts) (s : IsSound t) where
  pub enable-IsSound : (name : CString) → IsSound (enable name t).1
  unfolding enable
  enable-IsSound name = elim (Option-cases (find name t)) [
    | inl e ↦ rw e s
    | inr (i, e) ↦ rw e (
        keep_slot t name i e s (λ u. record u { enabled = 1 }) (λ u. refl) (λ u. refl) (λ u. refl)
          (inl (omega arith)))
  ]

  pub disable-IsSound : (name : CString) → IsSound (disable name t).1
  unfolding disable
  disable-IsSound name = elim (Option-cases (find name t)) [
    | inl e ↦ rw e s
    | inr (i, e) ↦ elim (Bool-cases ((user_at t i).uid == t.active_uid)) [
      | inl mine ↦ rw (e, mine) s
      | inr other ↦
          let uid_is = (s.valid.slot i).numbered (found t name i e s).named in
          let ne : i + 1 ≢ t.active_uid = ground arith in
          rw (e, other)
            (keep_slot t name i e s (λ u. record u { enabled = 0 }) (λ u. refl) (λ u. refl)
              (λ u. refl) (inr ne))
    ]
  ]

  -- A found and enabled account may become the active one.
  activate :
      (name : CString) (i : ℕ)
      → find name t ≡ some i
      → (user_at t i).enabled ≢ 0
      → (flag : ℕ) → IsSound (record t { active_uid = (user_at t i).uid; authenticated = flag })
  activate name i e on flag =
      let f = found t name i e s in
      let uid_is = (s.valid.slot i).numbered f.named in
      let place : (user_at t i).uid - 1 ≡ i = omega arith in
      record {
        valid = record { slots = s.valid.slots; slot = s.valid.slot };
        active = record {
          place = (omega arith, omega (arith, f.inside, s.valid.slots));
          named = rw place f.named;
          on = rw place on;
        };
      }

  pub set_active-IsSound : (name : CString) → IsSound (set_active name t).1
  unfolding set_active
  set_active-IsSound name = elim (Option-cases (find name t)) [
    | inl e ↦ rw e s
    | inr (i, e) ↦ elim (Bool-cases ((user_at t i).enabled == 0)) [
      | inl off ↦ rw (e, off) s
      | inr on ↦ rw (e, on) (activate name i e (ground arith) t.authenticated)
    ]
  ]

  pub set_password-IsSound :
      (name : CString) (p : Option CString) → IsSound (set_password name p t).1
  unfolding set_password
  set_password-IsSound name none = elim (Option-cases (find name t)) [
    | inl e ↦ rw e s
    | inr (i, e) ↦ rw e s
  ]
  set_password-IsSound name (some p) = elim (Option-cases (find name t)) [
    | inl e ↦ rw e s
    | inr (i, e) ↦ rw e (
        keep_on t name i e s (λ u. record u { password_hash = hash_password p; locked = 0 })
          (λ u. refl) (λ u. refl) (λ u. refl) (λ u. refl))
  ]

  pub logout-IsSound : IsSound (logout t)
  unfolding logout
  logout-IsSound = record {
    valid = record { slots = s.valid.slots; slot = s.valid.slot };
    active = record { place = s.active.place; named = s.active.named; on = s.active.on };
  }

  pub default_password-IsSound : (name : CString) → IsSound (default_password name t)
  unfolding default_password
  default_password-IsSound name = elim (Option-cases (find name t)) [
    | inl e ↦ rw e s
    | inr (i, e) ↦ rw e (
        keep_on t name i e s (λ u. record u { password_hash = hash_password name }) (λ u. refl)
          (λ u. refl) (λ u. refl) (λ u. refl))
  ]

-- A search does not read the session.
pub find-session :
    (t : Accounts) (name : CString) (uid flag : ℕ)
    → find name (record t { active_uid = uid; authenticated = flag }) ≡ find name t
unfolding find
find-session t name uid flag = refl

-- `user_login`, on each of its branches.
pub login-IsSound :
    (t : Accounts) (name : CString) (p : Option CString) → IsSound t → IsSound (login name p t).1
unfolding login
login-IsSound t name p s = elim (Option-cases (find name t)) [
  | inl e ↦ rw e s
  | inr (i, e) ↦ elim (Bool-cases ((user_at t i).enabled == 0)) [
    | inl off ↦ rw (e, off) s
    | inr on ↦ elim (Bool-cases ((user_at t i).password_hash == 0)) [
      | inl unset ↦ rw (e, on, unset) s
      | inr has ↦ elim (Bool-cases (is_ok (check_password name p t))) [
        | inl good ↦
            rw (e, on, has, good)
              (keep_on (record t { active_uid = (user_at t i).uid; authenticated = 1 }) name i
                (find-session t name (user_at t i).uid 1 ∙ e)
                (activate t s name i e (ground arith) 1) (λ u. record u { locked = 0 }) (λ u. refl)
                (λ u. refl) (λ u. refl) (λ u. refl))
        | inr bad ↦
            rw (e, on, has, bad)
              (keep_on t name i e s (λ u. record u { locked = 1 }) (λ u. refl) (λ u. refl)
                (λ u. refl) (λ u. refl))
      ]
    ]
  ]
]

-- A new account goes into a free slot, so not into that of the active account.
module _ (t : Accounts) (s : IsSound t) (username full_name : CString) (role : Role) where
  enrolled-IsSound :
      (enabled i : ℕ)
      → find_free t ≡ some i
      → IsSound (update i (enrolled username full_name role enabled i) t)
  enrolled-IsSound enabled i e =
      let (inside, free) = free-some t i e in
      let f = enrolled username full_name role enabled i in
      record {
        valid =
            update-IsValid t i f inside
              (enrolled-IsSlot username full_name role enabled i (user_at t i)
                (omega (arith, s.valid.slots)) (s.valid.slot i))
              s.valid;
        active =
            update-IsActive t i f inside (λ mine. absurd (free-not_active t i s.active free mine))
              s.active;
      }

  pub register-IsSound : (enabled : ℕ) → IsSound (register username full_name role enabled t)
  unfolding register
  register-IsSound enabled = elim (Option-cases (find_free t)) [
    | inl e ↦ rw e s
    | inr (i, e) ↦ rw e (enrolled-IsSound enabled i e)
  ]

  add-some-IsSound : IsSound (add (some username) (some full_name) role t).1
  unfolding add add_at
  add-some-IsSound = elim (Bool-cases (has_text username)) [
    | inr empty ↦ rw empty s
    | inl given ↦ elim (Option-cases (find username t)) [
      | inr (i, e) ↦ rw (given, e) s
      | inl e ↦ elim (Option-cases (find_free t)) [
        | inl full ↦ rw (given, e, full) s
        | inr (i, free) ↦ rw (given, e, free) (enrolled-IsSound 1 i free)
      ]
    ]
  ]

pub add-IsSound :
    (t : Accounts) (username full_name : Option CString) (role : Role)
    → IsSound t
    → IsSound (add username full_name role t).1
add-IsSound t none full_name role s = unfold add in s
add-IsSound t (some username) none role s = unfold add in s
add-IsSound t (some username) (some full_name) role s = add-some-IsSound t s username full_name role
