-- ===== src/User/Names.antt =====
-- What `user_add` stores, and what a search by name finds afterwards.
use acharya_os.Base.{
  ℕ, ◌+◌, ◌≤◌, ◌<◌, ◌≡◌, ◌≢◌, refl, ap, ◌∙◌, arith, List, true, false, none, some, length,
  Option-cases, inl, inr, take, take-all, ok, fail, find_index-none, find_index_of_first,
  length-modify, modify,
}
use acharya_os.Kstring.{CString, text, has_text}
use acharya_os.Kstring.Laws.{str_eq_iff, copy_text-eq, has_text-copy_text, text-copy_text}
use acharya_os.User.{
  Account, Accounts, Role, blank, is_named, user_at, find, find_free, enrolled, update, login, add,
  add_at,
}
use acharya_os.User.Invariant.{
  IsValid, find-some, user_at-update_self, user_at-update_ne, update-IsValid, enrolled-IsSlot,
}
use acharya_os.User.Keep.{free-some}
use acharya_os.User.Login.{login_result}

module _ (name full : CString) (role : Role) (t : Accounts) (i : ℕ) (v : IsValid t)
    (given : has_text name ≡ true) (unknown : find name t ≡ none)
    (free : find_free t ≡ some i) where
  abbrev new_account : Account
  new_account = enrolled name full role 1 i (user_at t i)

  abbrev added : Accounts
  added = update i (enrolled name full role 1 i) t

  add-added : add (some name) (some full) role t ≡ (ok, added)
  unfolding add add_at
  add-added = rw (given, unknown, free)

  inside : i < length t.users
  inside = (free-some t i free).0

  at_slot : user_at added i ≡ new_account
  at_slot = user_at-update_self t i (enrolled name full role 1 i) inside

  new_name : text new_account.username ≡ take 31 (text name)
  new_name =
      text-copy_text (user_at t i).username 32 name (omega arith)
        (omega (arith, (v.slot i).name_size))

  named_new : length (text name) ≤ 31 → is_named name (user_at added i) ≡ true
  named_new short =
      let size = (v.slot i).name_size in
      let has =
        has_text-copy_text (user_at t i).username 32 name (omega arith) (omega (arith, size)) in
      let same =
        (copy_text-eq (user_at t i).username 32 name name (omega arith) (omega (arith, size))).1
          (take-all 31 (text name) short) in
      rw (at_slot, has ∙ given, same)

  not_before : (j : ℕ) → j < i → is_named name (user_at added j) ≡ false
  unfolding find
  not_before j lt =
      rw (user_at-update_ne t i (enrolled name full role 1 i) inside j (omega arith))
        (find_index-none (is_named name) blank t.users j unknown (omega (arith, inside)))

  find-added : length (text name) ≤ 31 → find name added ≡ some i
  unfolding find
  find-added short =
      find_index_of_first (is_named name) blank (modify i (enrolled name full role 1 i) t.users) i
        (rw (length-modify i (enrolled name full role 1 i) t.users) inside) (named_new short)
        not_before

-- In a well-formed table, a new name of 1 to 31 characters, with a slot free: `user_add` succeeds, and a search by the name
-- then finds the account in the first free slot, with that name, the full name cut to 63
-- characters, the role asked for, uid one more than the slot, enabled, not locked and without a
-- password; any other slot `j` is as before.
pub add_lookup :
    (name full : CString) (role : Role) (t : Accounts) (i j : ℕ)
    → IsValid t
    → has_text name ≡ true
    → length (text name) ≤ 31
    → find name t ≡ none
    → find_free t ≡ some i
    → i ≢ j
    → let (result, t') = add (some name) (some full) role t in
      let u = user_at t' i in
      (result ≡ ok)
      × (find name t' ≡ some i)
      × (text u.username ≡ text name)
      × (text u.full_name ≡ take 63 (text full))
      × (u.role ≡ role)
      × (u.uid ≡ i + 1)
      × (u.enabled ≡ 1)
      × (u.locked ≡ 0)
      × (u.password_hash ≡ 0)
      × (user_at t' j ≡ user_at t j)
add_lookup name full role t i j v given short unknown free ne =
    let at_i = at_slot name full role t i v given unknown free in
    let lt = inside name full role t i v given unknown free in
    rw (add-added name full role t i v given unknown free) (
      refl,
      find-added name full role t i v given unknown free short,
      rw at_i (new_name name full role t i v given unknown free ∙ take-all 31 (text name) short),
      rw at_i (
          text-copy_text (user_at t i).full_name 64 full (omega arith)
            (omega (arith, (v.slot i).full_size))),
      rw at_i,
      rw at_i (omega (arith, lt, v.slots)),
      rw at_i,
      rw at_i,
      rw at_i,
      user_at-update_ne t i (enrolled name full role 1 i) lt j ne,
    )

-- No account is ever found under a name of 32 characters or more.
find_long :
    (name : CString) (t : Accounts) → IsValid t → 31 < length (text name) → find name t ≡ none
find_long name t v long = elim (Option-cases (find name t)) [
  | inl e ↦ e
  | inr (i, e) ↦
      let f = find-some name t i e in
      let same = (str_eq_iff (user_at t i).username name).0 f.same in
      absurd (omega (arith, ap (λ (x : List ℕ). length x) same, (v.slot i).name_ended))
]

-- With a slot free in a well-formed table, `user_add` accepts a name of 32 characters or more, as often as it is asked:
-- the name is stored cut, so the account is not found under the name it was added by, the check
-- for an existing account does not see it, and nobody can log in by that name.
pub add_long :
    (name full p : CString) (role : Role) (t : Accounts) (i : ℕ)
    → IsValid t
    → 31 < length (text name)
    → has_text name ≡ true
    → find_free t ≡ some i
    → let (result, t') = add (some name) (some full) role t in
      (result ≡ ok)
      × (find name t' ≡ none)
      × (text (user_at t' i).username ≡ take 31 (text name))
      × (login name (some p) t' ≡ (fail, t'))
add_long name full p role t i v long given free =
    let unknown = find_long name t v long in
    let lt = inside name full role t i v given unknown free in
    let v' : IsValid (update i (enrolled name full role 1 i) t) =
      update-IsValid t i (enrolled name full role 1 i) lt
        (enrolled-IsSlot name full role 1 i (user_at t i) (omega (arith, v.slots)) (v.slot i)) v in
    let lost = find_long name _ v' long in
    rw (add-added name full role t i v given unknown free) (
      refl,
      lost,
      rw (at_slot name full role t i v given unknown free)
          (new_name name full role t i v given unknown free),
      (login_result name p _).0 lost,
    )
