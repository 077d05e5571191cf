-- ===== src/User/Invariant.antt =====
-- The account table's invariant, and what keeps it.
use native.Mathlib.Decide.{ℕ_discrete}
use acharya_os.Base.{
  ℕ, ◌+◌, ◌-◌, ◌≤◌, ◌<◌, ◌≡◌, ◌≢◌, ◌∙◌, sym, ap, arith, true, some, length, length-modify,
  get_or-modify_self, get_or-modify_ne, find_index-some,
}
use acharya_os.Kstring.{CString, text, has_text, str_eq}
use acharya_os.Kstring.Laws.{length-copy_text, copy_text-lt}
use acharya_os.User.{Account, Accounts, Role, blank, user_at, update, is_named, find, enrolled}

-- An account slot: the arrays have their sizes, the name is ended by a NUL, and the uid of a slot
-- in use is its number.
pub record IsSlot (i : ℕ) (u : Account) : Type 0 where
  pub name_size : length u.username ≡ 32
  pub full_size : length u.full_name ≡ 64
  pub name_ended : length (text u.username) ≤ 31
  pub numbered : has_text u.username ≡ true → u.uid ≡ i + 1

pub record IsValid (t : Accounts) : Type 0 where
  pub slots : length t.users ≡ 16
  pub slot : (i : ℕ) → IsSlot i (user_at t i)

-- The active uid is that of a named account, and this account is enabled.
pub record IsActive (t : Accounts) : Type 0 where
  pub place : (0 < t.active_uid) × (t.active_uid ≤ 16)
  pub named : has_text (user_at t (t.active_uid - 1)).username ≡ true
  pub on : (user_at t (t.active_uid - 1)).enabled ≢ 0

-- What a search by name finds.
pub record Found (name : CString) (t : Accounts) (i : ℕ) : Type 0 where
  pub inside : i < length t.users
  pub named : has_text (user_at t i).username ≡ true
  pub same : str_eq (user_at t i).username name ≡ true

pub find-some : (name : CString) (t : Accounts) (i : ℕ) → find name t ≡ some i → Found name t i
unfolding find
find-some name t i h =
    let f = find_index-some (is_named name) blank t.users i h in
    record { inside = f.0; named = ground (arith, f.1); same = ground (arith, f.1) }

module _ (t : Accounts) (i : ℕ) (f : Account → Account) (inside : i < length t.users) where
  pub user_at-update_self : user_at (update i f t) i ≡ f (user_at t i)
  user_at-update_self = get_or-modify_self i f t.users blank inside

  pub user_at-update_ne : (j : ℕ) → i ≢ j → user_at (update i f t) j ≡ user_at t j
  user_at-update_ne j ne = get_or-modify_ne i j f t.users blank ne

  pub update-IsValid : IsSlot i (f (user_at t i)) → IsValid t → IsValid (update i f t)
  update-IsValid s v = record {
    slots = length-modify i f t.users ∙ v.slots;
    slot = λ j. elim (ℕ_discrete i j) [
      | yes e ↦ rw (← e, user_at-update_self) s
      | no ne ↦ rw (user_at-update_ne j ne) (v.slot j)
    ];
  }

  -- A change keeps the active account, if it is another, or if the change leaves it named and on.
  pub update-IsActive :
      (i + 1 ≡ t.active_uid
        → (has_text (f (user_at t i)).username ≡ true) × ((f (user_at t i)).enabled ≢ 0))
      → IsActive t
      → IsActive (update i f t)
  update-IsActive keeps a = elim (ℕ_discrete i (t.active_uid - 1)) [
    | yes e ↦
        let kept = keeps (omega (arith, a.place)) in
        record {
          place = a.place;
          named = rw (← e, user_at-update_self) kept.0;
          on = rw (← e, user_at-update_self) kept.1;
        }
    | no ne ↦ record {
      place = a.place;
      named = rw (user_at-update_ne (t.active_uid - 1) ne) a.named;
      on = rw (user_at-update_ne (t.active_uid - 1) ne) a.on;
    }
  ]

-- A change of other fields than the names and the uid keeps a slot.
pub IsSlot-same :
    {i : ℕ} {u : Account} (w : Account)
    → w.username ≡ u.username
    → w.full_name ≡ u.full_name
    → w.uid ≡ u.uid
    → IsSlot i u
    → IsSlot i w
IsSlot-same w a b c s = record {
  name_size = ap (λ (x : CString). length x) a ∙ s.name_size;
  full_size = ap (λ (x : CString). length x) b ∙ s.full_size;
  name_ended = rw a s.name_ended;
  numbered = λ h. c ∙ s.numbered (ap has_text (sym a) ∙ h);
}

pub enrolled-IsSlot :
    (username full_name : CString) (role : Role) (enabled i : ℕ) (u : Account)
    → i < 16
    → IsSlot i u
    → IsSlot i (enrolled username full_name role enabled i u)
enrolled-IsSlot username full_name role enabled i u lt s = record {
  name_size = length-copy_text u.username 32 username ∙ s.name_size;
  full_size = length-copy_text u.full_name 64 full_name ∙ s.full_size;
  name_ended =
      omega (arith, copy_text-lt u.username 32 username (omega arith) (omega (arith, s.name_size)));
  numbered = λ _. omega arith;
}
