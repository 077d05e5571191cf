-- ===== src/User/Keep.antt =====
-- What a change of one slot keeps.
use native.Mathlib.Decide.{ℕ_discrete}
use acharya_os.Base.{
  ℕ, ◌+◌, ◌-◌, ◌<◌, ◌≡◌, ◌≢◌, ◌∙◌, ap, arith, true, false, some, length, inl, inr, find_index-some,
  ◌⊎◌,
}
use acharya_os.Kstring.{CString, has_text}
use acharya_os.User.{Account, Accounts, blank, user_at, update, is_free, find, find_free}
use acharya_os.User.Invariant.{
  IsValid, IsActive, Found, find-some, update-IsValid, update-IsActive, IsSlot-same,
}

-- The table is well formed and its active account is an enabled one.
pub record IsSound (t : Accounts) : Type 0 where
  pub valid : IsValid t
  pub active : IsActive t

-- A free slot is not the active one.
pub free-some :
    (t : Accounts) (i : ℕ)
    → find_free t ≡ some i
    → (i < length t.users) × (has_text (user_at t i).username ≡ false)
unfolding find_free
free-some t i h = let f = find_index-some is_free blank t.users i h in (f.0, ground (arith, f.1))

pub free-not_active :
    (t : Accounts) (i : ℕ)
    → IsActive t
    → has_text (user_at t i).username ≡ false
    → i + 1 ≢ t.active_uid
free-not_active t i a free e =
    let same : t.active_uid - 1 ≡ i = omega arith in
    let named : has_text (user_at t i).username ≡ true = rw same at (a.named) in cc

-- A named slot that a search found, changed in other fields than name, uid and a raised flag.
module _ (t : Accounts) (name : CString) (i : ℕ) (h : find name t ≡ some i) (s : IsSound t) where
  pub found : Found name t i
  found = find-some name t i h

  pub keep_slot :
      (f : Account → Account)
      → ((u : Account) → (f u).username ≡ u.username)
      → ((u : Account) → (f u).full_name ≡ u.full_name)
      → ((u : Account) → (f u).uid ≡ u.uid)
      → ((f (user_at t i)).enabled ≢ 0) ⊎ (i + 1 ≢ t.active_uid)
      → IsSound (update i f t)
  keep_slot f a b c on = record {
    valid =
        update-IsValid t i f found.inside
          (IsSlot-same (f (user_at t i)) (a (user_at t i)) (b (user_at t i)) (c (user_at t i))
            (s.valid.slot i))
          s.valid;
    active =
        update-IsActive t i f found.inside
          (λ mine. elim on [
            | inl yes_on ↦ (ap has_text (a (user_at t i)) ∙ found.named, yes_on)
            | inr other ↦ absurd (other mine)
          ])
          s.active;
  }

  pub keep_on :
      (f : Account → Account)
      → ((u : Account) → (f u).username ≡ u.username)
      → ((u : Account) → (f u).full_name ≡ u.full_name)
      → ((u : Account) → (f u).uid ≡ u.uid)
      → ((u : Account) → (f u).enabled ≡ u.enabled)
      → IsSound (update i f t)
  keep_on f a b c d = keep_slot f a b c (elim (ℕ_discrete (i + 1) t.active_uid) [
    | yes e ↦ let same : t.active_uid - 1 ≡ i = omega arith in inl (rw d (rw same at (s.active.on)))
    | no ne ↦ inr ne
  ])
