-- ===== src/Window/Registry.antt =====
-- The windows that are in use, and the active one.
use native.Mathlib.Decide.{ℕ_discrete, dec_lt}
use acharya_os.Base.{
  ℕ, ◌+◌, ◌≤◌, ◌<◌, ◌≡◌, ◌≢◌, refl, ap, ◌∙◌, arith, Bool, true, false, not, ◌&&◌, ◌==◌, some, none,
  Option-cases, inl, inr, length, length-modify, get_or-modify_self, get_or-modify_ne, find_index,
  find_index-some, find_index_of_first, get_or-replicate,
}
use acharya_os.Window.{Window, Manager, blank, is_used, window_at, find, init, with_window}

-- The window of slot `i`, in use.
pub record IsWindow (i : ℕ) (w : Window) : Type 0 where
  pub on : is_used w ≡ true
  pub numbered : w.id ≡ i + 1
  pub wide : 40 ≤ w.width
  pub high : 30 ≤ w.height

pub record IsValid (wm : Manager) : Type 0 where
  pub slots : length wm.windows ≡ 8
  pub few : wm.stats.window_count ≤ 8
  pub next : wm.stats.next_window_id ≡ wm.stats.window_count + 1
  pub window : (i : ℕ) → i < wm.stats.window_count → IsWindow i (window_at wm i)
  pub free : (i : ℕ) → wm.stats.window_count ≤ i → is_used (window_at wm i) ≡ false
  pub active_in : wm.stats.active_window_id ≤ wm.stats.window_count
  pub active_some : (0 < wm.stats.window_count → 0 < wm.stats.active_window_id)

pub init-IsValid : (fb : Bool) → IsValid (init fb)
unfolding init
init-IsValid fb = record {
  slots = refl;
  few = omega arith;
  next = refl;
  window = λ i h. absurd (omega arith);
  free = λ i h. ap is_used (get_or-replicate 8 i blank);
  active_in = omega arith;
  active_some = λ h. absurd (omega arith);
}

module _ (wm : Manager) (v : IsValid wm) where
  pub free_slot :
      wm.stats.window_count < 8
      → find_index (λ w. not (is_used w)) wm.windows ≡ some wm.stats.window_count
  free_slot room =
      find_index_of_first (λ w. not (is_used w)) blank wm.windows wm.stats.window_count
        (omega (arith, v.slots)) (rw (v.free wm.stats.window_count (omega arith)) refl)
        (λ j lt. rw (v.window j lt).on refl)

  pub no_slot : wm.stats.window_count ≡ 8 → find_index (λ w. not (is_used w)) wm.windows ≡ none
  no_slot full = elim (Option-cases (find_index (λ w. not (is_used w)) wm.windows)) [
    | inl e ↦ e
    | inr (i, e) ↦
        let f = find_index-some (λ w. not (is_used w)) blank wm.windows i e in
        let used = (v.window i (omega (arith, f.0, v.slots))).on in
        let unused = f.1 in absurd (ground arith)
  ]

  -- A search by number finds just the windows in use.
  pub find-window : (i : ℕ) → i < wm.stats.window_count → find (i + 1) wm ≡ some i
  unfolding find
  find-window i lt =
      find_index_of_first (λ w. is_used w && w.id == i + 1) blank wm.windows i
        (omega (arith, v.slots, v.few)) (let w = v.window i lt in ground (arith, w.on, w.numbered))
        (λ j l. let w = v.window j (omega arith) in ground (arith, w.numbered))

  pub find-in : (id i : ℕ) → find id wm ≡ some i → (0 < id) × (id ≤ wm.stats.window_count)
  unfolding find
  find-in id i e =
      let f = find_index-some (λ w. is_used w && w.id == id) blank wm.windows i e in
      elim (dec_lt i wm.stats.window_count) [
        | yes lt ↦ let w = v.window i lt in ground (arith, w.numbered, f.1)
        | no out ↦ let off = v.free i (omega arith) in absurd (ground (arith, f.1))
      ]

module _ (w : Window) (wm : Manager) (v : IsValid wm) (room : wm.stats.window_count < 8)
    (new : IsWindow wm.stats.window_count w) where
  abbrev added : Manager
  added = with_window wm.stats.window_count w wm

  count-added : added.stats.window_count ≡ wm.stats.window_count + 1
  count-added = omega arith

  pub added-new : window_at added wm.stats.window_count ≡ w
  added-new =
      get_or-modify_self wm.stats.window_count (λ old. w) wm.windows blank (omega (arith, v.slots))

  added-old : (j : ℕ) → wm.stats.window_count ≢ j → window_at added j ≡ window_at wm j
  added-old j ne = get_or-modify_ne wm.stats.window_count j (λ old. w) wm.windows blank ne

  pub added-IsValid : IsValid added
  added-IsValid = record {
    slots = length-modify wm.stats.window_count (λ old. w) wm.windows ∙ v.slots;
    few = omega arith;
    next = omega (arith, v.next);
    window = λ i lt. elim (ℕ_discrete wm.stats.window_count i) [
      | yes e ↦ rw (← e, added-new) new
      | no ne ↦ rw (added-old i ne) (v.window i (omega arith))
    ];
    free = λ i le. rw (added-old i (omega arith)) (v.free i (omega arith));
    active_in = ground (arith, new.numbered, v.active_in);
    active_some = λ h. ground (arith, new.numbered);
  }
