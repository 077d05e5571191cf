-- ===== src/Window/Calls.antt =====
-- What the calls of the window manager return and keep.
use native.Mathlib.Decide.{dec_lt}
use acharya_os.Base.{
  ℕ, ◌+◌, ◌≤◌, ◌<◌, ◌≡◌, refl, ap, ◌∙◌, arith, List, [], ◌∷◌, Bool, true, false, not, ◌||◌, ltb,
  Option, some, Option-cases, Bool-cases, inl, inr, take, replicate,
}
use acharya_os.Kstring.{CString, codes, text}
use acharya_os.Kstring.Laws.{text-copy_text}
use acharya_os.Window.{
  Window, Manager, window_at, find, init, ready, new_window, with_window, title_or, create_window,
  set_active, demo_layout,
}
use acharya_os.Window.Registry.{
  IsWindow, IsValid, init-IsValid, free_slot, no_slot, find-window, find-in, added-new,
  added-IsValid,
}

module _ (title : Option CString) (x y width height : ℕ) (fb : Bool) (wm : Manager)
    (v : IsValid wm) where
  abbrev made : Window
  made = new_window wm.stats.next_window_id title x y width height

  create-refused :
      (not (ready fb wm) || ltb width 40 || ltb height 30) ≡ true
      → create_window title x y width height fb wm ≡ (0, wm)
  unfolding create_window
  create-refused bad = rw bad

  create-full : wm.stats.window_count ≡ 8 → create_window title x y width height fb wm ≡ (0, wm)
  unfolding create_window
  create-full full = elim (Bool-cases (not (ready fb wm) || ltb width 40 || ltb height 30)) [
    | inl bad ↦ rw bad
    | inr good ↦ rw (good, no_slot wm v full)
  ]

  create-room :
      (not (ready fb wm) || ltb width 40 || ltb height 30) ≡ false
      → wm.stats.window_count < 8
      → create_window title x y width height fb wm
        ≡ (wm.stats.next_window_id, with_window wm.stats.window_count made wm)
  unfolding create_window
  create-room good room = rw (good, free_slot wm v room)

  made-IsWindow :
      (not (ready fb wm) || ltb width 40 || ltb height 30) ≡ false
      → IsWindow wm.stats.window_count made
  made-IsWindow good = record {
    on = refl;
    numbered = v.next;
    wide = ground arith;
    high = ground arith;
  }

  create-IsValid : IsValid (create_window title x y width height fb wm).1
  create-IsValid = elim (Bool-cases (not (ready fb wm) || ltb width 40 || ltb height 30)) [
    | inl bad ↦ rw (create-refused bad) v
    | inr good ↦ elim (dec_lt wm.stats.window_count 8) [
      | yes room ↦ rw (create-room good room) (added-IsValid made wm v room (made-IsWindow good))
      | no full ↦ rw (create-full (omega (arith, v.few))) v
    ]
  ]

-- In a well-formed registry with a slot free, while the framebuffer is there, a window of at least
-- 40 by 30 is created: its number is one more than the number of windows so far, a search by this
-- number finds its slot, and it has the geometry asked for and the title cut to 23 characters.
pub create_lem :
    (title : Option CString) (x y width height : ℕ) (fb : Bool) (wm : Manager)
    → IsValid wm
    → ready fb wm ≡ true
    → 40 ≤ width
    → 30 ≤ height
    → wm.stats.window_count < 8
    → let n = wm.stats.window_count in
      let (id, wm') = create_window title x y width height fb wm in
      let w = window_at wm' n in
      (id ≡ n + 1)
      × (find id wm' ≡ some n)
      × (wm'.stats.window_count ≡ n + 1)
      × (w.x ≡ x)
      × (w.y ≡ y)
      × (w.width ≡ width)
      × (w.height ≡ height)
      × (text w.title ≡ take 23 (text (title_or title)))
create_lem title x y width height fb wm v on wide high room =
    let good : (not (ready fb wm) || ltb width 40 || ltb height 30) ≡ false = ground arith in
    let w = new_window wm.stats.next_window_id title x y width height in
    let v' = added-IsValid w wm v room (made-IsWindow title x y width height fb wm v good) in
    let at = added-new w wm v room (made-IsWindow title x y width height fb wm v good) in
    let named : find wm.stats.next_window_id (with_window wm.stats.window_count w wm)
        ≡ some wm.stats.window_count =
      ap (λ (k : ℕ). find k (with_window wm.stats.window_count w wm)) v.next
      ∙ find-window (with_window wm.stats.window_count w wm) v' wm.stats.window_count
          (omega arith) in
    rw (create-room title x y width height fb wm v good room) (
      v.next,
      named,
      omega arith,
      ap (λ (u : Window). u.x) at,
      ap (λ (u : Window). u.y) at,
      ap (λ (u : Window). u.width) at,
      ap (λ (u : Window). u.height) at,
      ap (λ (u : Window). text u.title) at
          ∙ text-copy_text (replicate 24 0) 24 (title_or title) (omega arith) (omega arith),
    )

set_active-IsValid : (id : ℕ) (wm : Manager) → IsValid wm → IsValid (set_active id wm).1
unfolding set_active
set_active-IsValid id wm v = elim (Option-cases (find id wm)) [
  | inl e ↦ rw e v
  | inr (i, e) ↦
      let there = find-in wm v id i e in
      rw e (record {
        slots = v.slots;
        few = v.few;
        next = v.next;
        window = v.window;
        free = v.free;
        active_in = there.1;
        active_some = λ h. there.0;
      })
]

-- The manager after the three calls of `wm_demo_layout`.
abbrev three : Manager
three =
    (create_window (some (codes "monitor")) 70 130 180 55 true
      (create_window (some (codes "notes")) 190 35 110 120 true
        (create_window (some (codes "shell")) 20 20 150 90 true (init true)).1).1).1

three-IsValid : IsValid three
three-IsValid = create-IsValid (some (codes "monitor")) 70 130 180 55 true _ (
    create-IsValid (some (codes "notes")) 190 35 110 120 true _
      (create-IsValid (some (codes "shell")) 20 20 150 90 true _ (init-IsValid true)))

three_windows : three.stats.window_count ≡ 3
unfolding init create_window ready find
three_windows = refl

demo-IsValid : (fb : Bool) → IsValid (demo_layout fb).0
unfolding demo_layout ready init
demo-IsValid false = init-IsValid false
demo-IsValid true =
    let v = three-IsValid in
    record {
      slots = v.slots;
      few = v.few;
      next = v.next;
      window = v.window;
      free = v.free;
      active_in = omega (arith, three_windows);
      active_some = λ h. omega arith;
    }

-- What changes the registry after `wm_init`.
pub data Call : Type 0 where
  start demo : Bool → Call
  create : Option CString → ℕ → ℕ → ℕ → ℕ → Bool → Call
  focus : ℕ → Call

abbrev pub perform : Call → Manager → Manager
perform (start fb) wm = init fb
perform (demo fb) wm = (demo_layout fb).0
perform (create title x y width height fb) wm = (create_window title x y width height fb wm).1
perform (focus id) wm = (set_active id wm).1

abbrev pub perform_all : List Call → Manager → Manager
perform_all [] wm = wm
perform_all (c ∷ cs) wm = perform_all cs (perform c wm)

perform-IsValid : (c : Call) (wm : Manager) → IsValid wm → IsValid (perform c wm)
perform-IsValid (start fb) wm v = init-IsValid fb
perform-IsValid (demo fb) wm v = demo-IsValid fb
perform-IsValid (create title x y width height fb) wm v =
    create-IsValid title x y width height fb wm v
perform-IsValid (focus id) wm v = set_active-IsValid id wm v

perform_all-IsValid : (cs : List Call) (wm : Manager) → IsValid wm → IsValid (perform_all cs wm)
perform_all-IsValid [] wm v = v
perform_all-IsValid (c ∷ cs) wm v = perform_all-IsValid cs (perform c wm) (perform-IsValid c wm v)

-- After `wm_init` and any calls that initialise again, lay out the demo, create windows and make one active: the
-- windows fill the slots from the first on, the one in slot `i` has number `i + 1` and is at least
-- 40 by 30, the count is right and at most 8, and if there are windows, one of them is active.
pub windows-IsValid : (calls : List Call) (fb : Bool) → IsValid (perform_all calls (init fb))
windows-IsValid calls fb = perform_all-IsValid calls (init fb) (init-IsValid fb)
