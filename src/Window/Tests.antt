-- ===== src/Window/Tests.antt =====
-- The registry as the demo fills it.
use acharya_os.Base.{◌+◌, ◌≡◌, refl, arith, true, some, none, List, [], ◌∷◌, take}
use acharya_os.Kstring.{codes, text, copy_text, copy_loop}
use acharya_os.Window.{
  init, ready, create_window, set_active, window_at, find, title_or, demo_layout,
}
use acharya_os.Window.Registry.{IsValid, init-IsValid}
use acharya_os.Window.Calls.{create_lem, Call, create, focus, perform_all, windows-IsValid}

abbrev calls : List Call
calls =
    create (some (codes "shell")) 20 20 150 90 true
    ∷ create none 190 35 110 120 true
    ∷ create (some (codes "tiny")) 0 0 10 10 true
    ∷ focus 2
    ∷ focus 7
    ∷ []

windows-IsValid_example : IsValid (perform_all calls (init true))
windows-IsValid_example = windows-IsValid calls true

two_windows : (perform_all calls (init true)).stats.window_count ≡ 2
unfolding init create_window ready set_active find copy_text copy_loop
two_windows = refl

second_active : (perform_all calls (init true)).stats.active_window_id ≡ 2
unfolding init create_window ready set_active find copy_text copy_loop
second_active = refl

demo_count : (demo_layout true).0.stats.window_count ≡ 3
unfolding demo_layout init create_window ready find copy_text copy_loop
demo_count = refl

is_there : ready true (init true) ≡ true
unfolding ready init
is_there = refl

no_window : (init true).stats.window_count ≡ 0
unfolding init
no_window = refl

create_lem_example :
    let n = (init true).stats.window_count in
    let (id, wm') = create_window none 20 20 150 90 true (init true) in
    let w = window_at wm' n in
    (id ≡ n + 1)
    × (find id wm' ≡ some n)
    × (wm'.stats.window_count ≡ n + 1)
    × (w.x ≡ 20)
    × (w.y ≡ 20)
    × (w.width ≡ 150)
    × (w.height ≡ 90)
    × (text w.title ≡ take 23 (text (title_or none)))
create_lem_example =
    create_lem none 20 20 150 90 true (init true) (init-IsValid true) is_there (omega arith)
      (omega arith) (omega (arith, no_window))
