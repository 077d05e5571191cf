-- ===== src/Window.antt =====
-- gui/window.c: the window manager. `fb` is what `fb_ready` returns at the time of the call. What
-- rendering hands to the framebuffer is a list of drawing calls, the first one first.
pub mod Registry
pub mod Calls
mod Tests
use acharya_os.Base.{
  ℕ, ◌+◌, ◌-◌, ◌*◌, List, [], ◌∷◌, ◌++◌, Bool, true, false, not, ◌&&◌, ◌||◌, Option, none, some,
  Status, ok, fail, ◌==◌, ltb, if◌then◌else◌, u32, u64, get_or, replicate, find_index, collect,
  modify, maybe,
}
use acharya_os.Kstring.{CString, codes, copy_text}

-- `wm_window_t`.
pub record Window : Type 0 where
  pub used : ℕ
  pub id : ℕ
  pub x : ℕ
  pub y : ℕ
  pub width : ℕ
  pub height : ℕ
  pub border_color : ℕ
  pub title_color : ℕ
  pub client_color : ℕ
  pub title : CString

-- `wm_stats_t`.
pub record Stats : Type 0 where
  pub window_count : ℕ
  pub next_window_id : ℕ
  pub active_window_id : ℕ

pub record Manager : Type 0 where
  pub windows : List Window
  pub stats : Stats
  pub is_ready : Bool

-- The calls of the framebuffer.
pub data Draw : Type 0 where
  clear : ℕ → Draw
  fill_rect : ℕ → ℕ → ℕ → ℕ → ℕ → Draw

abbrev pub max_windows : ℕ
max_windows = 8

abbrev pub title_max : ℕ
title_max = 24

abbrev pub border_thickness : ℕ
border_thickness = 2

abbrev pub title_height : ℕ
title_height = 18

-- What `memset` to 0 leaves.
abbrev pub blank : Window
blank = record {
  used = 0;
  id = 0;
  x = 0;
  y = 0;
  width = 0;
  height = 0;
  border_color = 0;
  title_color = 0;
  client_color = 0;
  title = replicate title_max 0;
}

abbrev pub is_used : Window → Bool
is_used w = not (w.used == 0)

-- wm_windows[i]
abbrev pub window_at : Manager → ℕ → Window
window_at wm i = get_or wm.windows i blank

-- The slot of the window; `none` is the null pointer.
pub find : ℕ → Manager → Option ℕ
find id wm = find_index (λ w. is_used w && w.id == id) wm.windows

-- The inside of the border, in one direction.
abbrev pub inner : ℕ → ℕ → ℕ
inner size taken = if ltb taken size then size - taken else 0

abbrev pub draw_client : Window → List Draw
draw_client w =
    let client_w = inner w.width (border_thickness * 2) in
    let client_h = inner w.height (title_height + border_thickness) in
    if ltb 0 client_w && ltb 0 client_h
    then fill_rect (u32 (w.x + border_thickness)) (u32 (w.y + title_height)) client_w client_h
        w.client_color
      ∷ []
    else []

abbrev pub draw_title : Window → List Draw
draw_title w =
    let title_w = inner w.width (border_thickness * 2) in
    if ltb w.x (u32 (w.x + w.width)) && ltb w.y (u32 (w.y + w.height)) && ltb 0 title_w
    then fill_rect (u32 (w.x + border_thickness)) (u32 (w.y + border_thickness)) title_w
        (title_height - border_thickness) w.title_color
      ∷ []
    else []

pub draw_window : Window → List Draw
draw_window w =
    if not (is_used w)
    then []
    else fill_rect w.x w.y w.width w.height w.border_color ∷ (draw_client w ++ draw_title w)

pub init : Bool → Manager
init fb = record {
  windows = replicate max_windows blank;
  stats = record { window_count = 0; next_window_id = 1; active_window_id = 0 };
  is_ready = fb;
}

pub ready : Bool → Manager → Bool
ready fb wm = wm.is_ready && fb

-- title ? title : "window"
abbrev pub title_or : Option CString → CString
title_or title = maybe title (codes "window") λ t. t

-- The slot that `wm_create_window` fills in.
abbrev pub new_window : ℕ → Option CString → ℕ → ℕ → ℕ → ℕ → Window
new_window id title x y width height = record {
  used = 1;
  id = id;
  x = x;
  y = y;
  width = width;
  height = height;
  border_color = 0xFF1D1F24;
  title_color = 0xFF4C78A8;
  client_color = 0xFFE7E9ED;
  title = copy_text (replicate title_max 0) title_max (title_or title);
}

abbrev pub with_window : ℕ → Window → Manager → Manager
with_window i w wm = record wm {
  windows = modify i (λ old. w) wm.windows;
  stats = record {
    window_count = u64 (wm.stats.window_count + 1);
    next_window_id = u32 (wm.stats.next_window_id + 1);
    active_window_id = if wm.stats.active_window_id == 0 then w.id else wm.stats.active_window_id;
  };
}

pub create_window : Option CString → ℕ → ℕ → ℕ → ℕ → Bool → Manager → ℕ × Manager
create_window title x y width height fb wm =
    if not (ready fb wm) || ltb width 40 || ltb height 30
    then (0, wm)
    else maybe (find_index (λ w. not (is_used w)) wm.windows) (0, wm)
        λ i. (
          wm.stats.next_window_id,
          with_window i (new_window wm.stats.next_window_id title x y width height) wm,
        )

abbrev pub activate : ℕ → Manager → Manager
activate id wm = record wm { stats = record (wm.stats) { active_window_id = id } }

pub set_active : ℕ → Manager → Status × Manager
set_active id wm = maybe (find id wm) (fail, wm) λ i. (ok, activate id wm)

pub draw_all : List Window → List Draw
draw_all [] = []
draw_all (w ∷ ws) = draw_window w ++ draw_all ws

-- The stripe over the active window.
pub draw_active : Manager → List Draw
draw_active wm =
    if wm.stats.active_window_id == 0
    then []
    else maybe (find wm.stats.active_window_id wm) [] λ i.
      fill_rect (window_at wm i).x (window_at wm i).y (window_at wm i).width 3 0xFFF2C14E ∷ []

pub render : Bool → Manager → List Draw
render fb wm =
    if not (ready fb wm) then [] else clear 0xFF101820 ∷ (draw_all wm.windows ++ draw_active wm)

-- The manager afterwards, and what is drawn.
pub demo_layout : Bool → Manager × List Draw
demo_layout fb =
    let wm0 = init fb in
    let wm1 = (create_window (some (codes "shell")) 20 20 150 90 fb wm0).1 in
    let wm2 = (create_window (some (codes "notes")) 190 35 110 120 fb wm1).1 in
    let wm3 = activate 1 (create_window (some (codes "monitor")) 70 130 180 55 fb wm2).1 in
    if not (ready fb wm0) then (wm0, []) else (wm3, render fb wm3)

pub copy_windows : ℕ → Manager → List Window
copy_windows max wm = collect is_used max wm.windows
