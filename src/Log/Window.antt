-- ===== src/Log/Window.antt =====
-- The entries of the ring in order, and what a store does to them.
use acharya_os.Base.{
  ℕ, zero, suc, ◌+◌, ◌%◌, ◌<◌, ◌≡◌, ◌≢◌, refl, ◌∙◌, ap, arith, List, [], ◌∷◌, ◌++◌, length, get_or,
  set, get_or-set_self, get_or-set_ne,
}
use acharya_os.Log.{Entry, Level, blank}
use acharya_os.Kstring.{text}

-- What an entry says.
pub record View : Type 0 where
  pub tick : ℕ
  pub level : Level
  pub message : List ℕ

abbrev pub view : Entry → View
view e = record { tick = e.tick; level = e.level; message = text e.message }

-- The entry at a place of the ring; places go round at 64.
abbrev pub entry_at : List Entry → ℕ → Entry
entry_at buf i = get_or buf (i % 64) blank

-- `n` entries from place `i` on.
abbrev pub window : List Entry → ℕ → ℕ → List View
window buf i zero = []
window buf i (suc n) = view (entry_at buf i) ∷ window buf (i + 1) n

pub length-window : (buf : List Entry) (i n : ℕ) → length (window buf i n) ≡ n
length-window buf i zero = refl
length-window buf i (suc n) = ap suc (length-window buf (i + 1) n)

-- Places that agree round the ring show the same.
pub window_round :
    (buf : List Entry) (i j n : ℕ) → i % 64 ≡ j % 64 → window buf i n ≡ window buf j n
window_round buf i j zero e = refl
window_round buf i j (suc n) e = rw (e, window_round buf (i + 1) (j + 1) n (omega arith))

-- The last entry of a window.
pub window_last :
    (buf : List Entry) (i n : ℕ)
    → window buf i (suc n) ≡ window buf i n ++ (view (entry_at buf (i + n)) ∷ [])
window_last buf i zero = let e : i + 0 ≡ i = omega arith in rw e
window_last buf i (suc n) =
    let e : i + 1 + n ≡ i + suc n = omega arith in
    ap (λ t. view (entry_at buf i) ∷ t) (window_last buf (i + 1) n ∙ rw e)

-- A store at a place outside a window does not show in it.
pub window_outside :
    (buf : List Entry) (p : ℕ) (x : Entry) (i n : ℕ)
    → ((k : ℕ) → k < n → p ≢ (i + k) % 64)
    → window (set buf p x) i n ≡ window buf i n
window_outside buf p x i zero out = refl
window_outside buf p x i (suc n) out =
    let e : i + 0 ≡ i = omega arith in
    rw (
      get_or-set_ne buf p (i % 64) x blank (rw e at (out 0 (omega arith))),
      window_outside buf p x (i + 1) n
          (λ k lt. let f : i + 1 + k ≡ i + suc k = omega arith in rw f (out (suc k) (omega arith))),
    )

-- A store just behind a window of at most 63 entries makes it longer.
pub window_extend :
    (buf : List Entry) (p : ℕ) (x : Entry) (i n : ℕ)
    → length buf ≡ 64
    → n < 64
    → p ≡ (i + n) % 64
    → window (set buf p x) i (suc n) ≡ window buf i n ++ (view x ∷ [])
window_extend buf p x i n size small e =
    window_last (set buf p x) i n
    ∙ rw (
      window_outside buf p x i n (λ k lt. omega arith),
      ← e,
      get_or-set_self buf p x blank (omega arith),
    )
