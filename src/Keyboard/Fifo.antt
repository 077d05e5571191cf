-- ===== src/Keyboard/Fifo.antt =====
-- The ring is a queue of at most 127 characters.
use acharya_os.Base.{
  ℕ, zero, suc, ◌+◌, ◌%◌, ◌<◌, ◌≡◌, refl, ap, sym, ◌∙◌, arith, List, [], ◌∷◌, ◌++◌, Bool, true,
  false, not, Option, none, some, ◌==◌, ltb, Bool-cases, inl, inr, if◌then◌else◌, length, get_or,
  set, length-set, get_or-set_self, get_or-set_ne, length-append, u32,
}
use acharya_os.Keyboard.{
  Keyboard, boot, buffer_push, key_of, is_released, is_shift, char_of, on_interrupt, getchar,
}

-- What the keyboard promises: the characters typed and not yet read, the oldest first.
pub record Queue : Type 0 where
  pub waiting : List ℕ
  pub shift_down : Bool

abbrev pub empty : Queue
empty = record { waiting = []; shift_down = false }

-- A character that finds 127 waiting is lost.
abbrev pub enqueue : ℕ → Queue → Queue
enqueue c q = if ltb (length q.waiting) 127 then record q { waiting = q.waiting ++ (c ∷ []) } else q

unfoldable pub typed : ℕ → Queue → Queue
typed scancode q =
    let key = key_of scancode in
    let c = char_of q.shift_down key in
    if is_shift key
    then record q { shift_down = not (is_released scancode) }
    else if is_released scancode
    then q
    else if c == 0
    then q
    else enqueue c q

abbrev pub next : List ℕ → Option ℕ
next [] = none
next (c ∷ cs) = some c

abbrev pub rest : List ℕ → List ℕ
rest [] = []
rest (c ∷ cs) = cs

-- `n` characters from place `i` on; places go round at 128.
abbrev items : List ℕ → ℕ → ℕ → List ℕ
items buf i zero = []
items buf i (suc n) = get_or buf (i % 128) 0 ∷ items buf (i + 1) n

items_round : (buf : List ℕ) (i j n : ℕ) → i % 128 ≡ j % 128 → items buf i n ≡ items buf j n
items_round buf i j zero h = refl
items_round buf i j (suc n) h = rw (h, items_round buf (i + 1) (j + 1) n (omega arith))

items-set :
    (buf : List ℕ) (i n h c : ℕ)
    → length buf ≡ 128
    → n < 128
    → h ≡ (i + n) % 128
    → items (set buf h c) i (suc n) ≡ items buf i n ++ (c ∷ [])
items-set buf i zero h c full lt at =
    let e : i % 128 ≡ h = omega arith in rw (e, get_or-set_self buf h c 0 (omega arith))
items-set buf i (suc n) h c full lt at = rw (get_or-set_ne buf h (i % 128) c 0 (omega arith)) (
    ap (λ (t : List ℕ). get_or buf (i % 128) 0 ∷ t)
      (items-set buf (i + 1) n h c full (omega arith) (omega arith)))

record Refines (kb : Keyboard) (q : Queue) : Type 0 where
  slots : length kb.keybuf ≡ 128
  head_in : kb.head < 128
  tail_in : kb.tail < 128
  small : length q.waiting < 128
  ends : kb.head ≡ (kb.tail + length q.waiting) % 128
  contents : items kb.keybuf kb.tail (length q.waiting) ≡ q.waiting
  shifted : kb.shift_down ≡ q.shift_down

push-Refines :
    (c : ℕ) (kb : Keyboard) (q : Queue) → Refines kb q → Refines (buffer_push c kb) (enqueue c q)
unfolding buffer_push
push-Refines c kb q r = elim (Bool-cases (ltb (length q.waiting) 127)) [
  | inr full ↦
      let meets : (u32 (kb.head + 1) % 128 == kb.tail) ≡ true =
        ground (arith, r.ends, r.small, r.tail_in) in
      rw (full, meets) r
  | inl room ↦
      let apart : (u32 (kb.head + 1) % 128 == kb.tail) ≡ false =
        ground (arith, r.ends, r.tail_in) in
      let grown : length (q.waiting ++ (c ∷ [])) ≡ suc (length q.waiting) =
        omega (arith, length-append q.waiting (c ∷ [])) in
      rw (room, apart)
        (record {
          slots = length-set kb.keybuf kb.head c ∙ r.slots;
          head_in = omega arith;
          tail_in = r.tail_in;
          small = ground (arith, grown);
          ends = omega (arith, grown, r.ends, r.head_in);
          contents = rw grown (
              items-set kb.keybuf kb.tail (length q.waiting) kb.head c r.slots r.small r.ends
              ∙ ap (λ (t : List ℕ). t ++ (c ∷ [])) r.contents);
          shifted = r.shifted;
        })
]

interrupt-Refines :
    (scancode : ℕ) (kb : Keyboard) (q : Queue)
    → Refines kb q
    → Refines (on_interrupt scancode kb) (typed scancode q)
unfolding on_interrupt typed
interrupt-Refines scancode kb q r =
    let same : char_of kb.shift_down (key_of scancode) ≡ char_of q.shift_down (key_of scancode) =
      ap (λ (s : Bool). char_of s (key_of scancode)) r.shifted in
    elim (Bool-cases (is_shift (key_of scancode))) [
      | inl shift ↦ rw shift (record {
        slots = r.slots;
        head_in = r.head_in;
        tail_in = r.tail_in;
        small = r.small;
        ends = r.ends;
        contents = r.contents;
        shifted = refl;
      })
      | inr key ↦ elim (Bool-cases (is_released scancode)) [
        | inl up ↦ rw (key, up) r
        | inr down ↦ elim (Bool-cases (char_of q.shift_down (key_of scancode) == 0)) [
          | inl blank ↦ rw (key, down, same, blank) r
          | inr char ↦
              rw (key, down, same, char)
                (push-Refines (char_of q.shift_down (key_of scancode)) kb q r)
        ]
      ]
    ]

-- What a read gives and leaves.
Reads : Keyboard → Queue → Type 0
Reads kb q =
    ((getchar kb).0 ≡ next q.waiting)
    × Refines (getchar kb).1 (record q { waiting = rest q.waiting })

getchar-Reads :
    (kb : Keyboard) (waiting : List ℕ) (shift : Bool)
    → Refines kb (record { waiting = waiting; shift_down = shift })
    → Reads kb (record { waiting = waiting; shift_down = shift })
unfolding Reads getchar
getchar-Reads kb [] shift r =
    let nothing : (kb.head == kb.tail) ≡ true = ground (arith, r.ends, r.tail_in) in
    rw nothing (refl, r)
getchar-Reads kb (c ∷ cs) shift r =
    let something : (kb.head == kb.tail) ≡ false = ground (arith, r.ends, r.tail_in, r.small) in
    let first : get_or kb.keybuf (kb.tail % 128) 0 ≡ c =
      ap (λ (t : List ℕ). get_or t 0 0) r.contents in
    let here : kb.tail % 128 ≡ kb.tail = omega (arith, r.tail_in) in
    let place : u32 (kb.tail + 1) % 128 ≡ (kb.tail + 1) % 128 = omega (arith, r.tail_in) in
    rw (something, place)
      (
        ap some (ap (λ (i : ℕ). get_or kb.keybuf i 0) (sym here) ∙ first),
        record {
          slots = r.slots;
          head_in = r.head_in;
          tail_in = omega arith;
          small = omega (arith, r.small);
          ends = omega (arith, r.ends);
          contents =
              items_round kb.keybuf ((kb.tail + 1) % 128) (kb.tail + 1) (length cs) (omega arith)
              ∙ ap rest r.contents;
          shifted = r.shifted;
        },
      )

-- A byte from the keyboard, or a read.
pub data Event : Type 0 where
  interrupt : ℕ → Event
  read : Event

-- What the reads of a series of events return, from the driver and from the queue.
abbrev pub reads : List Event → Keyboard → List (Option ℕ)
reads [] kb = []
reads (interrupt scancode ∷ es) kb = reads es (on_interrupt scancode kb)
reads (read ∷ es) kb = (getchar kb).0 ∷ reads es (getchar kb).1

abbrev pub queue_reads : List Event → Queue → List (Option ℕ)
queue_reads [] q = []
queue_reads (interrupt scancode ∷ es) q = queue_reads es (typed scancode q)
queue_reads (read ∷ es) q = next q.waiting ∷ queue_reads es (record q { waiting = rest q.waiting })

reads-queue :
    (es : List Event) (kb : Keyboard) (q : Queue) → Refines kb q → reads es kb ≡ queue_reads es q
unfolding Reads
reads-queue [] kb q r = refl
reads-queue (interrupt scancode ∷ es) kb q r =
    reads-queue es (on_interrupt scancode kb) (typed scancode q) (interrupt-Refines scancode kb q r)
reads-queue (read ∷ es) kb q r =
    let (first, r') = getchar-Reads kb q.waiting q.shift_down r in
    rw first (
      ap (λ (t : List (Option ℕ)). next q.waiting ∷ t)
        (reads-queue es (getchar kb).1 (record q { waiting = rest q.waiting }) r'))

boot-Refines : Refines boot empty
boot-Refines = record {
  slots = refl;
  head_in = omega arith;
  tail_in = omega arith;
  small = omega arith;
  ends = refl;
  contents = refl;
  shifted = refl;
}

-- From boot, whatever bytes the keyboard sends and whenever the kernel reads: each read returns
-- what a queue would that holds up to 127 typed characters, oldest first, translated by the shift
-- key's state when they were typed, and that loses what is typed while it is full.
pub keyboard_is_fifo : (events : List Event) → reads events boot ≡ queue_reads events empty
keyboard_is_fifo events = reads-queue events boot empty boot-Refines
