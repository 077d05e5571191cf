-- ===== src/Base/Slots.antt =====
-- Fixed tables of slots, as the kernel's registries keep them: the first slot that passes a test,
-- how many pass, and the items that pass, in order.
use Prim.Native.Nat.{ℕ, zero, suc, ◌+◌, ◌≤◌, ◌<◌}
use mathlib.Core.Path.{◌≡◌, refl, ap}
use mathlib.Core.Logic.{◌≢◌}
use mathlib.Core.Bool.{Bool, true, false}
use mathlib.Core.List.{List, [], ◌∷◌}
use mathlib.Core.Option.{Option, none, some}
use native.Mathlib.Omega.{arith}
use acharya_os.Base.Tests.{if◌then◌else◌}
use acharya_os.Base.Lists.{length, get_or}

-- The index one slot further on; `none` is the -1 of the C searches.
abbrev pub next_index : Option ℕ → Option ℕ
next_index none = none
next_index (some i) = some (suc i)

-- 1 for a slot that passes.
abbrev pub weight : Bool → ℕ
weight true = 1
weight false = 0

module _ {ℓ} {A : Type ℓ} where
  -- for (i = 0; i < n; i++) if (p(table[i])) return i; return -1;
  abbrev pub find_index : (A → Bool) → List A → Option ℕ
  find_index p [] = none
  find_index p (x ∷ xs) = if p x then some 0 else next_index (find_index p xs)

  -- for (i = 0; i < n; i++) if (p(table[i])) count++;
  abbrev pub count : (A → Bool) → List A → ℕ
  count p [] = 0
  count p (x ∷ xs) = weight (p x) + count p xs

  -- for (i = 0; i < n && count < room; i++) if (p(table[i])) out[count++] = table[i];
  abbrev pub collect : (A → Bool) → ℕ → List A → List A
  collect p zero xs = []
  collect p (suc room) [] = []
  collect p (suc room) (x ∷ xs) = elim (p x) [
    | true ↦ x ∷ collect p room xs
    | false ↦ collect p (suc room) xs
  ]

  -- table[i] = f(table[i])
  abbrev pub modify : ℕ → (A → A) → List A → List A
  modify i f [] = []
  modify zero f (x ∷ xs) = f x ∷ xs
  modify (suc i) f (x ∷ xs) = x ∷ modify i f xs

module _ {ℓ} {A : Type ℓ} where
  pub length-modify : (i : ℕ) (f : A → A) (xs : List A) → length (modify i f xs) ≡ length xs
  length-modify i f [] = refl
  length-modify zero f (x ∷ xs) = refl
  length-modify (suc i) f (x ∷ xs) = ap suc (length-modify i f xs)

  pub get_or-modify_self :
      (i : ℕ) (f : A → A) (xs : List A) (d : A)
      → i < length xs
      → get_or (modify i f xs) i d ≡ f (get_or xs i d)
  get_or-modify_self i f [] d h = absurd (omega arith)
  get_or-modify_self zero f (x ∷ xs) d h = refl
  get_or-modify_self (suc i) f (x ∷ xs) d h = get_or-modify_self i f xs d (omega arith)

  pub get_or-modify_ne :
      (i j : ℕ) (f : A → A) (xs : List A) (d : A)
      → i ≢ j
      → get_or (modify i f xs) j d ≡ get_or xs j d
  get_or-modify_ne i j f [] d h = refl
  get_or-modify_ne zero zero f (x ∷ xs) d h = absurd (h refl)
  get_or-modify_ne zero (suc j) f (x ∷ xs) d h = refl
  get_or-modify_ne (suc i) zero f (x ∷ xs) d h = refl
  get_or-modify_ne (suc i) (suc j) f (x ∷ xs) d h = get_or-modify_ne i j f xs d (λ e. h (ap suc e))

  module _ (p : A → Bool) (d : A) where
    fails_before :
        (x : A) (xs : List A) (i : ℕ)
        → p x ≡ false
        → ((j : ℕ) → j < i → p (get_or xs j d) ≡ false)
        → (j : ℕ) → j < suc i
        → p (get_or (x ∷ xs) j d) ≡ false
    fails_before x xs i h before zero k = h
    fails_before x xs i h before (suc j) k = before j (omega arith)

    -- The slot found passes, and none before it does.
    pub find_index-some :
        (xs : List A) (i : ℕ)
        → find_index p xs ≡ some i
        → (i < length xs)
          × (p (get_or xs i d) ≡ true)
          × ((j : ℕ) → j < i → p (get_or xs j d) ≡ false)
    find_index-some [] i h = cc
    find_index-some (x ∷ xs) zero h = (omega arith, ground arith, λ j k. absurd (omega arith))
    find_index-some (x ∷ xs) (suc i) h =
        let rest = find_index-some xs i (ground arith) in
        (omega (arith, rest.0), rest.1, fails_before x xs i (ground arith) rest.2)

    pub find_index-none :
        (xs : List A) (j : ℕ) → find_index p xs ≡ none → j < length xs → p (get_or xs j d) ≡ false
    find_index-none [] j h lt = absurd (omega arith)
    find_index-none (x ∷ xs) zero h lt = ground arith
    find_index-none (x ∷ xs) (suc j) h lt = ground (arith, find_index-none xs j)

    pub find_index_of_first :
        (xs : List A) (i : ℕ)
        → i < length xs
        → p (get_or xs i d) ≡ true
        → ((j : ℕ) → j < i → p (get_or xs j d) ≡ false)
        → find_index p xs ≡ some i
    find_index_of_first [] i lt h none_before = absurd (omega arith)
    find_index_of_first (x ∷ xs) zero lt h none_before = rw h
    find_index_of_first (x ∷ xs) (suc i) lt h none_before = rw (
      none_before 0 (omega arith),
      find_index_of_first xs i (omega arith) h (λ j k. none_before (suc j) (omega arith)),
    )

    pub count-modify :
        (i : ℕ) (f : A → A) (xs : List A)
        → i < length xs
        → count p (modify i f xs) + weight (p (get_or xs i d))
          ≡ count p xs + weight (p (f (get_or xs i d)))
    count-modify i f [] h = absurd (omega arith)
    count-modify zero f (x ∷ xs) h = omega arith
    count-modify (suc i) f (x ∷ xs) h = omega (arith, count-modify i f xs)

    pub count-le-length : (xs : List A) → count p xs ≤ length xs
    count-le-length [] = omega arith
    count-le-length (x ∷ xs) = ground (arith, count-le-length xs)

    -- Nor does a change of a slot that does not change what the test says of it.
    pub find_index-modify_at :
        (i : ℕ) (f : A → A) (xs : List A)
        → p (f (get_or xs i d)) ≡ p (get_or xs i d)
        → find_index p (modify i f xs) ≡ find_index p xs
    find_index-modify_at i f [] h = refl
    find_index-modify_at zero f (x ∷ xs) h = rw h
    find_index-modify_at (suc i) f (x ∷ xs) h = rw (find_index-modify_at i f xs h)

    -- A change that a test does not see changes no search by it.
    pub find_index-modify_same :
        (i : ℕ) (f : A → A) (xs : List A)
        → ((x : A) → p (f x) ≡ p x)
        → find_index p (modify i f xs) ≡ find_index p xs
    find_index-modify_same i f [] h = refl
    find_index-modify_same zero f (x ∷ xs) h = rw (h x)
    find_index-modify_same (suc i) f (x ∷ xs) h = rw (find_index-modify_same i f xs h)
