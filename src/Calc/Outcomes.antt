-- ===== src/Calc/Outcomes.antt =====
-- What the functions of calc.c end with: a result, -1, the trap of a division, or no more fuel.
use acharya_os.Base.{◌≡◌, refl, Bool, true, false, if◌then◌else◌}

pub data Outcome (A : Type 0) : Type 0 where
  done : A → Outcome A
  failed : Outcome A
  trapped : Outcome A
  out_of_fuel : Outcome A

abbrev pub bind : {A B : Type 0} → Outcome A → (A → Outcome B) → Outcome B
bind (done a) f = f a
bind failed f = failed
bind trapped f = trapped
bind out_of_fuel f = out_of_fuel

-- It ends, and a result is as `P` says.
abbrev pub Ensures : {A : Type 0} → (A → Type 0) → Outcome A → Type 0
Ensures P (done a) = P a
Ensures P failed = Unit
Ensures P trapped = Unit
Ensures P out_of_fuel = ⊥

pub Ensures-bind :
    {A B : Type 0} {P : A → Type 0} (Q : B → Type 0) (x : Outcome A) (f : A → Outcome B)
    → Ensures P x
    → ((a : A) → x ≡ done a → P a → Ensures Q (f a))
    → Ensures Q (bind x f)
Ensures-bind Q (done a) f p k = k a refl p
Ensures-bind Q failed f p k = tt
Ensures-bind Q trapped f p k = tt
Ensures-bind Q out_of_fuel f p k = absurd p

pub bind-bind :
    {A B C : Type 0} (x : Outcome A) (f : A → Outcome B) (g : B → Outcome C)
    → bind (bind x f) g ≡ bind x (λ a. bind (f a) g)
bind-bind (done a) f g = refl
bind-bind failed f g = refl
bind-bind trapped f g = refl
bind-bind out_of_fuel f g = refl

pub Ensures-if :
    {A : Type 0} (P : A → Type 0) (t : Bool) (x y : Outcome A)
    → Ensures P x
    → Ensures P y
    → Ensures P (if t then x else y)
Ensures-if P true x y p q = p
Ensures-if P false x y p q = q

pub Ensures-map :
    {A : Type 0} (P Q : A → Type 0) (x : Outcome A)
    → Ensures P x
    → ((a : A) → P a → Q a)
    → Ensures Q x
Ensures-map P Q (done a) p k = k a p
Ensures-map P Q failed p k = tt
Ensures-map P Q trapped p k = tt
Ensures-map P Q out_of_fuel p k = absurd p
