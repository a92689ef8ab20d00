-- ===== src/Prelude/Run.antt =====
-- What a piece of C does: it faults (a memory access outside its object), it does not come to an
-- end within the fuel of the model, it returns -1, or it yields a value.
use mathlib.Core.Bool.{Bool, true, false}

pub data Outcome {ℓ} (A : Type ℓ) : Type ℓ where
  fault : Outcome A
  hang : Outcome A
  refuse : Outcome A
  ok : A → Outcome A

infixl 5 ◌>>=◌ ◌>>◌
abbrev pub ◌>>=◌ {ℓ κ} : {A : Type ℓ} {B : Type κ} → Outcome A → (A → Outcome B) → Outcome B
fault >>= f = fault
hang >>= f = hang
refuse >>= f = refuse
ok a >>= f = f a

abbrev pub ◌>>◌ {ℓ} : {B : Type ℓ} → Outcome (Unit {0}) → Outcome B → Outcome B
m >> k = m >>= λ _. k

-- `if (…) return -1;`
abbrev pub refuse_if : Bool → Outcome (Unit {0})
refuse_if true = refuse
refuse_if false = ok tt

-- An access is made under the condition that it stays inside its object.
abbrev pub access_if : Bool → Outcome (Unit {0})
access_if true = ok tt
access_if false = fault

-- The code comes to an end with no fault. If it refuses, there is the excuse `E`; what it yields
-- meets `P`.
abbrev pub Meets {ℓ} : {A : Type ℓ} → Type 0 → (A → Type 0) → Outcome A → Type 0
Meets E P fault = ⊥
Meets E P hang = ⊥
Meets E P refuse = E
Meets E P (ok a) = P a

pub Meets-bind {ℓ κ} :
    {A : Type ℓ} {B : Type κ} (E : Type 0) (P : A → Type 0) (Q : B → Type 0) (m : Outcome A)
    (f : A → Outcome B)
    → Meets E P m
    → ((a : A) → P a → Meets E Q (f a))
    → Meets E Q (m >>= f)
Meets-bind E P Q fault f h k = absurd h
Meets-bind E P Q hang f h k = absurd h
Meets-bind E P Q refuse f h k = h
Meets-bind E P Q (ok a) f h k = k a h

pub Meets-map {ℓ} :
    {A : Type ℓ} (E F : Type 0) (P Q : A → Type 0) (m : Outcome A)
    → Meets E P m
    → (E → F)
    → ((a : A) → P a → Q a)
    → Meets F Q m
Meets-map E F P Q fault h x k = absurd h
Meets-map E F P Q hang h x k = absurd h
Meets-map E F P Q refuse h x k = x h
Meets-map E F P Q (ok a) h x k = k a h
