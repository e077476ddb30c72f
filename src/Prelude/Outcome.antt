-- ===== src/Prelude/Outcome.antt =====
-- The outcome of a run of C code: a value, a memory fault (an access outside an object, through a
-- null or a stale pointer), the end of the process by `exit`, or a loop cut off by its fuel.
use mathlib.Core.Path.{◌≡◌, refl}
use mathlib.Core.Logic.{◌⊎◌, inl}
use mathlib.Core.Option.{Option, none, some}
use mathlib.Core.List.{List, [], ◌∷◌}

pub data Run {ℓ} (A : Type ℓ) : Type ℓ where
  ok : A → Run A
  fault : Run A
  exited : Run A
  out_of_fuel : Run A

infixl 5 ◌>>=◌
abbrev pub ◌>>=◌ {ℓ κ} : {A : Type ℓ} {B : Type κ} → Run A → (A → Run B) → Run B
fault >>= next = fault
exited >>= next = exited
out_of_fuel >>= next = out_of_fuel
ok a >>= next = next a

-- `*p` for a pointer that may be null.
abbrev pub non_null {ℓ} : {A : Type ℓ} → Option A → Run A
non_null none = fault
non_null (some a) = ok a

-- A run that ends, one way or another.
abbrev pub Ends {ℓ} : {A : Type ℓ} → Run A → Type 0
Ends (ok a) = Unit
Ends fault = Unit
Ends exited = Unit
Ends out_of_fuel = ⊥

pub Ends-bind {ℓ κ} :
    {A : Type ℓ} {B : Type κ} (m : Run A) (f : A → Run B)
    → Ends m
    → ((a : A) → m ≡ ok a → Ends (f a))
    → Ends (m >>= f)
Ends-bind (ok a) f e k = k a refl
Ends-bind fault f e k = tt
Ends-bind exited f e k = tt
Ends-bind out_of_fuel f e k = e

pub Ends-bind_or {ℓ κ μ} :
    {A : Type ℓ} {B : Type κ} {Z : Type μ} (m : Run A) (f : A → Run B)
    → Ends m
    → ((a : A) → m ≡ ok a → Ends (f a) ⊎ Z)
    → Ends (m >>= f) ⊎ Z
Ends-bind_or (ok a) f e k = k a refl
Ends-bind_or fault f e k = inl tt
Ends-bind_or exited f e k = inl tt
Ends-bind_or out_of_fuel f e k = absurd e

pub Ends-ok {ℓ} : {A : Type ℓ} (m : Run A) {a : A} → m ≡ ok a → Ends m
Ends-ok m e = rw e tt

-- A run that ends, with a value as `P` says if it has one.
abbrev pub Yields {ℓ} : {A : Type ℓ} → (A → Type 0) → Run A → Type 0
Yields P (ok a) = P a
Yields P fault = Unit
Yields P exited = Unit
Yields P out_of_fuel = ⊥

pub Yields-bind {ℓ κ} :
    {A : Type ℓ} {B : Type κ} (P : B → Type 0) (m : Run A) (f : A → Run B)
    → Ends m
    → ((a : A) → m ≡ ok a → Yields P (f a))
    → Yields P (m >>= f)
Yields-bind P (ok a) f e k = k a refl
Yields-bind P fault f e k = tt
Yields-bind P exited f e k = tt
Yields-bind P out_of_fuel f e k = e

pub Yields-ok {ℓ} : {A : Type ℓ} (P : A → Type 0) (m : Run A) (a : A) → Yields P m → m ≡ ok a → P a
Yields-ok P m a y e = rw e at y

pub Yields-Ends {ℓ} : {A : Type ℓ} (P : A → Type 0) (m : Run A) → Yields P m → Ends m
Yields-Ends P (ok a) y = tt
Yields-Ends P fault y = tt
Yields-Ends P exited y = tt
Yields-Ends P out_of_fuel y = y

-- A loop over the elements of a list, each of which it may change.
unfoldable pub each {ℓ} : {A : Type ℓ} → (A → Run A) → List A → Run (List A)
each f [] = ok []
each f (x ∷ xs) = f x >>= λ y. each f xs >>= λ ys. ok (y ∷ ys)
