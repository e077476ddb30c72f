-- ===== src/Prelude/Every.antt =====
-- Properties of every element of a list, and of every value that a run returns.
use Prim.Native.Nat.{ℕ, zero, suc}
use mathlib.Core.Path.{◌≡◌, refl, subst}
use mathlib.Core.Option.{Option, none, some}
use mathlib.Core.List.{List, [], ◌∷◌, ◌++◌}
use zdia.Prelude.Lists.{get_elem?, set}
use zdia.Prelude.Outcome.{Run, ok, fault, exited, out_of_fuel, ◌>>=◌, each}

-- A property of every element.
abbrev pub All {ℓ κ} : {A : Type ℓ} → (A → Type κ) → List A → Type κ
All P [] = Unit
All P (x ∷ xs) = P x × All P xs

-- The elements at the same places are related, and the lists have the same length.
abbrev pub Both {ℓ} : {A : Type ℓ} → (A → A → Type 0) → List A → List A → Type 0
Both R [] [] = Unit
Both R [] (y ∷ ys) = ⊥
Both R (x ∷ xs) [] = ⊥
Both R (x ∷ xs) (y ∷ ys) = R x y × Both R xs ys

-- A loop whose rounds all succeed, each as `R` says.
pub each-Both {ℓ κ} :
    {A : Type ℓ} (f : A → Run A) (P : A → Type κ) (R : A → A → Type 0)
    → ((x : A) → P x → (y : A) × (f x ≡ ok y) × R x y)
    → (xs : List A) → All P xs
    → (ys : List A) × (each f xs ≡ ok ys) × Both R xs ys
unfolding each
each-Both f P R step [] ps = ([], refl, tt)
each-Both f P R step (x ∷ xs) (p, ps) =
    let (y, e, r) = step x p in
    let (ys, es, rs) = each-Both f P R step xs ps in (y ∷ ys, rw (e, es) refl, (r, rs))

pub All-append {ℓ κ} :
    {A : Type ℓ} (P : A → Type κ) (xs ys : List A) → All P xs → All P ys → All P (xs ++ ys)
All-append P [] ys p q = q
All-append P (x ∷ xs) ys (p, ps) q = (p, All-append P xs ys ps q)

pub All-set {ℓ κ} :
    {A : Type ℓ} (P : A → Type κ) (xs : List A) (i : ℕ) (v : A)
    → All P xs
    → P v
    → All P (set xs i v)
All-set P [] i v p q = tt
All-set P (x ∷ xs) zero v (p, ps) q = (q, ps)
All-set P (x ∷ xs) (suc i) v (p, ps) q = (p, All-set P xs i v ps q)

pub All-get_elem? {ℓ κ} :
    {A : Type ℓ} (P : A → Type κ) (xs : List A) (i : ℕ) (x : A)
    → All P xs
    → get_elem? xs i ≡ some x
    → P x
All-get_elem? P [] i x p e = absurd (none_some e)
  where
    none_some : ◌≡◌ {A = Option _} none (some x) → ⊥
    none_some h = cc
All-get_elem? P (y ∷ xs) zero x (p, ps) e = subst P (some_back e) p
  where
    some_back : some y ≡ some x → y ≡ x
    some_back h = cc
All-get_elem? P (y ∷ xs) (suc i) x (p, ps) e = All-get_elem? P xs i x ps e

-- The value has the property, if there is one.
abbrev pub IfOk {ℓ κ} : {A : Type ℓ} → (A → Type κ) → Run A → Type κ
IfOk P (ok a) = P a
IfOk P fault = Unit
IfOk P exited = Unit
IfOk P out_of_fuel = Unit

pub IfOk-bind {ℓ κ μ ν} :
    {A : Type ℓ} {B : Type κ} (P : A → Type μ) (Q : B → Type ν) (m : Run A) (f : A → Run B)
    → IfOk P m
    → ((a : A) → P a → IfOk Q (f a))
    → IfOk Q (m >>= f)
IfOk-bind P Q (ok a) f p k = k a p
IfOk-bind P Q fault f p k = tt
IfOk-bind P Q exited f p k = tt
IfOk-bind P Q out_of_fuel f p k = tt

-- Where nothing is known of the value.
pub anything {ℓ} : {A : Type ℓ} (m : Run A) → IfOk (λ _. Unit {0}) m
anything (ok a) = tt
anything fault = tt
anything exited = tt
anything out_of_fuel = tt

pub IfOk-ok {ℓ κ} : {A : Type ℓ} (P : A → Type κ) (m : Run A) (a : A) → IfOk P m → m ≡ ok a → P a
IfOk-ok P m a p e = rw e at p

pub IfOk-each {ℓ κ} :
    {A : Type ℓ} (P : A → Type κ) (f : A → Run A)
    → ((x : A) → P x → IfOk P (f x))
    → (xs : List A) → All P xs
    → IfOk (All P) (each f xs)
unfolding each
IfOk-each P f k [] p = tt
IfOk-each P f k (x ∷ xs) (p, ps) =
    IfOk-bind P (All P) (f x) _ (k x p)
      λ y q. IfOk-bind (All P) (All P) (each f xs) _ (IfOk-each P f k xs ps) λ ys qs. (q, qs)

-- Both parts of a run that succeeds succeed.
pub bind_parts {ℓ κ} :
    {A : Type ℓ} {B : Type κ} (r : Run A) (next : A → Run B) (out : B)
    → (r >>= next) ≡ ok out
    → (mid : A) × (r ≡ ok mid) × (next mid ≡ ok out)
bind_parts (ok mid) next out e = (mid, refl, e)
bind_parts fault next out e = absurd (stuck e)
  where
    stuck : ◌≡◌ {A = Run _} fault (ok out) → ⊥
    stuck h = cc
bind_parts exited next out e = absurd (stuck e)
  where
    stuck : ◌≡◌ {A = Run _} exited (ok out) → ⊥
    stuck h = cc
bind_parts out_of_fuel next out e = absurd (stuck e)
  where
    stuck : ◌≡◌ {A = Run _} out_of_fuel (ok out) → ⊥
    stuck h = cc

pub get_elem?-set {ℓ} :
    {A : Type ℓ} (xs : List A) (i : ℕ) (x y : A)
    → get_elem? xs i ≡ some x
    → get_elem? (set xs i y) i ≡ some y
get_elem?-set [] i x y e = absurd (none_some e)
  where
    none_some : ◌≡◌ {A = Option _} none (some x) → ⊥
    none_some h = cc
get_elem?-set (z ∷ xs) zero x y e = refl
get_elem?-set (z ∷ xs) (suc i) x y e = get_elem?-set xs i x y e
