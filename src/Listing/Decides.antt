-- ===== src/Listing/Decides.antt =====
-- test.c: loops that succeed or fault, as something holds of their elements or not.
use zdia.Prelude.{◌≡◌, ◌⊎◌, inl, inr, refl, List, [], ◌∷◌, ◌++◌, Run, ok, fault, ◌>>=◌, All, Both}
use zdia.Listing.{Line, lines_of}

-- The run succeeds where `P` holds, and faults where it does not.
abbrev pub Decides {ℓ} : Type 0 → {A : Type ℓ} → Run A → Type ℓ
Decides P {A} r = (P × (a : A) × (r ≡ ok a)) ⊎ ((P → ⊥) × (r ≡ fault))

pub Decides-bind {ℓ κ} :
    {A : Type ℓ} {B : Type κ} (P Q : Type 0) (r : Run A) (next : A → Run B)
    → Decides P r
    → ((a : A) → Decides Q (next a))
    → Decides (P × Q) (r >>= next)
Decides-bind P Q r next (inr (no_p, e)) k = inr (λ pq. no_p pq.0, rw e refl)
Decides-bind P Q r next (inl (p, a, e)) k = elim (k a) [
  | inl (q, b, e') ↦ inl ((p, q), b, rw (e, e') refl)
  | inr (no_q, e') ↦ inr (λ pq. no_q pq.1, rw (e, e') refl)
]

-- What comes after does not fail.
pub Decides-then {ℓ κ} :
    {A : Type ℓ} {B : Type κ} (P : Type 0) (r : Run A) (next : A → Run B)
    → Decides P r
    → ((a : A) → (b : B) × (next a ≡ ok b))
    → Decides P (r >>= next)
Decides-then P r next (inr (no_p, e)) k = inr (no_p, rw e refl)
Decides-then P r next (inl (p, a, e)) k = let (b, e') = k a in inl (p, b, rw (e, e') refl)

-- The loop over what the elements have become.
pub lines_of-Decides :
    {A : Type 0} (P : A → Type 0) (R : A → A → Type 0) (f : A → Run (List Line))
    → ((x y : A) → R x y → Decides (P x) (f y))
    → (xs ys : List A) → Both R xs ys
    → Decides (All P xs) (lines_of f ys)
unfolding lines_of
lines_of-Decides P R f step [] [] r = inl (tt, [], refl)
lines_of-Decides P R f step [] (y ∷ ys) r = absurd r
lines_of-Decides P R f step (x ∷ xs) [] r = absurd r
lines_of-Decides P R f step (x ∷ xs) (y ∷ ys) (r, rs) =
    Decides-bind (P x) (All P xs) (f y) (λ here. lines_of f ys >>= λ later. ok (here ++ later))
      (step x y r)
      (λ here.
        Decides-then (All P xs) (lines_of f ys) (λ later. ok (here ++ later))
          (lines_of-Decides P R f step xs ys rs) (λ later. (here ++ later, refl)))

pub lines_of-All :
    {A : Type 0} (P : A → Type 0) (f : A → Run (List Line))
    → ((x : A) → P x → (out : List Line) × (f x ≡ ok out))
    → (xs : List A) → All P xs
    → (out : List Line) × (lines_of f xs ≡ ok out)
unfolding lines_of
lines_of-All P f step [] ps = ([], refl)
lines_of-All P f step (x ∷ xs) (p, ps) =
    let (here, e) = step x p in
    let (later, e') = lines_of-All P f step xs ps in (here ++ later, rw (e, e') refl)

pub Decides-iff {ℓ} :
    {A : Type ℓ} (P Q : Type 0) (r : Run A) → (P → Q) → (Q → P) → Decides P r → Decides Q r
Decides-iff P Q r f g (inl (p, a, e)) = inl (f p, a, e)
Decides-iff P Q r f g (inr (no_p, e)) = inr (λ x. no_p (g x), e)
