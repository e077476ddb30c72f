-- ===== src/Prelude/Related.antt =====
-- Lists whose elements are related, and lists with the same elements in another order.
use Prim.Native.Nat.{suc}
use mathlib.Core.Path.{◌≡◌, refl, sym, ap, subst, ◌∙◌}
use mathlib.Core.List.{List, [], ◌∷◌, Permᴰ}
use zdia.Prelude.Lists.{length}
use zdia.Prelude.Every.{All, Both}

pub All-Permᴰ {ℓ κ} :
    {A : Type ℓ} (P : A → Type κ) {xs ys : List A} → Permᴰ xs ys → All P xs → All P ys
All-Permᴰ P Permᴰ.nil p = tt
All-Permᴰ P (Permᴰ.cons e d) (p, ps) = (subst P e p, All-Permᴰ P d ps)
All-Permᴰ P (Permᴰ.swap e₁ e₂) (p, (q, ps)) = (subst P e₂ q, (subst P e₁ p, ps))
All-Permᴰ P (Permᴰ.trans d₁ d₂) p = All-Permᴰ P d₂ (All-Permᴰ P d₁ p)

pub All-Permᴰ-back :
    {A : Type 0} (P : A → Type 0) {xs ys : List A} → Permᴰ xs ys → All P ys → All P xs
All-Permᴰ-back P Permᴰ.nil p = tt
All-Permᴰ-back P (Permᴰ.cons e d) (p, ps) = (subst P (sym e) p, All-Permᴰ-back P d ps)
All-Permᴰ-back P (Permᴰ.swap e₁ e₂) (p, (q, ps)) = (subst P (sym e₁) q, (subst P (sym e₂) p, ps))
All-Permᴰ-back P (Permᴰ.trans d₁ d₂) p = All-Permᴰ-back P d₁ (All-Permᴰ-back P d₂ p)

pub Both-length :
    {A : Type 0} (R : A → A → Type 0) (xs ys : List A) → Both R xs ys → length ys ≡ length xs
Both-length R [] [] r = refl
Both-length R [] (y ∷ ys) r = absurd r
Both-length R (x ∷ xs) [] r = absurd r
Both-length R (x ∷ xs) (y ∷ ys) (r, rs) = ap suc (Both-length R xs ys rs)

pub Permᴰ-length : {A : Type 0} {xs ys : List A} → Permᴰ xs ys → length ys ≡ length xs
Permᴰ-length Permᴰ.nil = refl
Permᴰ-length (Permᴰ.cons e d) = ap suc (Permᴰ-length d)
Permᴰ-length (Permᴰ.swap e₁ e₂) = refl
Permᴰ-length (Permᴰ.trans d₁ d₂) = Permᴰ-length d₂ ∙ Permᴰ-length d₁

pub Both-All :
    {A : Type 0} (P : A → Type 0) (R : A → A → Type 0) (xs ys : List A)
    → All P xs
    → Both R xs ys
    → Both (λ x y. P x × R x y) xs ys
Both-All P R [] [] ps r = tt
Both-All P R [] (y ∷ ys) ps r = absurd r
Both-All P R (x ∷ xs) [] ps r = absurd r
Both-All P R (x ∷ xs) (y ∷ ys) (p, ps) (r, rs) = ((p, r), Both-All P R xs ys ps rs)

pub All-map :
    {A : Type 0} (P Q : A → Type 0) → ((x : A) → P x → Q x) → (xs : List A) → All P xs → All Q xs
All-map P Q f [] ps = tt
All-map P Q f (x ∷ xs) (p, ps) = (f x p, All-map P Q f xs ps)

pub All-both :
    {A : Type 0} (P Q : A → Type 0) (xs : List A) → All P xs → All Q xs → All (λ x. P x × Q x) xs
All-both P Q [] ps qs = tt
All-both P Q (x ∷ xs) (p, ps) (q, qs) = ((p, q), All-both P Q xs ps qs)
