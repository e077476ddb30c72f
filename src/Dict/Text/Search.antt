-- ===== src/Dict/Text/Search.antt =====
-- The search for a name, which dict.c does in several loops.
use Prim.Native.String.{String}
use text.Mathlib.TextEquality.{eq_iff}
use zdia.Prelude.{
  ℕ, zero, suc, ◌+◌, ◌<◌, ◌≡◌, ◌≢◌, refl, sym, ap, subst, ◌∙◌, inl, inr, Bool, true, false,
  Bool-cases, Option, none, some, List, [], ◌∷◌, ok, All, get_elem?, arith,
}
use zdia.Dict.Text.{same, find_named}

pub some-injective : {s t : String} → some s ≡ some t → s ≡ t
some-injective e = cc

true-false : ◌≡◌ {A = Bool} true false → ⊥
true-false e = cc

pub same_equal : (s t : String) → s ≡ t → same s t ≡ true
same_equal s t e = (eq_iff s t).1 e

pub same_other : (s t : String) → s ≢ t → same s t ≡ false
same_other s t h = elim (Bool-cases (same s t)) [
  | inl e ↦ absurd (h ((eq_iff s t).0 e))
  | inr e ↦ e
]

module _ {ℓ} {A : Type ℓ} (name_of : A → Option String) where
  -- Every element has a name.
  abbrev pub AllNamed : List A → Type 0
  AllNamed xs = All (λ x. (s : String) × (name_of x ≡ some s)) xs

  -- The slot of the first element with a name, counted from `i`; none if there is no such element.
  pub data First (name : String) (xs : List A) (i : ℕ) (found : Option ℕ) : Type ℓ where
    absent :
        ((j : ℕ) (x : A) → get_elem? xs j ≡ some x → name_of x ≢ some name)
        → found ≡ none
        → First name xs i found
    at :
        (j : ℕ) (x : A)
        → get_elem? xs j ≡ some x
        → name_of x ≡ some name
        → ((k : ℕ) (y : A) → k < j → get_elem? xs k ≡ some y → name_of y ≢ some name)
        → found ≡ some (i + j)
        → First name xs i found

  later :
      (name : String) (x : A) (xs : List A) (i : ℕ) (found : Option ℕ)
      → name_of x ≢ some name
      → First name xs (suc i) found
      → First name (x ∷ xs) i found
  later name x xs i found other (absent h e) = absent none_here e
    where
      none_here : (j : ℕ) (y : A) → get_elem? (x ∷ xs) j ≡ some y → name_of y ≢ some name
      none_here zero y g = subst (λ z. name_of z ≢ some name) (get_back g) other
        where
          get_back : some x ≡ some y → x ≡ y
          get_back h = cc
      none_here (suc j) y g = h j y g
  later name x xs i found other (at j y g n least e) =
      at (suc j) y g n less (e ∙ ap some (omega arith))
    where
      less : (k : ℕ) (z : A) → k < suc j → get_elem? (x ∷ xs) k ≡ some z → name_of z ≢ some name
      less zero z h gz = subst (λ w. name_of w ≢ some name) (get_back gz) other
        where
          get_back : some x ≡ some z → x ≡ z
          get_back e = cc
      less (suc k) z h gz = least k z (omega arith) gz

  pub find_named-First :
      (name : String) (xs : List A) (i : ℕ)
      → AllNamed xs
      → (found : Option ℕ) × (find_named name_of (some name) xs i ≡ ok found)
        × First name xs i found
  unfolding find_named
  find_named-First name [] i named = (none, refl, absent (λ j x e n. none-some e) refl)
    where
      none-some : {x : A} → ◌≡◌ {A = Option A} none (some x) → ⊥
      none-some e = cc
  find_named-First name (x ∷ xs) i ((s, e), named) = elim (Bool-cases (same name s)) [
    | inl t ↦ (
      some i,
      rw (e, t) refl,
      at 0 x refl (e ∙ ap some (sym ((eq_iff name s).0 t))) (λ k y h g n. absurd (omega arith))
          (ap some (omega arith)),
    )
    | inr f ↦
        let (found, ran, first) = find_named-First name xs (suc i) named in
        (
          found,
          rw (e, f) ran,
          later name x xs i found
              (λ n. true-false (sym (same_equal name s (some-injective (sym n ∙ e))) ∙ f)) first,
        )
  ]
