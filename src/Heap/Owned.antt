-- ===== src/Heap/Owned.antt =====
-- Blocks that are allocated, each at an address of its own, and what is left when some are freed.
use zdia.Prelude.{
  ℕ, ◌≡◌, ◌≢◌, ◌⊎◌, inl, inr, refl, sym, ap, ◌∙◌, subst, true, false, Run, ok, ◌>>=◌, ◌==◌,
  if◌then◌else◌, ne→==, List, [], ◌∷◌, ◌++◌, append_assoc, Bool-cases, arith,
}
use zdia.Heap.{Live, without_one, touch, zd_free}

abbrev pub NotAmong : ℕ → List ℕ → Type 0
NotAmong p [] = Unit
NotAmong p (q ∷ qs) = (p ≢ q) × NotAmong p qs

-- The blocks are allocated, none is null, and no two are the same.
abbrev pub Owned : List ℕ → Live → Type 0
Owned [] live = Unit
Owned (p ∷ ps) live = (p ≢ 0) × (live p ≡ true) × NotAmong p ps × Owned ps live

abbrev pub without : List ℕ → Live → Live
without [] live = live
without (p ∷ ps) live = without ps (without_one p live)

abbrev pub Among : ℕ → List ℕ → Type 0
Among p [] = ⊥
Among p (q ∷ qs) = (p ≡ q) ⊎ Among p qs

pub Among-append : (p : ℕ) (ps rest : List ℕ) → Among p ps → Among p (ps ++ rest)
Among-append p [] rest m = absurd m
Among-append p (q ∷ ps) rest (inl e) = inl e
Among-append p (q ∷ ps) rest (inr m) = inr (Among-append p ps rest m)

pub Among-behind : (p : ℕ) (ps qs : List ℕ) → Among p qs → Among p (ps ++ qs)
Among-behind p [] qs m = m
Among-behind p (q ∷ ps) qs m = inr (Among-behind p ps qs m)

without-append :
    (ps qs : List ℕ) (live : Live) → without (ps ++ qs) live ≡ without qs (without ps live)
without-append [] qs live = refl
without-append (p ∷ ps) qs live = without-append ps qs (without_one p live)

without_one-Owned :
    (p : ℕ) (qs : List ℕ) (live : Live)
    → NotAmong p qs
    → Owned qs live
    → Owned qs (without_one p live)
without_one-Owned p [] live h o = tt
without_one-Owned p (q ∷ qs) live (h, hs) (nz, here, apart, o) =
    (nz, rw (ne→== q p (λ e. h (sym e))) here, apart, without_one-Owned p qs live hs o)

-- The blocks that are not freed are still there.
pub without-Owned :
    (ps qs : List ℕ) (live : Live) → Owned (ps ++ qs) live → Owned qs (without ps live)
without-Owned [] qs live o = o
without-Owned (p ∷ ps) qs live (nz, here, apart, o) =
    without-Owned ps qs (without_one p live) (without_one-Owned p (ps ++ qs) live apart o)

pub touch-Owned :
    (p : ℕ) (ps : List ℕ) (live : Live) → Among p ps → Owned ps live → touch p live ≡ ok live
touch-Owned p [] live m o = absurd m
touch-Owned p (q ∷ ps) live (inl e) (nz, here, apart, o) = rw (e, ne→== q 0 nz, here) refl
touch-Owned p (q ∷ ps) live (inr m) (nz, here, apart, o) = touch-Owned p ps live m o

-- A function that frees the blocks `ps` and only uses those of `kept`, whatever others there are.
unfoldable pub Frees : List ℕ → List ℕ → (Live → Run Live) → Type 0
Frees ps kept f =
    (rest : List ℕ) (live : Live)
    → Owned (ps ++ (kept ++ rest)) live
    → f live ≡ ok (without ps live)

pub Frees-none : (kept : List ℕ) → Frees [] kept (λ live. ok live)
unfolding Frees
Frees-none kept rest live o = refl

pub Frees-one : (p : ℕ) (kept : List ℕ) → Frees (p ∷ []) kept (zd_free p)
unfolding Frees zd_free
Frees-one p kept rest live (nz, here, apart, o) = rw (ne→== p 0 nz, here) refl

pub Frees-bind :
    (ps qs kept : List ℕ) (f g : Live → Run Live)
    → Frees ps (qs ++ kept) f
    → Frees qs kept g
    → Frees (ps ++ qs) kept (λ live. f live >>= g)
unfolding Frees
Frees-bind ps qs kept f g hf hg rest live o =
    let o1 : Owned (ps ++ (qs ++ (kept ++ rest))) live =
      subst (λ xs. Owned xs live) (append_assoc ps qs (kept ++ rest)) o in
    let o2 : Owned (ps ++ ((qs ++ kept) ++ rest)) live =
      subst (λ xs. Owned (ps ++ xs) live) (sym (append_assoc qs kept rest)) o1 in
    rw (hf rest live o2) (
      hg rest (without ps live) (without-Owned ps (qs ++ (kept ++ rest)) live o1)
      ∙ ap ok (sym (without-append ps qs live)))

-- A use of a block that is there.
pub Frees-touch :
    (p : ℕ) (ps kept : List ℕ) (f : Live → Run Live)
    → Among p (ps ++ kept)
    → Frees ps kept f
    → Frees ps kept (λ live. touch p live >>= f)
unfolding Frees
Frees-touch p ps kept f m h rest live o =
    rw
      (touch-Owned p ((ps ++ kept) ++ rest) live (Among-append p (ps ++ kept) rest m)
        (subst (λ xs. Owned xs live) (sym (append_assoc ps kept rest)) o))
      (h rest live o)

-- A use of a block that is there, and nothing else.
pub Frees-use : (p : ℕ) (kept : List ℕ) → Among p kept → Frees [] kept (touch p)
unfolding Frees
Frees-use p kept m rest live o = touch-Owned p (kept ++ rest) live (Among-append p kept rest m) o

-- The block at `p`, where `p` may be null.
abbrev pub block_at : ℕ → List ℕ
block_at p = if p == 0 then [] else (p ∷ [])

pub Frees-block_at : (p : ℕ) (kept : List ℕ) → Frees (block_at p) kept (zd_free p)
unfolding Frees zd_free
Frees-block_at p kept rest live o = elim (Bool-cases (p == 0)) [
  | inl e ↦ rw e refl
  | inr e ↦ freed e (subst (λ b. Owned ((if b then [] else (p ∷ [])) ++ (kept ++ rest)) live) e o)
]
  where
    freed :
        (p == 0) ≡ false
        → Owned (p ∷ (kept ++ rest)) live
        → zd_free p live ≡ ok (without (block_at p) live)
    freed e (nz, here, apart, o') = rw (e, here) refl

-- What is freed is gone, and the rest is as it was.
without-gone : (ps : List ℕ) (live : Live) (q : ℕ) → live q ≡ false → without ps live q ≡ false
without-gone [] live q e = e
without-gone (p ∷ ps) live q e = without-gone ps (without_one p live) q (ground arith)

pub without-Among : (ps : List ℕ) (live : Live) (q : ℕ) → Among q ps → without ps live q ≡ false
without-Among [] live q m = absurd m
without-Among (p ∷ ps) live q (inl e) = without-gone ps (without_one p live) q (ground arith)
without-Among (p ∷ ps) live q (inr m) = without-Among ps (without_one p live) q m

pub without-NotAmong :
    (ps : List ℕ) (live : Live) (q : ℕ) → NotAmong q ps → without ps live q ≡ live q
without-NotAmong [] live q h = refl
without-NotAmong (p ∷ ps) live q (h, hs) =
    without-NotAmong ps (without_one p live) q hs ∙ rw (ne→== q p h) refl
