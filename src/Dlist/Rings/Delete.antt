-- ===== src/Dlist/Rings/Delete.antt =====
-- list.c: `list_del` on a ring of nodes.
use zdia.Prelude.{
  ℕ, ◌≡◌, ◌≢◌, refl, sym, ap, subst, append-nil, ◌∙◌, List, [], ◌∷◌, ◌++◌, ok, ne→==,
}
use zdia.Dlist.{Links, update, list_del, del_between}
use zdia.Dlist.Rings.{
  Chain, NotIn, Distinct, Ring, Agree-trans, update_self, update_other, update-Agree, frame,
  NotIn-snoc,
}

-- A chain is cut at a node, and two are joined at one.
cut_chain :
    (s : Links) (a : ℕ) (xs : List ℕ) (e : ℕ) (ys : List ℕ) (z : ℕ)
    → Chain s a (xs ++ (e ∷ ys)) z
    → Chain s a xs e × Chain s e ys z
cut_chain s a [] e ys z (n, p, rest) = ((n, p), rest)
cut_chain s a (x ∷ xs) e ys z (n, p, rest) =
    let (left, right) = cut_chain s x xs e ys z rest in ((n, p, left), right)

join_chain :
    (s : Links) (a : ℕ) (xs : List ℕ) (e : ℕ) (ys : List ℕ) (z : ℕ)
    → Chain s a xs e
    → Chain s e ys z
    → Chain s a (xs ++ (e ∷ ys)) z
join_chain s a [] e ys z (n, p) right = (n, p, right)
join_chain s a (x ∷ xs) e ys z (n, p, left) right = (n, p, join_chain s x xs e ys z left right)

pub NotIn-append : (p : ℕ) (xs ys : List ℕ) → NotIn p (xs ++ ys) → NotIn p xs × NotIn p ys
NotIn-append p [] ys h = (tt, h)
NotIn-append p (x ∷ xs) ys (h, hs) =
    let (left, right) = NotIn-append p xs ys hs in ((h, left), right)

pub NotIn-join : (p : ℕ) (xs ys : List ℕ) → NotIn p xs → NotIn p ys → NotIn p (xs ++ ys)
NotIn-join p [] ys h k = k
NotIn-join p (x ∷ xs) ys (h, hs) k = (h, NotIn-join p xs ys hs k)

-- The node in front of the end of a chain is one of its nodes.
pub last_other :
    (s : Links) (a : ℕ) (xs : List ℕ) (e q : ℕ) → Chain s a xs e → NotIn q (a ∷ xs) → q ≢ s.prev e
last_other s a [] e q (n, p) (h, hs) k = h (k ∙ p)
last_other s a (x ∷ xs) e q (n, p, rest) (h, hs) k = last_other s x xs e q rest hs k

-- The memory after `list_del`.
abbrev unlinked : Links → ℕ → Links
unlinked s e = record {
  next = update (update s.next (s.prev e) (s.next e)) e 0;
  prev = update (update s.prev (s.next e) (s.prev e)) e 0;
}

list_del_lem :
    (s : Links) (e : ℕ) → 0 ≢ e → 0 ≢ s.prev e → 0 ≢ s.next e → list_del s e ≡ ok (unlinked s e)
unfolding list_del del_between
list_del_lem s e he hp hn =
    rw
      (
        ne→== e 0 (λ q. he (sym q)),
        ne→== (s.prev e) 0 (λ q. hp (sym q)),
        ne→== (s.next e) 0 (λ q. hn (sym q)),
      )
      refl

module _ (s : Links) (e : ℕ) where
  -- In front of the node: the chain now ends at the node behind it.
  left_chain :
      (a : ℕ) (xs : List ℕ)
      → Chain s a xs e
      → Distinct (a ∷ xs)
      → NotIn e (a ∷ xs)
      → NotIn (s.next e) xs
      → e ≢ s.next e
      → Chain (unlinked s e) a xs (s.next e)
  left_chain a [] (n, p) d (ea, _) nx en = (
    update_other (update s.next (s.prev e) (s.next e)) e 0 a ea
        ∙ ap (λ q. update s.next q (s.next e) a) p
        ∙ update_self s.next a (s.next e),
    update_other (update s.prev (s.next e) (s.prev e)) e 0 (s.next e) en
        ∙ update_self s.prev (s.next e) (s.prev e)
        ∙ p,
  )
  left_chain a (x ∷ xs) (n, p, rest) (ax, dx) (ea, (ex, exs)) (nx, nxs) en = (
    update_other (update s.next (s.prev e) (s.next e)) e 0 a ea
        ∙ update_other s.next (s.prev e) (s.next e) a (λ q. last_other s x xs e a rest ax (sym q))
        ∙ n,
    update_other (update s.prev (s.next e) (s.prev e)) e 0 x ex
        ∙ update_other s.prev (s.next e) (s.prev e) x nx
        ∙ p,
    left_chain x xs rest dx (ex, exs) nxs en,
  )

  -- Behind it: nothing changes.
  right_chain :
      (a : ℕ) (ys : List ℕ) (z : ℕ)
      → Chain s a ys z
      → NotIn (s.prev e) (a ∷ ys)
      → NotIn e (a ∷ ys)
      → NotIn (s.next e) (ys ++ (z ∷ []))
      → NotIn e (ys ++ (z ∷ []))
      → Chain (unlinked s e) a ys z
  right_chain a ys z c p ea n ez =
      frame s (unlinked s e) a ys z
        (Agree-trans s.next (update s.next (s.prev e) (s.next e)) _ (a ∷ ys)
          (update-Agree s.next (s.prev e) (s.next e) (a ∷ ys) p)
          (update-Agree (update s.next (s.prev e) (s.next e)) e 0 (a ∷ ys) ea))
        (Agree-trans s.prev (update s.prev (s.next e) (s.prev e)) _ (ys ++ (z ∷ []))
          (update-Agree s.prev (s.next e) (s.prev e) (ys ++ (z ∷ [])) n)
          (update-Agree (update s.prev (s.next e) (s.prev e)) e 0 (ys ++ (z ∷ [])) ez))
        c

-- None of the nodes `ys` is one of `xs`.
Apart : List ℕ → List ℕ → Type 0
Apart xs [] = Unit
Apart xs (y ∷ ys) = NotIn y xs × Apart xs ys

nothing-Apart : (ys : List ℕ) → Apart [] ys
unfolding Apart
nothing-Apart [] = tt
nothing-Apart (y ∷ ys) = (tt, nothing-Apart ys)

cons-Apart : (a : ℕ) (xs ys : List ℕ) → NotIn a ys → Apart xs ys → Apart (a ∷ xs) ys
unfolding Apart
cons-Apart a xs [] h k = tt
cons-Apart a xs (y ∷ ys) (h, hs) (k, ks) = (((λ q. h (sym q)), k), cons-Apart a xs ys hs ks)

-- What it means that the nodes around `e` are distinct.
around :
    (e : ℕ) (xs ys : List ℕ)
    → Distinct (xs ++ (e ∷ ys))
    → Distinct xs × NotIn e xs × Distinct (e ∷ ys) × Apart xs ys × Distinct (xs ++ ys)
around e [] ys (h, d) = (tt, tt, (h, d), nothing-Apart ys, d)
around e (x ∷ xs) ys (h, d) =
    let (dx, ex, dy, apart, both) = around e xs ys d in
    let (left, (xe, right)) = NotIn-append x xs (e ∷ ys) h in
    (
      (left, dx),
      ((λ q. xe (sym q)), ex),
      dy,
      cons-Apart x xs ys right apart,
      (NotIn-join x xs ys left right, both),
    )

-- The node in front of the end is none of those behind it.
last-Apart :
    (s : Links) (a : ℕ) (xs : List ℕ) (e : ℕ) (ys : List ℕ)
    → Chain s a xs e
    → Apart (a ∷ xs) ys
    → NotIn (s.prev e) ys
unfolding Apart
last-Apart s a xs e [] c k = tt
last-Apart s a xs e (y ∷ ys) c (k, ks) =
    ((λ q. last_other s a xs e y c k (sym q)), last-Apart s a xs e ys c ks)

deleted_chain :
    (s : Links) (l e : ℕ) (xs ys : List ℕ)
    → Chain s l xs e
    → Chain s e ys l
    → Distinct (l ∷ xs)
    → NotIn e (l ∷ xs)
    → Distinct (e ∷ ys)
    → Apart (l ∷ xs) ys
    → Chain (unlinked s e) l (xs ++ ys) l
unfolding Apart
deleted_chain s l e xs [] left (n, p) d (el, ex) dy k =
    subst (λ zs. Chain (unlinked s e) l zs l) (sym (append-nil xs))
      (subst (Chain (unlinked s e) l xs) n (
        left_chain s e l xs left d (el, ex) (subst (λ q. NotIn q xs) (sym n) d.0)
          (λ q. el (q ∙ n))))
deleted_chain s l e xs (y ∷ ys) left (n, p, right) d (el, ex) ((ey, eys), (yys, dys))
      ((yl, yx), ks) =
    join_chain (unlinked s e) l xs y ys l
      (subst (Chain (unlinked s e) l xs) n (
        left_chain s e l xs left d (el, ex) (subst (λ q. NotIn q xs) (sym n) yx) (λ q. ey (q ∙ n))))
      (right_chain s e y ys l right (last-Apart s l xs e (y ∷ ys) left ((yl, yx), ks)) (ey, eys)
        (subst (λ q. NotIn q (ys ++ (l ∷ []))) (sym n) (NotIn-snoc y ys l yys yl))
        (NotIn-snoc e ys l eys el))

-- On a list of nodes, `list_del` of one of them succeeds, and the list holds the others in the same
-- order; the pointers of the node are null.
pub list_del-Ring :
    (s : Links) (l e : ℕ) (xs ys : List ℕ)
    → Ring s l (xs ++ (e ∷ ys))
    → (s' : Links) × (list_del s e ≡ ok s')
      × Ring s' l (xs ++ ys)
      × (s'.next e ≡ 0)
      × (s'.prev e ≡ 0)
list_del-Ring s l e xs ys r =
    let (left, right) = cut_chain s l xs e ys l r.chain in
    let (d, el, dy, k, both) = around e (l ∷ xs) ys r.distinct in
    let (z, (ze, zs)) = NotIn-append 0 (l ∷ xs) (e ∷ ys) r.nodes in
    (
      unlinked s e,
      list_del_lem s e ze (last_other s l xs e 0 left z) (next_node ys right (z.0, zs)),
      record {
        chain = deleted_chain s l e xs ys left right d el dy k;
        distinct = both;
        nodes = NotIn-join 0 (l ∷ xs) ys z zs;
      },
      update_self (update s.next (s.prev e) (s.next e)) e 0,
      update_self (update s.prev (s.next e) (s.prev e)) e 0,
    )
  where
    next_node : (zs : List ℕ) → Chain s e zs l → NotIn 0 (l ∷ zs) → 0 ≢ s.next e
    next_node [] (n, p) (hl, _) q = hl (q ∙ n)
    next_node (y ∷ zs) (n, p, rest) (hl, (hy, _)) q = hy (q ∙ n)
