-- ===== src/Dlist/Rings.antt =====
-- The ring of nodes that starts and ends at a list's head.
pub mod Delete
pub mod Tail
use zdia.Prelude.{
  ℕ, ◌≡◌, ◌≢◌, refl, sym, ap, ◌∙◌, List, [], ◌∷◌, ◌++◌, ok, ◌>>=◌, ◌==◌, eq→==, ne→==, length,
  arith,
}
use zdia.Dlist.{Links, get_next, update, list_init, list_empty, add_between, list_add_head}

-- From `a` the fields `next` lead through the nodes `xs` to `z`, and the fields `prev` back.
abbrev pub Chain : Links → ℕ → List ℕ → ℕ → Type 0
Chain s a [] z = (s.next a ≡ z) × (s.prev z ≡ a)
Chain s a (x ∷ xs) z = (s.next a ≡ x) × (s.prev x ≡ a) × Chain s x xs z

abbrev pub NotIn : ℕ → List ℕ → Type 0
NotIn p [] = Unit
NotIn p (x ∷ xs) = (p ≢ x) × NotIn p xs

abbrev pub Distinct : List ℕ → Type 0
Distinct [] = Unit
Distinct (x ∷ xs) = NotIn x xs × Distinct xs

-- The list with head `l` holds the nodes `xs`, in this order.
pub record Ring (s : Links) (l : ℕ) (xs : List ℕ) : Type 0 where
  pub chain : Chain s l xs l
  pub distinct : Distinct (l ∷ xs)
  pub nodes : NotIn 0 (l ∷ xs)

-- Two fields agree at the places of a list.
abbrev pub Agree : (ℕ → ℕ) → (ℕ → ℕ) → List ℕ → Type 0
Agree f g [] = Unit
Agree f g (q ∷ qs) = (g q ≡ f q) × Agree f g qs

pub update_self : (f : ℕ → ℕ) (p v : ℕ) → update f p v p ≡ v
update_self f p v = rw (eq→== p p refl) refl

pub update_other : (f : ℕ → ℕ) (p v q : ℕ) → p ≢ q → update f p v q ≡ f q
update_other f p v q h = rw (ne→== q p (λ e. h (sym e))) refl

pub update-Agree : (f : ℕ → ℕ) (p v : ℕ) (qs : List ℕ) → NotIn p qs → Agree f (update f p v) qs
update-Agree f p v [] h = tt
update-Agree f p v (q ∷ qs) (h, hs) = (update_other f p v q h, update-Agree f p v qs hs)

pub Agree-trans : (f g k : ℕ → ℕ) (qs : List ℕ) → Agree f g qs → Agree g k qs → Agree f k qs
Agree-trans f g k [] a b = tt
Agree-trans f g k (q ∷ qs) (a, more) (b, rest) = (b ∙ a, Agree-trans f g k qs more rest)

-- What happens elsewhere does not break a chain.
pub frame :
    (s t : Links) (a : ℕ) (xs : List ℕ) (z : ℕ)
    → Agree s.next t.next (a ∷ xs)
    → Agree s.prev t.prev (xs ++ (z ∷ []))
    → Chain s a xs z
    → Chain t a xs z
frame s t a [] z (n, ns) (p, ps) (c, d) = (n ∙ c, p ∙ d)
frame s t a (x ∷ xs) z (n, ns) (p, ps) (c, d, rest) = (n ∙ c, p ∙ d, frame s t x xs z ns ps rest)

pub NotIn-snoc : (p : ℕ) (xs : List ℕ) (z : ℕ) → NotIn p xs → p ≢ z → NotIn p (xs ++ (z ∷ []))
NotIn-snoc p [] z h k = (k, tt)
NotIn-snoc p (x ∷ xs) z (h, hs) k = (h, NotIn-snoc p xs z hs k)

-- The memory after `__list_add`.
abbrev pub linked : Links → ℕ → ℕ → ℕ → Links
linked s a b e = record {
  next = update (update s.next e b) a e;
  prev = update (update s.prev b e) e a;
}

pub add_between_lem :
    (s : Links) (a b e : ℕ) → 0 ≢ a → 0 ≢ b → 0 ≢ e → add_between s a b e ≡ ok (linked s a b e)
unfolding add_between
add_between_lem s a b e ha hb he =
    rw (ne→== a 0 (λ q. ha (sym q)), ne→== b 0 (λ q. hb (sym q)), ne→== e 0 (λ q. he (sym q))) refl

-- A node that is linked in behind `a`, in front of the rest of a chain.
linked-Chain :
    (s : Links) (a e : ℕ) (xs : List ℕ) (z : ℕ)
    → Chain s a xs z
    → e ≢ a
    → NotIn a xs
    → e ≢ z
    → NotIn e xs
    → Distinct xs
    → NotIn z xs
    → Chain (linked s a (s.next a) e) a (e ∷ xs) z
linked-Chain s a e [] z (n, p) ea ax ez ex dx zx = (
  update_self (update s.next e (s.next a)) a e,
  update_self (update s.prev (s.next a) e) e a,
  (
    update_other (update s.next e (s.next a)) a e e (λ q. ea (sym q))
        ∙ update_self s.next e (s.next a)
        ∙ n,
    update_other (update s.prev (s.next a) e) e a z ez
        ∙ ap (λ b. update s.prev b e z) n
        ∙ update_self s.prev z e,
  ),
)
linked-Chain s a e (x ∷ xs) z (n, p, rest) ea (ax, axs) ez (ex, exs) (xx, dx) (zx, zxs) = (
  update_self (update s.next e (s.next a)) a e,
  update_self (update s.prev (s.next a) e) e a,
  (
    update_other (update s.next e (s.next a)) a e e (λ q. ea (sym q))
        ∙ update_self s.next e (s.next a)
        ∙ n,
    update_other (update s.prev (s.next a) e) e a x ex
        ∙ ap (λ b. update s.prev b e x) n
        ∙ update_self s.prev x e,
    frame s (linked s a (s.next a) e) x xs z
        (Agree-trans s.next (update s.next e (s.next a)) _ (x ∷ xs)
          (update-Agree s.next e (s.next a) (x ∷ xs) (ex, exs))
          (update-Agree (update s.next e (s.next a)) a e (x ∷ xs) (ax, axs)))
        (Agree-trans s.prev (update s.prev (s.next a) e) _ (xs ++ (z ∷ []))
          (update-Agree s.prev (s.next a) e (xs ++ (z ∷ []))
            (rw n (NotIn-snoc x xs z xx (λ q. zx (sym q)))))
          (update-Agree (update s.prev (s.next a) e) e a (xs ++ (z ∷ []))
            (NotIn-snoc e xs z exs ez)))
        rest,
  ),
)

first_node : (s : Links) (l : ℕ) (xs : List ℕ) → Ring s l xs → 0 ≢ s.next l
first_node s l [] r e = r.nodes.0 (e ∙ r.chain.0)
first_node s l (x ∷ xs) r e = r.nodes.1.0 (e ∙ r.chain.0)

-- On a list of nodes, `list_add_head` of a node that is not null and not in the list succeeds,
-- and the list holds that node in front of the others.
pub list_add_head-Ring :
    (s : Links) (l e : ℕ) (xs : List ℕ)
    → Ring s l xs
    → 0 ≢ e
    → NotIn e (l ∷ xs)
    → (s' : Links) × (list_add_head s l e ≡ ok s') × Ring s' l (e ∷ xs)
unfolding list_add_head
list_add_head-Ring s l e xs r he fresh = (
  linked s l (s.next l) e,
  ap (λ o. o >>= (λ next. add_between s l next e)) got
      ∙ (add_between_lem s l (s.next l) e r.nodes.0 (first_node s l xs r) he),
  record {
    chain =
        linked-Chain s l e xs l r.chain fresh.0 r.distinct.0 fresh.0 fresh.1 r.distinct.1
          r.distinct.0;
    distinct = (((λ q. fresh.0 (sym q)), r.distinct.0), (fresh.1, r.distinct.1));
    nodes = (r.nodes.0, (he, r.nodes.1));
  },
)
  where
    got : get_next s l ≡ ok (s.next l)
    got = rw (ne→== l 0 (λ q. r.nodes.0 (sym q))) refl

-- `list_init` of a pointer that is not null makes it a list without nodes.
pub list_init-Ring :
    (s : Links) (l : ℕ) → 0 ≢ l → (s' : Links) × (list_init s l ≡ ok s') × Ring s' l []
unfolding list_init
list_init-Ring s l h = (
  record { next = update s.next l l; prev = update s.prev l l },
  rw (ne→== l 0 (λ q. h (sym q))) refl,
  record {
    chain = (update_self s.next l l, update_self s.prev l l);
    distinct = (tt, tt);
    nodes = (h, tt);
  },
)

-- On a list of nodes, `list_empty` says whether it has none.
pub list_empty_lem :
    (s : Links) (l : ℕ) (xs : List ℕ) → Ring s l xs → list_empty s l ≡ ok (length xs == 0)
unfolding list_empty
list_empty_lem s l [] r =
    rw (ne→== l 0 (λ q. r.nodes.0 (sym q)), r.chain.0, r.chain.1, eq→== l l refl) refl
list_empty_lem s l (x ∷ xs) r =
    rw (ne→== l 0 (λ q. r.nodes.0 (sym q)), r.chain.0, ne→== l x r.distinct.0.0)
      (ap ok (sym (ne→== (length (x ∷ xs)) 0 (λ q. omega arith))))
