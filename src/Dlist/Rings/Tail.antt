-- ===== src/Dlist/Rings/Tail.antt =====
-- list.c: `list_add_tail` on a ring of nodes.
use zdia.Prelude.{ℕ, ◌≡◌, ◌≢◌, refl, sym, ap, ◌∙◌, List, [], ◌∷◌, ◌++◌, ok, ne→==, ◌>>=◌}
use zdia.Dlist.{Links, get_prev, update, add_between, list_add_tail}
use zdia.Dlist.Rings.{
  Chain, NotIn, Distinct, Ring, update_self, update_other, NotIn-snoc, linked, add_between_lem,
}
use zdia.Dlist.Rings.Delete.{last_other}

-- A node that is linked in behind the last node of a chain.
linked_tail :
    (s : Links) (a : ℕ) (xs : List ℕ) (z e : ℕ)
    → Chain s a xs z
    → Distinct (a ∷ xs)
    → NotIn e (a ∷ xs)
    → e ≢ z
    → NotIn z xs
    → Chain (linked s (s.prev z) z e) a (xs ++ (e ∷ [])) z
linked_tail s a [] z e (n, p) d (ea, _) ez zx = (
  ap (λ q. update (update s.next e z) q e a) p ∙ update_self (update s.next e z) a e,
  update_self (update s.prev z e) e (s.prev z) ∙ p,
  (
    update_other (update s.next e z) (s.prev z) e e (λ q. ea (sym q ∙ p)) ∙ update_self s.next e z,
    update_other (update s.prev z e) e (s.prev z) z ez ∙ update_self s.prev z e,
  ),
)
linked_tail s a (x ∷ xs) z e (n, p, rest) (ax, dx) (ea, ex) ez (zx, zxs) = (
  update_other (update s.next e z) (s.prev z) e a (λ q. last_other s x xs z a rest ax (sym q))
      ∙ update_other s.next e z a ea
      ∙ n,
  update_other (update s.prev z e) e (s.prev z) x ex.0 ∙ update_other s.prev z e x zx ∙ p,
  linked_tail s x xs z e rest dx ex ez zxs,
)

Distinct-snoc : (xs : List ℕ) (e : ℕ) → Distinct xs → NotIn e xs → Distinct (xs ++ (e ∷ []))
Distinct-snoc [] e d h = (tt, tt)
Distinct-snoc (x ∷ xs) e (xx, d) (ex, exs) =
    (NotIn-snoc x xs e xx (λ q. ex (sym q)), Distinct-snoc xs e d exs)

last_node :
    (s : Links) (a : ℕ) (xs : List ℕ) (z : ℕ) → Chain s a xs z → NotIn 0 (a ∷ xs) → 0 ≢ s.prev z
last_node s a xs z c h = last_other s a xs z 0 c h

-- On a list of nodes, `list_add_tail` of a node that is not null and not in the list succeeds, and
-- the list holds that node behind the others.
pub list_add_tail-Ring :
    (s : Links) (l e : ℕ) (xs : List ℕ)
    → Ring s l xs
    → 0 ≢ e
    → NotIn e (l ∷ xs)
    → (s' : Links) × (list_add_tail s l e ≡ ok s') × Ring s' l (xs ++ (e ∷ []))
unfolding list_add_tail
list_add_tail-Ring s l e xs r he fresh = (
  linked s (s.prev l) l e,
  ap (λ o. o >>= (λ prev. add_between s prev l e)) got
      ∙ add_between_lem s (s.prev l) l e (last_node s l xs l r.chain r.nodes) r.nodes.0 he,
  record {
    chain = linked_tail s l xs l e r.chain r.distinct fresh fresh.0 r.distinct.0;
    distinct = Distinct-snoc (l ∷ xs) e r.distinct fresh;
    nodes = NotIn-snoc 0 (l ∷ xs) e r.nodes he;
  },
)
  where
    got : get_prev s l ≡ ok (s.prev l)
    got = rw (ne→== l 0 (λ q. r.nodes.0 (sym q))) refl
