-- ===== src/Dlist.antt =====
-- list.c: a circular doubly linked list whose nodes are part of their elements. The memory is a
-- map for each field; a node is an address other than 0, and an access through null is a fault.
pub mod Rings
pub mod Refine
use zdia.Prelude.{ℕ, Bool, Run, ok, fault, ◌>>=◌, ◌==◌, ◌&&◌, if◌then◌else◌}

pub record Links : Type 0 where
  pub next : ℕ → ℕ
  pub prev : ℕ → ℕ

-- A write to one place of a field.
abbrev pub update : (ℕ → ℕ) → ℕ → ℕ → ℕ → ℕ
update f p v q = if q == p then v else f q

abbrev pub get_next : Links → ℕ → Run ℕ
get_next s p = if p == 0 then fault else ok (s.next p)

abbrev pub get_prev : Links → ℕ → Run ℕ
get_prev s p = if p == 0 then fault else ok (s.prev p)

abbrev pub put_next : Links → ℕ → ℕ → Run Links
put_next s p v = if p == 0 then fault else ok (record s { next = update s.next p v })

abbrev pub put_prev : Links → ℕ → ℕ → Run Links
put_prev s p v = if p == 0 then fault else ok (record s { prev = update s.prev p v })

unfoldable pub list_init : Links → ℕ → Run Links
list_init s l = do s' ← put_prev s l l; put_next s' l l

pub list_empty : Links → ℕ → Run Bool
list_empty s l = do next ← get_next s l; prev ← get_prev s l; ok (l == next && l == prev)

pub add_between : Links → (prev next elem : ℕ) → Run Links
add_between s prev next elem = do
  s1 ← put_prev s next elem
  s2 ← put_next s1 elem next
  s3 ← put_prev s2 elem prev
  put_next s3 prev elem

pub del_between : Links → (prev next : ℕ) → Run Links
del_between s prev next = do s' ← put_prev s next prev; put_next s' prev next

pub list_add_head : Links → ℕ → ℕ → Run Links
unfolding add_between
list_add_head s l elem = do next ← get_next s l; add_between s l next elem

pub list_add_tail : Links → ℕ → ℕ → Run Links
unfolding add_between
list_add_tail s l elem = do prev ← get_prev s l; add_between s prev l elem

pub list_del : Links → ℕ → Run Links
unfolding del_between
list_del s elem = do
  prev ← get_prev s elem
  next ← get_next s elem
  s1 ← del_between s prev next
  s2 ← put_next s1 elem 0
  put_prev s2 elem 0
