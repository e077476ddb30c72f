-- ===== src/Free/Dictionary.antt =====
-- dict.c and array.c: what `dict_free` frees.
use zdia.Prelude.{ℕ, ◌≡◌, inl, inr, refl, false, some, Run, ok, ◌>>=◌, List, [], ◌∷◌, ◌++◌}
use zdia.Heap.{Live, zd_free}
use zdia.Heap.Owned.{
  NotAmong, Owned, without, Among, Among-behind, Frees, Frees-one, Frees-bind, Frees-touch,
  without-Among, without-NotAmong, without-Owned,
}
use zdia.Free.{ArrayAt, array_free}
use zdia.Free.Messages.{array_blocks, array_free-Frees}
use zdia.Free.Objects.{DictAt, free_array_of, dict_free}

-- The `dict_t` and its five arrays with their data.
abbrev pub dict_blocks : DictAt → List ℕ
dict_blocks d =
    array_blocks d.apps
    ++ (array_blocks d.vendors
        ++ (array_blocks d.cmds
            ++ (array_blocks d.avps ++ (array_blocks d.types ++ (d.dict ∷ [])))))

-- One of the arrays, and then what is freed after it, `p` among that.
free_array_of-Frees :
    (p : ℕ) (a : ArrayAt) (qs kept : List ℕ) (g : Live → Run Live)
    → Among p (qs ++ kept)
    → Frees qs kept g
    → Frees (array_blocks a ++ qs) kept (λ live. free_array_of p a live >>= g)
free_array_of-Frees p a qs kept g m h =
    Frees-bind (array_blocks a) qs kept (free_array_of p a) g
      (Frees-touch p (array_blocks a) (qs ++ kept) (array_free (some a))
        (Among-behind p (array_blocks a) (qs ++ kept) m) (array_free-Frees a (qs ++ kept)))
      h

module _ (d : DictAt) (kept : List ℕ) where
  dict_free-Frees : Frees (dict_blocks d) kept (dict_free (some d))
  unfolding dict_free
  dict_free-Frees =
      let p = d.dict in
      free_array_of-Frees p d.apps _ kept _
        (inr (inr (inr (inr (inr (inr (inr (inr (inl refl)))))))))
        (free_array_of-Frees p d.vendors _ kept _ (inr (inr (inr (inr (inr (inr (inl refl))))))) (
          free_array_of-Frees p d.cmds _ kept _ (inr (inr (inr (inr (inl refl))))) (
            free_array_of-Frees p d.avps _ kept _ (inr (inr (inl refl))) (
              free_array_of-Frees p d.types (p ∷ []) kept (zd_free p) (inl refl)
                (Frees-one p kept)))))

abbrev pub blocks_of : List ArrayAt → List ℕ
blocks_of [] = []
blocks_of (a ∷ as') = array_blocks a ++ blocks_of as'

-- `dict_free` of a dictionary whose blocks, and those of its commands' and AVPs' own arrays, are all
-- allocated and apart frees the dictionary and its five arrays, each once, and uses no block that is
-- not allocated. It leaves every other block as it was: the arrays of rules and of enumerated values
-- of the dictionary's commands and AVPs are all still allocated.
pub dict_free-entries :
    (d : DictAt) (live : Live)
    → Owned (dict_blocks d ++ blocks_of d.entry_arrays) live
    → (live' : Live) × (dict_free (some d) live ≡ ok live')
      × ((q : ℕ) → Among q (dict_blocks d) → live' q ≡ false)
      × ((q : ℕ) → NotAmong q (dict_blocks d) → live' q ≡ live q)
      × Owned (blocks_of d.entry_arrays) live'
unfolding Frees
dict_free-entries d live o = (
  without (dict_blocks d) live,
  dict_free-Frees d [] (blocks_of d.entry_arrays) live o,
  without-Among (dict_blocks d) live,
  without-NotAmong (dict_blocks d) live,
  without-Owned (dict_blocks d) (blocks_of d.entry_arrays) live o,
)
