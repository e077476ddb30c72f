-- ===== src/Free/Messages.antt =====
-- msg.c and avp.c: what `msg_free` and `avp_free` free.
use zdia.Prelude.{
  ℕ, ◌≡◌, inl, inr, refl, sym, subst, some, ok, ◌>>=◌, List, [], ◌∷◌, ◌++◌, append-nil, false,
}
use zdia.Heap.{Live, touch, zd_free}
use zdia.Heap.Owned.{
  NotAmong, Owned, without, Among, Among-append, Among-behind, Frees, Frees-one, Frees-none,
  Frees-bind, Frees-touch, Frees-use, block_at, Frees-block_at, without-Among, without-NotAmong,
}
use zdia.Free.{
  ArrayAt, array_free, AvpAt, null_avp, avp_at, SubAvps, no_avps, avps, AvpRow, nil, cons,
  loop_test, avp_free, free_subs, free_row, MsgAt, msg_free,
}

abbrev pub array_blocks : ArrayAt → List ℕ
array_blocks a = a.data_block ∷ a.arr ∷ []

-- The blocks of an AVP, of those below it, and of a message, in the order in which they are freed.
abbrev mutual
  pub avp_blocks : AvpAt → List ℕ
  avp_blocks null_avp = []
  avp_blocks (avp_at p subs) = sub_blocks subs ++ (p ∷ [])

  pub sub_blocks : SubAvps → List ℕ
  sub_blocks no_avps = []
  sub_blocks (avps a row) = row_blocks row ++ array_blocks a

  pub row_blocks : AvpRow → List ℕ
  row_blocks nil = []
  row_blocks (cons x row) = avp_blocks x ++ row_blocks row

pub array_free-Frees :
    (a : ArrayAt) (kept : List ℕ) → Frees (array_blocks a) kept (array_free (some a))
unfolding array_free
array_free-Frees a kept =
    Frees-touch a.arr (array_blocks a) kept (λ live. zd_free a.data_block live >>= zd_free a.arr)
      (inr (inl refl))
      (Frees-bind (a.data_block ∷ []) (a.arr ∷ []) kept (zd_free a.data_block) (zd_free a.arr)
        (Frees-one a.data_block ((a.arr ∷ []) ++ kept)) (Frees-one a.arr kept))

mutual
  unfolding avp_free

  avp_free-Frees : (x : AvpAt) (kept : List ℕ) → Frees (avp_blocks x) kept (avp_free x)
  avp_free-Frees null_avp kept = Frees-none kept
  avp_free-Frees (avp_at p subs) kept =
      Frees-bind (sub_blocks subs) (p ∷ []) kept (free_subs p subs) (zd_free p)
        (free_subs-Frees p subs ((p ∷ []) ++ kept) (inl refl)) (Frees-one p kept)

  pub free_subs-Frees :
      (p : ℕ) (subs : SubAvps) (kept : List ℕ)
      → Among p kept
      → Frees (sub_blocks subs) kept (free_subs p subs)
  free_subs-Frees p no_avps kept m = Frees-use p kept m
  free_subs-Frees p (avps a row) kept m =
      let inside : Among a.arr ((row_blocks row ++ array_blocks a) ++ kept) =
        Among-append a.arr (row_blocks row ++ array_blocks a) kept
          (Among-behind a.arr (row_blocks row) (array_blocks a) (inr (inl refl))) in
      Frees-touch p (row_blocks row ++ array_blocks a) kept
        (λ l1. touch a.arr l1 >>= λ l2. free_row p a row l2 >>= array_free (some a))
        (Among-behind p (row_blocks row ++ array_blocks a) kept m)
        (Frees-touch a.arr (row_blocks row ++ array_blocks a) kept
          (λ l2. free_row p a row l2 >>= array_free (some a)) inside
          (Frees-bind (row_blocks row) (array_blocks a) kept (free_row p a row)
            (array_free (some a))
            (free_row-Frees p a row (array_blocks a ++ kept)
              (Among-behind p (array_blocks a) kept m) (inr (inl refl)) (inl refl))
            (array_free-Frees a kept)))

  free_row-Frees :
      (p : ℕ) (a : ArrayAt) (row : AvpRow) (kept : List ℕ)
      → Among p kept
      → Among a.arr kept
      → Among a.data_block kept
      → Frees (row_blocks row) kept (free_row p a row)
  free_row-Frees p a nil kept m ma md =
      Frees-touch p [] kept (touch a.arr) m (Frees-use a.arr kept ma)
  free_row-Frees p a (cons x row) kept m ma md =
      let here = row_blocks (cons x row) in
      Frees-bind [] here kept (loop_test p a)
        (λ l1. touch a.data_block l1 >>= λ l2. avp_free x l2 >>= free_row p a row)
        (Frees-touch p [] (here ++ kept) (touch a.arr) (Among-behind p here kept m)
          (Frees-use a.arr (here ++ kept) (Among-behind a.arr here kept ma)))
        (Frees-touch a.data_block here kept (λ l2. avp_free x l2 >>= free_row p a row)
          (Among-behind a.data_block here kept md)
          (Frees-bind (avp_blocks x) (row_blocks row) kept (avp_free x) (free_row p a row)
            (avp_free-Frees x (row_blocks row ++ kept)) (free_row-Frees p a row kept m ma md)))

-- The blocks of a message: `raw_data` where it is not null, its AVPs and the message itself.
abbrev pub msg_blocks : MsgAt → List ℕ
msg_blocks m = block_at m.raw_data ++ (sub_blocks m.avps ++ (m.msg ∷ []))

msg_free-Frees : (m : MsgAt) (kept : List ℕ) → Frees (msg_blocks m) kept (msg_free (some m))
unfolding msg_free
msg_free-Frees m kept =
    let subs = sub_blocks m.avps in
    let own = m.msg ∷ [] in
    Frees-touch m.msg (msg_blocks m) kept
      (λ l1. zd_free m.raw_data l1 >>= λ l2. free_subs m.msg m.avps l2 >>= zd_free m.msg)
      (Among-append m.msg (msg_blocks m) kept (
        Among-behind m.msg (block_at m.raw_data) (subs ++ own)
          (Among-behind m.msg subs own (inl refl))))
      (Frees-bind (block_at m.raw_data) (subs ++ own) kept (zd_free m.raw_data)
        (λ l2. free_subs m.msg m.avps l2 >>= zd_free m.msg)
        (Frees-block_at m.raw_data ((subs ++ own) ++ kept))
        (Frees-bind subs own kept (free_subs m.msg m.avps) (zd_free m.msg)
          (free_subs-Frees m.msg m.avps (own ++ kept) (inl refl)) (Frees-one m.msg kept)))

-- `msg_free` of a message whose blocks are all allocated, each at an address of its own and none
-- null (a `raw_data` that is null is no block), never uses a block that is not allocated and never
-- frees one twice, however deep its AVPs are nested. Afterwards every block of the message, of its
-- AVPs and of their arrays is free, and every other block is as it was.
pub msg_free-without :
    (m : MsgAt) (live : Live)
    → Owned (msg_blocks m) live
    → (msg_free (some m) live ≡ ok (without (msg_blocks m) live))
      × ((q : ℕ) → Among q (msg_blocks m) → without (msg_blocks m) live q ≡ false)
      × ((q : ℕ) → NotAmong q (msg_blocks m) → without (msg_blocks m) live q ≡ live q)
unfolding Frees
msg_free-without m live o = (
  msg_free-Frees m [] [] live (subst (λ xs. Owned xs live) (sym (append-nil (msg_blocks m))) o),
  without-Among (msg_blocks m) live,
  without-NotAmong (msg_blocks m) live,
)
