-- ===== src/Free.antt =====
-- The functions that free objects: array.c, avp.c, msg.c, queue.c, list.c and dict.c. Here an object is
-- the blocks that it is made of, with the pointers that the
-- functions follow.
pub mod Dictionary
pub mod Messages
pub mod Objects
use zdia.Prelude.{ℕ, Option, none, some, Run, ok, ◌>>=◌, List, [], ◌∷◌, ◌==◌, if◌then◌else◌}
use zdia.Heap.{Live, touch, release, zd_free}

-- The `array_t`, and its `data`.
pub record ArrayAt : Type 0 where
  pub arr : ℕ
  pub data_block : ℕ

abbrev pub array_parts : ArrayAt → Live → Run Live
array_parts a live = do l1 ← touch a.arr live; l2 ← zd_free a.data_block l1; zd_free a.arr l2

unfoldable pub array_free : Option ArrayAt → Live → Run Live
array_free none live = ok live
array_free (some a) live = array_parts a live

unfoldable pub array_free_data : Option ArrayAt → Live → Run Live
array_free_data none live = ok live
array_free_data (some a) live = touch a.arr live >>= zd_free a.data_block

-- A pointer to an AVP, null or with the AVP's `avps`: null too, or an array of AVPs.
mutual
  pub data AvpAt : Type 0 where
    null_avp : AvpAt
    avp_at : ℕ → SubAvps → AvpAt

  pub data SubAvps : Type 0 where
    no_avps : SubAvps
    avps : ArrayAt → AvpRow → SubAvps

  pub data AvpRow : Type 0 where
    nil : AvpRow
    cons : AvpAt → AvpRow → AvpRow

-- The test of a loop over the elements of an array that the object at `p` points to.
abbrev pub loop_test : ℕ → ArrayAt → Live → Run Live
loop_test p a live = touch p live >>= touch a.arr

unfoldable mutual
  unfolding array_free

  pub avp_free : AvpAt → Live → Run Live
  avp_free null_avp live = ok live
  avp_free (avp_at p subs) live = free_subs p subs live >>= zd_free p

  -- `if (avp->avps) ...`
  pub free_subs : ℕ → SubAvps → Live → Run Live
  free_subs p no_avps live = touch p live
  free_subs p (avps a row) live =
      touch p live >>= λ l1. touch a.arr l1 >>= λ l2. free_row p a row l2 >>= array_free (some a)

  pub free_row : ℕ → ArrayAt → AvpRow → Live → Run Live
  free_row p a nil live = loop_test p a live
  free_row p a (cons x row) live = loop_test p a live >>= λ l1.
      touch a.data_block l1 >>= λ l2. avp_free x l2 >>= free_row p a row

-- A message; a null `raw_data` is 0.
pub record MsgAt : Type 0 where
  pub msg : ℕ
  pub raw_data : ℕ
  pub avps : SubAvps

unfoldable pub msg_free : Option MsgAt → Live → Run Live
unfolding avp_free
msg_free none live = ok live
msg_free (some m) live = touch m.msg live >>= λ l1.
    zd_free m.raw_data l1 >>= λ l2. free_subs m.msg m.avps l2 >>= zd_free m.msg
