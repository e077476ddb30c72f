-- ===== src/Free/Objects.antt =====
-- queue.c, list.c and dict.c: the functions that free objects.
use zdia.Prelude.{ℕ, Option, none, some, List, Run, ok, ◌>>=◌, ◌==◌, if◌then◌else◌}
use zdia.Dict.Types.{App}
use zdia.Heap.{Live, with_one, touch, zd_free}
use zdia.Dlist.{Links, list_init}
use zdia.Free.{ArrayAt, array_free}

pub record QueueAt : Type 0 where
  pub queue : ℕ
  pub data_block : ℕ

-- The destruction of the mutex uses the queue.
unfoldable pub queue_free : Option QueueAt → Live → Run Live
queue_free none live = ok live
queue_free (some q) live = touch q.queue live >>= λ l1. zd_free q.data_block l1 >>= zd_free q.queue

-- `free` of the C library, where the pointer is not null.
unfoldable pub list_free : ℕ → Live → Run Live
unfolding zd_free
list_free p live = zd_free p live

-- `entry_arrays` are the arrays of rules and of enumerated values that the elements of `cmds` and
-- `avps` point to.
pub record DictAt : Type 0 where
  pub dict : ℕ
  pub apps : ArrayAt
  pub vendors : ArrayAt
  pub cmds : ArrayAt
  pub avps : ArrayAt
  pub types : ArrayAt
  pub entry_arrays : List ArrayAt

-- Each of the dictionary's arrays is read from the dictionary before it is freed.
abbrev pub free_array_of : ℕ → ArrayAt → Live → Run Live
free_array_of p a live = touch p live >>= array_free (some a)

unfoldable pub dict_free : Option DictAt → Live → Run Live
unfolding array_free
dict_free none live = ok live
dict_free (some d) live = free_array_of d.dict d.apps live >>= λ l1.
    free_array_of d.dict d.vendors l1 >>= λ l2. free_array_of d.dict d.cmds l2 >>= λ l3.
    free_array_of d.dict d.avps l3 >>= λ l4. free_array_of d.dict d.types l4 >>= zd_free d.dict

-- `p` is what `zd_malloc` returns.
unfoldable pub dict_app_new : ℕ → Live → Option (ℕ × App) × Live
dict_app_new p live =
    if p == 0
    then (none, live)
    else (some (p, record { id = 0; name = none; uri = none }), with_one p live)

unfoldable pub dict_app_free : ℕ → Live → Run Live
unfolding zd_free
dict_app_free p live = zd_free p live

-- `p` is what `malloc` returns; `list_init` writes through it.
unfoldable pub list_new : ℕ → Links → Live → Run (ℕ × Links × Live)
unfolding list_init
list_new p links live = do links' ← list_init links p; ok (p, links', with_one p live)
