-- ===== src/Heap.antt =====
-- Which blocks are allocated, by their addresses, while objects are freed. A use of a block that is
-- not allocated is a fault, and so is a second `free` of it.
pub mod Owned
use zdia.Prelude.{ℕ, Bool, true, false, Run, ok, fault, ◌==◌, if◌then◌else◌, List, [], ◌∷◌}

abbrev pub Live : Type 0
Live = ℕ → Bool

abbrev pub without_one : ℕ → Live → Live
without_one p live q = if q == p then false else live q

abbrev pub with_one : ℕ → Live → Live
with_one p live q = if q == p then true else live q

-- A read or a write through a pointer.
abbrev pub touch : ℕ → Live → Run Live
touch p live = if p == 0 then fault else if live p then ok live else fault

-- `free`, of the C library or what `free_func` is set to.
abbrev pub release : ℕ → Live → Run Live
release p live = if live p then ok (without_one p live) else fault

-- `zd_free`: a null pointer is passed over.
unfoldable pub zd_free : ℕ → Live → Run Live
zd_free p live = if p == 0 then ok live else release p live
