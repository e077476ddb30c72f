-- ===== src/Dict/Add/Orders.antt =====
-- dict.c: the orders that `qsort` is given, as differences of unsigned numbers.
use zdia.Prelude.{ℕ, ◌+◌, ◌^◌, ◌≤◌, ◌<◌, ◌⊎◌, ◌↔◌, ℤ, pos, negsuc, arith}
use zdia.Dict.Text.{int_diff}
use zdia.Dict.Add.{cmp_app}
use zdia.Dict.Types.{App}

-- The first of the two goes in front.
abbrev pub IsNegative : ℤ → Type 0
IsNegative (pos n) = ⊥
IsNegative (negsuc n) = Unit

int_diff-IsNegative :
    (x y : ℕ)
    → x < 2 ^ 32
    → y < 2 ^ 32
    → IsNegative (int_diff x y) ↔ (((x < y) × (y ≤ x + 2 ^ 31)) ⊎ (y + 2 ^ 31 ≤ x))
int_diff-IsNegative x y hx hy = (λ n. ground arith, λ o. ground arith)

-- Of two applications with ids in 32 bits, the first is put in front by `cmp_app` if its id is the
-- smaller by no more than 2^31, or the larger by at least 2^31, and not otherwise.
pub cmp_app-IsNegative :
    (a b : App)
    → a.id < 2 ^ 32
    → b.id < 2 ^ 32
    → IsNegative (cmp_app a b) ↔ (((a.id < b.id) × (b.id ≤ a.id + 2 ^ 31)) ⊎ (b.id + 2 ^ 31 ≤ a.id))
unfolding cmp_app
cmp_app-IsNegative a b ha hb = int_diff-IsNegative a.id b.id ha hb
