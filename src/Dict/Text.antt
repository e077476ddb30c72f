-- ===== src/Dict/Text.antt =====
-- The C library's functions on text as dict.c uses them. A `const char *` is an optional text.
pub mod Search
use Prim.Native.Char.{code}
use Prim.Native.String.{String}
use text.Mathlib.Text
use zdia.Prelude.{
  ℕ, Bool, Option, none, some, List, [], ◌∷◌, Run, ok, fault, ◌>>=◌, ltb, ◌==◌, if◌then◌else◌, ◌^◌,
  ◌-◌, ◌%◌, ◌+◌, ℤ, pos, negsuc, suc,
}
use zdia.Bytes.{Bytes}

-- `strdup` of a name as memory, and `atoi` as the bit pattern of its result, which dict.c keeps in
-- 32 bits.
pub record Libc : Type 0 where
  pub strdup : String → Bytes
  pub atoi : String → ℕ

-- `0 == strcmp(s, t)`
abbrev pub same : String → String → Bool
same s t = Text.◌==◌ s t

-- `0 == strcmp(s, t)` where a pointer may be null: a fault.
abbrev pub same_text : Option String → Option String → Run Bool
same_text none t = fault
same_text (some s) none = fault
same_text (some s) (some t) = ok (same s t)

abbrev pub codes : String → List ℕ
codes String.[] = []
codes (String.◌∷◌ c s) = code c ∷ codes s

-- The first difference decides; the end of a text is before every character.
abbrev pub compare_codes : List ℕ → List ℕ → ℤ
compare_codes [] [] = pos 0
compare_codes [] (y ∷ ys) = negsuc 0
compare_codes (x ∷ xs) [] = pos 1
compare_codes (x ∷ xs) (y ∷ ys) =
    let rest = compare_codes xs ys in if ltb x y then negsuc 0 else if ltb y x then pos 1 else rest

abbrev pub strcmp : String → String → ℤ
strcmp s t = compare_codes (codes s) (codes t)

-- A difference of two `uint32_t`, as an `int`.
abbrev pub int_diff : ℕ → ℕ → ℤ
int_diff a b =
    let d = (a + 2 ^ 32 - b) % 2 ^ 32 in if ltb d (2 ^ 31) then pos d else negsuc (2 ^ 32 - 1 - d)

-- The first slot from `i` on of an element with the name: a loop of `strcmp`, up to its `break`.
unfoldable pub find_named {ℓ} :
    {A : Type ℓ} → (A → Option String) → Option String → List A → ℕ → Run (Option ℕ)
find_named name_of name [] i = ok none
find_named name_of name (x ∷ xs) i = same_text name (name_of x) >>= λ found.
    if found then ok (some i) else find_named name_of name xs (suc i)
