-- ===== src/Host.antt =====
-- What the host decides: how four bytes in memory read as a `uint32_t`, and `ntohl`, which is the C
-- library's. Messages are bytes in network order.
use zdia.Prelude.{
  Ends, Bool-cases, inl, inr, ◌⊎◌, ℕ, ap, ◌∙◌, length-append, get_or-append_right, ◌+◌, ◌*◌, ◌/◌,
  ◌%◌, ◌++◌, ◌>>=◌, gt→leb, le→leb, ◌^◌, ◌≤◌, ◌<◌, ◌≡◌, ◌∷◌, [], Run, ok, fault, length, get_or,
  leb, if◌then◌else◌, arith, refl,
}
use zdia.Bytes.{Bytes}

-- The number that four bytes in network order stand for.
abbrev pub big_endian : ℕ → ℕ → ℕ → ℕ → ℕ
big_endian a b c d = a * 2 ^ 24 + b * 2 ^ 16 + c * 2 ^ 8 + d

abbrev pub little_endian : ℕ → ℕ → ℕ → ℕ → ℕ
little_endian a b c d = d * 2 ^ 24 + c * 2 ^ 16 + b * 2 ^ 8 + a

-- `ntohl` is documented to turn a word that was loaded from network order into its number.
pub record Host : Type 0 where
  pub word : ℕ → ℕ → ℕ → ℕ → ℕ
  pub ntohl : ℕ → ℕ
  pub ntohl_word :
      (a b c d : ℕ)
      → a < 256
      → b < 256
      → c < 256
      → d < 256
      → ntohl (word a b c d) ≡ big_endian a b c d

-- `buf[pos]` at a `const uint32_t *`; the bytes are the memory from the pointer on.
abbrev pub load_word : Host → Bytes → ℕ → Run ℕ
load_word h bs pos =
    if leb (4 * pos + 4) (length bs)
    then ok (
        h.word (get_or bs (4 * pos) 0) (get_or bs (4 * pos + 1) 0) (get_or bs (4 * pos + 2) 0)
          (get_or bs (4 * pos + 3) 0))
    else fault

-- The four bytes of a 32-bit number in network order.
abbrev pub put32 : ℕ → Bytes
put32 n = (n / 2 ^ 24) ∷ (n / 2 ^ 16 % 256) ∷ (n / 2 ^ 8 % 256) ∷ (n % 256) ∷ []

-- `ntohl(buf[pos])`
unfoldable pub net_word : Host → Bytes → ℕ → Run ℕ
net_word h bs pos = do w ← load_word h bs pos; ok (h.ntohl w)

-- Four bytes in network order read back as the number that they stand for.
pub net_word-bytes :
    (h : Host) (front rest : Bytes) (a b c d pos : ℕ)
    → a < 256
    → b < 256
    → c < 256
    → d < 256
    → length front ≡ 4 * pos
    → net_word h (front ++ (a ∷ b ∷ c ∷ d ∷ rest)) pos ≡ ok (big_endian a b c d)
unfolding net_word
net_word-bytes h front rest a b c d pos ha hb hc hd hl =
    let l : 4 * pos + 4 ≤ length (front ++ (a ∷ b ∷ c ∷ d ∷ rest)) =
      omega (arith, length-append front (a ∷ b ∷ c ∷ d ∷ rest)) in
    rw
      (
        le→leb _ _ l,
        byte 0 (4 * pos) (omega arith),
        byte 1 (4 * pos + 1) (omega arith),
        byte 2 (4 * pos + 2) (omega arith),
        byte 3 (4 * pos + 3) (omega arith),
      )
      (ap ok (h.ntohl_word a b c d ha hb hc hd))
  where
    byte :
        (i k : ℕ)
        → k ≡ length front + i
        → get_or (front ++ (a ∷ b ∷ c ∷ d ∷ rest)) k 0 ≡ get_or (a ∷ b ∷ c ∷ d ∷ rest) i 0
    byte i k e = get_or-append_right front (a ∷ b ∷ c ∷ d ∷ rest) i k 0 e

-- What `put32` stores, `ntohl` yields.
pub net_word-put32 :
    (h : Host) (front rest : Bytes) (n pos : ℕ)
    → n < 2 ^ 32
    → length front ≡ 4 * pos
    → net_word h (front ++ (put32 n ++ rest)) pos ≡ ok n
net_word-put32 h front rest n pos hn hl =
    net_word-bytes h front rest _ _ _ _ pos (omega arith) (omega arith) (omega arith) (omega arith)
      hl
    ∙ ap ok (omega arith)

-- A word that reaches past the memory is a fault.
pub net_word_past :
    (h : Host) (bs : Bytes) (pos : ℕ) → length bs < 4 * pos + 4 → net_word h bs pos ≡ fault
unfolding net_word
net_word_past h bs pos l = rw (gt→leb (4 * pos + 4) (length bs) l) refl

pub net_word-Ends : (h : Host) (bs : Bytes) (pos : ℕ) → Ends (net_word h bs pos)
unfolding net_word
net_word-Ends h bs pos = elim (Bool-cases (leb (4 * pos + 4) (length bs))) [
  | inl e ↦ rw e tt
  | inr e ↦ rw e tt
]

pub net_word-cases :
    (h : Host) (bs : Bytes) (pos : ℕ)
    → ((n : ℕ) × (net_word h bs pos ≡ ok n)) ⊎ (net_word h bs pos ≡ fault)
unfolding net_word
net_word-cases h bs pos = elim (Bool-cases (leb (4 * pos + 4) (length bs))) [
  | inl e ↦ inl (
    h.ntohl (
        h.word (get_or bs (4 * pos) 0) (get_or bs (4 * pos + 1) 0) (get_or bs (4 * pos + 2) 0)
          (get_or bs (4 * pos + 3) 0)),
    rw e refl,
  )
  | inr e ↦ inr (rw e refl)
]
