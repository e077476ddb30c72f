-- ===== src/Tests/Libc.antt =====
-- A C library and a host that keep what the development asks of them.
use zdia.Prelude.{
  ℕ, ◌+◌, ◌/◌, ◌%◌, ◌^◌, ◌<◌, ◌≡◌, refl, ◌∙◌, Option, none, some, ◌∷◌, ◌++◌, arith, ltb, lt→ltb,
  if◌then◌else◌, length, take, replicate, length-take, length-append, length-replicate, take-take,
  take-append_length, Bool-cases, inl, inr,
}
use zdia.Memory.{Block, Memory, IsLawful, Grants}
use zdia.Host.{Host, big_endian, little_endian}

abbrev pub limit : ℕ
limit = 2 ^ 20

abbrev pub fresh_block : ℕ → Block
fresh_block n = record { addr = 1; bytes = replicate n 0 }

-- Every call moves the block.
abbrev pub moved_block : Block → ℕ → Block
moved_block b n = record { addr = b.addr + 1; bytes = take n (b.bytes ++ replicate n 0) }

-- Memory for blocks below 1 MiB.
abbrev pub libc : Memory
libc = record {
  alloc_func = λ n. if ltb n limit then some (fresh_block n) else none;
  realloc_func = λ b n. if ltb n limit then some (moved_block b n) else none;
  free_func = λ ptr freed. ptr ∷ freed;
}

some-injective : {a b : Block} → some a ≡ some b → a ≡ b
some-injective e = cc

-- A block comes only of a request below the limit.
granted :
    (n : ℕ) (c b : Block)
    → ◌≡◌ {A = Option Block} (if ltb n limit then some c else none) (some b)
    → (n < limit) × (c ≡ b)
granted n c b e = elim (Bool-cases (ltb n limit)) [
  | inl t ↦ (ground arith, some-injective (rw t at e))
  | inr f ↦ absurd (none_some (rw f at e))
]
  where
    none_some : ◌≡◌ {A = Option Block} none (some b) → ⊥
    none_some h = cc

pub libc-IsLawful : IsLawful libc
libc-IsLawful = record {
  alloc_length = λ n b e.
      let (small, same) = granted n (fresh_block n) b e in
      (rw (← same) (length-replicate n 0), omega arith);
  realloc_length = λ b n c e.
      let (small, same) = granted n (moved_block b n) c e in
      (
        rw (← same) (
            omega (
              arith,
              length-take n (b.bytes ++ replicate n 0),
              length-append b.bytes (replicate n 0),
              length-replicate {A = ℕ} n 0,
            )),
        omega arith,
      );
  realloc_keep = λ b n c e h.
      let (small, same) = granted n (moved_block b n) c e in
      rw (← same) (
        take-take (length b.bytes) n (b.bytes ++ replicate n 0) h
        ∙ take-append_length b.bytes (replicate n 0) (length b.bytes) refl);
}

pub libc-Grants : Grants libc limit
libc-Grants = record {
  alloc = λ n h. (fresh_block n, rw (lt→ltb n limit h) refl);
  realloc = λ b n h. (moved_block b n, rw (lt→ltb n limit h) refl);
}

-- A little-endian host: `ntohl` turns the four bytes round.
abbrev pub swap_bytes : ℕ → ℕ
swap_bytes n = big_endian (n % 256) (n / 2 ^ 8 % 256) (n / 2 ^ 16 % 256) (n / 2 ^ 24)

pub little_swap :
    (a b c d : ℕ)
    → a < 256
    → b < 256
    → c < 256
    → d < 256
    → swap_bytes (little_endian a b c d) ≡ big_endian a b c d
little_swap a b c d ha hb hc hd = omega arith

abbrev pub little_host : Host
little_host = record { word = little_endian; ntohl = swap_bytes; ntohl_word = little_swap }
