-- ===== src/Msg/Version.antt =====
-- `msg_new_from` takes the first word of the buffer, as the host reads it, for the version.
use zdia.Prelude.{
  ℕ, ◌+◌, ◌*◌, ◌^◌, ◌≤◌, ◌<◌, ◌≡◌, ◌≢◌, refl, Option, none, some, [], ◌∷◌, arith, ap, Bool,
  if◌then◌else◌, ok, fault, ne→==, eq→==, length, le→leb,
}
use zdia.Bytes.{Bytes}
use zdia.Host.{Host, load_word, little_endian, net_word-bytes}
use zdia.Dict.Types.{Dict}
use zdia.Msg.{Msg, Parsed, new_from, zero_header}

-- A host that stores the low byte of a word first.
abbrev pub IsLittle : Host → Type 0
IsLittle h = (a b c d : ℕ) → h.word a b c d ≡ little_endian a b c d

abbrev pub accepted_msg : Parsed → Option Dict → Bytes → Msg
accepted_msg p d bs = record {
  header = zero_header;
  parsed = p;
  avps = [];
  dict = d;
  raw_data = some bs;
}

module _ (h : Host) (little : IsLittle h) (p : Parsed) (dict : Option Dict) (junk : Bool)
    (b c d : ℕ) (rest : Bytes) (hb : b < 256) (hc : c < 256) (hd : d < 256) where
  first : load_word h (1 ∷ b ∷ c ∷ d ∷ rest) 0 ≡ ok (little_endian 1 b c d)
  first =
      let l : 4 ≤ length (1 ∷ b ∷ c ∷ d ∷ rest) = omega arith in
      rw (le→leb 4 (length (1 ∷ b ∷ c ∷ d ∷ rest)) l) (ap ok (little 1 b c d))

  -- On a little-endian host `msg_new_from` refuses every buffer of version 1 whose length field
  -- is not 0: it returns null, or faults if the field `avps`, which is not set when `msg_free`
  -- reads it, is not null.
  pub new_from-refuses :
      b * 2 ^ 16 + c * 2 ^ 8 + d ≢ 0
      → new_from h p dict junk (some (1 ∷ b ∷ c ∷ d ∷ rest)) ≡ (if junk then fault else ok none)
  unfolding new_from
  new_from-refuses some_length =
      rw
        (
          net_word-bytes h [] rest 1 b c d 0 (omega arith) hb hc hd refl,
          first,
          ne→== (little_endian 1 b c d) 1 (λ e. some_length (omega arith)),
        )
        refl

  -- It accepts version 1 with length 0.
  pub new_from-accepts :
      b * 2 ^ 16 + c * 2 ^ 8 + d ≡ 0
      → new_from h p dict junk (some (1 ∷ b ∷ c ∷ d ∷ rest))
        ≡ ok (some (accepted_msg p dict (1 ∷ b ∷ c ∷ d ∷ rest)))
  unfolding new_from
  new_from-accepts no_length =
      rw
        (
          net_word-bytes h [] rest 1 b c d 0 (omega arith) hb hc hd refl,
          first,
          eq→== (little_endian 1 b c d) 1 (omega arith),
        )
        refl
