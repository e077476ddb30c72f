-- ===== src/Avp/Decode.antt =====
-- `avp_new_from` and `avp_decode` on the bytes of an AVP.
use zdia.Prelude.{
  ◌⊎◌, inl, inr, ℕ, append_assoc, ◌+◌, ◌*◌, ◌/◌, ◌%◌, ◌^◌, ◌≤◌, ◌<◌, ◌≡◌, refl, ap, ◌∙◌, none, some,
  [], ◌∷◌, ◌++◌, arith, Bool, true, false, length, Bool-cases, inl, inr, Run, ok, get_elem?, get_or,
}
use zdia.Bytes.{Bytes}
use zdia.Host.{Host, put32, big_endian, net_word, net_word-put32, net_word-bytes}
use zdia.Dict.Types.{
  Dict, AvpType, DictAvp, Codec, grouped, octet_string, integer32, integer64, unsigned32,
  unsigned64, float32, float64, unknown,
}
use zdia.Avp.{Avp, Value, zeroed, i32, u32, new_from, decode_value, value_pos, decode}
use zdia.Avp.Wire.{
  WireAvp, IsWire, has_vendor, header_length, avp_length, wire_vendor, vendor_bytes, vendor_length,
  padding, emit, is_flag_set-vendor,
}

-- The AVP that `avp_new_from` makes.
abbrev pub headed : WireAvp → Bytes → Avp
headed w buf = record {
  code = w.code;
  flags = w.flags;
  len = avp_length w;
  vendor_id = wire_vendor w;
  value = zeroed;
  dict_avp = none;
  raw_data = some buf;
}

module _ (h : Host) (w : WireAvp) (rest : Bytes) (v : IsWire w) where
  word_code : net_word h (emit w rest) 0 ≡ ok w.code
  unfolding emit
  word_code = net_word-put32 h [] _ w.code 0 v.code_fits refl

  word_flags : net_word h (emit w rest) 1 ≡ ok (w.flags * 2 ^ 24 + avp_length w)
  unfolding emit
  word_flags =
      net_word-put32 h (put32 w.code) _ (w.flags * 2 ^ 24 + avp_length w) 1
        (let f = v.flags_fit in let l = v.length_fits in omega arith) refl

  word_vendor : has_vendor w ≡ true → net_word h (emit w rest) 2 ≡ ok w.vendor_id
  unfolding emit
  word_vendor e =
      ap (λ vb. net_word h (put32 w.code ++ (put32 length_word ++ (vb ++ behind))) 2) bytes
      ∙ net_word-put32 h (put32 w.code ++ put32 length_word) behind w.vendor_id 2 v.vendor_fits refl
    where
      length_word : ℕ
      length_word = w.flags * 2 ^ 24 + avp_length w

      behind : Bytes
      behind = w.payload ++ (padding (avp_length w) ++ rest)

      bytes : vendor_bytes w ≡ put32 w.vendor_id
      bytes = rw e refl

  flags_back : (w.flags * 2 ^ 24 + avp_length w) / 2 ^ 24 % 2 ^ 8 ≡ w.flags
  flags_back = let f = v.flags_fit in let l = v.length_fits in omega arith

  len_back : (w.flags * 2 ^ 24 + avp_length w) % 2 ^ 24 ≡ avp_length w
  len_back = let l = v.length_fits in omega arith

  -- `avp_new_from` on the bytes of an AVP whose fields fit, whatever follows them, reads back its
  -- code, flags, length and vendor id, which is 0 if the V bit is not set.
  pub new_from-emit : new_from h (some (emit w rest)) ≡ ok (headed w (emit w rest))
  unfolding new_from
  new_from-emit = elim (Bool-cases (has_vendor w)) [
    | inl e ↦
        rw
          (
            word_code,
            word_flags,
            flags_back,
            len_back,
            is_flag_set-vendor w.flags v.flags_fit,
            e,
            word_vendor e,
          )
          refl
    | inr e ↦
        rw (word_code, word_flags, flags_back, len_back, is_flag_set-vendor w.flags v.flags_fit, e)
          refl
  ]

-- The codecs for which `avp_decode` reads a word of the value.
abbrev pub reads_word : Codec → Bool
reads_word integer32 = true
reads_word unsigned32 = true
reads_word _ = false

-- The words of the value that `avp_decode` counts.
abbrev pub codec_words : Codec → ℕ
codec_words grouped = 0
codec_words octet_string = 0
codec_words integer32 = 1
codec_words integer64 = 2
codec_words unsigned32 = 1
codec_words unsigned64 = 2
codec_words float32 = 1
codec_words float64 = 2
codec_words unknown = 0

-- The number in the first four bytes of a payload.
abbrev pub number : Bytes → ℕ
number p = big_endian (get_or p 0 0) (get_or p 1 0) (get_or p 2 0) (get_or p 3 0)

-- What `avp_decode` stores of a payload under a codec: of most codecs nothing.
abbrev pub wire_value : Codec → Bytes → Value
wire_value integer32 p = i32 (number p)
wire_value unsigned32 p = u32 (number p)
wire_value _ p = zeroed

-- What is kept of a value whose first word is `first`, and how many words the position moves.
pub data Stored (c : Codec) (first on : ℕ) (v : Value) : Type 0 where
  signed : c ≡ integer32 → on ≡ 1 → v ≡ i32 first → Stored c first on v
  unsigned : c ≡ unsigned32 → on ≡ 1 → v ≡ u32 first → Stored c first on v
  lost_double :
      (c ≡ integer64) ⊎ ((c ≡ unsigned64) ⊎ (c ≡ float64))
      → on ≡ 2
      → v ≡ zeroed
      → Stored c first on v
  lost_float : c ≡ float32 → on ≡ 1 → v ≡ zeroed → Stored c first on v
  lost_bytes :
      (c ≡ octet_string) ⊎ ((c ≡ grouped) ⊎ (c ≡ unknown))
      → on ≡ 0
      → v ≡ zeroed
      → Stored c first on v

wire_value-Stored : (c : Codec) (p : Bytes) → Stored c (number p) (codec_words c) (wire_value c p)
wire_value-Stored grouped p = lost_bytes (inr (inl refl)) refl refl
wire_value-Stored octet_string p = lost_bytes (inl refl) refl refl
wire_value-Stored integer32 p = signed refl refl refl
wire_value-Stored integer64 p = lost_double (inl refl) refl refl
wire_value-Stored unsigned32 p = unsigned refl refl refl
wire_value-Stored unsigned64 p = lost_double (inr (inl refl)) refl refl
wire_value-Stored float32 p = lost_float refl refl refl
wire_value-Stored float64 p = lost_double (inr (inr refl)) refl refl
wire_value-Stored unknown p = lost_bytes (inr (inr refl)) refl refl

-- The first four bytes of a payload are there, and are bytes.
pub record IsNumber (p : Bytes) : Type 0 where
  pub long : 4 ≤ length p
  pub byte0 : get_or p 0 0 < 256
  pub byte1 : get_or p 1 0 < 256
  pub byte2 : get_or p 2 0 < 256
  pub byte3 : get_or p 3 0 < 256

four_bytes :
    (p : Bytes)
    → 4 ≤ length p
    → (r : Bytes) × (p ≡ get_or p 0 0 ∷ get_or p 1 0 ∷ get_or p 2 0 ∷ get_or p 3 0 ∷ r)
four_bytes (a ∷ b ∷ c ∷ d ∷ r) h = (r, refl)
four_bytes (a ∷ b ∷ c ∷ []) h = absurd (omega arith)
four_bytes (a ∷ b ∷ []) h = absurd (omega arith)
four_bytes (a ∷ []) h = absurd (omega arith)
four_bytes [] h = absurd (omega arith)

no_words : (pos : ℕ) (a : Avp) → ◌≡◌ {A = Run (ℕ × Avp)} (ok (pos, a)) (ok (pos + 0, a))
no_words pos a = ap {B = Run (ℕ × Avp)} (λ k. ok (k, a)) {x = pos} (omega arith)

module _ (h : Host) (w : WireAvp) (rest : Bytes) (v : IsWire w) where
  front : Bytes
  front = put32 w.code ++ (put32 (w.flags * 2 ^ 24 + avp_length w) ++ vendor_bytes w)

  behind : Bytes
  behind = padding (avp_length w) ++ rest

  emit-front : emit w rest ≡ front ++ (w.payload ++ behind)
  unfolding emit front behind
  emit-front = simp (append_assoc)

  length-front : length front ≡ 4 * value_pos w.flags
  unfolding front
  length-front = let l : length front ≡ header_length w = omega (arith, vendor_length w) in l ∙ same
    where
      same : header_length w ≡ 4 * value_pos w.flags
      same = rw (is_flag_set-vendor w.flags v.flags_fit) (ground arith)

  -- The word at which the value of an AVP starts is the first of its payload.
  word_value :
      IsNumber w.payload → net_word h (emit w rest) (value_pos w.flags) ≡ ok (number w.payload)
  word_value n =
      let (r, e) = four_bytes w.payload n.long in
      ap (λ bs. net_word h bs (value_pos w.flags)) (emit-front ∙ ap (λ p. front ++ (p ++ behind)) e)
      ∙ net_word-bytes h front (r ++ behind) _ _ _ _ (value_pos w.flags) n.byte0 n.byte1 n.byte2
          n.byte3 length-front

  -- The AVP looked up, and decoded.
  known : DictAvp → Avp
  known da = record (headed w (emit w rest)) { dict_avp = some da }

  known_value : DictAvp → Codec → Avp
  known_value da c = record (headed w (emit w rest)) {
    dict_avp = some da;
    value = wire_value c w.payload;
  }

  decode_value-emit :
      (da : DictAvp) (c : Codec)
      → (reads_word c ≡ true → IsNumber w.payload)
      → decode_value h c (known da) (value_pos w.flags)
        ≡ ok (value_pos w.flags + codec_words c, known_value da c)
  unfolding decode_value known known_value
  decode_value-emit da grouped n = no_words (value_pos w.flags) (known da)
  decode_value-emit da octet_string n = no_words (value_pos w.flags) (known da)
  decode_value-emit da integer32 n = rw (word_value (n refl)) refl
  decode_value-emit da integer64 n = refl
  decode_value-emit da unsigned32 n = rw (word_value (n refl)) refl
  decode_value-emit da unsigned64 n = refl
  decode_value-emit da float32 n = refl
  decode_value-emit da float64 n = refl
  decode_value-emit da unknown n = no_words (value_pos w.flags) (known da)

  -- What `avp_decode` makes of an AVP that is laid out.
  pub decode-emit :
      (d : Dict) (da : DictAvp) (slot : ℕ) (t : AvpType)
      → da.type ≡ some slot
      → get_elem? d.types slot ≡ some t
      → (reads_word t.codec ≡ true → IsNumber w.payload)
      → decode h d (record (headed w (emit w rest)) { dict_avp = some da })
        ≡ ok (
          value_pos w.flags + codec_words t.codec,
          record (headed w (emit w rest)) {
            dict_avp = some da;
            value = wire_value t.codec w.payload;
          },
        )
  unfolding decode known known_value
  decode-emit d da slot t hs ht n = simp (hs, ht) (decode_value-emit da t.codec n)

  -- For an AVP whose fields fit, with an entry that has a type, and a number in its payload if the
  -- codec is Integer32 or Unsigned32, `avp_decode` succeeds. With these two codecs the value is the
  -- number that was sent, in network byte order, and the position returned is one word behind the
  -- start of the payload. With every other codec the value stays as it was, zeroed, whatever the
  -- payload is; the position is two words on for 64-bit types, one for Float32, and for OctetString,
  -- Grouped and an unknown codec it is still the start of the payload.
  pub decode-Stored :
      (d : Dict) (da : DictAvp) (slot : ℕ) (t : AvpType)
      → da.type ≡ some slot
      → get_elem? d.types slot ≡ some t
      → (reads_word t.codec ≡ true → IsNumber w.payload)
      → (on : ℕ) × (value : Value) × (decode h d
            (record (headed w (emit w rest)) { dict_avp = some da })
          ≡ ok (
            value_pos w.flags + on,
            record (headed w (emit w rest)) { dict_avp = some da; value = value },
          ))
        × Stored t.codec (number w.payload) on value
  decode-Stored d da slot t hs ht n = (
    codec_words t.codec,
    wire_value t.codec w.payload,
    decode-emit d da slot t hs ht n,
    wire_value-Stored t.codec w.payload,
  )
