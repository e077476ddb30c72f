-- ===== src/Avp/Total.antt =====
-- `avp_new_from` and `avp_decode` end on any memory, and the length that is read fits its field.
use zdia.Prelude.{
  ℕ, ◌/◌, ◌%◌, ◌^◌, ◌<◌, Option, none, some, arith, ok, Ends, Ends-bind, Yields, Yields-bind, ◌>>=◌,
  Bool-cases, inl, inr, non_null, get_elem?,
}
use zdia.Bytes.{Bytes}
use zdia.Host.{Host, net_word, net_word-Ends}
use zdia.Dict.Types.{
  Dict, Codec, grouped, octet_string, integer32, integer64, unsigned32, unsigned64, float32,
  float64, unknown,
}
use zdia.Avp.{
  Avp, avp_flag_vendor, is_flag_set, blank, value_pos, decode_header, new_from, decode_value,
  decode,
}

module _ (h : Host) where
  -- The length is read from 24 bits.
  decode_header-Yields :
      (a : Avp) (buf : Bytes) → Yields (λ b. b.len < 2 ^ 24) (decode_header h a buf)
  unfolding decode_header
  decode_header-Yields a buf = Yields-bind _ (net_word h buf 0) _ (net_word-Ends h buf 0) λ code _.
      Yields-bind _ (net_word h buf 1) _ (net_word-Ends h buf 1) λ value _.
        elim (Bool-cases (is_flag_set (value / 2 ^ 24 % 2 ^ 8) avp_flag_vendor)) [
          | inl e ↦
              rw e (Yields-bind _ (net_word h buf 2) _ (net_word-Ends h buf 2) (λ v _. omega arith))
          | inr e ↦ rw e (omega arith)
        ]

  -- `avp_new_from` ends, and the length that it reads has 24 bits.
  pub new_from-Yields : (bs : Bytes) → Yields (λ b. b.len < 2 ^ 24) (new_from h (some bs))
  unfolding new_from
  new_from-Yields bs = decode_header-Yields (blank (some bs)) bs

  non_null-Ends {ℓ} : {A : Type ℓ} (o : Option A) → Ends (non_null o)
  non_null-Ends none = tt
  non_null-Ends (some a) = tt

  word_value-Ends :
      (raw : Option Bytes) (pos : ℕ) (f : ℕ → ℕ × Avp)
      → Ends (non_null raw >>= λ bs. net_word h bs pos >>= λ w. ok (f w))
  word_value-Ends none pos f = tt
  word_value-Ends (some bs) pos f =
      Ends-bind (net_word h bs pos) _ (net_word-Ends h bs pos) (λ w _. tt)

  decode_value-Ends : (c : Codec) (a : Avp) (pos : ℕ) → Ends (decode_value h c a pos)
  unfolding decode_value
  decode_value-Ends grouped a pos = tt
  decode_value-Ends octet_string a pos = tt
  decode_value-Ends integer32 a pos = word_value-Ends a.raw_data pos _
  decode_value-Ends integer64 a pos = tt
  decode_value-Ends unsigned32 a pos = word_value-Ends a.raw_data pos _
  decode_value-Ends unsigned64 a pos = tt
  decode_value-Ends float32 a pos = tt
  decode_value-Ends float64 a pos = tt
  decode_value-Ends unknown a pos = tt

  pub decode-Ends : (d : Dict) (a : Avp) → Ends (decode h d a)
  unfolding decode
  decode-Ends d a = Ends-bind (non_null a.dict_avp) _ (non_null-Ends a.dict_avp) λ da _.
      Ends-bind (non_null da.type) _ (non_null-Ends da.type) λ slot _.
        Ends-bind (non_null (get_elem? d.types slot)) _ (non_null-Ends (get_elem? d.types slot))
          λ t _. decode_value-Ends t.codec a (value_pos a.flags)
