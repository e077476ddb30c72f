-- ===== src/Msg/Frame.antt =====
-- Messages that are not laid out as they should be: an AVP of length 0, a buffer that ends early,
-- and what `msg_new_from` takes for the version.
use zdia.Prelude.{
  ℕ, zero, suc, ◌+◌, ◌*◌, ◌^◌, ◌<◌, ◌≡◌, inl, inr, refl, none, some, List, [], ◌∷◌, ◌++◌, arith,
  true, ltb, lt→ltb, length, drop, length-drop, ok, fault, out_of_fuel, add32, mul32,
}
use zdia.Bytes.{Bytes}
use zdia.Host.{Host, net_word_past, net_word-cases}
use zdia.Dict.Types.{Dict, DictAvp}
use zdia.Dict.{get_avp}
use zdia.Avp
use zdia.Avp.{Avp}
use zdia.Msg.{avp_words, keep_avp, parse_avp, parse_loop}

-- The loop passes over the AVP: it is not in the dictionary, or it decodes.
pub data Passes (h : Host) (d : Dict) (a : Avp) : Type 0 where
  not_in_dict : get_avp d a.code a.vendor_id ≡ none → Passes h d a
  decodes :
      (da : DictAvp) (p : ℕ) (b : Avp)
      → get_avp d a.code a.vendor_id ≡ some da
      → Avp.decode h d (record a { dict_avp = some da }) ≡ ok (p, b)
      → Passes h d a

-- An AVP needs eight bytes at least.
new_from_past : (h : Host) (bs : Bytes) → length bs < 8 → Avp.new_from h (some bs) ≡ fault
unfolding Avp.new_from
new_from_past h bs l = elim (net_word-cases h bs 0) [
  | inl (n, e) ↦ rw (e, net_word_past h bs 1 (omega arith)) refl
  | inr e ↦ rw e refl
]

module _ (h : Host) (d : Dict) where
  keep-ok :
      (a : Avp) (avps : List Avp)
      → Passes h d a
      → (out : List Avp) × (keep_avp h d avps a (get_avp d a.code a.vendor_id) ≡ ok out)
  unfolding keep_avp
  keep-ok a avps (not_in_dict e) = (avps, simp e)
  keep-ok a avps (decodes da p b e k) = (avps ++ (b ∷ []), simp (e, k))

  -- At a position within the message where the header of an AVP can be read, its length field is
  -- 0, and it is unknown or decodes, the loop of `msg_parse_all` never goes on: however many
  -- rounds it has, they are used up. Memory for the AVPs is taken to be granted: every round
  -- allocates one.
  pub loop-zero_length :
      (raw : Bytes) (msg_len pos : ℕ) (a : Avp)
      → 4 * pos < msg_len
      → msg_len < 2 ^ 24
      → Avp.new_from h (some (drop (4 * pos) raw)) ≡ ok a
      → a.len ≡ 0
      → Passes h d a
      → (fuel : ℕ) (avps : List Avp)
      → parse_loop h fuel (some d) (some raw) msg_len pos avps ≡ out_of_fuel
  unfolding parse_loop parse_avp
  loop-zero_length raw msg_len pos a inside small e z pass zero avps = refl
  loop-zero_length raw msg_len pos a inside small e z pass (suc fuel) avps =
      let (out, kept) = keep-ok a avps pass in
      let stay : add32 pos (avp_words a.len) ≡ pos = omega arith in
      let t : ltb (mul32 pos 4) msg_len ≡ true = lt→ltb (mul32 pos 4) msg_len (omega arith) in
      simp (t, e, kept, stay) (loop-zero_length raw msg_len pos a inside small e z pass fuel out)

  -- At a position within a message below 2^24 bytes where fewer than 8 bytes of the buffer are
  -- left, the loop of `msg_parse_all` faults: it reads past the end.
  pub loop-past :
      (raw : Bytes) (msg_len pos fuel : ℕ) (avps : List Avp)
      → 4 * pos < msg_len
      → msg_len < 2 ^ 24
      → length raw < 4 * pos + 8
      → parse_loop h (suc fuel) (some d) (some raw) msg_len pos avps ≡ fault
  unfolding parse_loop parse_avp
  loop-past raw msg_len pos fuel avps inside small short =
      let t : ltb (mul32 pos 4) msg_len ≡ true = lt→ltb (mul32 pos 4) msg_len (omega arith) in
      simp (t, new_from_past h (drop (4 * pos) raw) (omega (arith, length-drop (4 * pos) raw)))
