-- ===== src/Msg/Parse.antt =====
-- `msg_parse_header` and `msg_parse_all` on the bytes of a message.
use zdia.Prelude.{
  ℕ, zero, suc, ◌+◌, ◌*◌, ◌/◌, ◌%◌, ◌^◌, ◌<◌, ◌≡◌, refl, ap, ◌∙◌, sym, Option, none, some, List, [],
  ◌∷◌, ◌++◌, append_assoc, append-nil, map, map-append, arith, lt→ltb, ge→ltb, length, drop,
  drop-drop, ok, add32, mul32,
}
use zdia.Bytes.{Bytes}
use zdia.Host.{Host, put32, net_word, net_word-put32}
use zdia.Dict.Types.{Dict, Codec}
use zdia.Dict.{get_avp}
use zdia.Avp.{Avp}
use zdia.Avp.Wire.{
  WireAvp, IsWire, View, view, avp_length, wire_vendor, emit, emit_all, length-emit, drop-emit,
  avp_length_min,
}
use zdia.Avp.Decode.{headed, new_from-emit, decode-emit, wire_value}
use zdia.Msg.{
  Msg, Header, Parsed, parsed_none, parsed_header, parsed_all, avp_words, decode_header,
  parse_header, keep_avp, parse_avp, parse_loop, header_parsed, parse_all,
}
use zdia.Msg.Wire.{
  emit_msg, IsHeader, codec_of, codec_in, codec_at, wire_view, accepted, accepted_all, Readable,
  not_in_dict, in_dict, AllReadable,
}

module _ (h : Host) (d : Dict) where
  -- What the loop keeps of one AVP.
  keep-accepted :
      (w : WireAvp) (rest : Bytes) (avps : List Avp)
      → IsWire w
      → Readable d w
      → (out : List Avp) × (keep_avp h d avps
            (headed w (emit w rest))
            (get_avp d w.code (wire_vendor w))
          ≡ ok out)
        × (map view out ≡ map view avps ++ accepted d w)
  unfolding keep_avp
  keep-accepted w rest avps v (not_in_dict e) =
      (avps, rw e refl, rw (e, accepted) (sym (append-nil (map view avps))))
  keep-accepted w rest avps v (in_dict da slot t e hs ht n) = (
    avps ++ (found ∷ []),
    rw (e, decode-emit h w rest v d da slot t hs ht n) refl,
    map-append view avps (found ∷ []) ∙ ap (λ vs. map view avps ++ vs) (sym seen),
  )
    where
      found : Avp
      found = record (headed w (emit w rest)) {
        dict_avp = some da;
        value = wire_value t.codec w.payload;
      }

      seen : accepted d w ≡ wire_view w da t.codec ∷ []
      seen = rw (e, accepted) (ap of_codec codec)
        where
          of_codec : Option Codec → List View
          of_codec o = elim o [ none ↦ [] | some c ↦ wire_view w da c ∷ [] ]

          codec : codec_of d da ≡ some t.codec
          codec = ap (codec_in d) hs ∙ ap codec_at ht

  -- One round of the loop reads one AVP, and goes on at the next.
  round :
      (w : WireAvp) (rest raw : Bytes) (pos : ℕ) (avps : List Avp)
      → IsWire w
      → Readable d w
      → drop (4 * pos) raw ≡ emit w rest
      → 4 * pos < 2 ^ 24
      → (out : List Avp) × (parse_avp h (some d) (some raw) pos avps
          ≡ ok (pos + (avp_length w + 3) / 4, out))
        × (map view out ≡ map view avps ++ accepted d w)
  unfolding parse_avp
  round w rest raw pos avps v r e small =
      let (out, kept, seen) = keep-accepted w rest avps v r in
      let step : add32 pos (avp_words (avp_length w)) ≡ pos + (avp_length w + 3) / 4 =
        (let l = v.length_fits in omega arith) in
      (out, rw (e, new_from-emit h w rest v) (simp (kept, step)), seen)

  -- With a round for each AVP and one for the test that ends it, the loop reads them all.
  loop :
      (ws : List WireAvp) (fuel : ℕ) (raw : Bytes) (msg_len pos : ℕ) (avps : List Avp)
      → AllReadable d ws
      → length ws < fuel
      → drop (4 * pos) raw ≡ emit_all ws
      → msg_len ≡ 4 * pos + length (emit_all ws)
      → msg_len < 2 ^ 24
      → (out : List Avp) × (parse_loop h fuel (some d) (some raw) msg_len pos avps ≡ ok out)
        × (map view out ≡ map view avps ++ accepted_all d ws)
  unfolding parse_loop emit_all accepted_all
  loop [] zero raw msg_len pos avps rs f e l small = absurd (omega arith)
  loop (w ∷ ws) zero raw msg_len pos avps rs f e l small = absurd (omega arith)
  loop [] (suc fuel) raw msg_len pos avps rs f e l small =
      (avps, rw (ge→ltb (mul32 pos 4) msg_len (omega arith)) refl, sym (append-nil (map view avps)))
  loop (w ∷ ws) (suc fuel) raw msg_len pos avps (v, r, rs) f e l small =
      let size = length-emit w (emit_all ws) in
      let (mid, stepped, seen) = round w (emit_all ws) raw pos avps v r e (omega arith) in
      let next : drop (4 * (pos + (avp_length w + 3) / 4)) raw ≡ emit_all ws =
        ap (λ k. drop k raw) {x = 4 * (pos + (avp_length w + 3) / 4)}
          {y = 4 * pos + 4 * ((avp_length w + 3) / 4)} (omega arith)
        ∙ sym (drop-drop (4 * ((avp_length w + 3) / 4)) (4 * pos) raw)
        ∙ ap (drop (4 * ((avp_length w + 3) / 4))) e
        ∙ drop-emit w (emit_all ws) in
      let long = avp_length_min w in
      let (out, ran, found) =
        loop ws fuel raw msg_len (pos + (avp_length w + 3) / 4) mid rs (omega arith) next
          (omega arith) small in
      (
        out,
        rw (lt→ltb (mul32 pos 4) msg_len (omega arith), stepped) ran,
        found
            ∙ ap (λ vs. vs ++ accepted_all d ws) seen
            ∙ append_assoc (map view avps) (accepted d w) (accepted_all d ws),
      )

-- A message as it is before its AVPs are parsed.
abbrev pub arrived : Header → Parsed → Dict → Bytes → Msg
arrived hd parsed d buf = record {
  header = hd;
  parsed = parsed;
  avps = [];
  dict = some d;
  raw_data = some buf;
}

module _ (h : Host) (hd : Header) (ws : List WireAvp) (v : IsHeader hd) where
  word0 : ℕ
  word0 = hd.version * 2 ^ 24 + hd.msg_len

  word1 : ℕ
  word1 = hd.cmd_flags * 2 ^ 24 + hd.cmd_code

  -- Each of the five words of the header, where `msg_parse_header` looks for it.
  header_words :
      (net_word h (emit_msg hd ws) 0 ≡ ok word0)
      × (net_word h (emit_msg hd ws) 1 ≡ ok word1)
      × (net_word h (emit_msg hd ws) 2 ≡ ok hd.app_id)
      × (net_word h (emit_msg hd ws) 3 ≡ ok hd.hop_by_hop_id)
      × (net_word h (emit_msg hd ws) 4 ≡ ok hd.end_to_end_id)
  unfolding emit_msg word0 word1
  header_words = (
    net_word-put32 h [] _ w0 0 (let a = v.version_fits in let b = v.length_fits in omega arith)
        refl,
    net_word-put32 h (put32 w0) _ w1 1 (let a = v.flags_fit in let b = v.code_fits in omega arith)
        refl,
    net_word-put32 h (put32 w0 ++ put32 w1) _ hd.app_id 2 v.app_fits refl,
    net_word-put32 h (put32 w0 ++ put32 w1 ++ put32 hd.app_id) _ hd.hop_by_hop_id 3 v.hop_fits refl,
    net_word-put32 h (put32 w0 ++ put32 w1 ++ put32 hd.app_id ++ put32 hd.hop_by_hop_id)
        (emit_all ws) hd.end_to_end_id 4 v.end_fits refl,
  )
    where
      w0 : ℕ
      w0 = hd.version * 2 ^ 24 + hd.msg_len

      w1 : ℕ
      w1 = hd.cmd_flags * 2 ^ 24 + hd.cmd_code

  fields_back :
      (word0 / 2 ^ 24 % 2 ^ 8 ≡ hd.version)
      × (word0 % 2 ^ 24 ≡ hd.msg_len)
      × (word1 / 2 ^ 24 % 2 ^ 8 ≡ hd.cmd_flags)
      × (word1 % 2 ^ 24 ≡ hd.cmd_code)
  unfolding word0 word1
  fields_back =
      let a = v.version_fits in
      let b = v.length_fits in let c = v.flags_fit in let d = v.code_fits in omega arith

  -- `msg_parse_header` reads back the header of a message.
  pub decode_header-emit : decode_header h (emit_msg hd ws) ≡ ok hd
  unfolding decode_header
  decode_header-emit =
      let (e0, e1, e2, e3, e4) = header_words in
      let (f0, f1, f2, f3) = fields_back in rw (e0, e1, e2, e3, e4) (rw (f0, f1, f2, f3) refl)

  pub parse_header-emit :
      (hd0 : Header) (d : Dict)
      → parse_header h (arrived hd0 parsed_none d (emit_msg hd ws))
        ≡ ok (arrived hd parsed_header d (emit_msg hd ws))
  unfolding parse_header
  parse_header-emit hd0 d = rw decode_header-emit refl

  drop-header : drop (4 * 5) (emit_msg hd ws) ≡ emit_all ws
  unfolding emit_msg
  drop-header = refl

  length-header : length (emit_msg hd ws) ≡ 20 + length (emit_all ws)
  unfolding emit_msg
  length-header = omega arith

-- `msg_parse_all` on the bytes of a message whose fields fit, whose length field is right, and
-- each of whose AVPs is laid out, and unknown or of a known type, with a number where its codec
-- wants one: with more rounds than AVPs, the header comes back, and the AVPs are those that the
-- dictionary has, in order, each with its code, flags, length, vendor and entry. Of its payload only an
-- Integer32 or Unsigned32 is kept, as the number that was sent; the value of any other codec is left
-- zeroed. The same comes of a message whose header was parsed before, as the receiver does.
pub parse_all-emit :
    (h : Host) (d : Dict) (hd0 hd : Header) (ws : List WireAvp) (fuel : ℕ)
    → IsHeader hd
    → AllReadable d ws
    → hd.msg_len ≡ length (emit_msg hd ws)
    → length ws < fuel
    → (out : Msg) × (parse_all h fuel (arrived hd0 parsed_none d (emit_msg hd ws)) ≡ ok out)
      × (parse_all h fuel (arrived hd parsed_header d (emit_msg hd ws)) ≡ ok out)
      × (out.header ≡ hd)
      × (out.parsed ≡ parsed_all)
      × (map view out.avps ≡ accepted_all d ws)
unfolding parse_all header_parsed
parse_all-emit h d hd0 hd ws fuel v rs total enough =
    let size = length-header h hd ws v in
    let (avps, ran, found) =
      loop h d ws fuel (emit_msg hd ws) hd.msg_len 5 [] rs enough (drop-header h hd ws v)
        (omega arith) v.length_fits in
    (
      record (arrived hd parsed_header d (emit_msg hd ws)) { avps = avps; parsed = parsed_all },
      rw (parse_header-emit h hd ws v hd0 d, ran) refl,
      rw ran refl,
      refl,
      refl,
      found,
    )
