-- ===== src/Worker/Round.antt =====
-- A worker takes a message as the receiver hands it on, parses it and prints its AVPs.
use zdia.Prelude.{
  ℕ, ◌<◌, ◌≡◌, refl, ap, ◌∙◌, Option, none, some, List, [], ◌∷◌, ◌++◌, map, Run, ok, ◌>>=◌,
  non_null, length,
}
use zdia.Host.{Host}
use zdia.Dict.Types.{Dict, DictAvp, Codec}
use zdia.Dict.{get_avp}
use zdia.Avp.{Avp}
use zdia.Avp.Wire.{WireAvp, View, view, wire_vendor}
use zdia.Avp.Decode.{wire_value}
use zdia.Msg.{Msg, Header, zero_header}
use zdia.Msg.Wire.{
  emit_msg, IsHeader, AllReadable, Readable, not_in_dict, in_dict, accepted, accepted_all, codec_of,
  codec_in, codec_at, wire_view,
}
use zdia.Msg.Parse.{parse_all-emit}
use zdia.Queue.Fifo.{fifo_pop}
use zdia.Receiver.Message.{incoming}
use zdia.Server.{Worker, Event, event_msg}
use zdia.Worker.{Output, avp_line, avp_lines, by_command, worker_msg_proc, process, worker_round}

-- The line for an AVP with its entry in the dictionary.
abbrev pub line : WireAvp → DictAvp → Codec → Output
line w da c = avp_line da.code da.name (wire_value c w.payload)

abbrev pub expected_line : Dict → WireAvp → List Output
expected_line d w = elim (get_avp d w.code (wire_vendor w)) [
  | none ↦ []
  | some da ↦ elim (codec_of d da) [ none ↦ [] | some c ↦ line w da c ∷ [] ]
]

-- A line for each AVP that the dictionary has, in order.
unfoldable pub expected_lines : Dict → List WireAvp → List Output
expected_lines d [] = []
expected_lines d (w ∷ ws) = expected_line d w ++ expected_lines d ws

view_lines : List View → Run (List Output)
view_lines [] = ok []
view_lines (v ∷ vs) = do
  da ← non_null v.dict_avp
  lines ← view_lines vs
  ok (avp_line da.code da.name v.value ∷ lines)

avp_lines-view : (avps : List Avp) → avp_lines avps ≡ view_lines (map view avps)
unfolding avp_lines view_lines
avp_lines-view [] = refl
avp_lines-view (a ∷ avps) = rw (avp_lines-view avps) refl

view_lines-accepted :
    (d : Dict) (w : WireAvp) (vs : List View) (out : List Output)
    → Readable d w
    → view_lines vs ≡ ok out
    → view_lines (accepted d w ++ vs) ≡ ok (expected_line d w ++ out)
unfolding view_lines
view_lines-accepted d w vs out (not_in_dict e) ran = rw (seen, printed) ran
  where
    seen : accepted d w ≡ []
    seen = rw (e, accepted) refl

    printed : expected_line d w ≡ []
    printed = rw (e, expected_line) refl
view_lines-accepted d w vs out (in_dict da slot t e hs ht n) ran = rw (seen, printed) (rw ran refl)
  where
    codec : codec_of d da ≡ some t.codec
    codec = ap (codec_in d) hs ∙ ap codec_at ht

    seen : accepted d w ≡ wire_view w da t.codec ∷ []
    seen = rw (e, accepted) (ap of_codec codec)
      where
        of_codec : Option Codec → List View
        of_codec o = elim o [ none ↦ [] | some c ↦ wire_view w da c ∷ [] ]

    printed : expected_line d w ≡ line w da t.codec ∷ []
    printed = rw (e, expected_line) (ap of_codec codec)
      where
        of_codec : Option Codec → List Output
        of_codec o = elim o [ none ↦ [] | some c ↦ line w da c ∷ [] ]

view_lines-accepted_all :
    (d : Dict) (ws : List WireAvp)
    → AllReadable d ws
    → view_lines (accepted_all d ws) ≡ ok (expected_lines d ws)
unfolding view_lines accepted_all expected_lines
view_lines-accepted_all d [] rs = refl
view_lines-accepted_all d (w ∷ ws) (v, r, rs) =
    view_lines-accepted d w (accepted_all d ws) (expected_lines d ws) r
      (view_lines-accepted_all d ws rs)

-- A worker at the head of whose queue stands a message as the receiver hands it on handles it by
-- its command, prints a line for each of its AVPs that the dictionary has, with the number that was
-- sent for an Integer32 or Unsigned32 and with a zeroed value for any other codec, and takes it off
-- the queue. The message is as for `parse_all-emit`.
pub worker_round-incoming :
    (h : Host) (d : Dict) (hd : Header) (ws : List WireAvp) (fuel : ℕ) (w : Worker)
    (others : List Event)
    → IsHeader hd
    → AllReadable d ws
    → hd.msg_len ≡ length (emit_msg hd ws)
    → length ws < fuel
    → w.queue ≡ event_msg (incoming hd (some d) (emit_msg hd ws)) ∷ others
    → (parsed : Msg) × (worker_round h fuel w
        ≡ ok (by_command parsed ∷ expected_lines d ws, record w { queue = others }))
      × (parsed.header ≡ hd)
      × (map view parsed.avps ≡ accepted_all d ws)
unfolding worker_round process worker_msg_proc fifo_pop
worker_round-incoming h d hd ws fuel w others v rs total enough head =
    let (out, _, ran, same, _, found) =
      parse_all-emit h d zero_header hd ws fuel v rs total enough in
    (
      out,
      rw
          (
            head,
            ran,
            avp_lines-view out.avps ∙ ap view_lines found ∙ view_lines-accepted_all d ws rs,
          )
          refl,
      same,
      found,
    )
