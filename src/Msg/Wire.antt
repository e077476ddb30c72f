-- ===== src/Msg/Wire.antt =====
-- Messages as RFC 6733 lays them out, and what a reader that holds a dictionary should find.
use zdia.Prelude.{
  ℕ, ◌+◌, ◌*◌, ◌^◌, ◌<◌, ◌≡◌, Option, none, some, List, [], ◌∷◌, ◌++◌, true, get_elem?,
}
use zdia.Bytes.{Bytes}
use zdia.Host.{put32}
use zdia.Dict.Types.{Dict, DictAvp, AvpType, Codec}
use zdia.Dict.{get_avp}
use zdia.Avp.Wire.{WireAvp, IsWire, View, avp_length, wire_vendor, emit_all}
use zdia.Avp.Decode.{reads_word, wire_value, IsNumber}
use zdia.Msg.{Header}

-- The header has 20 bytes; `msg_len` counts them and the AVPs.
unfoldable pub emit_msg : Header → List WireAvp → Bytes
emit_msg hd ws =
    put32 (hd.version * 2 ^ 24 + hd.msg_len)
    ++ (put32 (hd.cmd_flags * 2 ^ 24 + hd.cmd_code)
        ++ (put32 hd.app_id ++ (put32 hd.hop_by_hop_id ++ (put32 hd.end_to_end_id ++ emit_all ws))))

pub record IsHeader (hd : Header) : Type 0 where
  pub version_fits : hd.version < 256
  pub length_fits : hd.msg_len < 2 ^ 24
  pub flags_fit : hd.cmd_flags < 256
  pub code_fits : hd.cmd_code < 2 ^ 24
  pub app_fits : hd.app_id < 2 ^ 32
  pub hop_fits : hd.hop_by_hop_id < 2 ^ 32
  pub end_fits : hd.end_to_end_id < 2 ^ 32

abbrev pub codec_at : Option AvpType → Option Codec
codec_at none = none
codec_at (some t) = some t.codec

abbrev pub codec_in : Dict → Option ℕ → Option Codec
codec_in d none = none
codec_in d (some slot) = codec_at (get_elem? d.types slot)

-- The codec that the dictionary gives an AVP.
abbrev pub codec_of : Dict → DictAvp → Option Codec
codec_of d da = codec_in d da.type

abbrev pub wire_view : WireAvp → DictAvp → Codec → View
wire_view w da c = record {
  code = w.code;
  flags = w.flags;
  len = avp_length w;
  vendor_id = wire_vendor w;
  value = wire_value c w.payload;
  dict_avp = some da;
}

-- An AVP that the dictionary has is kept, with its value; one that it does not have is dropped.
abbrev pub accepted : Dict → WireAvp → List View
accepted d w = elim (get_avp d w.code (wire_vendor w)) [
  | none ↦ []
  | some da ↦ elim (codec_of d da) [ none ↦ [] | some c ↦ wire_view w da c ∷ [] ]
]

unfoldable pub accepted_all : Dict → List WireAvp → List View
accepted_all d [] = []
accepted_all d (w ∷ ws) = accepted d w ++ accepted_all d ws

-- The AVP is unknown, or its dictionary entry has a type, and there is a number where its codec
-- wants one.
pub data Readable (d : Dict) (w : WireAvp) : Type 0 where
  not_in_dict : get_avp d w.code (wire_vendor w) ≡ none → Readable d w
  in_dict :
      (da : DictAvp) (slot : ℕ) (t : AvpType)
      → get_avp d w.code (wire_vendor w) ≡ some da
      → da.type ≡ some slot
      → get_elem? d.types slot ≡ some t
      → (reads_word t.codec ≡ true → IsNumber w.payload)
      → Readable d w

-- Every AVP is laid out and readable.
abbrev pub AllReadable : Dict → List WireAvp → Type 0
AllReadable d [] = Unit
AllReadable d (w ∷ ws) = IsWire w × Readable d w × AllReadable d ws
