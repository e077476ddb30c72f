-- ===== src/Tests/Messages.antt =====
-- msg.c and avp.c at a message with a known AVP, one of a vendor, and one that the dictionary does
-- not have.
use zdia.Prelude.{
  ℕ, ◌+◌, ◌*◌, ◌<◌, ◌++◌, ◌≡◌, ◌⊎◌, refl, none, some, List, [], ◌∷◌, arith, false, ok, fault,
  out_of_fuel, length, map, drop, Ends,
}
use zdia.Bytes.{Bytes}
use zdia.Host.{net_word}
use zdia.Dict.{get_avp}
use zdia.Dict.Types.{Dict, DictAvp, AvpType, unsigned32, no_content, rl_must, rl_may}
use zdia.Avp
use zdia.Avp.{Avp, Value, value_pos}
use zdia.Avp.Wire.{WireAvp, IsWire, view, emit, emit_all}
use zdia.Avp.Decode.{headed, new_from-emit, decode-Stored, Stored, number, IsNumber}
use zdia.Msg.{
  Msg, Header, parsed_none, parsed_header, parsed_all, new_from, zero_header, parse_loop, parse_all,
}
use zdia.Msg.Wire.{emit_msg, IsHeader, accepted_all, AllReadable, Readable, not_in_dict, in_dict}
use zdia.Msg.Parse.{arrived, parse_all-emit}
use zdia.Msg.Frame
use zdia.Msg.Frame.{loop-zero_length, loop-past}
use zdia.Msg.Ending.{HasZeroLength, loop-Ends}
use zdia.Msg.Version.{new_from-refuses, IsLittle}
use zdia.Tests.Libc.{little_host}

abbrev u32_type : AvpType
u32_type = record {
  name = some "Unsigned32";
  parent_name = none;
  desc = none;
  parent = none;
  codec = unsigned32;
}

abbrev entry : ℕ → DictAvp
entry code = record {
  name = some "Auth-Application-Id";
  desc = none;
  code = code;
  vendor_id = 0;
  may_encrypt = 0;
  mandatory = rl_must;
  protected = rl_may;
  type_name = some "Unsigned32";
  type = some 0;
  content = no_content;
  app = none;
}

abbrev pub dict : Dict
dict = record { apps = []; vendors = []; cmds = []; avps = entry 258 ∷ []; types = u32_type ∷ [] }

abbrev auth_app : WireAvp
auth_app = record { code = 258; flags = 0x40; vendor_id = 0; payload = 0 ∷ 0 ∷ 1 ∷ 4 ∷ [] }

abbrev of_vendor : WireAvp
of_vendor = record { code = 258; flags = 0xc0; vendor_id = 61; payload = 7 ∷ [] }

abbrev pub avps : List WireAvp
avps = of_vendor ∷ auth_app ∷ []

abbrev pub header : Header
header = record {
  version = 1;
  msg_len = 48;
  cmd_flags = 0x80;
  cmd_code = 257;
  app_id = 0;
  hop_by_hop_id = 0x1234_5678;
  end_to_end_id = 0x9abc_def0;
}

pub header-IsHeader : IsHeader header
header-IsHeader = omega arith

auth_app-IsNumber : IsNumber auth_app.payload
auth_app-IsNumber = omega arith

of_vendor-IsWire : IsWire of_vendor
of_vendor-IsWire = omega arith

auth_app-IsWire : IsWire auth_app
auth_app-IsWire = omega arith

auth_app-Readable : Readable dict auth_app
unfolding get_avp
auth_app-Readable = in_dict (entry 258) 0 u32_type refl refl refl (λ _. auth_app-IsNumber)

pub avps-AllReadable : AllReadable dict avps
unfolding get_avp
avps-AllReadable = (of_vendor-IsWire, not_in_dict refl, (auth_app-IsWire, auth_app-Readable, tt))

pub emitted_length : 48 ≡ length (emit_msg header avps)
unfolding emit_msg emit_all emit
emitted_length = refl

parse_all-emit_example :
    (out : Msg) × (parse_all little_host 3
        (arrived zero_header parsed_none dict (emit_msg header avps))
      ≡ ok out)
    × (parse_all little_host 3 (arrived header parsed_header dict (emit_msg header avps)) ≡ ok out)
    × (out.header ≡ header)
    × (out.parsed ≡ parsed_all)
    × (map view out.avps ≡ accepted_all dict avps)
parse_all-emit_example =
    parse_all-emit little_host dict zero_header header avps 3 header-IsHeader avps-AllReadable
      emitted_length (omega arith)

new_from-emit_example :
    Avp.new_from little_host (some (emit of_vendor (emit auth_app [])))
    ≡ ok (headed of_vendor (emit of_vendor (emit auth_app [])))
new_from-emit_example = new_from-emit little_host of_vendor (emit auth_app []) of_vendor-IsWire

decode-Stored_example :
    (on : ℕ) × (value : Value) × (Avp.decode little_host dict
        (record (headed auth_app (emit auth_app [])) { dict_avp = some (entry 258) })
      ≡ ok (
        value_pos auth_app.flags + on,
        record (headed auth_app (emit auth_app [])) { dict_avp = some (entry 258); value = value },
      ))
    × Stored unsigned32 (number auth_app.payload) on value
decode-Stored_example =
    decode-Stored little_host auth_app [] auth_app-IsWire dict (entry 258) 0 u32_type refl refl
      (λ _. auth_app-IsNumber)

-- The header of a message, then an AVP whose length field is 0.
abbrev stuck : Bytes
stuck = emit_msg header [] ++ (0 ∷ 0 ∷ 0 ∷ 9 ∷ 0x40 ∷ 0 ∷ 0 ∷ 0 ∷ [])

abbrev stuck_avp : Avp
stuck_avp = record (Avp.blank (some (drop 20 stuck))) { code = 9; flags = 0x40 }

stuck-new_from : Avp.new_from little_host (some (drop (4 * 5) stuck)) ≡ ok stuck_avp
unfolding Avp.new_from emit_msg emit_all net_word
stuck-new_from = refl

stuck-unknown : get_avp dict 9 0 ≡ none
unfolding get_avp
stuck-unknown = refl

loop-zero_length_example :
    parse_loop little_host 1000 (some dict) (some stuck) 28 5 [] ≡ out_of_fuel
loop-zero_length_example =
    loop-zero_length little_host dict stuck 28 5 stuck_avp (omega arith) (omega arith)
      stuck-new_from refl (Frame.not_in_dict stuck-unknown) 1000 []

-- The same message without the last word.
abbrev cut : Bytes
cut = emit_msg header [] ++ (0 ∷ 0 ∷ 0 ∷ 9 ∷ [])

cut_short : length cut < 4 * 5 + 8
unfolding emit_msg emit_all
cut_short = omega arith

loop-past_example : parse_loop little_host 9 (some dict) (some cut) 28 5 [] ≡ fault
loop-past_example = loop-past little_host dict cut 28 5 8 [] (omega arith) (omega arith) cut_short

loop-Ends_example :
    Ends (parse_loop little_host 8 (some dict) (some stuck) 28 5 [])
    ⊎ HasZeroLength little_host (some dict) stuck 28 5
loop-Ends_example =
    loop-Ends little_host (some dict) stuck 7 28 5 [] (omega arith) (omega arith) (omega arith)

little_host-IsLittle : IsLittle little_host
little_host-IsLittle a b c d = refl

-- The message of length 48 of the round trip, refused.
new_from-refuses_example :
    new_from little_host parsed_none none false (some (1 ∷ 0 ∷ 0 ∷ 48 ∷ [])) ≡ ok none
new_from-refuses_example =
    new_from-refuses little_host little_host-IsLittle parsed_none none false 0 0 48 [] (omega arith)
      (omega arith) (omega arith) (λ e. absurd (omega arith))
