-- ===== src/Msg.antt =====
-- msg.c: a Diameter message, its header and the loop over its AVPs. `raw_data` is the message's
-- buffer. `msg->avps` is the list of the array's elements.
pub mod Wire
pub mod Fresh
pub mod Parse
pub mod Frame
pub mod Ending
pub mod Version
use zdia.Prelude.{
  ℕ, zero, suc, ◌*◌, ◌/◌, ◌%◌, ◌^◌, Option, none, some, List, [], ◌∷◌, ◌++◌, Run, ok, fault,
  out_of_fuel, ◌>>=◌, non_null, Bool, ◌==◌, ltb, if◌then◌else◌, drop, ◌-◌, add32, mul32,
}
use zdia.Bytes.{Bytes}
use zdia.Host.{Host, load_word, net_word}
use zdia.Array
use zdia.Memory.{Memory, zd_malloc}
use zdia.Dict.{get_avp}
use zdia.Dict.Types.{Dict, DictAvp}
use zdia.Avp
use zdia.Avp.{Avp}

pub data Parsed : Type 0 where
  parsed_none parsed_header parsed_all : Parsed

pub record Header : Type 0 where
  pub version : ℕ
  pub msg_len : ℕ
  pub cmd_flags : ℕ
  pub cmd_code : ℕ
  pub app_id : ℕ
  pub hop_by_hop_id : ℕ
  pub end_to_end_id : ℕ

pub record Msg : Type 0 where
  pub header : Header
  pub parsed : Parsed
  pub avps : List Avp
  pub dict : Option Dict
  pub raw_data : Option Bytes

abbrev pub diameter_version : ℕ
diameter_version = 1

abbrev pub msg_header_size : ℕ
msg_header_size = 20

abbrev pub diameter_align : ℕ
diameter_align = 4

abbrev pub zero_header : Header
zero_header = record {
  version = 0;
  msg_len = 0;
  cmd_flags = 0;
  cmd_code = 0;
  app_id = 0;
  hop_by_hop_id = 0;
  end_to_end_id = 0;
}

-- `sizeof(msg_t)` and `sizeof(avp_t *)`, where a pointer has eight bytes.
abbrev pub sizeof_msg : ℕ
sizeof_msg = 56

abbrev pub sizeof_pointer : ℕ
sizeof_pointer = 8

-- `if (n > 0) ...`: the buffer, with the header's version and length.
abbrev pub with_buffer : Memory → ℕ → Msg → Run Msg
with_buffer m n msg =
    if ltb 0 n
    then (do
      b ← zd_malloc m n
      ok (record msg {
        header = record zero_header { version = diameter_version; msg_len = n % 2 ^ 32 };
        raw_data = some b.bytes;
      }))
    else ok msg

-- `parsed` and `dict` are not set: they are what the fresh memory holds.
unfoldable pub new : Memory → Parsed → Option Dict → ℕ → Run Msg
unfolding Array.new
new m junk_parsed junk_dict n = do
  own ← zd_malloc m sizeof_msg
  msg ← with_buffer m n (record {
    header = zero_header;
    parsed = junk_parsed;
    avps = [];
    dict = junk_dict;
    raw_data = none;
  })
  avps ← Array.new m sizeof_pointer
  ok msg

-- The number of words that an AVP of `len` bytes takes.
abbrev pub avp_words : ℕ → ℕ
avp_words len = add32 len (diameter_align - 1) / diameter_align

module _ (h : Host) where
  -- On refusal `msg_free` reads `avps`, which is not set yet: a fault if the fresh memory does not
  -- happen to hold a null pointer there.
  pub new_from : Parsed → Option Dict → Bool → Option Bytes → Run (Option Msg)
  new_from junk_parsed junk_dict junk_avps none = ok none
  new_from junk_parsed junk_dict junk_avps (some buf) = do
    value ← net_word h buf 0
    first ← load_word h buf 0
    if first == diameter_version
        then ok (
            some (record {
              header = zero_header;
              parsed = junk_parsed;
              avps = [];
              dict = junk_dict;
              raw_data = some buf;
            }))
        else if junk_avps
        then fault
        else ok none

  unfoldable pub decode_header : Bytes → Run Header
  decode_header raw = do
    w0 ← net_word h raw 0
    w1 ← net_word h raw 1
    w2 ← net_word h raw 2
    w3 ← net_word h raw 3
    w4 ← net_word h raw 4
    ok (record {
      version = w0 / 2 ^ 24 % 2 ^ 8;
      msg_len = w0 % 2 ^ 24;
      cmd_flags = w1 / 2 ^ 24 % 2 ^ 8;
      cmd_code = w1 % 2 ^ 24;
      app_id = w2;
      hop_by_hop_id = w3;
      end_to_end_id = w4;
    })

  unfoldable pub parse_header : Msg → Run Msg
  unfolding decode_header
  parse_header msg = do
    raw ← non_null msg.raw_data
    header ← decode_header raw
    ok (record msg { header = header; parsed = parsed_header })

  -- What the loop does with an AVP once it is looked up: an unknown one is passed over. The array of
  -- `array_push_back` is a list here: that it may have to grow, which ends the process where memory
  -- is refused, is left out.
  unfoldable pub keep_avp : Dict → List Avp → Avp → Option DictAvp → Run (List Avp)
  keep_avp dict avps avp none = ok avps
  keep_avp dict avps avp (some da) = do
    (_, decoded) ← Avp.decode h dict (record avp { dict_avp = some da })
    ok (avps ++ (decoded ∷ []))

  -- The body of the loop of `msg_parse_all`: the position and the AVPs after it.
  unfoldable pub parse_avp : Option Dict → Option Bytes → ℕ → List Avp → Run (ℕ × List Avp)
  unfolding keep_avp
  parse_avp dict raw pos avps = do
    buf ← non_null raw
    avp ← Avp.new_from h (some (drop (4 * pos) buf))
    d ← non_null dict
    avps' ← keep_avp d avps avp (get_avp d avp.code avp.vendor_id)
    ok (add32 pos (avp_words avp.len), avps')

  -- The loop, on fuel: `out_of_fuel` if it has not ended after so many rounds.
  unfoldable pub parse_loop : ℕ → Option Dict → Option Bytes → ℕ → ℕ → List Avp → Run (List Avp)
  unfolding parse_avp
  parse_loop zero dict raw msg_len pos avps = out_of_fuel
  parse_loop (suc fuel) dict raw msg_len pos avps =
      if ltb (mul32 pos diameter_align) msg_len
      then parse_avp dict raw pos avps >>= (λ r. parse_loop fuel dict raw msg_len r.0 r.1)
      else ok avps

  -- The header, unless it is parsed already.
  unfoldable pub header_parsed : Msg → Parsed → Run Msg
  unfolding parse_header
  header_parsed msg parsed_none = parse_header msg
  header_parsed msg parsed_header = ok msg
  header_parsed msg parsed_all = ok msg

  unfoldable pub parse_all : ℕ → Msg → Run Msg
  unfolding header_parsed parse_loop
  parse_all fuel msg = do
    m ← header_parsed msg msg.parsed
    avps ←
        parse_loop fuel m.dict m.raw_data m.header.msg_len (msg_header_size / diameter_align) m.avps
    ok (record m { avps = avps; parsed = parsed_all })
