-- ===== src/Avp.antt =====
-- avp.c: an AVP in a message. `raw_data` is the memory from the pointer on. `avps`, which no code
-- sets, is left out.
pub mod Wire
pub mod Decode
pub mod Total
use Prim.Native.Nat.{bit_and}
use zdia.Prelude.{
  ℕ, ◌+◌, ◌/◌, ◌%◌, ◌^◌, Option, none, some, Run, ok, ◌>>=◌, non_null, Bool, ◌==◌, if◌then◌else◌,
  get_elem?,
}
use zdia.Bytes.{Bytes}
use zdia.Host.{Host, net_word}
use zdia.Dict.Types.{
  Dict, DictAvp, Codec, grouped, octet_string, integer32, integer64, unsigned32, unsigned64,
  float32, float64, unknown,
}

-- The union `avp_value_t`: as `memset` leaves it, or with the member that was written last. An
-- `int32_t` is its bit pattern.
pub data Value : Type 0 where
  zeroed : Value
  i32 : ℕ → Value
  u32 : ℕ → Value

pub record Avp : Type 0 where
  pub code : ℕ
  pub flags : ℕ
  pub len : ℕ
  pub vendor_id : ℕ
  pub value : Value
  pub dict_avp : Option DictAvp
  pub raw_data : Option Bytes

abbrev pub avp_flag_vendor : ℕ
avp_flag_vendor = 0x80

abbrev pub avp_header_size_no_vendor : ℕ
avp_header_size_no_vendor = 2

abbrev pub avp_header_size_with_vendor : ℕ
avp_header_size_with_vendor = 3

-- AVP_IS_FLAG_SET
abbrev pub is_flag_set : ℕ → ℕ → Bool
is_flag_set flags flag = bit_and flags flag == flag

-- `memset` to zero, with the buffer.
abbrev pub blank : Option Bytes → Avp
blank buf = record {
  code = 0;
  flags = 0;
  len = 0;
  vendor_id = 0;
  value = zeroed;
  dict_avp = none;
  raw_data = buf;
}

pub new : Avp
new = blank none

-- The position at which the value starts, in words.
abbrev pub value_pos : ℕ → ℕ
value_pos flags =
    if is_flag_set flags avp_flag_vendor
    then avp_header_size_with_vendor
    else avp_header_size_no_vendor

module _ (h : Host) where
  -- The header, if there is a buffer.
  unfoldable pub decode_header : Avp → Bytes → Run Avp
  decode_header avp buf = do
    code ← net_word h buf 0
    value ← net_word h buf 1
    let flags = value / 2 ^ 24 % 2 ^ 8
    let avp' = record avp { code = code; flags = flags; len = value % 2 ^ 24 }
    if is_flag_set flags avp_flag_vendor
        then (do v ← net_word h buf 2; ok (record avp' { vendor_id = v }))
        else ok avp'

  unfoldable pub new_from : Option Bytes → Run Avp
  unfolding decode_header
  new_from none = ok (blank none)
  new_from (some buf) = decode_header (blank (some buf)) buf

  -- The `switch` of `avp_decode`: the position behind the value, and the AVP.
  unfoldable pub decode_value : Codec → Avp → ℕ → Run (ℕ × Avp)
  decode_value grouped avp pos = ok (pos, avp)
  decode_value octet_string avp pos = ok (pos, avp)
  decode_value integer32 avp pos = do
    raw ← non_null avp.raw_data
    w ← net_word h raw pos
    ok (pos + 1, record avp { value = i32 w })
  decode_value integer64 avp pos = ok (pos + 2, avp)
  decode_value unsigned32 avp pos = do
    raw ← non_null avp.raw_data
    w ← net_word h raw pos
    ok (pos + 1, record avp { value = u32 w })
  decode_value unsigned64 avp pos = ok (pos + 2, avp)
  decode_value float32 avp pos = ok (pos + 1, avp)
  decode_value float64 avp pos = ok (pos + 2, avp)
  decode_value unknown avp pos = ok (pos, avp)

  -- `avp->dict_avp->type->codec` goes through two pointers that may be null.
  unfoldable pub decode : Dict → Avp → Run (ℕ × Avp)
  unfolding decode_value
  decode dict avp = do
    dict_avp ← non_null avp.dict_avp
    slot ← non_null dict_avp.type
    type ← non_null (get_elem? dict.types slot)
    decode_value type.codec avp (value_pos avp.flags)
