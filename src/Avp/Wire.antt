-- ===== src/Avp/Wire.antt =====
-- AVPs as RFC 6733 lays them out: code, flags and length, vendor id if the V bit is set, the data
-- and padding to whole words. And what a reader should make of them.
use zdia.Prelude.{
  ℕ, zero, suc, ◌+◌, ◌-◌, ◌*◌, ◌/◌, ◌%◌, ◌^◌, ◌<◌, ◌≤◌, ◌≡◌, refl, ap, ◌∙◌, Option, List, [], ◌∷◌,
  ◌++◌, append_assoc, arith, Bool, true, false, ◌==◌, leb, if◌then◌else◌, length, drop, replicate,
  length-append, length-replicate, drop-append_length, ==_iff, Bool-cases, inl, inr,
}
use zdia.Bytes.{Bytes}
use zdia.Host.{put32}
use zdia.Dict.Types.{DictAvp}
use zdia.Avp.{Avp, Value, avp_flag_vendor, is_flag_set}

pub record WireAvp : Type 0 where
  pub code : ℕ
  pub flags : ℕ
  pub vendor_id : ℕ
  pub payload : Bytes

-- The V bit is the top bit of the flags.
abbrev pub has_vendor : WireAvp → Bool
has_vendor w = leb 128 w.flags

abbrev pub header_length : WireAvp → ℕ
header_length w = if has_vendor w then 12 else 8

-- The AVP Length field counts the header and the data, not the padding.
abbrev pub avp_length : WireAvp → ℕ
avp_length w = header_length w + length w.payload

abbrev pub padding : ℕ → Bytes
padding n = replicate ((4 - n % 4) % 4) 0

abbrev pub vendor_bytes : WireAvp → Bytes
vendor_bytes w = if has_vendor w then put32 w.vendor_id else []

-- The bytes of an AVP, in front of what follows it.
unfoldable pub emit : WireAvp → Bytes → Bytes
emit w rest =
    put32 w.code
    ++ (put32 (w.flags * 2 ^ 24 + avp_length w)
        ++ (vendor_bytes w ++ (w.payload ++ (padding (avp_length w) ++ rest))))

unfoldable pub emit_all : List WireAvp → Bytes
unfolding emit
emit_all [] = []
emit_all (w ∷ ws) = emit w (emit_all ws)

-- Every field fits its place.
pub record IsWire (w : WireAvp) : Type 0 where
  pub code_fits : w.code < 2 ^ 32
  pub flags_fit : w.flags < 256
  pub vendor_fits : w.vendor_id < 2 ^ 32
  pub length_fits : avp_length w < 2 ^ 24

-- The vendor id of an AVP without one is 0.
abbrev pub wire_vendor : WireAvp → ℕ
wire_vendor w = if has_vendor w then w.vendor_id else 0

-- What a parsed AVP says, leaving out where it lies in memory.
pub record View : Type 0 where
  pub code : ℕ
  pub flags : ℕ
  pub len : ℕ
  pub vendor_id : ℕ
  pub value : Value
  pub dict_avp : Option DictAvp

abbrev pub view : Avp → View
view a = record {
  code = a.code;
  flags = a.flags;
  len = a.len;
  vendor_id = a.vendor_id;
  value = a.value;
  dict_avp = a.dict_avp;
}

words_count : (n : ℕ) → n + (4 - n % 4) % 4 ≡ 4 * ((n + 3) / 4)
words_count n = omega arith

emit-append : (w : WireAvp) (rest : Bytes) → emit w rest ≡ emit w [] ++ rest
unfolding emit
emit-append w rest = simp (append_assoc)

pub vendor_length : (w : WireAvp) → length (vendor_bytes w) + 8 ≡ header_length w
vendor_length w = ground arith

-- An AVP takes whole words.
pub length-emit :
    (w : WireAvp) (rest : Bytes) → length (emit w rest) ≡ 4 * ((avp_length w + 3) / 4) + length rest
unfolding emit
length-emit w rest = omega (
  arith,
  vendor_length w,
  length-append (vendor_bytes w) (w.payload ++ (padding (avp_length w) ++ rest)),
  length-append w.payload (padding (avp_length w) ++ rest),
  length-append (padding (avp_length w)) rest,
  length-replicate {A = ℕ} ((4 - avp_length w % 4) % 4) 0,
  words_count (avp_length w),
)

pub drop-emit :
    (w : WireAvp) (rest : Bytes) → drop (4 * ((avp_length w + 3) / 4)) (emit w rest) ≡ rest
drop-emit w rest =
    ap (drop (4 * ((avp_length w + 3) / 4))) (emit-append w rest)
    ∙ drop-append_length (emit w []) rest _ (omega (arith, length-emit w []))

-- Every byte value has the V bit exactly if it is 128 or more.
vendor_below : ℕ → Bool
vendor_below zero = true
vendor_below (suc n) =
    let rest = vendor_below n in
    if leb 128 n
    then (if is_flag_set n avp_flag_vendor then rest else false)
    else (if is_flag_set n avp_flag_vendor then false else rest)

vendor_below_sound :
    (n i : ℕ) → vendor_below n ≡ true → i < n → is_flag_set i avp_flag_vendor ≡ leb 128 i
unfolding vendor_below
vendor_below_sound zero i e h = absurd (omega arith)
vendor_below_sound (suc n) i e h = elim (Bool-cases (i == n)) [
  | inl same ↦ rw ((==_iff i n).0 same) (top n e)
  | inr less ↦ vendor_below_sound n i (below n e) (ground arith)
]
  where
    top : (k : ℕ) → vendor_below (suc k) ≡ true → is_flag_set k avp_flag_vendor ≡ leb 128 k
    top k t = ground arith

    below : (k : ℕ) → vendor_below (suc k) ≡ true → vendor_below k ≡ true
    below k t = ground arith

pub is_flag_set-vendor : (n : ℕ) → n < 256 → is_flag_set n avp_flag_vendor ≡ leb 128 n
unfolding vendor_below
is_flag_set-vendor n h = vendor_below_sound 256 n refl h

pub avp_length_min : (w : WireAvp) → 8 ≤ avp_length w
avp_length_min w = ground arith
