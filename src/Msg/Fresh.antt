-- ===== src/Msg/Fresh.antt =====
-- `msg_new` where memory suffices.
use zdia.Prelude.{ℕ, ◌%◌, ◌^◌, ◌<◌, ◌≡◌, refl, Option, none, some, [], arith, lt→ltb, ok, length}
use zdia.Array
use zdia.Memory.{Block, Memory, IsLawful, Grants, zd_malloc}
use zdia.Dict.Types.{Dict}
use zdia.Msg.{Msg, Parsed, new, sizeof_msg, zero_header, diameter_version}

-- A message with a buffer of `n` bytes.
abbrev pub buffered : Parsed → Option Dict → ℕ → Block → Msg
buffered parsed dict n b = record {
  header = record zero_header { version = diameter_version; msg_len = n % 2 ^ 32 };
  parsed = parsed;
  avps = [];
  dict = dict;
  raw_data = some b.bytes;
}

-- A message without a buffer.
abbrev pub outgoing : Parsed → Option Dict → Msg
outgoing parsed dict = record {
  header = zero_header;
  parsed = parsed;
  avps = [];
  dict = dict;
  raw_data = none;
}

module _ (m : Memory) (limit : ℕ) (grants : Grants m limit) (room : sizeof_msg < limit)
    (parsed : Parsed) (dict : Option Dict) where
  pub new-buffered :
      (n : ℕ)
      → IsLawful m
      → 0 < n
      → n < limit
      → (b : Block) × (new m parsed dict n ≡ ok (buffered parsed dict n b)) × (length b.bytes ≡ n)
  unfolding new zd_malloc Array.new
  new-buffered n law some_bytes small =
      let (own, owned) = grants.alloc sizeof_msg room in
      let (arr, arr_own) = grants.alloc Array.sizeof_array (omega arith) in
      let (slots, given) = grants.alloc 32 (omega arith) in
      let (b, granted) = grants.alloc n small in
      (
        b,
        rw (owned, lt→ltb 0 n some_bytes, granted, arr_own, given) refl,
        (law.alloc_length n b granted).0,
      )

  pub new-outgoing : new m parsed dict 0 ≡ ok (outgoing parsed dict)
  unfolding new zd_malloc Array.new
  new-outgoing =
      let (own, owned) = grants.alloc sizeof_msg room in
      let (arr, arr_own) = grants.alloc Array.sizeof_array (omega arith) in
      let (slots, given) = grants.alloc 32 (omega arith) in rw (owned, arr_own, given) refl
