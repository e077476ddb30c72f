-- ===== src/Receiver/Message.antt =====
-- One round of `receiver_thread` on a stream that starts with a message.
use zdia.Prelude.{
  ℕ, ◌+◌, ◌-◌, ◌*◌, ◌^◌, ◌≤◌, ◌<◌, ◌≡◌, refl, sym, ap, ◌∙◌, true, Option, some, List, [], ◌++◌,
  arith, le→leb, ok, length, take, drop, get_or, length-append, length-take, length-drop,
  take-append_length, ℤ, drop-append_length, take_append-drop_add, drop-drop,
}
use zdia.Bytes.{Bytes, memcpy}
use zdia.Memory.{Memory, IsLawful, Grants}
use zdia.Host.{Host, put32}
use zdia.Dict.Types.{Dict}
use zdia.Conn.{Network, IsStream}
use zdia.Avp.Wire.{WireAvp}
use zdia.Msg.Fresh.{new-buffered}
use zdia.Msg.{sizeof_msg, Msg, Header, Parsed, parsed_header, parse_header, diameter_version}
use zdia.Msg.Wire.{IsHeader, emit_msg}
use zdia.Msg.Parse.{decode_header-emit}
use zdia.Server.{Server, server_dispatch}
use zdia.Receiver.{header_length, read_body, read_msg, receive}
use zdia.Receiver.Stream.{read_header-stream, read_body-stream}

-- The message as the receiver hands it on: its header parsed, its AVPs not yet.
abbrev pub incoming : Header → Option Dict → Bytes → Msg
incoming hd dict buf = record {
  header = hd;
  parsed = parsed_header;
  avps = [];
  dict = dict;
  raw_data = some buf;
}

module _ {Net : Type 0} (n : Network Net) (pending : Net → Bytes) (stream : IsStream n pending)
    (h : Host) (m : Memory) (law : IsLawful m) (junk : Parsed) (junk_dict : Option Dict)
    (hd : Header) (ws : List WireAvp) (v : IsHeader hd)
    (total : hd.msg_len ≡ length (emit_msg hd ws)) where
  word : ℕ
  word = hd.version * 2 ^ 24 + hd.msg_len

  first : Bytes
  first = put32 word

  first_length : header_length first ≡ hd.msg_len
  unfolding first word
  first_length = let a = v.version_fits in let b = v.length_fits in omega arith

  first_version : hd.version ≡ diameter_version → get_or first 0 0 ≡ diameter_version
  unfolding first word
  first_version e = let b = v.length_fits in omega arith

  long : 20 ≤ hd.msg_len
  unfolding emit_msg
  long = omega (arith, total)

  k : ℕ
  k = hd.msg_len - 4

  k_rest : 4 + k ≡ hd.msg_len
  unfolding k
  k_rest = let l = long in omega arith

  take-first : (more : Bytes) → take 4 (emit_msg hd ws ++ more) ≡ first
  unfolding emit_msg first word
  take-first more = refl

  -- The four bytes, and those that follow them, are the message.
  whole_msg : (more : Bytes) → first ++ take k (drop 4 (emit_msg hd ws ++ more)) ≡ emit_msg hd ws
  whole_msg more =
      ap (λ t. t ++ take k (drop 4 (emit_msg hd ws ++ more))) (sym (take-first more))
      ∙ sym (take_append-drop_add 4 k (emit_msg hd ws ++ more))
      ∙ take-append_length (emit_msg hd ws) more (4 + k) (omega (arith, total, k_rest))

  length-first : length first ≡ 4
  unfolding first
  length-first = refl

  -- `memcpy` of the first four bytes into the buffer behind which the rest was read.
  put_first :
      (raw body : Bytes) → 4 ≤ length raw → memcpy (take 4 raw ++ body) 0 first ≡ ok (first ++ body)
  unfolding first
  put_first raw body l =
      rw
        (le→leb (0 + 4) (length (take 4 raw ++ body))
          (omega (arith, length-append (take 4 raw) body, length-take 4 raw)))
        (ap (λ bs. ok (first ++ bs))
          (drop-append_length (take 4 raw) body 4 (omega (arith, length-take 4 raw))))

  -- The message is read to its end and no further.
  read_msg-stream :
      (fuel limit : ℕ) (s : Server) (net : Net) (more : Bytes)
      → Grants m limit
      → sizeof_msg < limit
      → hd.msg_len < limit
      → hd.msg_len < fuel
      → pending net ≡ drop 4 (emit_msg hd ws ++ more)
      → (net' : Net) × (read_msg n h m junk junk_dict fuel s first net
          ≡ ok (incoming hd s.dict (emit_msg hd ws), net'))
        × (pending net' ≡ more)
  unfolding read_msg parse_header
  read_msg-stream fuel limit s net more grants room small enough front =
      let l = long in
      let (b, made, b_length) =
        new-buffered m limit grants room junk junk_dict hd.msg_len law (omega arith) small in
      let (net', ran, after) =
        read_body-stream n pending stream fuel k net b.bytes 4 (omega (arith, k_rest, b_length))
          (omega (arith, k_rest, v.length_fits)) (omega (arith, k_rest, left))
          (omega (arith, k_rest)) in
      (
        net',
        rw
            (
              first_length,
              made,
              ap (λ t. read_body n fuel net b.bytes 4 t) (sym k_rest) ∙ ran,
              put_first b.bytes (take k (pending net)) (omega (arith, b_length)),
              ap (λ t. first ++ take k t) front ∙ whole_msg more,
              decode_header-emit h hd ws v,
            )
            refl,
        after ∙ ap (drop k) front ∙ rest,
      )
    where
      left : length (pending net) ≡ k + length more
      left =
          ap length front
          ∙ omega (
            arith,
            length-drop 4 (emit_msg hd ws ++ more),
            length-append (emit_msg hd ws) more,
            k_rest,
            total,
          )

      rest : drop k (drop 4 (emit_msg hd ws ++ more)) ≡ more
      rest =
          drop-drop k 4 (emit_msg hd ws ++ more)
          ∙ drop-append_length (emit_msg hd ws) more (4 + k) (omega (arith, total, k_rest))

  -- A round on a stream that starts with a message of version 1: the message goes to
  -- `server_dispatch` as it was sent, the thread goes on, and what follows is left in the stream.
  pub receive-stream :
      (fuel limit : ℕ) (s s' : Server) (status : ℤ) (net : Net) (more : Bytes)
      → Grants m limit
      → sizeof_msg < limit
      → hd.version ≡ diameter_version
      → hd.msg_len < limit
      → hd.msg_len < fuel
      → pending net ≡ emit_msg hd ws ++ more
      → server_dispatch s (incoming hd s.dict (emit_msg hd ws)) ≡ ok (status, s')
      → (net' : Net) × (receive n h m junk junk_dict fuel s net ≡ ok (true, s', net'))
        × (pending net' ≡ more)
  unfolding receive
  receive-stream fuel limit s s' status net more grants room one small enough front dispatched =
      let (net1, ran1, after1) =
        read_header-stream n pending stream 4 3 net [] refl left (omega arith) in
      let (net2, ran2, after2) =
        read_msg-stream fuel limit s net1 more grants room small enough
          (after1 ∙ ap (drop 4) front) in
      let head : take 4 (pending net) ≡ first = ap (take 4) front ∙ take-first more in
      (net2, rw (ran1, head, first_version one, ran2, dispatched) refl, after2)
    where
      left : 4 ≤ length (pending net)
      left =
          let l = long in omega (arith, total, ap length front, length-append (emit_msg hd ws) more)
