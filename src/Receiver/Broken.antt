-- ===== src/Receiver/Broken.antt =====
-- What `receiver_thread` does where the connection breaks within a message, or the length in its
-- first bytes is too small.
use zdia.Prelude.{
  ℕ, zero, suc, ◌+◌, ◌-◌, ◌^◌, ◌≤◌, ◌<◌, ◌≡◌, refl, ap, Option, [], arith, lt→ltb, ge→ltb, le→leb,
  gt→leb, Run, ok, fault, out_of_fuel, length, add32, dec_lt,
}
use zdia.Bytes.{Bytes, splice}
use zdia.Bytes.Splices.{length-splice}
use zdia.Memory.{Memory, IsLawful, Grants}
use zdia.Host.{Host}
use zdia.Dict.Types.{Dict}
use zdia.Conn.{Network, failed, got, conn_recv}
use zdia.Msg.Fresh.{new-buffered, new-outgoing}
use zdia.Msg.{sizeof_msg, Parsed}
use zdia.Server.{Server}
use zdia.Receiver.{header_length, store_chunk, read_body, read_msg}

module _ {Net : Type 0} (n : Network Net) (net : Net) where
  -- Once the peer has closed the connection within a message, so that `recv` returns no bytes,
  -- the loop over the rest of the message never ends: however many rounds it has, they are used
  -- up.
  pub read_body-closed :
      ((len : ℕ) → n.recv net len ≡ (got [], net))
      → (fuel : ℕ) (raw : Bytes) (received msg_len : ℕ) → received < msg_len
      → msg_len ≤ length raw
      → msg_len < 2 ^ 24
      → read_body n fuel net raw received msg_len ≡ out_of_fuel
  unfolding read_body conn_recv store_chunk
  read_body-closed closed zero raw received msg_len inside whole small = refl
  read_body-closed closed (suc fuel) raw received msg_len inside whole small =
      rw (lt→ltb received msg_len inside, closed (msg_len - received), stored)
        (read_body-closed closed fuel (splice raw received []) received msg_len inside
          (omega (arith, length-splice raw [] received (omega arith))) small)
    where
      stored : store_chunk (got []) raw received ≡ ok (splice raw received [], received)
      stored = rw (le→leb (received + 0) (length raw) (omega arith)) (
          ap {B = Run (Bytes × ℕ)} (λ t. ok (splice raw received [], t)) {x = add32 received 0}
            {y = received} (omega arith))

  -- Where `recv` fails at every call, with more than `received` + 1 rounds the loop over the rest
  -- of a message ends as if it were read: the buffer is as it was.
  pub read_body-failed :
      ((len : ℕ) → n.recv net len ≡ (failed, net))
      → (fuel : ℕ) (raw : Bytes) (received msg_len : ℕ) → received < msg_len
      → msg_len < 2 ^ 24
      → received + 1 < fuel
      → read_body n fuel net raw received msg_len ≡ ok (raw, net)
  unfolding read_body conn_recv store_chunk
  read_body-failed broken zero raw received msg_len inside small enough = absurd (omega arith)
  read_body-failed broken (suc zero) raw received msg_len inside small enough = absurd (omega arith)
  read_body-failed broken (suc (suc fuel)) raw zero msg_len inside small enough =
      rw
        (
          lt→ltb 0 msg_len inside,
          broken (msg_len - 0),
          ge→ltb (add32 0 (2 ^ 32 - 1)) msg_len (omega arith),
        )
        refl
  read_body-failed broken (suc (suc fuel)) raw (suc received) msg_len inside small enough =
      let down : add32 (suc received) (2 ^ 32 - 1) ≡ received = omega arith in
      rw (lt→ltb (suc received) msg_len inside, broken (msg_len - suc received), down)
        (read_body-failed broken (suc fuel) raw received msg_len (omega arith) small (omega arith))

  -- With memory enough, a length below 4 in the first four bytes of a message makes the receiver
  -- fault: it writes those bytes past the end of the buffer, or through a null pointer.
  pub read_msg-short :
      (h : Host) (m : Memory) (junk : Parsed) (junk_dict : Option Dict) (limit fuel : ℕ)
      → IsLawful m
      → Grants m limit
      → sizeof_msg < limit
      → (s : Server) (header : Bytes) → length header ≡ 4
      → header_length header < 4
      → read_msg n h m junk junk_dict (suc fuel) s header net ≡ fault
  unfolding read_msg read_body
  read_msg-short h m junk junk_dict limit fuel law grants enough s header four short =
      elim (dec_lt 0 (header_length header)) [
        | yes some_bytes ↦
            let (b, made, b_length) =
              new-buffered m limit grants enough junk junk_dict (header_length header) law
                some_bytes (omega arith) in
            rw
              (
                made,
                ge→ltb 4 (header_length header) (omega arith),
                gt→leb (0 + length header) (length b.bytes) (omega arith),
              )
              refl
        | no no_bytes ↦
            let empty : header_length header ≡ 0 = omega arith in
            rw (empty, new-outgoing m limit grants enough junk junk_dict) refl
      ]
