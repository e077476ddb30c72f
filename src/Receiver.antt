-- ===== src/Receiver.antt =====
-- receiver.c: the thread that reads the messages of a connection. One round reads the first four
-- bytes of a message, then the rest, as many bytes at a time as the network gives, parses the header
-- and hands the message to a worker.
pub mod Stream
pub mod Message
pub mod Thread
pub mod Broken
use zdia.Prelude.{
  ℕ, zero, suc, ◌+◌, ◌-◌, ◌*◌, ◌^◌, Bool, true, false, Option, none, some, List, [], ◌∷◌, ◌++◌, Run,
  ok, out_of_fuel, ◌>>=◌, non_null, ltb, ◌==◌, if◌then◌else◌, length, get_or, add32, ℤ,
}
use zdia.Bytes.{Bytes, memcpy}
use zdia.Memory.{Memory}
use zdia.Host.{Host}
use zdia.Dict.Types.{Dict}
use zdia.Conn.{Network, Received, failed, got, conn_recv}
use zdia.Msg
use zdia.Msg.{Msg, Parsed, diameter_version, parse_header}
use zdia.Server.{Server, server_dispatch}

-- The length in the first four bytes.
abbrev pub header_length : Bytes → ℕ
header_length header = get_or header 1 0 * 2 ^ 16 + get_or header 2 0 * 2 ^ 8 + get_or header 3 0

-- `received += ret` and the bytes of the chunk in their place, for a chunk at `received`.
unfoldable pub store_chunk : Received → Bytes → ℕ → Run (Bytes × ℕ)
store_chunk failed raw received = ok (raw, add32 received (2 ^ 32 - 1))
store_chunk (got b) raw received = do
  raw' ← memcpy raw received b
  ok (raw', add32 received (length b))

-- The header with the chunk behind it; none if the connection is broken.
unfoldable pub header_chunk : Received → Bytes → Option Bytes
header_chunk failed header = none
header_chunk (got b) header = if length b == 0 then none else some (header ++ b)

abbrev pub or_broken :
    {Net : Type 0}
    → Net
    → (Bytes → Run (Option Bytes × Net))
    → Option Bytes
    → Run (Option Bytes × Net)
or_broken net next none = ok (none, net)
or_broken net next (some header) = next header

module _ {Net : Type 0} (n : Network Net) where
  -- The loop over the first four bytes; no bytes if the connection breaks. The fuel is a round for
  -- each byte: four are enough.
  unfoldable pub read_header : ℕ → Net → Bytes → Run (Option Bytes × Net)
  unfolding conn_recv header_chunk
  read_header zero net header = out_of_fuel
  read_header (suc fuel) net header =
      let (ret, net') = conn_recv n net (4 - length header) in
      or_broken net'
        (λ header'.
          if ltb (length header') 4 then read_header fuel net' header' else ok (some header', net'))
        (header_chunk ret header)

  -- The loop over the rest of the message; what `conn_recv` returns is not looked at.
  unfoldable pub read_body : ℕ → Net → Bytes → ℕ → ℕ → Run (Bytes × Net)
  unfolding conn_recv store_chunk
  read_body zero net raw received msg_len = out_of_fuel
  read_body (suc fuel) net raw received msg_len =
      let (ret, net') = conn_recv n net (msg_len - received) in
      if ltb received msg_len
      then store_chunk ret raw received >>= (λ r. read_body fuel net' r.0 r.1 msg_len)
      else ok (raw, net)

  module _ (h : Host) (m : Memory) (junk : Parsed) (junk_dict : Option Dict) where
    -- The message for which the first four bytes have come: allocated, read to its end, with its
    -- header parsed.
    unfoldable pub read_msg : ℕ → Server → Bytes → Net → Run (Msg × Net)
    unfolding read_body
    read_msg fuel server header net = do
      let msg_len = header_length header
      msg ← Msg.new m junk junk_dict msg_len
      raw ← non_null msg.raw_data
      (body, net') ← read_body fuel net raw 4 msg_len
      whole ← memcpy body 0 header
      parsed ← parse_header h (record msg { dict = server.dict; raw_data = some whole })
      ok (parsed, net')

    -- One round of `receiver_thread`: whether the thread goes on, with the server and the network.
    unfoldable pub receive : ℕ → Server → Net → Run (Bool × Server × Net)
    unfolding read_header read_msg
    receive fuel server net = do
      (first, net') ← read_header 4 net []
      elim first [
        | none ↦ ok (false, server, net')
        | some header ↦
            if get_or header 0 0 == diameter_version
            then (do
              (msg, net'') ← read_msg fuel server header net'
              (_, server') ← server_dispatch server msg
              ok (true, server', net''))
            else ok (false, server, net')
      ]

    -- `receiver_thread`, for so many rounds: the server when the thread ends.
    unfoldable pub receiver_thread : ℕ → ℕ → Server → Net → Run Server
    unfolding receive
    receiver_thread zero fuel server net = out_of_fuel
    receiver_thread (suc rounds) fuel server net =
        receive fuel server net >>= λ r. if r.0 then receiver_thread rounds fuel r.1 r.2 else ok r.1
