-- ===== src/Receiver/Thread.antt =====
-- The whole of `receiver_thread` on the messages of a peer that then closes the connection.
use zdia.Prelude.{
  ℕ, zero, suc, ◌<◌, ◌≡◌, refl, false, Option, List, [], ◌∷◌, ◌++◌, map, arith, ok, length,
  get_elem?-some, length-set, pos,
}
use zdia.Bytes.{Bytes}
use zdia.Memory.{Memory, IsLawful, Grants}
use zdia.Host.{Host}
use zdia.Dict.Types.{Dict}
use zdia.Conn.{Network, IsStream, Closes, conn_recv}
use zdia.Avp.Wire.{WireAvp}
use zdia.Msg.{sizeof_msg, Msg, Header, Parsed, diameter_version}
use zdia.Msg.Wire.{IsHeader, emit_msg}
use zdia.Server.{Server, event_msg, enqueue}
use zdia.Server.Dispatch.{IsValid, dealt, dispatch_step, dispatch_all, next_worker-lt}
use zdia.Receiver.{header_chunk, read_header, receive, receiver_thread}
use zdia.Receiver.Message.{incoming, receive-stream}

-- A message as a peer sends it.
pub record Sent : Type 0 where
  pub header : Header
  pub avps : List WireAvp

abbrev pub sent_bytes : Sent → Bytes
sent_bytes x = emit_msg x.header x.avps

unfoldable pub stream_of : List Sent → Bytes
stream_of [] = []
stream_of (x ∷ xs) = sent_bytes x ++ stream_of xs

-- A message of version 1 with the right length, which is below `bound`.
pub record IsSent (bound : ℕ) (x : Sent) : Type 0 where
  pub fits : IsHeader x.header
  pub version : x.header.version ≡ diameter_version
  pub total : x.header.msg_len ≡ length (sent_bytes x)
  pub bounded : x.header.msg_len < bound

abbrev pub AllSent : ℕ → List Sent → Type 0
AllSent bound [] = Unit
AllSent bound (x ∷ xs) = IsSent bound x × AllSent bound xs

-- The message as it reaches a worker.
abbrev pub delivered : Option Dict → Sent → Msg
delivered dict x = incoming x.header dict (sent_bytes x)

module _ {Net : Type 0} (n : Network Net) (pending : Net → Bytes) (stream : IsStream n pending)
    (closes : Closes n pending) (h : Host) (m : Memory) (law : IsLawful m) (junk : Parsed)
    (junk_dict : Option Dict) (bound : ℕ) (grants : Grants m bound)
    (room : sizeof_msg < bound) where
  receive-closed :
      (s : Server) (net : Net)
      → pending net ≡ []
      → (net' : Net) × (receive n h m junk junk_dict bound s net ≡ ok (false, s, net'))
  unfolding receive read_header conn_recv header_chunk
  receive-closed s net e =
      let (net', got_none, _) = closes.closed net 4 e in (net', rw got_none refl)

  -- On a stream that consists of messages of version 1 with right lengths and is then closed,
  -- `receiver_thread` hands every message on to `server_dispatch`, as it was sent and in order,
  -- and ends, however the network cuts the stream. Conditions: the lengths are below the bound up
  -- to which memory suffices, which is also the fuel for each message, `curr_worker` is a worker,
  -- and there are more rounds than messages.
  pub thread-stream :
      (xs : List Sent) (rounds : ℕ) (s : Server) (net : Net)
      → AllSent bound xs
      → IsValid s
      → pending net ≡ stream_of xs
      → length xs < rounds
      → (s' : Server) × (receiver_thread n h m junk junk_dict rounds bound s net ≡ ok s')
        × (dispatch_all s (map (delivered s.dict) xs) ≡ ok s')
  unfolding receiver_thread stream_of dispatch_all
  thread-stream xs zero s net all v front enough = absurd (omega arith)
  thread-stream [] (suc rounds) s net all v front enough =
      let (net', ended) = receive-closed s net front in (s, rw ended refl, refl)
  thread-stream (x ∷ xs) (suc rounds) s net (sent, others) v front enough =
      let (w, found) = get_elem?-some s.workers s.curr_worker v in
      let msg = delivered s.dict x in
      let step = dispatch_step s w msg found v in
      let (net', ran, after) =
        receive-stream n pending stream h m law junk junk_dict x.header x.avps sent.fits sent.total
          bound bound s (dealt s w msg) (pos 0) net (stream_of xs) grants room sent.version
          sent.bounded sent.bounded front step in
      let valid : IsValid (dealt s w msg) =
        rw (length-set s.workers s.curr_worker (enqueue w (event_msg msg)))
          (next_worker-lt (length s.workers) s.curr_worker v) in
      let (s', threaded, dispatched) =
        thread-stream xs rounds (dealt s w msg) net' others valid after (omega arith) in
      (s', rw ran threaded, rw step dispatched)
