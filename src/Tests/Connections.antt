-- ===== src/Tests/Connections.antt =====
-- receiver.c, server.c and worker.c on a connection that gives three bytes at a time.
use zdia.Prelude.{
  ℕ, zero, suc, ◌+◌, ◌≤◌, ◌<◌, ◌≡◌, ◌≢◌, refl, sym, ap, ◌∙◌, Option, none, some, List, [], ◌∷◌, map,
  arith, ok, fault, out_of_fuel, length, length-take, take, drop, take-append-drop, drop-nil,
  take-nil, replicate, pos,
}
use Prim.Native.Nat.{min}
use zdia.Bytes.{Bytes}
use zdia.Conn.{Network, IsStream, Closes, got, failed}
use zdia.Avp.Wire.{view}
use zdia.Msg.{Msg, parsed_none}
use zdia.Msg.Wire.{accepted_all}
use zdia.Server.{Server, Worker, event_msg, event_ind, ind_timeout, queue_bound, server_dispatch}
use zdia.Server.Dispatch.{IsValid, HasRoom, Gets, dispatch_all, dispatch-lost, round_robin}
use zdia.Receiver.{read_body, read_msg, receiver_thread}
use zdia.Receiver.Thread.{Sent, AllSent, IsSent, delivered, stream_of, thread-stream}
use zdia.Receiver.Broken.{read_body-closed, read_body-failed, read_msg-short}
use zdia.Worker.{worker_round, by_command}
use zdia.Worker.Round.{expected_lines, worker_round-incoming}
use zdia.Tests.Libc.{libc, libc-IsLawful, libc-Grants, limit, little_host}
use zdia.Tests.Messages.{dict, avps, header, header-IsHeader, avps-AllReadable, emitted_length}

abbrev step : ℕ → ℕ
step len = min len 3

-- The state is what is still to come.
abbrev threes : Network Bytes
threes = record { recv = λ net len. (got (take (step len) net), drop (step len) net) }

abbrev to_come : Bytes → Bytes
to_come net = net

nonempty_length : (net : Bytes) → net ≢ [] → 0 < length net
nonempty_length [] h = absurd (h refl)
nonempty_length (b ∷ net) h = omega arith

threes-IsStream : IsStream threes to_come
threes-IsStream = record {
  arrives = λ net len hl hn.
      let some_bytes = nonempty_length net hn in
      (
        take (step len) net,
        drop (step len) net,
        refl,
        omega (arith, length-take (step len) net),
        omega (arith, length-take (step len) net),
        sym (take-append-drop (step len) net),
      );
}

threes-Closes : Closes threes to_come
threes-Closes = record {
  closed = λ net len e. (
    drop (step len) net,
    ap (λ bs. (got (take (step len) bs), drop (step len) net)) e
        ∙ ap (λ bs. (got bs, drop (step len) net)) (take-nil (step len)),
    ap (drop (step len)) e ∙ drop-nil (step len),
  );
}

abbrev idle : ℕ → Worker
idle id = record { id = id; status = 1; queue = [] }

abbrev server : Server
server = record { dict = some dict; workers = idle 0 ∷ idle 1 ∷ []; curr_worker = 1 }

abbrev sent : Sent
sent = record { header = header; avps = avps }

abbrev both : List Sent
both = sent ∷ sent ∷ []

both-AllSent : AllSent limit both
both-AllSent = (one, (one, tt))
  where
    one : IsSent limit sent
    one = record {
      fits = header-IsHeader;
      version = refl;
      total = emitted_length;
      bounded = omega arith;
    }

thread-stream_example :
    (s' : Server) × (receiver_thread threes little_host libc parsed_none none 3 limit server
        (stream_of both)
      ≡ ok s')
    × (dispatch_all server (map (delivered (some dict)) both) ≡ ok s')
thread-stream_example =
    thread-stream threes to_come threes-IsStream threes-Closes little_host libc libc-IsLawful
      parsed_none none limit libc-Grants (omega arith) both 3 server (stream_of both) both-AllSent
      (omega arith) refl (omega arith)

abbrev msg : Msg
msg = delivered (some dict) sent

some-injective : {a b : Worker} → some a ≡ some b → a ≡ b
some-injective e = cc

none-some : {w : Worker} → ◌≡◌ {A = Option Worker} none (some w) → ⊥
none-some e = cc

idle_room : (id : ℕ) (w : Worker) → some (idle id) ≡ some w → length w.queue + 3 ≤ queue_bound
idle_room id w e =
    let h = ap (λ (x : Worker). length x.queue) (some-injective e) in omega (arith, h)

server-HasRoom : HasRoom server 3
server-HasRoom zero w e = idle_room 0 w e
server-HasRoom (suc zero) w e = idle_room 1 w e
server-HasRoom (suc (suc i)) w e = absurd (none-some e)

round_robin_example :
    (s' : Server) × (dispatch_all server (msg ∷ msg ∷ msg ∷ []) ≡ ok s')
    × IsValid s'
    × Gets server s' 1 (msg ∷ msg ∷ msg ∷ [])
round_robin_example = round_robin (msg ∷ msg ∷ msg ∷ []) server 1 (omega arith) refl server-HasRoom

abbrev busy : Worker
busy = record {
  id = 7;
  status = 1;
  queue = replicate queue_bound (event_ind (record { code = ind_timeout }));
}

abbrev overloaded : Server
overloaded = record { dict = none; workers = busy ∷ []; curr_worker = 0 }

dispatch-lost_example :
    (s' : Server) × (server_dispatch overloaded msg ≡ ok (pos 0, s')) × (s'.workers ≡ busy ∷ [])
dispatch-lost_example = dispatch-lost overloaded busy msg refl (omega arith) refl

abbrev silent : Network Unit
silent = record { recv = λ net len. (got [], net) }

abbrev broken : Network Unit
broken = record { recv = λ net len. (failed, net) }

read_body-closed_example : read_body silent 1000 tt (replicate 20 0) 4 20 ≡ out_of_fuel
read_body-closed_example =
    read_body-closed silent tt (λ len. refl) 1000 (replicate 20 0) 4 20 (omega arith) (omega arith)
      (omega arith)

read_body-failed_example : read_body broken 9 tt (replicate 20 0) 4 20 ≡ ok (replicate 20 0, tt)
read_body-failed_example =
    read_body-failed broken tt (λ len. refl) 9 (replicate 20 0) 4 20 (omega arith) (omega arith)
      (omega arith)

read_msg-short_example :
    read_msg silent little_host libc parsed_none none 8 server (1 ∷ 0 ∷ 0 ∷ 2 ∷ []) tt ≡ fault
read_msg-short_example =
    read_msg-short silent tt little_host libc parsed_none none limit 7 libc-IsLawful libc-Grants
      (omega arith) server (1 ∷ 0 ∷ 0 ∷ 2 ∷ []) refl (omega arith)

abbrev loaded : Worker
loaded = record { id = 0; status = 1; queue = event_msg msg ∷ event_msg msg ∷ [] }

worker_round-incoming_example :
    (parsed : Msg) × (worker_round little_host 3 loaded
      ≡ ok (
        by_command parsed ∷ expected_lines dict avps,
        record loaded { queue = event_msg msg ∷ [] },
      ))
    × (parsed.header ≡ header)
    × (map view parsed.avps ≡ accepted_all dict avps)
worker_round-incoming_example =
    worker_round-incoming little_host dict header avps 3 loaded (event_msg msg ∷ []) header-IsHeader
      avps-AllReadable emitted_length (omega arith) refl
