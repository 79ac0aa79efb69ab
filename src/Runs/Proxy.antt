-- ===== src/Runs/Proxy.antt =====
-- The theorems on the proxy, on one connection.
use emskin.Prelude.{
  ◌≡◌, ◌≢◌, refl, inl, true, some, List, [], ◌∷◌, ◌++◌, map, Bytes, ok, take, drop, codes,
}
use emskin.Wire.Header.{to_raw}
use emskin.Wire.Frame.{encode, endian_u32, bytes_needed, parse_endian, checked_add, align8}
use emskin.Broker.{
  ConnectionState, messages, nothing, feed_from_client, split_frames, push_frame, feed_messages,
  is_authenticated,
}
use emskin.Proxy.Packets.{OutPacket, sent, would_block, try_flush}
use emskin.Proxy.Packets.Order.{InOrder, try_flush-InOrder, sent_bytes}
use emskin.Proxy.Connection.{Connection, accepted, got}
use emskin.Proxy.Connection.Client.{client_messages}
use emskin.Proxy.Connection.Client.Alignment.{Group, packets, Declared, client_messages-aligned}
use emskin.Proxy.Connection.Client.Wedge.{run, Turn, pump, retry, run-incomplete}
use emskin.Proxy.Connection.Upstream.{pump_upstream_to_client}
use emskin.Proxy.Connection.Upstream.Delivery.{pending, pump_upstream_to_client-delivers}
use emskin.Proxy.Connection.Upstream.Waiting.{IsIncomplete, pump_upstream_to_client-IsIncomplete}
use emskin.Prelude.{ℕ}
use emskin.Prelude.Dict.{lookup, insert}
use emskin.Wire.Builder.{bump}
use emskin.Proxy.Connection.{Pumped}
use emskin.Proxy.Packets.Order.{queued_bytes}
use emskin.Proxy.Table.{DbusBroker, bound, dialed, accept_one, commit_frame, emit}
use emskin.Proxy.Table.Signals.{emit-delivers}
use emskin.Runs.Demo.{demo, demo_codec, demo_floats, hello}
use emskin.Runs.Wire.{hello_bytes, hello_parsed}

abbrev queue : List OutPacket
queue = record { bytes = 1 ∷ 2 ∷ 3 ∷ []; fds = 9 ∷ [] } ∷ record { bytes = 4 ∷ []; fds = [] } ∷ []

abbrev blocked : OutPacket
blocked = record { bytes = []; fds = 9 ∷ [] }

try_flush-InOrder_example : InOrder queue (try_flush (sent 2 ∷ would_block ∷ []) queue)
try_flush-InOrder_example = try_flush-InOrder (sent 2 ∷ would_block ∷ []) queue

-- A connection whose client is authenticated.
abbrev open_connection : Connection
open_connection = record accepted {
  state = record { client_phase = messages; auth_accumulator = []; msg_buf = [] };
}

abbrev half : Bytes
half = take 20 hello_bytes

abbrev waiting_state : ConnectionState
waiting_state = record { client_phase = messages; auth_accumulator = []; msg_buf = half }

-- The first byte and the rest of it.
abbrev half_rest : Bytes
half_rest = drop 1 half

half_fed :
    feed_from_client demo open_connection.state (108 ∷ half_rest) ≡ ok (waiting_state, nothing)
unfolding demo to_raw encode endian_u32 bytes_needed parse_endian checked_add align8
    feed_from_client feed_messages split_frames push_frame
half_fed = refl

abbrev later_turns : List Turn
later_turns = pump (got (drop 20 hello_bytes) []) (sent 42 ∷ []) [] ∷ retry (sent 5 ∷ []) ∷ []

run-incomplete_example :
    run demo demo_codec demo_floats 1 open_connection
      (pump (got (108 ∷ half_rest) (9 ∷ [])) (sent 20 ∷ []) [] ∷ later_turns)
    ≡ []
run-incomplete_example =
    run-incomplete demo demo_codec demo_floats 1 open_connection 108 half_rest 9 [] waiting_state
      (sent 20 ∷ []) [] later_turns half_fed refl

abbrev groups : List Group
groups = (hello_bytes, 9 ∷ []) ∷ (hello_bytes, 8 ∷ []) ∷ []

groups-Declared : Declared demo demo_codec groups
groups-Declared = ((hello, hello_parsed, refl), ((hello, hello_parsed, refl), tt))

abbrev with_fds : Connection
with_fds = record open_connection { client_in_fds = 9 ∷ 8 ∷ 7 ∷ [] }

client_messages-aligned_example :
    let r = (client_messages demo demo_codec demo_floats 1 (map (λ g. g.0) groups) with_fds []).0 in
    (r.upstream_out ≡ with_fds.upstream_out ++ packets demo demo_codec groups)
    × (r.client_in_fds ≡ 7 ∷ [])
client_messages-aligned_example =
    client_messages-aligned demo demo_codec demo_floats 1 groups (7 ∷ []) with_fds []
      groups-Declared refl

authenticated : is_authenticated open_connection.state ≡ true
unfolding is_authenticated
authenticated = refl

pump_upstream_to_client-delivers_example :
    let p =
      pump_upstream_to_client demo demo_codec open_connection
        (got (108 ∷ half_rest) [])
        (sent 5 ∷ []) in
    sent_bytes p.to_client ++ pending p.conn ≡ pending open_connection ++ (108 ∷ half_rest)
pump_upstream_to_client-delivers_example =
    pump_upstream_to_client-delivers demo demo_codec open_connection 108 half_rest [] (sent 5 ∷ [])
      (inl authenticated)

pump_upstream_to_client-IsIncomplete_example :
    IsIncomplete demo demo_codec
      (pump_upstream_to_client demo demo_codec open_connection
        (got (108 ∷ half_rest) [])
        (sent 5 ∷ [])).conn.upstream_buf
pump_upstream_to_client-IsIncomplete_example =
    pump_upstream_to_client-IsIncomplete demo demo_codec open_connection 108 half_rest []
      (sent 5 ∷ []) authenticated

-- A signal to the only client, of which the socket takes four bytes.
abbrev table : DbusBroker
table = (accept_one dialed bound).0

table-accepted : lookup 1 table.connections ≡ some accepted
unfolding lookup accept_one insert
table-accepted = refl

emit-delivers_example :
    let frame = commit_frame demo_codec (codes "/ic/1") (codes "ab") in
    let r = emit demo demo_codec 1 frame (sent 4 ∷ would_block ∷ []) table in
    (p : Pumped) × (r.1 ≡ some p)
    × (lookup 1 r.0.connections ≡ some p.conn)
    × (p.conn.serial_counter ≡ bump 0)
    × (sent_bytes p.to_client ++ queued_bytes p.conn.client_out ≡ encode demo (frame accepted))
    × ((j : ℕ) → j ≢ 1 → lookup j r.0.connections ≡ lookup j table.connections)
emit-delivers_example =
    emit-delivers demo demo_codec 1 (commit_frame demo_codec (codes "/ic/1") (codes "ab"))
      (sent 4 ∷ would_block ∷ []) table accepted table-accepted
