-- ===== src/Proxy/Connection/Client.antt =====
-- `pump_client_to_upstream` of crates/emskin-dbus/src/proxy/mod.rs.
pub mod Alignment
pub mod Wedge
use emskin.Prelude.{
  ℕ, ◌-◌, ltb, Bool, true, false, Option, none, some, List, [], ◌∷◌, ◌++◌, Bytes, Result, ok, err,
  stuck, take, drop, if◌then◌else◌,
}
use emskin.Wire.Zvariant.{Zvariant}
use emskin.Wire.Frame.{Frame, FrameError, parse}
use emskin.Wire.Body.{BodyCodec}
use emskin.Broker.{ConnectionState, FeedOutcome, BrokerError, feed_from_client}
use emskin.Fcitx.{Fcitx5MethodCall, classify, build_reply}
use emskin.Proxy.Packets.{OutPacket, bytes_only, Answer, Flushed, try_flush}
use emskin.Proxy.Connection.{
  Connection, Received, got, recv_would_block, recv_interrupted, recv_failed, FcitxEvent, Outcome,
  active, peer_closed, io_error, invalid_data, Pumped, quiet, outcome_of, Floats, fcitx_events,
}
use emskin.Proxy.Connection.Names.{track, capture}
use mathlib.Core.Option

abbrev pub to_upstream_out : OutPacket → Connection → Connection
to_upstream_out p conn = record conn { upstream_out = conn.upstream_out ++ (p ∷ []) }

-- `outbound[start..end]`
abbrev pub slice : Bytes → ℕ × ℕ → Bytes
slice b (start, end) = take (end - start) (drop start b)

-- The number of descriptors that the header declares.
abbrev pub declared_fds : Frame → ℕ
declared_fds frame = Option.get_or frame.headers.unix_fds 0

module _ (z : Zvariant) (c : BodyCodec) (fl : Floats) (id : ℕ) where
  -- A fcitx call is answered here and goes no further; its descriptors are closed.
  pub intercept :
      Frame → Fcitx5MethodCall → Connection → List FcitxEvent → Connection × List FcitxEvent
  unfolding capture
  intercept frame method conn events =
      let known = capture frame conn in
      let (reply, ic_alloc, serials) =
        build_reply z c frame method known.ic_allocator known.serial_counter in
      (
        record known {
          ic_allocator = ic_alloc;
          serial_counter = serials;
          client_out = known.client_out ++ (bytes_only reply ∷ []);
        },
        events ++ fcitx_events fl id method,
      )

  -- A parsed message; the descriptors it declares leave the queue first.
  pub client_frame : Frame → Bytes → Connection → List FcitxEvent → Connection × List FcitxEvent
  unfolding intercept track
  client_frame frame bytes conn events =
      let n = declared_fds frame in
      let msg_fds = take n conn.client_in_fds in
      let tracked = track c frame (record conn { client_in_fds = drop n conn.client_in_fds }) in
      elim (classify c frame) [
        | some method ↦ intercept frame method tracked events
        | none ↦ (to_upstream_out (record { bytes = bytes; fds = msg_fds }) tracked, events)
      ]

  unparsed : Bytes → Connection → List FcitxEvent → Connection × List FcitxEvent
  unparsed bytes conn events =
      (record (to_upstream_out (bytes_only bytes) conn) { client_in_fds = [] }, events)

  parsed :
      Result FrameError Frame → Bytes → Connection → List FcitxEvent → Connection × List FcitxEvent
  unfolding client_frame unparsed
  parsed (ok frame) bytes conn events = client_frame frame bytes conn events
  parsed (err e) bytes conn events = unparsed bytes conn events
  -- Only a `deserialize` that never returns.
  parsed stuck bytes conn events = (conn, events)

  pub client_message : Bytes → Connection → List FcitxEvent → Connection × List FcitxEvent
  unfolding parsed
  client_message bytes conn events = parsed (parse z bytes) bytes conn events

  -- The loop over `frame_ranges`, on the bytes of each.
  unfoldable pub client_messages :
      List Bytes → Connection → List FcitxEvent → Connection × List FcitxEvent
  unfolding client_message
  client_messages [] conn events = (conn, events)
  client_messages (m ∷ ms) conn events =
      let (conn', events') = client_message m conn events in client_messages ms conn' events'

  -- Bytes in front of the first message: the tail of the handshake.
  unfoldable pub auth_tail : ℕ → Bytes → Connection → Connection
  auth_tail start outbound conn =
      if ltb 0 start then to_upstream_out (bytes_only (take start outbound)) conn else conn

  unfoldable pub slices : Bytes → List (ℕ × ℕ) → List Bytes
  slices b [] = []
  slices b (r ∷ rs) = slice b r ∷ slices b rs

  -- What the flush of each direction leaves. The second is made only after the first.
  pub flush_upstream : Connection → List Answer → Pumped
  flush_upstream conn to_up =
      let f = try_flush to_up conn.upstream_out in
      record {
        conn = record conn { upstream_out = f.queue };
        events = [];
        outcome = outcome_of f.hard_error;
        to_upstream = f.delivered;
        to_client = [];
      }

  then_client : List Answer → Bool → Pumped → Pumped
  then_client to_cl true p = p
  then_client to_cl false p =
      let f = try_flush to_cl p.conn.client_out in
      record p {
        conn = record (p.conn) { client_out = f.queue };
        outcome = outcome_of f.hard_error;
        to_client = f.delivered;
      }

  pub flush_both : Connection → List FcitxEvent → List Answer → List Answer → Pumped
  unfolding flush_upstream then_client
  flush_both conn events to_up to_cl =
      let p = record (flush_upstream conn to_up) { events = events } in
      then_client to_cl (try_flush to_up conn.upstream_out).hard_error p

  -- The retry after `WouldBlock`.
  abbrev pub flush_upstream_out : Connection → List Answer → Pumped
  flush_upstream_out conn to_up = flush_upstream conn to_up

  -- From the outcome of `feed_from_client` on. With no message there is one packet of the bytes,
  -- and of all the descriptors that have arrived.
  route_ranges : List (ℕ × ℕ) → Bytes → Connection → List Answer → List Answer → Pumped
  unfolding client_messages auth_tail slices flush_both flush_upstream
  route_ranges [] outbound conn to_up to_cl =
      let packet : OutPacket = record { bytes = outbound; fds = conn.client_in_fds } in
      flush_upstream (to_upstream_out packet (record conn { client_in_fds = [] })) to_up
  route_ranges (first ∷ others) outbound conn to_up to_cl =
      let (conn', events) =
        client_messages (slices outbound (first ∷ others)) (auth_tail first.0 outbound conn) [] in
      flush_both conn' events to_up to_cl

  pub route : FeedOutcome → Connection → List Answer → List Answer → Pumped
  unfolding route_ranges
  route out conn to_up to_cl = route_ranges out.frame_ranges out.outbound conn to_up to_cl

  -- What an error leaves of the state does not matter: the caller drops the connection.
  fed :
      Result BrokerError (ConnectionState × FeedOutcome)
      → Connection
      → List Answer
      → List Answer
      → Pumped
  unfolding route
  fed (ok (state, out)) conn to_up to_cl = route out (record conn { state = state }) to_up to_cl
  fed (err e) conn to_up to_cl = quiet conn (invalid_data e)
  fed stuck conn to_up to_cl = quiet conn io_error

  unfoldable pub pump_client_to_upstream :
      Connection → Received → List Answer → List Answer → Pumped
  unfolding fed
  pump_client_to_upstream conn (got [] fds) to_up to_cl = quiet conn peer_closed
  pump_client_to_upstream conn (got (b ∷ bs) fds) to_up to_cl =
      fed (feed_from_client z conn.state (b ∷ bs))
        (record conn { client_in_fds = conn.client_in_fds ++ fds }) to_up to_cl
  pump_client_to_upstream conn recv_would_block to_up to_cl = quiet conn active
  pump_client_to_upstream conn recv_interrupted to_up to_cl = quiet conn active
  pump_client_to_upstream conn recv_failed to_up to_cl = quiet conn io_error
