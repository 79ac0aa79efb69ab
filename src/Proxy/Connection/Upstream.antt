-- ===== src/Proxy/Connection/Upstream.antt =====
-- `pump_upstream_to_client` of crates/emskin-dbus/src/proxy/mod.rs.
pub mod Delivery
pub mod Waiting
use emskin.Prelude.{
  ℕ, zero, suc, ltb, Bool, true, false, Option, none, some, List, [], ◌∷◌, ◌++◌, Bytes, Result, ok,
  err, stuck, take, drop, length, if◌then◌else◌,
}
use emskin.Wire.Zvariant.{Zvariant}
use emskin.Wire.Frame.{Frame, FrameError, parse, bytes_needed}
use emskin.Wire.Body.{BodyCodec}
use emskin.Broker.{is_authenticated}
use emskin.Proxy.Packets.{OutPacket, bytes_only, is_nil, Answer, Flushed, try_flush}
use emskin.Proxy.Connection.{
  Connection, Received, got, recv_would_block, recv_interrupted, recv_failed, active, peer_closed,
  io_error, Pumped, quiet, outcome_of,
}
use emskin.Proxy.Connection.Names.{learn}
use emskin.Proxy.Connection.Client.{declared_fds}

abbrev pub to_client_out : OutPacket → Connection → Connection
to_client_out p conn = record conn { client_out = conn.client_out ++ (p ∷ []) }

abbrev bytes_if_any : Bytes → Connection → Connection
bytes_if_any [] conn = conn
bytes_if_any (b ∷ bs) conn = to_client_out (bytes_only (b ∷ bs)) conn

module _ (z : Zvariant) (c : BodyCodec) where
  unparsed : Bytes → Connection → Connection
  unparsed bytes conn = record (to_client_out (bytes_only bytes) conn) { upstream_in_fds = [] }

  pub bus_frame : Frame → Bytes → Connection → Connection
  unfolding learn
  bus_frame frame bytes conn =
      let n = declared_fds frame in
      let msg_fds = take n conn.upstream_in_fds in
      to_client_out (record { bytes = bytes; fds = msg_fds })
        (learn c frame (record conn { upstream_in_fds = drop n conn.upstream_in_fds }))

  pub parsed : Result FrameError Frame → Bytes → Connection → Connection
  unfolding bus_frame unparsed
  parsed (ok frame) bytes conn = bus_frame frame bytes conn
  parsed (err e) bytes conn = unparsed bytes conn
  parsed stuck bytes conn = unparsed bytes conn

  -- A size that cannot be read: all bytes go out, and the descriptors are closed.
  give_up : Connection → Connection
  give_up conn = record (bytes_if_any conn.upstream_buf conn) {
    upstream_buf = [];
    upstream_in_fds = [];
  }

  pub bus_message : Bytes → Connection → Connection
  unfolding parsed
  bus_message bytes conn = parsed (parse z bytes) bytes conn

  -- The loop over the buffered messages; 16 bytes at least leave the buffer in a round.
  pub bus_messages : ℕ → Connection → Connection
  unfolding bus_message give_up
  bus_messages zero conn = conn
  bus_messages (suc fuel) conn =
      let step = λ (total : ℕ). bus_messages fuel (
        bus_message (take total conn.upstream_buf)
          (record conn { upstream_buf = drop total conn.upstream_buf })) in
      elim (bytes_needed z conn.upstream_buf) [
        | err e ↦ give_up conn
        | stuck ↦ give_up conn
        | ok needed ↦ elim needed [
          | none ↦ conn
          | some total ↦ elim (ltb (length conn.upstream_buf) total) [
            | true ↦ conn
            | false ↦ step total
          ]
        ]
      ]

  unfoldable pub flush_client : Connection → List Answer → Pumped
  flush_client conn to_cl =
      let f = try_flush to_cl conn.client_out in
      record {
        conn = record conn { client_out = f.queue };
        events = [];
        outcome = outcome_of f.hard_error;
        to_upstream = [];
        to_client = f.delivered;
      }

  -- Before the client is authenticated the bytes pass, with all descriptors that have arrived.
  pub relay : Bool → Bytes → Connection → Connection
  unfolding bus_messages
  relay false bytes conn =
      to_client_out (record { bytes = bytes; fds = conn.upstream_in_fds })
        (record conn { upstream_in_fds = [] })
  relay true bytes conn =
      let buffered = conn.upstream_buf ++ bytes in
      bus_messages (suc (length buffered)) (record conn { upstream_buf = buffered })

  unfoldable pub pump_upstream_to_client : Connection → Received → List Answer → Pumped
  unfolding relay flush_client
  pump_upstream_to_client conn (got [] fds) to_cl = quiet conn peer_closed
  pump_upstream_to_client conn (got (b ∷ bs) fds) to_cl =
      flush_client
        (relay (is_authenticated conn.state) (b ∷ bs)
          (record conn { upstream_in_fds = conn.upstream_in_fds ++ fds }))
        to_cl
  pump_upstream_to_client conn recv_would_block to_cl = quiet conn active
  pump_upstream_to_client conn recv_interrupted to_cl = quiet conn active
  pump_upstream_to_client conn recv_failed to_cl = quiet conn io_error
