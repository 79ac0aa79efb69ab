-- ===== src/Proxy/Connection.antt =====
-- `Connection` of crates/emskin-dbus/src/proxy/mod.rs and the two pumps. The answers of the
-- kernel are arguments: one for `recvmsg`, a list for the `sendmsg` calls of each direction.
pub mod Names
pub mod Client
pub mod Upstream
use emskin.Prelude.{ℕ, Bool, true, false, Option, none, some, List, [], ◌∷◌, ◌++◌, Bytes, Text}
use emskin.Prelude.Int.{ℤ, pos}
use emskin.Broker.{ConnectionState, BrokerError}
use emskin.Broker
use emskin.Fcitx.{
  Fcitx5MethodCall, focus_in, focus_out, set_cursor_rect, set_cursor_rect_v2, set_cursor_location,
  destroy_ic, new_allocator,
}
use emskin.Proxy.Packets.{OutPacket}

-- The map of pending lookups is a list of its entries.
pub record Connection : Type 0 where
  pub state : ConnectionState
  pub client_out : List OutPacket
  pub upstream_out : List OutPacket
  pub client_in_fds : List ℕ
  pub upstream_in_fds : List ℕ
  pub ic_allocator : ℕ
  pub serial_counter : ℕ
  pub fcitx_server_name : Option Text
  pub upstream_buf : Bytes
  pub pending_name_lookups : List (ℕ × Text)

-- What `accept_one` registers.
abbrev pub accepted : Connection
accepted = record {
  state = Broker.new;
  client_out = [];
  upstream_out = [];
  client_in_fds = [];
  upstream_in_fds = [];
  ic_allocator = new_allocator;
  serial_counter = 0;
  fcitx_server_name = none;
  upstream_buf = [];
  pending_name_lookups = [];
}

-- The result of `recvmsg_with_fds`. No bytes are the end of the stream.
pub data Received : Type 0 where
  got : Bytes → List ℕ → Received
  recv_would_block recv_interrupted recv_failed : Received

pub data FcitxEvent : Type 0 where
  focus_changed : ℕ → Text → Bool → FcitxEvent
  cursor_rect : ℕ → Text → ℤ → ℤ → ℤ → ℤ → FcitxEvent
  ic_destroyed : ℕ → Text → FcitxEvent

-- `PumpOutcome`, or the error of the pump.
pub data Outcome : Type 0 where
  active peer_closed io_error : Outcome
  invalid_data : BrokerError → Outcome

-- What a pump leaves: the connection, the new events, and what each side was sent.
pub record Pumped : Type 0 where
  pub conn : Connection
  pub events : List FcitxEvent
  pub outcome : Outcome
  pub to_upstream : List (Bytes × List ℕ)
  pub to_client : List (Bytes × List ℕ)

abbrev pub quiet : Connection → Outcome → Pumped
quiet conn outcome = record {
  conn = conn;
  events = [];
  outcome = outcome;
  to_upstream = [];
  to_client = [];
}

abbrev pub outcome_of : Bool → Outcome
outcome_of true = io_error
outcome_of false = active

-- The arithmetic of `f64`, on bit patterns: `scale > 0.0`, `1.0` and `(v as f64 / s).round() as i32`.
pub record Floats : Type 0 where
  pub is_positive : ℕ → Bool
  pub one : ℕ
  pub div_round : ℤ → ℕ → ℤ

abbrev scale_or_one : Floats → ℕ → ℕ
scale_or_one fl scale = elim (fl.is_positive scale) [ true ↦ scale | false ↦ fl.one ]

-- `emit_fcitx_event`: the events of one call.
unfoldable pub fcitx_events : Floats → ℕ → Fcitx5MethodCall → List FcitxEvent
fcitx_events fl id (focus_in path) = focus_changed id path true ∷ []
fcitx_events fl id (focus_out path) = focus_changed id path false ∷ []
fcitx_events fl id (set_cursor_rect path x y w h) = cursor_rect id path x y w h ∷ []
fcitx_events fl id (set_cursor_rect_v2 path x y w h scale) =
    let s = scale_or_one fl scale in
    cursor_rect id path (fl.div_round x s) (fl.div_round y s) (fl.div_round w s) (fl.div_round h s)
    ∷ []
fcitx_events fl id (set_cursor_location path x y) = cursor_rect id path x y (pos 0) (pos 0) ∷ []
fcitx_events fl id (destroy_ic path) = ic_destroyed id path ∷ []
fcitx_events fl id method = []
