-- ===== src/Proxy/Table.antt =====
-- `DbusBroker` of crates/emskin-dbus/src/proxy/mod.rs: the table of connections, the queue of events
-- and the signals that the input method sends to a client.
pub mod Signals
use emskin.Prelude.{
  ℕ, zero, suc, ◌+◌, Bool, true, false, not, Option, none, some, List, [], ◌∷◌, ◌++◌, Text, codes,
  ◌==◌, if◌then◌else◌, ◌≡◌, ◌≢◌, refl, Option-cases, inl, inr,
}
use emskin.Prelude.Int.{ℤ, pos, negsuc}
use emskin.Prelude.Dict.{Dict, lookup, insert, erase, modify, lookup-modify_ne}
use emskin.Wire.Zvariant.{Zvariant}
use emskin.Wire.Frame.{Frame, encode}
use emskin.Wire.Body.{BodyCodec, text, int32, chunks}
use emskin.Wire.Builder.{
  FrameBuilder, bump, signal_from, with_serial, with_sender, with_body, body_args, add_arg, finish,
  build,
}
use emskin.Fcitx.{input_context_interface}
use emskin.Proxy.Packets.{bytes_only, is_nil, Answer}
use emskin.Proxy.Preedit.{build_preedit_chunks, underline, highlight}
use emskin.Proxy.Connection.{Connection, accepted, FcitxEvent, Pumped, Outcome}
use emskin.Proxy.Connection.Client.{flush_upstream_out}
use emskin.Proxy.Connection.Upstream.{to_client_out, flush_client}

-- `SIGNAL_SENDER`
abbrev pub signal_sender : Text
signal_sender = codes "org.fcitx.Fcitx5"

pub record DbusBroker : Type 0 where
  pub connections : Dict Connection
  pub next_id : ℕ
  pub events : List FcitxEvent

-- `bind`
abbrev pub bound : DbusBroker
bound = record { connections = []; next_id = 1; events = [] }

-- The listener and the dial of the bus: a pair of streams, no client, or an error.
pub data Dialed : Type 0 where
  dialed no_client dial_failed nonblocking_failed listener_failed : Dialed

-- The id of a new connection.
unfoldable pub accept_one : Dialed → DbusBroker → DbusBroker × Option ℕ
unfolding insert
accept_one dialed b = (
  record b { connections = insert b.next_id accepted b.connections; next_id = b.next_id + 1 },
  some b.next_id,
)
accept_one _ b = (b, none)

unfoldable pub drain_events : DbusBroker → DbusBroker × List FcitxEvent
drain_events b = (record b { events = [] }, b.events)

unfoldable pub remove_connection : ℕ → DbusBroker → DbusBroker
unfolding erase
remove_connection id b = record b { connections = erase id b.connections }

sender_of : Option Text → Text
sender_of none = signal_sender
sender_of (some name) = name

-- `parse_unix_bus_address`: the path, where the scheme is `unix:path=`.
strip_prefix : Text → Text → Option Text
strip_prefix [] addr = some addr
strip_prefix (p ∷ ps) [] = none
strip_prefix (p ∷ ps) (a ∷ as_left) =
    let rest = strip_prefix ps as_left in if p == a then rest else none

-- 44 is a comma.
until_comma : Text → Text
until_comma [] = []
until_comma (c ∷ cs) = if c == 44 then [] else c ∷ until_comma cs

pub parse_unix_bus_address : Text → Option Text
unfolding strip_prefix until_comma
parse_unix_bus_address addr = elim (strip_prefix (codes "unix:path=") addr) [
  | none ↦ none
  | some stripped ↦ some (until_comma stripped)
]

cursor_offset : Option (ℤ × ℤ) → ℤ
cursor_offset none = negsuc 0
cursor_offset (some (begin, end)) = end

-- A signal of the input context, from the fcitx server that the client knows.
unfoldable pub context_signal : Text → Text → Connection → FrameBuilder
unfolding sender_of
context_signal ic_path member conn =
    with_sender
      (with_serial (signal_from ic_path input_context_interface member) (bump conn.serial_counter))
      (sender_of conn.fcitx_server_name)

module _ (c : BodyCodec) where
  unfoldable pub commit_frame : Text → Text → Connection → Frame
  unfolding context_signal
  commit_frame ic_path t conn =
      build (with_body c (context_signal ic_path (codes "CommitString") conn) (text t))

  unfoldable pub preedit_frame : Text → Text → Option (ℤ × ℤ) → Connection → Frame
  unfolding context_signal cursor_offset
  preedit_frame ic_path t cursor conn = build (
      finish (
        add_arg c
          (add_arg c (body_args (context_signal ic_path (codes "UpdateFormattedPreedit") conn))
            (chunks (build_preedit_chunks t cursor underline highlight)))
          (int32 (cursor_offset cursor))))

module _ (z : Zvariant) (c : BodyCodec) where
  -- The frame takes the next serial of the connection and goes out behind what waits.
  unfoldable pub emit :
      ℕ → (Connection → Frame) → List Answer → DbusBroker → DbusBroker × Option Pumped
  unfolding modify
  emit id frame answers b = elim (lookup id b.connections) [
    | none ↦ (b, none)
    | some conn ↦
        let queued =
          to_client_out (bytes_only (encode z (frame conn)))
            (record conn { serial_counter = bump conn.serial_counter }) in
        let pumped = flush_client z c queued answers in
        (record b { connections = modify id (λ _. pumped.conn) b.connections }, some pumped)
  ]

  pub emit_commit_string : ℕ → Text → Text → List Answer → DbusBroker → DbusBroker × Option Pumped
  unfolding emit
  emit_commit_string id ic_path t answers b = emit id (commit_frame c ic_path t) answers b

  pub emit_preedit :
      ℕ → Text → Text → Option (ℤ × ℤ) → List Answer → DbusBroker → DbusBroker × Option Pumped
  unfolding emit
  emit_preedit id ic_path t cursor answers b = emit id (preedit_frame c ic_path t cursor) answers b
