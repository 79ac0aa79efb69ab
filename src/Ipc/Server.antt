-- ===== src/Ipc/Server.antt =====
-- `IpcServer` (crates/emskin/src/ipc/mod.rs): one connection of Emacs, and the messages that wait
-- for it. serde_json is a parameter; what the socket calls return is an argument, and what they
-- write is a result.
pub mod Delivery
pub mod Receive
use emskin.Prelude.{
  ℕ, zero, suc, Bool, true, false, Option, none, some, List, [], ◌∷◌, ◌++◌, Bytes, Text, codes,
  length,
}
use emskin.Ipc.{
  IpcConn, new, enqueue, ReadResult, fill_read_buf, open_still, closed, read_error, try_recv,
  no_message, payload, too_large, WriteResult, FlushResult, flushed, pending, write_error,
  try_flush,
}
use emskin.Desktop.{OutgoingMessage, connected}
use emskin.Desktop.Dispatch.{IncomingMessage}

pub record Json : Type 0 where
  -- `serde_json::to_vec`
  pub to_vec : OutgoingMessage → Option Bytes
  -- `serde_json::from_slice`
  pub from_slice : Bytes → Option IncomingMessage

pub record IpcServer : Type 0 where
  pub connection : Option IpcConn
  -- The messages queued before Emacs connects.
  pub waiting : List OutgoingMessage

-- `bind`
abbrev pub bound : IpcServer
bound = record { connection = none; waiting = [] }

-- The listener gives a stream, none yet, or an error; making the stream nonblocking can fail.
pub data Accepted : Type 0 where
  stream no_stream stream_failed listener_failed : Accepted

-- What is left to write, and whether the connection is kept.
abbrev pub kept_after : IpcConn → Bytes × FlushResult × Bytes → Option IpcConn
kept_after conn (left, write_error, out) = none
kept_after conn (left, _, out) = some (record conn { write_buf = left })

unfoldable pub flush : List WriteResult → IpcServer → IpcServer × Bytes
flush writes server = elim server.connection [
  | none ↦ (server, [])
  | some conn ↦
      let r = try_flush writes conn.write_buf in
      (record server { connection = kept_after conn r }, r.2)
]

-- The messages, the end of the connection, or a loop of the model that ran out of fuel.
pub data Received : Type 0 where
  messages : List IncomingMessage → Received
  disconnected stuck_loop : Received

abbrev pub with_message : Option IncomingMessage → Received → Received
with_message none r = r
with_message (some msg) (messages msgs) = messages (msg ∷ msgs)
with_message (some msg) r = r

abbrev pub close_if_lost : IpcConn × Received → IpcServer → IpcServer × Received
close_if_lost (conn, messages msgs) server =
    (record server { connection = some conn }, messages msgs)
close_if_lost (conn, r) server = (record server { connection = none }, r)

module _ (json : Json) where
  unfoldable pub enqueue_all : List OutgoingMessage → IpcConn → IpcConn
  enqueue_all [] conn = conn
  enqueue_all (msg ∷ msgs) conn = enqueue_all msgs (enqueue conn (json.to_vec msg))

  -- The state, whether a client connected, and the bytes that are written. An error of the flush is
  -- ignored here.
  unfoldable pub accept : Accepted → List WriteResult → IpcServer → IpcServer × Bool × Bytes
  unfolding enqueue_all
  accept stream writes server =
      let conn = enqueue_all (connected (codes "0.1") ∷ server.waiting) new in
      let (left, result, out) = try_flush writes conn.write_buf in
      (record { connection = some (record conn { write_buf = left }); waiting = [] }, true, out)
  accept no_stream writes server = (server, false, [])
  accept stream_failed writes server = (server, false, [])
  accept listener_failed writes server = (server, false, [])

  -- A message without a connection waits.
  unfoldable pub send : OutgoingMessage → List WriteResult → IpcServer → IpcServer × Bytes
  unfolding flush
  send msg writes server = elim server.connection [
    | none ↦ (record server { waiting = server.waiting ++ (msg ∷ []) }, [])
    | some conn ↦
        flush writes (record server { connection = some (enqueue conn (json.to_vec msg)) })
  ]

  -- A payload that is no message is skipped.
  unfoldable pub recv_loop : ℕ → IpcConn → IpcConn × Received
  recv_loop zero conn = (conn, stuck_loop)
  recv_loop (suc fuel) conn =
      let (conn', got) = try_recv conn in
      let (conn'', rest) = recv_loop fuel conn' in
      elim got [
        | no_message ↦ (conn', messages [])
        | too_large n ↦ (conn', disconnected)
        | payload b ↦ (conn'', with_message (json.from_slice b) rest)
      ]

  -- Each message takes a byte at least.
  unfoldable pub recv_all : List ReadResult → IpcServer → IpcServer × Received
  unfolding recv_loop
  recv_all reads server = elim server.connection [
    | none ↦ (server, disconnected)
    | some conn ↦
        let (conn', filled) = fill_read_buf conn reads in
        elim filled [
          | open_still ↦ close_if_lost (recv_loop (suc (length conn'.read_buf)) conn') server
          | closed ↦ (record server { connection = none }, disconnected)
          | read_error ↦ (record server { connection = none }, disconnected)
        ]
  ]
