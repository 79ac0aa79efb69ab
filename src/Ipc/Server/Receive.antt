-- ===== src/Ipc/Server/Receive.antt =====
-- What `IpcServer` receives (`recv_all` of crates/emskin/src/ipc/mod.rs).
use emskin.Prelude.{
  ℕ, zero, suc, ◌+◌, ◌≤◌, ◌<◌, ◌≡◌, ◌≢◌, refl, ap, ◌∙◌, Option, none, some, List, [], ◌∷◌, ◌++◌,
  Bytes, length, All, append_assoc, length-append, length-drop, arith,
}
use emskin.Ipc.{
  IpcConn, new, enqueue, max_msg_size, u32_from_le, ReadResult, Filled, fill_read_buf, open_still,
  closed, read_error, Recv, try_recv, no_message, payload, too_large,
}
use emskin.Ipc.Framing.{try_recv-enqueue}
use emskin.Desktop.{OutgoingMessage}
use emskin.Desktop.Dispatch.{IncomingMessage}
use emskin.Ipc.Server.{
  Json, IpcServer, Received, messages, disconnected, stuck_loop, with_message, recv_loop,
  close_if_lost, recv_all,
}

-- The bytes of payloads, framed as the other side frames them.
unfoldable pub stream : List Bytes → Bytes
stream [] = []
stream (b ∷ bs) = (enqueue new (some b)).write_buf ++ stream bs

-- At most 1 MiB.
abbrev pub IsSmall : Bytes → Type 0
IsSmall b = length b ≤ max_msg_size

frame-not_empty : (b : Bytes) → IsSmall b → 0 < length (enqueue new (some b)).write_buf
unfolding enqueue
frame-not_empty b h = ground arith

length-stream : (bs : List Bytes) → All IsSmall bs → length bs ≤ length (stream bs)
unfolding stream
length-stream [] h = omega arith
length-stream (b ∷ bs) (hb, hbs) = omega (
  arith,
  frame-not_empty b hb,
  length-stream bs hbs,
  length-append (enqueue new (some b)).write_buf (stream bs),
)

try_recv-shorter :
    (conn : IpcConn) (b : Bytes)
    → (try_recv conn).1 ≡ payload b
    → length (try_recv conn).0.read_buf < length conn.read_buf
unfolding try_recv
try_recv-shorter conn b e =
    ground (arith, e, length-drop (4 + u32_from_le conn.read_buf) conn.read_buf)

module _ (json : Json) where
  abbrev add : Option IncomingMessage → List IncomingMessage → List IncomingMessage
  add none ms = ms
  add (some m) ms = m ∷ ms

  -- The payloads that are messages.
  abbrev pub decoded : List Bytes → List IncomingMessage
  decoded [] = []
  decoded (b ∷ bs) = add (json.from_slice b) (decoded bs)

  with_message-add :
      (o : Option IncomingMessage) (ms : List IncomingMessage)
      → with_message o (messages ms) ≡ messages (add o ms)
  with_message-add none ms = refl
  with_message-add (some m) ms = refl

  recv_loop-none :
      (fuel : ℕ) (conn conn' : IpcConn)
      → try_recv conn ≡ (conn', no_message)
      → recv_loop json (suc fuel) conn ≡ (conn', messages [])
  unfolding recv_loop
  recv_loop-none fuel conn conn' e = rw (ap (λ r. r.1) e, recv_loop) (rw (ap (λ r. r.0) e) refl)

  recv_loop-payload :
      (fuel : ℕ) (conn conn' : IpcConn) (b : Bytes)
      → try_recv conn ≡ (conn', payload b)
      → recv_loop json (suc fuel) conn ≡ (
        (recv_loop json fuel conn').0,
        with_message (json.from_slice b) (recv_loop json fuel conn').1,
      )
  unfolding recv_loop
  recv_loop-payload fuel conn conn' b e =
      rw (ap (λ r. r.1) e, recv_loop) (rw (ap (λ r. r.0) e) refl)

  recv_loop-stream :
      (bs : List Bytes) (rest : Bytes) (conn : IpcConn) (fuel : ℕ)
      → All IsSmall bs
      → try_recv (record conn { read_buf = rest }) ≡ (record conn { read_buf = rest }, no_message)
      → length bs < fuel
      → recv_loop json fuel (record conn { read_buf = stream bs ++ rest })
        ≡ (record conn { read_buf = rest }, messages (decoded bs))
  unfolding stream
  recv_loop-stream bs rest conn zero h e f = absurd (omega arith)
  recv_loop-stream [] rest conn (suc fuel) h e f = recv_loop-none fuel _ _ e
  recv_loop-stream (b ∷ bs) rest conn (suc fuel) (hb, hbs) e f =
      let first = try_recv-enqueue conn new b (stream bs ++ rest) hb refl in
      let more = recv_loop-stream bs rest conn fuel hbs e (omega arith) in
      rw (append_assoc (enqueue new (some b)).write_buf (stream bs) rest) (
        recv_loop-payload fuel _ _ b first
        ∙ rw more (
            ap (λ r. (record conn { read_buf = rest }, r))
              (with_message-add (json.from_slice b) (decoded bs))))

  with_message-ne-stuck :
      (o : Option IncomingMessage) (r : Received) → r ≢ stuck_loop → with_message o r ≢ stuck_loop
  with_message-ne-stuck none r h = h
  with_message-ne-stuck (some m) (messages ms) h = λ e. cc
  with_message-ne-stuck (some m) disconnected h = λ e. cc
  with_message-ne-stuck (some m) stuck_loop h = h

  recv_step-ne-stuck :
      (fuel : ℕ) (conn : IpcConn) (r : IpcConn × Recv)
      → try_recv conn ≡ r
      → length conn.read_buf < suc fuel
      → ((c : IpcConn) → length c.read_buf < fuel → (recv_loop json fuel c).1 ≢ stuck_loop)
      → (recv_loop json (suc fuel) conn).1 ≢ stuck_loop
  unfolding recv_loop
  recv_step-ne-stuck fuel conn (conn', no_message) e h ih =
      rw (recv_loop-none fuel conn conn' e) (λ x. cc)
  recv_step-ne-stuck fuel conn (conn', too_large n) e h ih =
      rw (ap (λ r. r.1) e, recv_loop) (λ x. cc)
  recv_step-ne-stuck fuel conn (conn', payload b) e h ih =
      let shorter = try_recv-shorter conn b (ap (λ r. r.1) e) in
      let at = ap (λ (r : IpcConn × Recv). length r.0.read_buf) e in
      rw (recv_loop-payload fuel conn conn' b e) (
        with_message-ne-stuck (json.from_slice b) (recv_loop json fuel conn').1
          (ih conn' (omega arith)))

  recv_loop-ne-stuck :
      (fuel : ℕ) (conn : IpcConn)
      → length conn.read_buf < fuel
      → (recv_loop json fuel conn).1 ≢ stuck_loop
  recv_loop-ne-stuck zero conn h = absurd (omega arith)
  recv_loop-ne-stuck (suc fuel) conn h =
      recv_step-ne-stuck fuel conn (try_recv conn) refl h (recv_loop-ne-stuck fuel)

  close_if_lost-ne-stuck :
      (c : IpcConn × Received) (server : IpcServer)
      → c.1 ≢ stuck_loop
      → (close_if_lost c server).1 ≢ stuck_loop
  close_if_lost-ne-stuck (conn, messages ms) server h = h
  close_if_lost-ne-stuck (conn, disconnected) server h = h
  close_if_lost-ne-stuck (conn, stuck_loop) server h = h

  recv_all-open :
      (reads : List ReadResult) (conn conn' : IpcConn) (w : List OutgoingMessage)
      → fill_read_buf conn reads ≡ (conn', open_still)
      → recv_all json reads (record { connection = some conn; waiting = w })
        ≡ close_if_lost
            (recv_loop json (suc (length conn'.read_buf)) conn')
            (record { connection = some conn; waiting = w })
  unfolding recv_all
  recv_all-open reads conn conn' w f = rw (ap (λ r. r.1) f, recv_all) (rw (ap (λ r. r.0) f) refl)

  -- What one side frames the other side receives: when the reads leave in the buffer the frames of
  -- payloads of up to 1 MiB each and then bytes that are no whole frame, `recv_all` returns the
  -- payloads that are messages, in order, and keeps these bytes and the connection.
  pub recv_all-stream :
      (reads : List ReadResult) (conn conn' : IpcConn) (w : List OutgoingMessage) (bs : List Bytes)
      (rest : Bytes)
      → fill_read_buf conn reads ≡ (record conn' { read_buf = stream bs ++ rest }, open_still)
      → All IsSmall bs
      → try_recv (record conn' { read_buf = rest }) ≡ (record conn' { read_buf = rest }, no_message)
      → recv_all json reads (record { connection = some conn; waiting = w }) ≡ (
        record { connection = some (record conn' { read_buf = rest }); waiting = w },
        messages (decoded bs),
      )
  recv_all-stream reads conn conn' w bs rest f small waits =
      let enough : length bs < suc (length (stream bs ++ rest)) =
        omega (arith, length-stream bs small, length-append (stream bs) rest) in
      recv_all-open reads conn (record conn' { read_buf = stream bs ++ rest }) w f
      ∙ ap (λ r. close_if_lost r (record { connection = some conn; waiting = w }))
          (recv_loop-stream bs rest conn' (suc (length (stream bs ++ rest))) small waits enough)

  open-ne-stuck :
      (reads : List ReadResult) (conn : IpcConn) (w : List OutgoingMessage) (r : IpcConn × Filled)
      → fill_read_buf conn reads ≡ r
      → (recv_all json reads (record { connection = some conn; waiting = w })).1 ≢ stuck_loop
  unfolding recv_all
  open-ne-stuck reads conn w (conn', open_still) f = rw (recv_all-open reads conn conn' w f) (
      close_if_lost-ne-stuck _ (record { connection = some conn; waiting = w })
        (recv_loop-ne-stuck (suc (length conn'.read_buf)) conn' (omega arith)))
  open-ne-stuck reads conn w (conn', closed) f = rw (ap (λ r. r.1) f, recv_all) (λ x. cc)
  open-ne-stuck reads conn w (conn', read_error) f = rw (ap (λ r. r.1) f, recv_all) (λ x. cc)

  all-ne-stuck :
      (reads : List ReadResult) (c : Option IpcConn) (w : List OutgoingMessage)
      → (recv_all json reads (record { connection = c; waiting = w })).1 ≢ stuck_loop
  unfolding recv_all
  all-ne-stuck reads none w = λ x. cc
  all-ne-stuck reads (some conn) w = open-ne-stuck reads conn w (fill_read_buf conn reads) refl

  -- `recv_all` always returns messages or the end of the connection: its loop has fuel enough,
  -- whatever the reads gave.
  pub recv_all-ne-stuck :
      (reads : List ReadResult) (server : IpcServer) → (recv_all json reads server).1 ≢ stuck_loop
  recv_all-ne-stuck reads server = all-ne-stuck reads server.connection server.waiting
