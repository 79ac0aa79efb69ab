-- ===== src/Runs/Server.antt =====
-- The theorems on the socket server of Emacs, on the signals to a client and on the supervisor of
-- the X server, on concrete states. Every message is encoded as one byte.
use emskin.Prelude.{
  ℕ, ◌≤◌, length, false, ◌≡◌, refl, arith, true, some, List, [], ◌∷◌, ◌++◌, codes, Bytes,
}
use emskin.Ipc.{
  IpcConn, WriteResult, wrote, ReadResult, read, open_still, enqueue, fill_read_buf, try_recv,
  no_message, try_flush,
}
use emskin.Ipc
use emskin.Desktop.{connected, xwayland_ready, workspace_created}
use emskin.Desktop.Dispatch.{prefix_clear}
use emskin.Fcitx.{le_bytes}
use emskin.Ipc.Server.{Json, bound, stream, accept, enqueue_all, send, flush, recv_all, messages}
use emskin.Ipc.Server.Delivery.{Use, sending, flushing, run, frames, run-accept-delivers}
use emskin.Ipc.Server.Receive.{decoded, recv_all-stream, recv_all-ne-stuck}
use emskin.Ipc.Server.Receive
use emskin.Watch
use emskin.Watch.{ArmAnswers, XwlsIntegration, arm, on_socket_connect}
use emskin.Watch.Sources
use emskin.Watch.Sources.{Reach, here, next, armed, tokens, Reach-tokens}

abbrev json : Json
json = record { to_vec = λ m. some (7 ∷ []); from_slice = λ b. some prefix_clear }

abbrev before : List Use
before = sending (workspace_created 2) [] ∷ []

abbrev later : List Use
later = sending (xwayland_ready 3) (wrote 9 ∷ []) ∷ flushing (wrote 9 ∷ []) ∷ []

abbrev last : IpcConn
last = record { read_buf = []; write_buf = 7 ∷ [] }

later-connected :
    (run json later (accept json stream (wrote 3 ∷ []) (run json before bound).0).0).0.connection
    ≡ some Ipc.new
unfolding run accept enqueue_all send flush enqueue le_bytes try_flush
later-connected = refl

run-accept-delivers_example :
    let waited = (run json before bound).0 in
    let (server, ok, greeting) = accept json stream (wrote 3 ∷ []) waited in
    (greeting ++ (run json later server).1) ++ []
    ≡ frames json (connected (codes "0.1") ∷ (workspace_created 2 ∷ []) ++ (xwayland_ready 3 ∷ []))
run-accept-delivers_example =
    run-accept-delivers json before later (wrote 3 ∷ []) Ipc.new later-connected

-- Two messages and the beginning of a third.
abbrev two : List ReadResult
two = read (1 ∷ 0 ∷ 0 ∷ 0 ∷ 7 ∷ 1 ∷ 0 ∷ []) ∷ read (0 ∷ 0 ∷ 7 ∷ 1 ∷ 0 ∷ []) ∷ []

abbrev payloads : List Bytes
payloads = (7 ∷ []) ∷ (7 ∷ []) ∷ []

two-read :
    fill_read_buf Ipc.new two
    ≡ (record Ipc.new { read_buf = Receive.stream payloads ++ (1 ∷ 0 ∷ []) }, open_still)
unfolding fill_read_buf Receive.stream enqueue le_bytes
two-read = refl

rest-waits :
    try_recv (record Ipc.new { read_buf = 1 ∷ 0 ∷ [] })
    ≡ (record Ipc.new { read_buf = 1 ∷ 0 ∷ [] }, no_message)
unfolding try_recv
rest-waits = refl

recv_all-stream_example : recv_all json two (record { connection = some Ipc.new; waiting = [] }) ≡ (
  record { connection = some (record Ipc.new { read_buf = 1 ∷ 0 ∷ [] }); waiting = [] },
  messages (prefix_clear ∷ prefix_clear ∷ []),
)
recv_all-stream_example =
    recv_all-stream json two Ipc.new Ipc.new [] payloads (1 ∷ 0 ∷ []) two-read
      (omega arith, (omega arith, tt)) rest-waits

abbrev answers : ArmAnswers
answers = record {
  unix_cloned = true;
  abstract_cloned = true;
  unix_inserted = true;
  abstract_inserted = true;
}

-- The first try to arm fails at the abstract source; then an X client connects.
abbrev refused : ArmAnswers
refused = record answers { abstract_inserted = false }

abbrev served : XwlsIntegration
served = (on_socket_connect true answers (arm answers (arm refused (Watch.new true)).0).0).0

served-Reach : Reach (Watch.new true) 1 served
served-Reach =
    next
      (next (next here (armed (Watch.new true) refused))
        (armed (arm refused (Watch.new true)).0 answers))
      (Sources.connected (arm answers (arm refused (Watch.new true)).0).0 true answers)

Reach-tokens_example :
    (os : List ℕ) × (served.sources ≡ tokens served.state ++ os) × (length os ≤ 1)
Reach-tokens_example = Reach-tokens true served-Reach
