-- ===== src/Clipboard/Bridge.antt =====
-- The compositor between its clients and the clipboard of the host
-- (crates/emskin/src/clipboard_bridge.rs and handlers/selection.rs, `SelectionState` of
-- crates/emskin/src/state/mod.rs). smithay's selections are a list of calls; the event loop's
-- sources are the pipes that are being drained.
pub mod Pipes
pub mod Paste
use emskin.Prelude.{
  ℕ, Bool, true, false, Option, none, some, List, [], ◌∷◌, ◌++◌, Bytes, Text, ◌==◌, if◌then◌else◌,
}
use emskin.Prelude.Dict.{Dict, lookup, insert, erase, map_option}
use emskin.Clipboard.{
  SelectionKind, clipboard, primary, ClipboardEvent, host_selection_changed, host_send_request,
  source_cancelled, AsyncCompletion,
}

-- The trait `ClipboardBackend`, as far as the compositor calls it here.
pub record ClipboardBackend (B : Type 0) : Type 0 where
  pub set_host_selection : SelectionKind → List Text → B → B
  pub clear_host_selection : SelectionKind → B → B
  pub receive_from_host : SelectionKind → Text → ℕ → B → B
  pub complete_outgoing : ℕ → Bytes → B → B

pub data SelectionOrigin : Type 0 where
  wayland : SelectionOrigin
  host : SelectionOrigin

-- Calls of smithay, and descriptors that are closed.
pub data Call : Type 0 where
  clear_selection : SelectionKind → Call
  set_selection : SelectionKind → List Text → Call
  request_client_selection : SelectionKind → Text → ℕ → Call
  flush_clients : Call
  closed : ℕ → Call

pub record SelectionState (B : Type 0) : Type 0 where
  pub backend : Option B
  pub clipboard_origin : SelectionOrigin
  pub primary_origin : SelectionOrigin
  -- The bytes of each outgoing pipe so far.
  pub pipes : Dict Bytes
  pub calls : List Call

-- What a read of a pipe gives.
pub data Read : Type 0 where
  bytes_read : Bytes → Read
  end_of_file : Read
  would_block : Read
  read_error : Read

module _ {B : Type 0} where
  abbrev pub origin_of : SelectionKind → SelectionState B → SelectionOrigin
  origin_of clipboard st = st.clipboard_origin
  origin_of primary st = st.primary_origin

  abbrev pub set_origin : SelectionKind → SelectionOrigin → SelectionState B → SelectionState B
  set_origin clipboard o st = record st { clipboard_origin = o }
  set_origin primary o st = record st { primary_origin = o }

  unfoldable pub log : List Call → SelectionState B → SelectionState B
  log cs st = record st { calls = st.calls ++ cs }

  unfoldable pub with_backend : (B → B) → SelectionState B → SelectionState B
  with_backend f st = record st { backend = map_option f st.backend }

  unfoldable pub inject_host_selection :
      SelectionKind → List Text → SelectionState B → SelectionState B
  unfolding log
  inject_host_selection kind [] st = set_origin kind wayland (log (clear_selection kind ∷ []) st)
  inject_host_selection kind (mime ∷ mimes) st =
      set_origin kind host (log (set_selection kind (mime ∷ mimes) ∷ []) st)

  unfoldable pub forward_client_selection :
      SelectionKind → Text → ℕ → SelectionState B → SelectionState B
  unfolding log
  forward_client_selection kind mime fd st = elim (origin_of kind st) [
    | wayland ↦ log (request_client_selection kind mime fd ∷ []) st
    | host ↦ log (closed fd ∷ []) st
  ]

  -- `file` and the empty buffer of a new source.
  unfoldable pub register_outgoing_pipe : ℕ → SelectionState B → SelectionState B
  unfolding insert
  register_outgoing_pipe id st = record st { pipes = insert id [] st.pipes }

module _ {B : Type 0} (ops : ClipboardBackend B) where
  -- `registers` is whether the event loop takes the pipe.
  abbrev pub await_pipe : Bool → Option AsyncCompletion → SelectionState B → SelectionState B
  await_pipe registers none st = st
  await_pipe registers (some c) st =
      if registers
      then register_outgoing_pipe c.id st
      else with_backend (ops.complete_outgoing c.id []) (log (closed c.read_fd ∷ []) st)

  unfoldable pub handle_clipboard_event :
      Bool → ClipboardEvent → SelectionState B → SelectionState B
  unfolding inject_host_selection forward_client_selection register_outgoing_pipe with_backend log
  handle_clipboard_event registers (host_selection_changed kind mimes) st =
      inject_host_selection kind mimes st
  handle_clipboard_event registers (host_send_request kind mime fd completion) st =
      await_pipe registers completion
        (log (flush_clients ∷ []) (forward_client_selection kind mime fd st))
  handle_clipboard_event registers (source_cancelled kind) st = set_origin kind wayland st

  -- The end of a pipe, at the end of the file or at an error.
  unfoldable pub end_pipe : ℕ → Bytes → SelectionState B → SelectionState B
  unfolding erase with_backend
  end_pipe id bytes st =
      with_backend (ops.complete_outgoing id bytes) (record st { pipes = erase id st.pipes })

  -- A pipe with these bytes can be read: `reads` is what the reads give, and it blocks behind them.
  unfoldable pub drain : ℕ → Bytes → List Read → SelectionState B → SelectionState B
  unfolding insert end_pipe
  drain id bytes [] st = record st { pipes = insert id bytes st.pipes }
  drain id bytes (bytes_read more ∷ reads) st = drain id (bytes ++ more) reads st
  drain id bytes (end_of_file ∷ reads) st = end_pipe id bytes st
  drain id bytes (would_block ∷ reads) st = record st { pipes = insert id bytes st.pipes }
  drain id bytes (read_error ∷ reads) st = end_pipe id bytes st

  unfoldable pub pipe_ready : ℕ → List Read → SelectionState B → SelectionState B
  unfolding lookup drain
  pipe_ready id reads st = elim (lookup id st.pipes) [
    | none ↦ st
    | some bytes ↦ drain id bytes reads st
  ]

  -- A client of ours takes a selection, or gives it up.
  unfoldable pub new_selection :
      Bool → SelectionKind → Option (List Text) → SelectionState B → SelectionState B
  unfolding with_backend
  new_selection ipc_connected kind none st = with_backend (ops.clear_host_selection kind) st
  new_selection ipc_connected kind (some mimes) st =
      let st₁ = set_origin kind wayland st in
      if ipc_connected then with_backend (ops.set_host_selection kind mimes) st₁ else st₁

  -- A client of ours pastes.
  unfoldable pub send_selection : SelectionKind → Text → ℕ → SelectionState B → SelectionState B
  unfolding log
  send_selection kind mime fd st = elim (origin_of kind st) [
    | wayland ↦ log (closed fd ∷ []) st
    | host ↦ elim st.backend [
      | none ↦ log (closed fd ∷ []) st
      | some b ↦ record st { backend = some (ops.receive_from_host kind mime fd b) }
    ]
  ]
