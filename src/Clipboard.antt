-- ===== src/Clipboard.antt =====
-- The clipboard of the host: what its backends share (crates/emskin-clipboard/src/backend.rs). A
-- text is its bytes, and a descriptor is a number.
pub mod X11
pub mod Bridge
pub mod DataControl
use emskin.Prelude.{ℕ, Bool, true, false, Option, List, Text}

pub data SelectionKind : Type 0 where
  clipboard : SelectionKind
  primary : SelectionKind

abbrev pub same_kind : SelectionKind → SelectionKind → Bool
same_kind clipboard clipboard = true
same_kind clipboard primary = false
same_kind primary clipboard = false
same_kind primary primary = true

pub record AsyncCompletion : Type 0 where
  pub id : ℕ
  pub read_fd : ℕ

pub data ClipboardEvent : Type 0 where
  -- The kind and the MIME types.
  host_selection_changed : SelectionKind → List Text → ClipboardEvent
  -- The kind, the MIME type and the descriptor to write to.
  host_send_request : SelectionKind → Text → ℕ → Option AsyncCompletion → ClipboardEvent
  source_cancelled : SelectionKind → ClipboardEvent
