-- ===== src/Clipboard/X11/Run.antt =====
-- Any sequence of what happens to the X11 backend: events of the server, and the calls of the
-- compositor (crates/emskin-clipboard/src/x11.rs).
pub mod Waiting
pub mod Unchanged
pub mod Stalled
use emskin.Prelude.{ℕ, Bool, List, [], ◌∷◌, Bytes, Text}
use emskin.Clipboard.{SelectionKind}
use emskin.Clipboard.X11.{Atoms, X11ClipboardProxy}
use emskin.Clipboard.X11.Incoming.{receive_from_host}
use emskin.Clipboard.X11.Outgoing.{
  Event, Answers, handle_event, complete_outgoing, set_host_selection, clear_host_selection,
}

pub data Call : Type 0 where
  happened : Event → Answers → Call
  -- Whether the request could be sent, and the arguments.
  receive : Bool → SelectionKind → Text → ℕ → Call
  complete : ℕ → Bytes → Call
  offer : Bool → SelectionKind → List Text → Call
  withdraw : Bool → SelectionKind → Call

unfoldable pub call : Atoms → Call → X11ClipboardProxy → X11ClipboardProxy
call atoms (happened event a) x = handle_event atoms event a x
call atoms (receive sent kind mime fd) x = receive_from_host atoms sent kind mime fd x
call atoms (complete id bytes) x = complete_outgoing atoms id bytes x
call atoms (offer sent kind mimes) x = set_host_selection atoms sent kind mimes x
call atoms (withdraw sent kind) x = clear_host_selection atoms sent kind x

unfoldable pub run : Atoms → List Call → X11ClipboardProxy → X11ClipboardProxy
unfolding call
run atoms [] x = x
run atoms (c ∷ cs) x = run atoms cs (call atoms c x)
