-- ===== src/Clipboard/X11/Incoming/Chunks.antt =====
-- A client of ours pastes a large selection of the host, which comes in chunks
-- (`handle_data_reply` and `handle_incr_chunk` of crates/emskin-clipboard/src/x11.rs).
use emskin.Prelude.{ℕ, ◌≡◌, Bool, true, Option, none, some, List, [], ◌∷◌, ◌++◌, Bytes}
use emskin.Clipboard.{SelectionKind}
use emskin.Clipboard.X11.{
  Atoms, current_time, selection_atom, property_atom, wait_data, Waiting, convert_selection,
  X11ClipboardProxy, request,
}
use emskin.Clipboard.X11.Incoming.{
  GetPropertyReply, find_waiting, drop_waiting, closes_if, handle_incr_chunk,
}

abbrev pub chunk_reply : Bytes → Option GetPropertyReply
chunk_reply bytes = some (record { type_ = 0; value = bytes; value32 = none })

-- The chunks, and the empty one behind them.
unfoldable pub feed : List ℕ → ℕ → List Bytes → X11ClipboardProxy → X11ClipboardProxy
feed writes prop [] x = handle_incr_chunk (chunk_reply []) writes prop x
feed writes prop (c ∷ cs) x = feed writes prop cs (handle_incr_chunk (chunk_reply c) writes prop x)

unfoldable pub join : List Bytes → Bytes
join [] = []
join (c ∷ cs) = c ++ join cs

-- The conversion stands in front, and no other has its key.
abbrev entry : ℕ → ℕ → ℕ → Bytes → Waiting
entry sel prop fd bytes = record {
  of_selection = sel;
  of_property = prop;
  convert = wait_data fd true bytes;
}

-- The answer to the conversion: the data itself, or the word that it comes in chunks.
abbrev pub Incremental : Atoms → GetPropertyReply → Type 0
Incremental atoms reply = reply.type_ ≡ atoms.known.incr

abbrev waits_for : ℕ → ℕ → ℕ → Bool → List Waiting → List Waiting
waits_for sel prop fd incr ws =
    record { of_selection = sel; of_property = prop; convert = wait_data fd incr [] } ∷ ws

-- What the backend is once the conversion is asked for.
abbrev pub asked : Atoms → SelectionKind → ℕ → ℕ → X11ClipboardProxy → X11ClipboardProxy
asked atoms kind target fd x =
    let sel = selection_atom atoms.known kind in
    let prop = property_atom atoms.known kind in
    request
      (convert_selection sel target prop current_time
        ∷ closes_if (find_waiting sel prop x.pending_converts))
      (record x { pending_converts = drop_waiting sel prop x.pending_converts })
