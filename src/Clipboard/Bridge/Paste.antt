-- ===== src/Clipboard/Bridge/Paste.antt =====
-- An application of an X11 host pastes a selection of a client of ours: from its request over the
-- pipe to its property (crates/emskin/src/clipboard_bridge.rs, crates/emskin-clipboard/src/x11.rs).
use emskin.Prelude.{
  ltb, le→ltb, false, ℕ, ◌+◌, ◌≤◌, ◌≡◌, ◌≢◌, refl, ap, true, some, List, [], ◌∷◌, ◌++◌, Bytes, Text,
  map, length, ==_ne,
}
use emskin.Prelude.Dict.{insert, map_option, lookup-insert_self}
use emskin.Clipboard.{SelectionKind, ClipboardEvent, host_send_request}
use emskin.Clipboard.X11.{
  Atoms, mime_from_atom, selection_kind_from_atom, SelectionRequestEvent, X11ClipboardProxy,
  push_event, mimes_of, incr_chunk_size, change_property8, send_notify, request,
}
use emskin.Clipboard.X11.Incoming
use emskin.Clipboard.X11.Outgoing.{
  deliver, request_data, request_from, on_selection_request, complete_outgoing, set_host_selection,
  clear_host_selection,
}
use emskin.Clipboard.Bridge.{
  ClipboardBackend, SelectionState, Read, bytes_read, handle_clipboard_event, pipe_ready, origin_of,
  forward_client_selection, wayland, log, flush_clients, request_client_selection,
}
use emskin.Clipboard.Bridge.Pipes.{join, rounds, all_of, Ends, pipe-completes}

-- The X11 backend, whose requests can be sent.
abbrev pub x11_backend : Atoms → ClipboardBackend X11ClipboardProxy
x11_backend atoms = record {
  set_host_selection = set_host_selection atoms true;
  clear_host_selection = clear_host_selection atoms true;
  receive_from_host = Incoming.receive_from_host atoms true;
  complete_outgoing = complete_outgoing atoms;
}

-- The application asks for a type of a selection that has types, and the type is that of an atom.
abbrev pub Asks :
    Atoms
    → SelectionRequestEvent
    → SelectionKind
    → Text
    → List Text
    → Text
    → X11ClipboardProxy
    → Type 0
Asks atoms req kind first others mime x =
    (selection_kind_from_atom atoms.known req.selection ≡ some kind)
    × (mimes_of kind x ≡ first ∷ others)
    × (req.target ≢ atoms.known.targets)
    × (req.target ≢ atoms.known.timestamp)
    × (mime_from_atom atoms req.target ≡ some mime)

module _ (atoms : Atoms) (req : SelectionRequestEvent) (kind : SelectionKind) (first : Text)
    (others : List Text) (mime : Text) (r w : ℕ) (x : X11ClipboardProxy) where
  abbrev pub event : ClipboardEvent
  event = host_send_request kind mime w (some (record { id = x.next_outgoing_id; read_fd = r }))

  -- The backend with the request in its table, and the event in its queue.
  on_selection_request-Asks :
      Asks atoms req kind first others mime x
      → on_selection_request atoms (some (r, w)) req x
        ≡ push_event event (record x {
          next_outgoing_id = x.next_outgoing_id + 1;
          outgoing_requests = insert x.next_outgoing_id req x.outgoing_requests;
        })
  unfolding on_selection_request request_from request_data
  on_selection_request-Asks (k, ms, t₁, t₂, m) =
      rw (k, on_selection_request)
        (rw (ms, request_from)
          (rw (==_ne req.target atoms.known.targets t₁, ==_ne req.target atoms.known.timestamp t₂)
            (rw (m, request_data) refl)))

  delivered :
      (bytes : Bytes)
      → Asks atoms req kind first others mime x
      → length bytes ≤ 65536
      → (complete_outgoing atoms x.next_outgoing_id bytes
          (on_selection_request atoms (some (r, w)) req x)).requests
        ≡ x.requests
          ++ (change_property8 req.requestor req.property req.target bytes
              ∷ send_notify req req.property
              ∷ [])
  unfolding push_event complete_outgoing deliver request
  delivered bytes a short =
      let small : ltb incr_chunk_size (length bytes) ≡ false = le→ltb 65536 (length bytes) short in
      rw (on_selection_request-Asks a) (
        rw (lookup-insert_self x.next_outgoing_id req x.outgoing_requests, complete_outgoing)
          (rw (small, deliver) refl))

  -- An application of the host pastes a selection of a client of ours of at most 64 KiB. The client
  -- is asked for the data, once; and whatever it writes into the pipe, in whatever pieces it is
  -- read, up to its end, or up to an error, is put into the property of the application, all of it
  -- and in order, and then the application is told. The selection has types, the application asks
  -- for data of a type that is known, and the event loop takes the pipe.
  pub paste-received :
      (st : SelectionState X11ClipboardProxy) (rs : List (List Bytes)) (chunks : List Bytes)
      (last : Read)
      → Asks atoms req kind first others mime x
      → st.backend ≡ some (on_selection_request atoms (some (r, w)) req x)
      → origin_of kind st ≡ wayland
      → Ends (x11_backend atoms) x.next_outgoing_id last
      → length (all_of (x11_backend atoms) x.next_outgoing_id rs ++ join chunks) ≤ 65536
      → let ops = x11_backend atoms in
        let id = x.next_outgoing_id in
        let st' =
          pipe_ready ops id
            (map bytes_read chunks ++ (last ∷ []))
            (rounds ops id rs (handle_clipboard_event ops true event st)) in
        (y : X11ClipboardProxy) × (st'.backend ≡ some y)
        × (st'.calls
            ≡ (st.calls ++ (request_client_selection kind mime w ∷ [])) ++ (flush_clients ∷ []))
        × (y.requests
            ≡ x.requests
              ++ (change_property8 req.requestor req.property req.target
                    (all_of ops id rs ++ join chunks)
                  ∷ send_notify req req.property
                  ∷ []))
  unfolding handle_clipboard_event forward_client_selection log
  paste-received st rs chunks last a here own e short =
      let bytes = all_of (x11_backend atoms) x.next_outgoing_id rs ++ join chunks in
      let st₁ = log (flush_clients ∷ []) (log (request_client_selection kind mime w ∷ []) st) in
      rw (own, forward_client_selection)
        (rw (pipe-completes (x11_backend atoms) x.next_outgoing_id rs chunks last st₁ e) (
          complete_outgoing atoms x.next_outgoing_id bytes
              (on_selection_request atoms (some (r, w)) req x),
          ap (map_option (complete_outgoing atoms x.next_outgoing_id bytes)) here,
          refl,
          delivered bytes a short,
        ))
