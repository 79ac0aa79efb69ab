-- ===== src/Clipboard/X11/Outgoing.antt =====
-- Our selections for the host's applications: requests, transfers in chunks, and ownership
-- (crates/emskin-clipboard/src/x11.rs, from `on_selection_request`).
use emskin.Prelude.{
  ℕ, ◌+◌, ◌%◌, ◌^◌, Bool, true, false, ◌&&◌, Option, none, some, List, [], ◌∷◌, ◌++◌, Bytes, Text,
  take, drop, length, ltb, ◌==◌, if◌then◌else◌,
}
use emskin.Prelude.Dict.{lookup, insert, erase}
use emskin.Clipboard.{SelectionKind, host_send_request}
use emskin.Clipboard.X11.{
  incr_chunk_size, no_atom, Atoms, mime_from_atom, atom_from_mime, selection_atom,
  selection_kind_from_atom, SelectionRequestEvent, IncrOutgoing, Request, change_property32,
  change_property8, send_notify, set_selection_owner, X11ClipboardProxy, request, push_event,
  suppress_of, set_suppress, mimes_of, set_mimes, ts_of,
}
use emskin.Clipboard.X11.Incoming.{
  XfixesSelectionNotify, GetPropertyReply, on_xfixes_notify, on_selection_notify, handle_incr_chunk,
}

-- The types ATOM and INTEGER of the X protocol.
abbrev atom_type : ℕ
atom_type = 4

abbrev integer_type : ℕ
integer_type = 19

abbrev pub selection_notify : SelectionRequestEvent → Bool → Request
selection_notify req success = send_notify req (if success then req.property else no_atom)

unfoldable pub atoms_from_mimes : Atoms → List Text → List ℕ
unfolding atom_from_mime
atoms_from_mimes atoms [] = []
atoms_from_mimes atoms (mime ∷ mimes) =
    let rest = atoms_from_mimes atoms mimes in
    elim (atom_from_mime atoms mime) [ none ↦ rest | some a ↦ a ∷ rest ]

-- A pipe is its read end and its write end.
unfoldable pub request_data :
    Atoms
    → Option (ℕ × ℕ)
    → SelectionKind
    → SelectionRequestEvent
    → X11ClipboardProxy
    → X11ClipboardProxy
unfolding mime_from_atom request push_event insert
request_data atoms pipe kind req x = elim (mime_from_atom atoms req.target) [
  | none ↦ request (selection_notify req false ∷ []) x
  | some mime ↦ elim pipe [
    | none ↦ request (selection_notify req false ∷ []) x
    | some (read_fd, write_fd) ↦
        push_event
          (host_send_request kind mime write_fd
            (some (record { id = x.next_outgoing_id; read_fd = read_fd })))
          (record x {
            next_outgoing_id = x.next_outgoing_id + 1;
            outgoing_requests = insert x.next_outgoing_id req x.outgoing_requests;
          })
  ]
]

-- The request for a kind of selection that has MIME types.
unfoldable pub request_from :
    Atoms
    → Option (ℕ × ℕ)
    → SelectionKind
    → SelectionRequestEvent
    → X11ClipboardProxy
    → X11ClipboardProxy
unfolding request atoms_from_mimes request_data
request_from atoms pipe kind req x =
    if req.target == atoms.known.targets
    then request
        (change_property32 req.requestor req.property atom_type
            (atoms.known.targets ∷ atoms.known.timestamp ∷ atoms_from_mimes atoms (mimes_of kind x))
          ∷ selection_notify req true
          ∷ [])
        x
    else if req.target == atoms.known.timestamp
    then request
        (change_property32 req.requestor req.property integer_type (ts_of kind x ∷ [])
          ∷ selection_notify req true
          ∷ [])
        x
    else request_data atoms pipe kind req x

unfoldable pub on_selection_request :
    Atoms → Option (ℕ × ℕ) → SelectionRequestEvent → X11ClipboardProxy → X11ClipboardProxy
unfolding selection_kind_from_atom request request_from
on_selection_request atoms pipe req x = elim (selection_kind_from_atom atoms.known req.selection) [
  | none ↦ request (selection_notify req false ∷ []) x
  | some kind ↦ elim (mimes_of kind x) [
    | [] ↦ request (selection_notify req false ∷ []) x
    | mime ∷ mimes ↦ request_from atoms pipe kind req x
  ]
]

-- The transfer in chunks to a property of a window: the first in the list.
abbrev pub serves : ℕ → ℕ → IncrOutgoing → Bool
serves w prop t = (t.request.requestor == w) && (t.request.property == prop)

unfoldable pub transfer : ℕ → ℕ → List IncrOutgoing → Option IncrOutgoing
transfer w prop [] = none
transfer w prop (t ∷ ts) = if serves w prop t then some t else transfer w prop ts

unfoldable pub modify_transfer :
    ℕ → ℕ → (IncrOutgoing → IncrOutgoing) → List IncrOutgoing → List IncrOutgoing
modify_transfer w prop f [] = []
modify_transfer w prop f (t ∷ ts) =
    if serves w prop t then f t ∷ ts else t ∷ modify_transfer w prop f ts

unfoldable pub last_of {ℓ} : {A : Type ℓ} → A → List A → A
last_of x [] = x
last_of x (y ∷ ys) = last_of y ys

unfoldable pub init_of {ℓ} : {A : Type ℓ} → A → List A → List A
init_of x [] = []
init_of x (y ∷ ys) = x ∷ init_of y ys

-- The last takes the place of the removed, which stood in front of `ts`.
abbrev pub last_first {ℓ} : {A : Type ℓ} → List A → List A
last_first [] = []
last_first (t ∷ ts) = last_of t ts ∷ init_of t ts

unfoldable pub swap_remove : ℕ → ℕ → List IncrOutgoing → List IncrOutgoing
unfolding last_of init_of
swap_remove w prop [] = []
swap_remove w prop (t ∷ ts) = if serves w prop t then last_first ts else t ∷ swap_remove w prop ts

abbrev pub flushing : IncrOutgoing → IncrOutgoing
flushing t = record t { flush_on_delete = true }

abbrev pub without_chunk : IncrOutgoing → IncrOutgoing
without_chunk t = record t { unsent = drop incr_chunk_size t.unsent }

-- The next chunk, or the empty one behind the last.
unfoldable pub next_chunk : ℕ → ℕ → IncrOutgoing → X11ClipboardProxy → X11ClipboardProxy
unfolding request modify_transfer
next_chunk w prop t x = elim t.unsent [
  | [] ↦
      request (change_property8 w prop t.request.target [] ∷ [])
        (record x { incr_outgoing = modify_transfer w prop flushing x.incr_outgoing })
  | b ∷ bs ↦
      request (change_property8 w prop t.request.target (take incr_chunk_size (b ∷ bs)) ∷ [])
        (record x { incr_outgoing = modify_transfer w prop without_chunk x.incr_outgoing })
]

unfoldable pub handle_outgoing_property_delete : ℕ → ℕ → X11ClipboardProxy → X11ClipboardProxy
unfolding transfer swap_remove next_chunk
handle_outgoing_property_delete w prop x = elim (transfer w prop x.incr_outgoing) [
  | none ↦ x
  | some t ↦
      if t.flush_on_delete
      then record x { incr_outgoing = swap_remove w prop x.incr_outgoing }
      else next_chunk w prop t x
]

-- `deleted` is whether the property was deleted, and not set.
unfoldable pub on_property_notify :
    Option GetPropertyReply → List ℕ → ℕ → ℕ → Bool → X11ClipboardProxy → X11ClipboardProxy
unfolding handle_incr_chunk handle_outgoing_property_delete
on_property_notify reply writes w prop true x = handle_outgoing_property_delete w prop x
on_property_notify reply writes w prop false x =
    if w == x.window then handle_incr_chunk reply writes prop x else x

-- The pipe of an outgoing request is drained.
unfoldable pub deliver :
    Atoms → SelectionRequestEvent → Bytes → X11ClipboardProxy → X11ClipboardProxy
unfolding request
deliver atoms req bytes x =
    if ltb incr_chunk_size (length bytes)
    then request
        (change_property32 req.requestor req.property atoms.known.incr (length bytes % 2 ^ 32 ∷ [])
          ∷ selection_notify req true
          ∷ [])
        (record x {
          incr_outgoing =
              x.incr_outgoing
              ++ (record { request = req; unsent = bytes; flush_on_delete = false } ∷ []);
        })
    else request
        (change_property8 req.requestor req.property req.target bytes
          ∷ selection_notify req true
          ∷ [])
        x

unfoldable pub complete_outgoing : Atoms → ℕ → Bytes → X11ClipboardProxy → X11ClipboardProxy
unfolding lookup erase deliver
complete_outgoing atoms id bytes x = elim (lookup id x.outgoing_requests) [
  | none ↦ x
  | some req ↦
      deliver atoms req bytes (record x { outgoing_requests = erase id x.outgoing_requests })
]

-- A client of ours has a selection, or gives it up.
unfoldable pub set_host_selection :
    Atoms → Bool → SelectionKind → List Text → X11ClipboardProxy → X11ClipboardProxy
unfolding request
set_host_selection atoms false kind mimes x = x
set_host_selection atoms true kind mimes x = set_suppress kind (suppress_of kind x + 1) (
    set_mimes kind mimes
      (request (set_selection_owner x.window (selection_atom atoms.known kind) ∷ []) x))

unfoldable pub clear_host_selection :
    Atoms → Bool → SelectionKind → X11ClipboardProxy → X11ClipboardProxy
unfolding request
clear_host_selection atoms false kind x = x
clear_host_selection atoms true kind x =
    set_suppress kind (suppress_of kind x + 1)
      (set_mimes kind [] (request (set_selection_owner 0 (selection_atom atoms.known kind) ∷ []) x))

unfoldable pub take_events : X11ClipboardProxy → X11ClipboardProxy
take_events x = record x { events = [] }

-- An event of the server.
pub data Event : Type 0 where
  xfixes_selection_notify : XfixesSelectionNotify → Event
  -- The selection and the property.
  selection_notified : ℕ → ℕ → Event
  selection_requested : SelectionRequestEvent → Event
  -- The window, the property, and whether it was deleted.
  property_notify : ℕ → ℕ → Bool → Event
  other : Event

-- What server and kernel answer while an event is handled.
pub record Answers : Type 0 where
  pub sent : Bool
  pub reply : Option GetPropertyReply
  pub writes : List ℕ
  pub pipe : Option (ℕ × ℕ)

unfoldable pub handle_event : Atoms → Event → Answers → X11ClipboardProxy → X11ClipboardProxy
unfolding on_xfixes_notify on_selection_notify on_selection_request on_property_notify
handle_event atoms (xfixes_selection_notify n) a x = on_xfixes_notify atoms a.sent n x
handle_event atoms (selection_notified sel prop) a x =
    on_selection_notify atoms a.reply a.writes sel prop x
handle_event atoms (selection_requested req) a x = on_selection_request atoms a.pipe req x
handle_event atoms (property_notify w prop deleted) a x =
    on_property_notify a.reply a.writes w prop deleted x
handle_event atoms other a x = x

-- `dispatch`: all events that are there.
unfoldable pub dispatch : Atoms → List (Event × Answers) → X11ClipboardProxy → X11ClipboardProxy
unfolding handle_event
dispatch atoms [] x = x
dispatch atoms ((event, a) ∷ events) x = dispatch atoms events (handle_event atoms event a x)
