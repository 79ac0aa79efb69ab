-- ===== src/Clipboard/X11/Run/Unchanged.antt =====
-- What of the X11 backend does nothing to the transfers in chunks
-- (crates/emskin-clipboard/src/x11.rs).
use emskin.Prelude.{
  ℕ, ◌+◌, ◌≡◌, inl, inr, refl, Bool, true, false, Option, none, some, List, [], ◌∷◌, Bytes, Text,
  arith, Bool-cases, Option-cases, ◌==◌,
}
use emskin.Prelude.Dict.{insert}
use emskin.Clipboard.{SelectionKind, clipboard, primary, host_send_request}
use emskin.Clipboard.X11.{
  Atoms, SelectionRequestEvent, X11ClipboardProxy, request, push_event, send_notify,
  selection_kind_from_atom, mimes_of, mime_from_atom, PendingConvert, wait_targets, wait_data,
  no_atom, atom_from_mime, atom_from_mime,
}
use emskin.Clipboard.X11.Incoming.{
  XfixesSelectionNotify, GetPropertyReply, on_xfixes_notify, on_selection_notify, remove_waiting,
  insert_waiting, handle_targets_reply, handle_data_reply, converted, conversion_failed,
  write_all_to_fd, handle_incr_chunk, incr_chunk, find_chunked, finish_transfer, receive_from_host,
}
use emskin.Clipboard.X11.Outgoing.{
  set_host_selection, clear_host_selection, request_data, request_from, on_selection_request,
}
use emskin.Clipboard.X11.Run.{}

-- What does nothing to the transfers.
abbrev Same : X11ClipboardProxy → X11ClipboardProxy → Type 0
Same y x = y.incr_outgoing ≡ x.incr_outgoing

insert-Same :
    (sel prop : ℕ) (c : PendingConvert) (x : X11ClipboardProxy)
    → Same (insert_waiting sel prop c x) x
unfolding insert_waiting request
insert-Same sel prop c x = refl

pub xfixes-Same :
    (atoms : Atoms) (sent : Bool) (n : XfixesSelectionNotify) (x : X11ClipboardProxy)
    → Same (on_xfixes_notify atoms sent n x) x
unfolding on_xfixes_notify request push_event insert_waiting
xfixes-Same atoms sent n x =
    elim (Option-cases (selection_kind_from_atom atoms.known n.selection)) [
      | inl e ↦ rw (e, on_xfixes_notify) refl
      | inr (clipboard, e) ↦ rw (e, on_xfixes_notify) (ground arith)
      | inr (primary, e) ↦ rw (e, on_xfixes_notify) (ground arith)
    ]

reply-Same :
    (atoms : Atoms) (reply : Option GetPropertyReply) (writes : List ℕ) (sel prop fd : ℕ)
    (bytes : Bytes) (x : X11ClipboardProxy)
    → Same (handle_data_reply atoms reply writes sel prop fd bytes x) x
unfolding handle_data_reply write_all_to_fd request insert_waiting
reply-Same atoms none writes sel prop fd bytes x = refl
reply-Same atoms (some reply) writes sel prop fd bytes x = ground arith

converted-Same :
    (atoms : Atoms) (reply : Option GetPropertyReply) (writes : List ℕ) (sel prop : ℕ)
    (c : Option PendingConvert) (x : X11ClipboardProxy)
    → Same (converted atoms reply writes sel prop c x) x
unfolding handle_targets_reply push_event
converted-Same atoms reply writes sel prop none x = refl
converted-Same atoms none writes sel prop (some (wait_targets kind)) x = refl
converted-Same atoms (some reply) writes sel prop (some (wait_targets kind)) x = refl
converted-Same atoms reply writes sel prop (some (wait_data fd incr bytes)) x =
    reply-Same atoms reply writes sel prop fd bytes x

failed-Same : (c : Option PendingConvert) (x : X11ClipboardProxy) → Same (conversion_failed c x) x
unfolding push_event request
failed-Same none x = refl
failed-Same (some (wait_targets kind)) x = refl
failed-Same (some (wait_data fd incr bytes)) x = refl

pub notify-Same :
    (atoms : Atoms) (reply : Option GetPropertyReply) (writes : List ℕ) (sel prop : ℕ)
    (x : X11ClipboardProxy)
    → Same (on_selection_notify atoms reply writes sel prop x) x
unfolding on_selection_notify remove_waiting
notify-Same atoms reply writes sel prop x = elim (Bool-cases (prop == no_atom)) [
  | inl e ↦ rw (e, on_selection_notify) (failed-Same _ _)
  | inr e ↦ rw (e, on_selection_notify) (converted-Same atoms reply writes sel prop _ _)
]

finish-Same :
    (writes : List ℕ) (c : Option PendingConvert) (x : X11ClipboardProxy)
    → Same (finish_transfer writes c x) x
unfolding write_all_to_fd request
finish-Same writes none x = refl
finish-Same writes (some (wait_targets kind)) x = refl
finish-Same writes (some (wait_data fd incr bytes)) x = refl

chunk-Same :
    (reply : Option GetPropertyReply) (writes : List ℕ) (sel prop : ℕ) (x : X11ClipboardProxy)
    → Same (incr_chunk reply writes sel prop x) x
unfolding incr_chunk request remove_waiting
chunk-Same none writes sel prop x = refl
chunk-Same (some reply) writes sel prop x = at_value reply.value
  where
    at_value :
        (bs : Bytes) → Same (incr_chunk (some (record reply { value = bs })) writes sel prop x) x
    at_value [] = finish-Same writes _ _
    at_value (b ∷ bs) = refl

pub incr-Same :
    (reply : Option GetPropertyReply) (writes : List ℕ) (prop : ℕ) (x : X11ClipboardProxy)
    → Same (handle_incr_chunk reply writes prop x) x
unfolding handle_incr_chunk
incr-Same reply writes prop x = elim (Option-cases (find_chunked prop x.pending_converts)) [
  | inl e ↦ rw (e, handle_incr_chunk) refl
  | inr ((sel, p), e) ↦ rw (e, handle_incr_chunk) (chunk-Same reply writes sel p x)
]

data-Same :
    (atoms : Atoms) (pipe : Option (ℕ × ℕ)) (kind : SelectionKind) (req : SelectionRequestEvent)
    (x : X11ClipboardProxy)
    → Same (request_data atoms pipe kind req x) x
unfolding request_data request push_event
data-Same atoms pipe kind req x = elim (Option-cases (mime_from_atom atoms req.target)) [
  | inl e ↦ rw (e, request_data) refl
  | inr (mime, e) ↦ rw (e, request_data) (at_pipe mime pipe)
]
  where
    at_pipe :
        (mime : Text) (o : Option (ℕ × ℕ))
        → Same
            (elim o as (λ o'. X11ClipboardProxy) [
              | none ↦ request (send_notify req no_atom ∷ []) x
              | some (r, w) ↦
                  push_event
                    (host_send_request kind mime w
                      (some (record { id = x.next_outgoing_id; read_fd = r })))
                    (record x {
                      next_outgoing_id = x.next_outgoing_id + 1;
                      outgoing_requests = insert x.next_outgoing_id req x.outgoing_requests;
                    })
            ])
            x
    at_pipe mime none = refl
    at_pipe mime (some (r, w)) = refl

from-Same :
    (atoms : Atoms) (pipe : Option (ℕ × ℕ)) (kind : SelectionKind) (req : SelectionRequestEvent)
    (x : X11ClipboardProxy)
    → Same (request_from atoms pipe kind req x) x
unfolding request_from request
from-Same atoms pipe kind req x = elim (Bool-cases (req.target == atoms.known.targets)) [
  | inl e ↦ rw (e, request_from) refl
  | inr e ↦ elim (Bool-cases (req.target == atoms.known.timestamp)) [
    | inl f ↦ rw (e, f, request_from) refl
    | inr f ↦ rw (e, f, request_from) (data-Same atoms pipe kind req x)
  ]
]

pub requested-Same :
    (atoms : Atoms) (pipe : Option (ℕ × ℕ)) (req : SelectionRequestEvent) (x : X11ClipboardProxy)
    → Same (on_selection_request atoms pipe req x) x
unfolding on_selection_request request
requested-Same atoms pipe req x =
    elim (Option-cases (selection_kind_from_atom atoms.known req.selection)) [
      | inl e ↦ rw (e, on_selection_request) refl
      | inr (kind, e) ↦ rw (e, on_selection_request) (at_mimes kind (mimes_of kind x))
    ]
  where
    at_mimes :
        (kind : SelectionKind) (ms : List Text)
        → Same
            (elim ms as (λ l. X11ClipboardProxy) [
              | [] ↦ request (send_notify req no_atom ∷ []) x
              | m ∷ ms' ↦ request_from atoms pipe kind req x
            ])
            x
    at_mimes kind [] = refl
    at_mimes kind (m ∷ ms) = from-Same atoms pipe kind req x

pub receive-Same :
    (atoms : Atoms) (sent : Bool) (kind : SelectionKind) (mime : Text) (fd : ℕ)
    (x : X11ClipboardProxy)
    → Same (receive_from_host atoms sent kind mime fd x) x
unfolding receive_from_host request insert_waiting
receive-Same atoms sent kind mime fd x = elim (Option-cases (atom_from_mime atoms mime)) [
  | inl e ↦ rw (e, receive_from_host) refl
  | inr (a, e) ↦ rw (e, receive_from_host) (ground arith)
]

pub offer-Same :
    (atoms : Atoms) (sent : Bool) (kind : SelectionKind) (mimes : List Text) (x : X11ClipboardProxy)
    → Same (set_host_selection atoms sent kind mimes x) x
unfolding set_host_selection request
offer-Same atoms false kind mimes x = refl
offer-Same atoms true clipboard mimes x = refl
offer-Same atoms true primary mimes x = refl

pub withdraw-Same :
    (atoms : Atoms) (sent : Bool) (kind : SelectionKind) (x : X11ClipboardProxy)
    → Same (clear_host_selection atoms sent kind x) x
unfolding clear_host_selection request
withdraw-Same atoms false kind x = refl
withdraw-Same atoms true clipboard x = refl
withdraw-Same atoms true primary x = refl
