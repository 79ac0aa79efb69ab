-- ===== src/Clipboard/X11/Run/Stalled.antt =====
-- A selection that is too large for one piece on its way to an application of the host
-- (crates/emskin-clipboard/src/x11.rs). The next piece is sent when the application has deleted the
-- property, but the code asks the server for the property changes of its own window only.
use emskin.Prelude.{
  ℕ, ◌%◌, ◌^◌, ◌<◌, ◌≡◌, ◌≢◌, inl, inr, refl, sym, subst, ◌∙◌, true, false, some, List, [], ◌∷◌,
  ◌++◌, Bytes, ltb, lt→ltb, Bool-cases, Option-cases, length, All, ◌==◌,
}
use emskin.Prelude.Dict.{lookup, erase}
use emskin.Clipboard.X11.{
  Atoms, SelectionRequestEvent, IncrOutgoing, X11ClipboardProxy, request, change_property32,
  send_notify, incr_chunk_size,
}
use emskin.Clipboard.X11.Incoming.{receive_from_host}
use emskin.Clipboard.X11.Outgoing.{
  on_property_notify, deliver, complete_outgoing, set_host_selection, clear_host_selection, Event,
  xfixes_selection_notify, selection_notified, selection_requested, property_notify, other, Answers,
  handle_event,
}
use emskin.Clipboard.X11.Run.{Call, happened, receive, complete, offer, withdraw, call, run}
use emskin.Clipboard.X11.Run.Unchanged.{
  xfixes-Same, notify-Same, incr-Same, requested-Same, receive-Same, offer-Same, withdraw-Same,
}
use emskin.Clipboard.X11.Run.Waiting.{Waits, Waits-push, Waits-last, delete-Waits}

-- The server reports property changes of the window `w` only.
abbrev pub ReportedEvent : ℕ → Event → Type 0
ReportedEvent w (property_notify v prop deleted) = v ≡ w
ReportedEvent w (xfixes_selection_notify n) = Unit
ReportedEvent w (selection_notified sel prop) = Unit
ReportedEvent w (selection_requested req) = Unit
ReportedEvent w other = Unit

abbrev pub Reported : ℕ → Call → Type 0
Reported w (happened event a) = ReportedEvent w event
Reported w (receive sent kind mime fd) = Unit
Reported w (complete id bytes) = Unit
Reported w (offer sent kind mimes) = Unit
Reported w (withdraw sent kind) = Unit

module _ (t : IncrOutgoing) (w : ℕ) (d : w ≢ t.request.requestor) where
  Waits-Same : {ts us : List IncrOutgoing} → us ≡ ts → Waits t ts → Waits t us
  Waits-Same e h = subst (Waits t) (sym e) h

  event-Waits :
      (atoms : Atoms) (event : Event) (a : Answers) (x : X11ClipboardProxy)
      → ReportedEvent w event
      → Waits t x.incr_outgoing
      → Waits t (handle_event atoms event a x).incr_outgoing
  unfolding handle_event on_property_notify
  event-Waits atoms (xfixes_selection_notify n) a x r h =
      Waits-Same (xfixes-Same atoms a.sent n x) h
  event-Waits atoms (selection_notified sel prop) a x r h =
      Waits-Same (notify-Same atoms a.reply a.writes sel prop x) h
  event-Waits atoms (selection_requested req) a x r h =
      Waits-Same (requested-Same atoms a.pipe req x) h
  event-Waits atoms (property_notify v prop true) a x r h =
      delete-Waits t v prop (λ e. d (sym r ∙ e)) x h
  event-Waits atoms (property_notify v prop false) a x r h = elim (Bool-cases (v == x.window)) [
    | inl e ↦ rw e (Waits-Same (incr-Same a.reply a.writes prop x) h)
    | inr e ↦ rw e h
  ]
  event-Waits atoms other a x r h = h

  deliver-Waits :
      (atoms : Atoms) (req : SelectionRequestEvent) (bytes : Bytes) (x : X11ClipboardProxy)
      → Waits t x.incr_outgoing
      → Waits t (deliver atoms req bytes x).incr_outgoing
  unfolding deliver request
  deliver-Waits atoms req bytes x h = elim (Bool-cases (ltb incr_chunk_size (length bytes))) [
    | inl e ↦ rw (e, deliver) (Waits-push t _ x.incr_outgoing h)
    | inr e ↦ rw (e, deliver) h
  ]

  complete-Waits :
      (atoms : Atoms) (id : ℕ) (bytes : Bytes) (x : X11ClipboardProxy)
      → Waits t x.incr_outgoing
      → Waits t (complete_outgoing atoms id bytes x).incr_outgoing
  unfolding complete_outgoing
  complete-Waits atoms id bytes x h = elim (Option-cases (lookup id x.outgoing_requests)) [
    | inl e ↦ rw (e, complete_outgoing) h
    | inr (req, e) ↦
        rw (e, complete_outgoing)
          (deliver-Waits atoms req bytes
            (record x { outgoing_requests = erase id x.outgoing_requests }) h)
  ]

  run-Waits :
      (atoms : Atoms) (cs : List Call) (x : X11ClipboardProxy)
      → All (Reported w) cs
      → Waits t x.incr_outgoing
      → Waits t (run atoms cs x).incr_outgoing
  unfolding run call
  run-Waits atoms [] x r h = h
  run-Waits atoms (happened event a ∷ cs) x r h =
      run-Waits atoms cs (handle_event atoms event a x) r.1 (event-Waits atoms event a x r.0 h)
  run-Waits atoms (receive sent kind mime fd ∷ cs) x r h =
      run-Waits atoms cs (receive_from_host atoms sent kind mime fd x) r.1
        (Waits-Same (receive-Same atoms sent kind mime fd x) h)
  run-Waits atoms (complete id bytes ∷ cs) x r h =
      run-Waits atoms cs (complete_outgoing atoms id bytes x) r.1
        (complete-Waits atoms id bytes x h)
  run-Waits atoms (offer sent kind mimes ∷ cs) x r h =
      run-Waits atoms cs (set_host_selection atoms sent kind mimes x) r.1
        (Waits-Same (offer-Same atoms sent kind mimes x) h)
  run-Waits atoms (withdraw sent kind ∷ cs) x r h =
      run-Waits atoms cs (clear_host_selection atoms sent kind x) r.1
        (Waits-Same (withdraw-Same atoms sent kind x) h)

-- A selection of more than 64 KiB that was drained from its pipe is announced to the application
-- that asked for it, and none of its bytes is sent with that. Then, whatever events and calls come,
-- its transfer goes on waiting with all its bytes, where the server reports property changes of our
-- own window only, which is what it was asked for, and the application is not us.
pub complete_outgoing-stalls :
    (atoms : Atoms) (id : ℕ) (req : SelectionRequestEvent) (bytes : Bytes) (cs : List Call)
    (x : X11ClipboardProxy)
    → lookup id x.outgoing_requests ≡ some req
    → 65536 < length bytes
    → x.window ≢ req.requestor
    → All (Reported x.window) cs
    → let y = complete_outgoing atoms id bytes x in
      (y.requests
        ≡ x.requests
          ++ (change_property32 req.requestor req.property atoms.known.incr
                (length bytes % 2 ^ 32 ∷ [])
              ∷ send_notify req req.property
              ∷ []))
      × Waits
          (record { request = req; unsent = bytes; flush_on_delete = false })
          (run atoms cs y).incr_outgoing
unfolding complete_outgoing deliver request
complete_outgoing-stalls atoms id req bytes cs x e large d r =
    let big : ltb incr_chunk_size (length bytes) ≡ true = lt→ltb 65536 (length bytes) large in
    let t : IncrOutgoing = record { request = req; unsent = bytes; flush_on_delete = false } in
    rw (e, complete_outgoing)
      (rw (big, deliver) (refl, run-Waits t x.window d atoms cs _ r (Waits-last t x.incr_outgoing)))
