-- ===== src/Clipboard/X11/Incoming.antt =====
-- The selections of the host's applications: their changes, their MIME types and their data
-- (crates/emskin-clipboard/src/x11.rs, from `on_xfixes_notify` to `handle_incr_chunk`).
pub mod Chunks
pub mod Refused
use emskin.Prelude.{
  ℕ, ◌-◌, Bool, true, false, not, ◌&&◌, Option, none, some, List, [], ◌∷◌, ◌++◌, Bytes, Text, take,
  drop, ltb, ◌==◌, if◌then◌else◌,
}
use emskin.Clipboard.{SelectionKind, clipboard, primary, host_selection_changed}
use emskin.Clipboard.X11.{
  Atoms, no_atom, current_time, mime_from_atom, atom_from_mime, selection_atom, property_atom,
  selection_kind_from_atom, PendingConvert, wait_targets, wait_data, Waiting, Request,
  convert_selection, written, closed, X11ClipboardProxy, request, push_event, suppress_of,
  set_suppress, set_ts,
}

pub record XfixesSelectionNotify : Type 0 where
  pub owner : ℕ
  pub selection : ℕ
  pub selection_timestamp : ℕ

-- What the code reads of a property: `value32` is `none` where its format is another.
pub record GetPropertyReply : Type 0 where
  pub type_ : ℕ
  pub value : Bytes
  pub value32 : Option (List ℕ)

-- The map of pending conversions, by their selection and property.
abbrev pub is_waiting : ℕ → ℕ → Waiting → Bool
is_waiting sel prop w = (w.of_selection == sel) && (w.of_property == prop)

unfoldable pub find_waiting : ℕ → ℕ → List Waiting → Option PendingConvert
find_waiting sel prop [] = none
find_waiting sel prop (w ∷ ws) =
    if is_waiting sel prop w then some w.convert else find_waiting sel prop ws

unfoldable pub drop_waiting : ℕ → ℕ → List Waiting → List Waiting
drop_waiting sel prop [] = []
drop_waiting sel prop (w ∷ ws) = if is_waiting sel prop w then ws else w ∷ drop_waiting sel prop ws

-- The descriptor of a conversion that is dropped is closed.
abbrev pub closes : PendingConvert → List Request
closes (wait_targets kind) = []
closes (wait_data fd incr bytes) = closed fd ∷ []

abbrev pub closes_if : Option PendingConvert → List Request
closes_if none = []
closes_if (some c) = closes c

unfoldable pub insert_waiting : ℕ → ℕ → PendingConvert → X11ClipboardProxy → X11ClipboardProxy
unfolding find_waiting drop_waiting request
insert_waiting sel prop c x =
    request (closes_if (find_waiting sel prop x.pending_converts)) (record x {
      pending_converts =
          record { of_selection = sel; of_property = prop; convert = c }
          ∷ drop_waiting sel prop x.pending_converts;
    })

unfoldable pub remove_waiting : ℕ → ℕ → X11ClipboardProxy → X11ClipboardProxy
unfolding drop_waiting
remove_waiting sel prop x = record x { pending_converts = drop_waiting sel prop x.pending_converts }

-- `sent` is whether the request could be sent.
unfoldable pub on_xfixes_notify :
    Atoms → Bool → XfixesSelectionNotify → X11ClipboardProxy → X11ClipboardProxy
unfolding selection_kind_from_atom push_event request insert_waiting
on_xfixes_notify atoms sent n x = elim (selection_kind_from_atom atoms.known n.selection) [
  | none ↦ x
  | some kind ↦
      if n.owner == x.window
      then set_ts kind n.selection_timestamp x
      else if ltb 0 (suppress_of kind x)
      then set_suppress kind (suppress_of kind x - 1) x
      else if n.owner == 0
      then push_event (host_selection_changed kind []) x
      else if sent
      then insert_waiting n.selection (property_atom atoms.known kind) (wait_targets kind) (
          request
            (convert_selection n.selection atoms.known.targets (property_atom atoms.known kind)
                n.selection_timestamp
              ∷ [])
            x)
      else x
]

-- The MIME types of the atoms that have one.
unfoldable pub mimes_from_atoms : Atoms → List ℕ → List Text
unfolding mime_from_atom
mimes_from_atoms atoms [] = []
mimes_from_atoms atoms (a ∷ others) =
    let rest = mimes_from_atoms atoms others in
    elim (mime_from_atom atoms a) [ none ↦ rest | some mime ↦ mime ∷ rest ]

abbrev pub target_mimes : Atoms → Option (List ℕ) → List Text
target_mimes atoms none = []
target_mimes atoms (some listed) = mimes_from_atoms atoms listed

unfoldable pub handle_targets_reply :
    Atoms → SelectionKind → Option GetPropertyReply → X11ClipboardProxy → X11ClipboardProxy
unfolding push_event mimes_from_atoms
handle_targets_reply atoms kind none x = x
handle_targets_reply atoms kind (some reply) x =
    push_event (host_selection_changed kind (target_mimes atoms reply.value32)) x

-- The bytes that go out: the answers are the sizes that `write` returns, 0 for an error, and a write
-- behind the last answer fails.
unfoldable pub write_all : List ℕ → Bytes → Bytes
write_all [] bytes = []
write_all (n ∷ ns) [] = []
write_all (n ∷ ns) (b ∷ bs) =
    let rest = write_all ns (drop n (b ∷ bs)) in if n == 0 then [] else take n (b ∷ bs) ++ rest

-- The descriptor is written to and closed.
unfoldable pub write_all_to_fd : List ℕ → ℕ → Bytes → X11ClipboardProxy → X11ClipboardProxy
unfolding write_all request
write_all_to_fd writes fd bytes x = request (written fd (write_all writes bytes) ∷ closed fd ∷ []) x

unfoldable pub handle_data_reply :
    Atoms
    → Option GetPropertyReply
    → List ℕ
    → ℕ
    → ℕ
    → ℕ
    → Bytes
    → X11ClipboardProxy
    → X11ClipboardProxy
unfolding request insert_waiting write_all_to_fd
handle_data_reply atoms none writes sel prop fd bytes x = request (closed fd ∷ []) x
handle_data_reply atoms (some reply) writes sel prop fd bytes x =
    if reply.type_ == atoms.known.incr
    then insert_waiting sel prop (wait_data fd true []) x
    else write_all_to_fd writes fd (bytes ++ reply.value) x

-- The conversion failed: only what waits for targets is reported.
abbrev pub conversion_failed : Option PendingConvert → X11ClipboardProxy → X11ClipboardProxy
conversion_failed none x = x
conversion_failed (some (wait_targets kind)) x = push_event (host_selection_changed kind []) x
conversion_failed (some (wait_data fd incr bytes)) x = request (closed fd ∷ []) x

abbrev pub converted :
    Atoms
    → Option GetPropertyReply
    → List ℕ
    → ℕ
    → ℕ
    → Option PendingConvert
    → X11ClipboardProxy
    → X11ClipboardProxy
converted atoms reply writes sel prop none x = x
converted atoms reply writes sel prop (some (wait_targets kind)) x =
    handle_targets_reply atoms kind reply x
converted atoms reply writes sel prop (some (wait_data fd incr bytes)) x =
    handle_data_reply atoms reply writes sel prop fd bytes x

unfoldable pub on_selection_notify :
    Atoms → Option GetPropertyReply → List ℕ → ℕ → ℕ → X11ClipboardProxy → X11ClipboardProxy
unfolding find_waiting remove_waiting push_event request handle_targets_reply handle_data_reply
on_selection_notify atoms reply writes sel prop x =
    let pending = find_waiting sel prop x.pending_converts in
    let x₁ = remove_waiting sel prop x in
    if prop == no_atom
    then conversion_failed pending x₁
    else converted atoms reply writes sel prop pending x₁

-- The transfer in chunks to a property of our window.
abbrev pub chunked : PendingConvert → Bool
chunked (wait_targets kind) = false
chunked (wait_data fd incr bytes) = incr

unfoldable pub find_chunked : ℕ → List Waiting → Option (ℕ × ℕ)
find_chunked prop [] = none
find_chunked prop (w ∷ ws) =
    if (w.of_property == prop) && chunked w.convert
    then some (w.of_selection, w.of_property)
    else find_chunked prop ws

abbrev pub add_chunk : Bytes → PendingConvert → PendingConvert
add_chunk chunk (wait_targets kind) = wait_targets kind
add_chunk chunk (wait_data fd incr bytes) = wait_data fd incr (bytes ++ chunk)

-- `get_mut`
unfoldable pub modify_waiting :
    ℕ → ℕ → (PendingConvert → PendingConvert) → List Waiting → List Waiting
modify_waiting sel prop f [] = []
modify_waiting sel prop f (w ∷ ws) =
    let rest = modify_waiting sel prop f ws in
    if is_waiting sel prop w then record w { convert = f w.convert } ∷ rest else w ∷ rest

abbrev pub finish_transfer : List ℕ → Option PendingConvert → X11ClipboardProxy → X11ClipboardProxy
finish_transfer writes none x = x
finish_transfer writes (some (wait_targets kind)) x = x
finish_transfer writes (some (wait_data fd incr bytes)) x = write_all_to_fd writes fd bytes x

-- The chunk for the transfer with this key. An empty chunk ends it.
unfoldable pub incr_chunk :
    Option GetPropertyReply → List ℕ → ℕ → ℕ → X11ClipboardProxy → X11ClipboardProxy
unfolding find_waiting remove_waiting request write_all_to_fd modify_waiting
incr_chunk none writes sel prop x =
    request (closes_if (find_waiting sel prop x.pending_converts)) (remove_waiting sel prop x)
incr_chunk (some reply) writes sel prop x = elim reply.value [
  | [] ↦
      finish_transfer writes (find_waiting sel prop x.pending_converts) (remove_waiting sel prop x)
  | b ∷ bs ↦ record x {
    pending_converts = modify_waiting sel prop (add_chunk (b ∷ bs)) x.pending_converts;
  }
]

unfoldable pub handle_incr_chunk :
    Option GetPropertyReply → List ℕ → ℕ → X11ClipboardProxy → X11ClipboardProxy
unfolding find_chunked incr_chunk
handle_incr_chunk reply writes prop x = elim (find_chunked prop x.pending_converts) [
  | none ↦ x
  | some (sel, q) ↦ incr_chunk reply writes sel q x
]

-- A client of ours pastes: `fd` is what it reads from.
unfoldable pub receive_from_host :
    Atoms → Bool → SelectionKind → Text → ℕ → X11ClipboardProxy → X11ClipboardProxy
unfolding atom_from_mime request insert_waiting
receive_from_host atoms sent kind mime fd x =
    let sel = selection_atom atoms.known kind in
    let prop = property_atom atoms.known kind in
    elim (atom_from_mime atoms mime) [
      | none ↦ request (closed fd ∷ []) x
      | some target ↦
          if sent
          then insert_waiting sel prop (wait_data fd false [])
              (request (convert_selection sel target prop current_time ∷ []) x)
          else request (closed fd ∷ []) x
    ]
