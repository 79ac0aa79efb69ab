-- ===== src/Clipboard/X11.antt =====
-- The clipboard of an X11 host (crates/emskin-clipboard/src/x11.rs): its state, and what it uses of
-- the X server. What it asks of the server and does to descriptors is a list of requests; what the
-- server and the kernel answer are arguments.
pub mod Incoming
pub mod Outgoing
pub mod Run
pub mod Echo
use emskin.Prelude.{
  ℕ, Bool, true, false, ◌&&◌, Option, none, some, List, [], ◌∷◌, ◌++◌, Bytes, Text, codes, bytes_eq,
  ◌==◌, if◌then◌else◌,
}
use emskin.Prelude.Dict.{Dict}
use emskin.Clipboard.{SelectionKind, clipboard, primary, ClipboardEvent}

abbrev pub incr_chunk_size : ℕ
incr_chunk_size = 65536

-- `NONE` and `CURRENT_TIME` of x11rb.
abbrev pub no_atom : ℕ
no_atom = 0

abbrev pub current_time : ℕ
current_time = 0

pub record ClipboardAtoms : Type 0 where
  pub clipboard_atom : ℕ
  pub primary_atom : ℕ
  pub targets : ℕ
  pub timestamp : ℕ
  pub incr : ℕ
  pub utf8_string : ℕ
  pub text : ℕ
  pub clip_sel : ℕ
  pub prim_sel : ℕ
  pub clip_init : ℕ
  pub prim_init : ℕ

-- The atoms, and the server's table of names: `get_atom_name`, `none` also for a name that is no
-- UTF-8, and `intern_atom`.
pub record Atoms : Type 0 where
  pub known : ClipboardAtoms
  pub atom_name : ℕ → Option Text
  pub intern_atom : Text → Option ℕ

abbrev pub plain : Text
plain = codes "text/plain"

abbrev pub plain_utf8 : Text
plain_utf8 = codes "text/plain;charset=utf-8"

unfoldable pub mime_from_atom : Atoms → ℕ → Option Text
mime_from_atom atoms atom =
    if atom == atoms.known.text
    then some plain
    else if atom == atoms.known.utf8_string
    then some plain_utf8
    else atoms.atom_name atom

unfoldable pub atom_from_mime : Atoms → Text → Option ℕ
atom_from_mime atoms mime =
    if bytes_eq mime plain
    then some atoms.known.text
    else if bytes_eq mime plain_utf8
    then some atoms.known.utf8_string
    else atoms.intern_atom mime

abbrev pub selection_atom : ClipboardAtoms → SelectionKind → ℕ
selection_atom atoms clipboard = atoms.clipboard_atom
selection_atom atoms primary = atoms.primary_atom

abbrev pub property_atom : ClipboardAtoms → SelectionKind → ℕ
property_atom atoms clipboard = atoms.clip_sel
property_atom atoms primary = atoms.prim_sel

unfoldable pub selection_kind_from_atom : ClipboardAtoms → ℕ → Option SelectionKind
selection_kind_from_atom atoms atom =
    if atom == atoms.clipboard_atom
    then some clipboard
    else if atom == atoms.primary_atom
    then some primary
    else none

pub record SelectionRequestEvent : Type 0 where
  pub time : ℕ
  pub requestor : ℕ
  pub selection : ℕ
  pub target : ℕ
  pub property : ℕ

-- A pending answer to `ConvertSelection`: the list of targets, or the data for a descriptor.
pub data PendingConvert : Type 0 where
  wait_targets : SelectionKind → PendingConvert
  -- The descriptor, whether the data comes in chunks, and the chunks so far.
  wait_data : ℕ → Bool → Bytes → PendingConvert

-- An entry of `pending_converts`, a map from a selection and a property.
pub record Waiting : Type 0 where
  pub of_selection : ℕ
  pub of_property : ℕ
  pub convert : PendingConvert

pub record IncrOutgoing : Type 0 where
  pub request : SelectionRequestEvent
  pub unsent : Bytes
  pub flush_on_delete : Bool

-- What goes to the server and to descriptors.
pub data Request : Type 0 where
  -- The selection, the target, the property and the time.
  convert_selection : ℕ → ℕ → ℕ → ℕ → Request
  -- The window, the property, its type and its items.
  change_property32 : ℕ → ℕ → ℕ → List ℕ → Request
  change_property8 : ℕ → ℕ → ℕ → Bytes → Request
  -- A `SelectionNotify` in answer to a request, with a property.
  send_notify : SelectionRequestEvent → ℕ → Request
  -- The owner and the selection.
  set_selection_owner : ℕ → ℕ → Request
  written : ℕ → Bytes → Request
  closed : ℕ → Request

pub record X11ClipboardProxy : Type 0 where
  pub window : ℕ
  pub our_clipboard_mimes : List Text
  pub our_primary_mimes : List Text
  pub our_clipboard_ts : ℕ
  pub our_primary_ts : ℕ
  pub pending_converts : List Waiting
  pub next_outgoing_id : ℕ
  pub outgoing_requests : Dict SelectionRequestEvent
  pub incr_outgoing : List IncrOutgoing
  pub events : List ClipboardEvent
  pub suppress_clipboard : ℕ
  pub suppress_primary : ℕ
  -- All requests so far.
  pub requests : List Request

unfoldable pub request : List Request → X11ClipboardProxy → X11ClipboardProxy
request rs x = record x { requests = x.requests ++ rs }

unfoldable pub push_event : ClipboardEvent → X11ClipboardProxy → X11ClipboardProxy
push_event event x = record x { events = x.events ++ (event ∷ []) }

abbrev pub suppress_of : SelectionKind → X11ClipboardProxy → ℕ
suppress_of clipboard x = x.suppress_clipboard
suppress_of primary x = x.suppress_primary

abbrev pub set_suppress : SelectionKind → ℕ → X11ClipboardProxy → X11ClipboardProxy
set_suppress clipboard n x = record x { suppress_clipboard = n }
set_suppress primary n x = record x { suppress_primary = n }

abbrev pub mimes_of : SelectionKind → X11ClipboardProxy → List Text
mimes_of clipboard x = x.our_clipboard_mimes
mimes_of primary x = x.our_primary_mimes

abbrev pub set_mimes : SelectionKind → List Text → X11ClipboardProxy → X11ClipboardProxy
set_mimes clipboard mimes x = record x { our_clipboard_mimes = mimes }
set_mimes primary mimes x = record x { our_primary_mimes = mimes }

abbrev pub ts_of : SelectionKind → X11ClipboardProxy → ℕ
ts_of clipboard x = x.our_clipboard_ts
ts_of primary x = x.our_primary_ts

abbrev pub set_ts : SelectionKind → ℕ → X11ClipboardProxy → X11ClipboardProxy
set_ts clipboard ts x = record x { our_clipboard_ts = ts }
set_ts primary ts x = record x { our_primary_ts = ts }
