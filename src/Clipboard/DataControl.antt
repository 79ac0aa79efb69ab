-- ===== src/Clipboard/DataControl.antt =====
-- The clipboard of a Wayland host that has a data-control protocol
-- (crates/emskin-clipboard/src/data_control.rs). Offers and sources are the numbers of their
-- objects; what the code asks of the host is a list of requests.
pub mod Offers
pub mod Rounds
use emskin.Prelude.{
  ℕ, ◌+◌, ◌-◌, Bool, true, false, Option, none, some, List, [], ◌∷◌, ◌++◌, Text, ltb, if◌then◌else◌,
}
use emskin.Prelude.Dict.{Dict, lookup, insert, modify}
use emskin.Clipboard.{
  SelectionKind, clipboard, primary, ClipboardEvent, host_selection_changed, host_send_request,
  source_cancelled,
}

pub data Request : Type 0 where
  create_data_source : ℕ → SelectionKind → Request
  -- The source and a MIME type.
  offer_mime : ℕ → Text → Request
  set_selection : SelectionKind → Option ℕ → Request
  -- The offer, the MIME type and the descriptor.
  receive : ℕ → Text → ℕ → Request
  destroy_offer : ℕ → Request
  destroy_source : ℕ → Request
  flush : Request

pub record ClipboardState : Type 0 where
  pub has_manager : Bool
  pub has_device : Bool
  pub clipboard_offer : Option ℕ
  pub primary_offer : Option ℕ
  -- The MIME types of the offers that come in.
  pub pending_offers : Dict (List Text)
  pub clipboard_source : Option ℕ
  pub primary_source : Option ℕ
  pub events : List ClipboardEvent
  pub suppress_clipboard : ℕ
  pub suppress_primary : ℕ
  -- All requests so far.
  pub requests : List Request

unfoldable pub ask : List Request → ClipboardState → ClipboardState
ask rs s = record s { requests = s.requests ++ rs }

abbrev pub suppress_of : SelectionKind → ClipboardState → ℕ
suppress_of clipboard s = s.suppress_clipboard
suppress_of primary s = s.suppress_primary

abbrev pub set_suppress : SelectionKind → ℕ → ClipboardState → ClipboardState
set_suppress clipboard n s = record s { suppress_clipboard = n }
set_suppress primary n s = record s { suppress_primary = n }

abbrev pub offer_of : SelectionKind → ClipboardState → Option ℕ
offer_of clipboard s = s.clipboard_offer
offer_of primary s = s.primary_offer

abbrev pub set_offer : SelectionKind → Option ℕ → ClipboardState → ClipboardState
set_offer clipboard o s = record s { clipboard_offer = o }
set_offer primary o s = record s { primary_offer = o }

abbrev pub source_of : SelectionKind → ClipboardState → Option ℕ
source_of clipboard s = s.clipboard_source
source_of primary s = s.primary_source

abbrev pub set_source : SelectionKind → Option ℕ → ClipboardState → ClipboardState
set_source clipboard o s = record s { clipboard_source = o }
set_source primary o s = record s { primary_source = o }

abbrev pub destroy_offers : Option ℕ → List Request
destroy_offers none = []
destroy_offers (some o) = destroy_offer o ∷ []

abbrev pub destroy_sources : Option ℕ → List Request
destroy_sources none = []
destroy_sources (some o) = destroy_source o ∷ []

unfoldable pub on_data_offer : ℕ → ClipboardState → ClipboardState
unfolding insert
on_data_offer id s = record s { pending_offers = insert id [] s.pending_offers }

unfoldable pub on_offer_mime : ℕ → Text → ClipboardState → ClipboardState
unfolding modify
on_offer_mime id mime s = record s {
  pending_offers = modify id (λ mimes. mimes ++ (mime ∷ [])) s.pending_offers;
}

-- `unwrap_or_default`
abbrev pub or_empty : Option (List Text) → List Text
or_empty none = []
or_empty (some mimes) = mimes

abbrev pub mimes_of : Option ℕ → Dict (List Text) → List Text
mimes_of none d = []
mimes_of (some id) d = or_empty (lookup id d)

-- The counter is tested and the event is pushed.
abbrev pub report : SelectionKind → List Text → ClipboardState → ClipboardState
report kind mimes s =
    if ltb 0 (suppress_of kind s)
    then set_suppress kind (suppress_of kind s - 1) s
    else record s { events = s.events ++ (host_selection_changed kind mimes ∷ []) }

unfoldable pub on_selection : SelectionKind → Option ℕ → ClipboardState → ClipboardState
unfolding lookup ask
on_selection kind new_offer s = report kind (mimes_of new_offer s.pending_offers) (
    set_offer kind new_offer
      (ask (destroy_offers (offer_of kind s)) (record s { pending_offers = [] })))

unfoldable pub on_device_finished : ClipboardState → ClipboardState
on_device_finished s = record s { has_device = false }

unfoldable pub on_source_send : SelectionKind → Text → ℕ → ClipboardState → ClipboardState
on_source_send role mime fd s = record s {
  events = s.events ++ (host_send_request role mime fd none ∷ []);
}

unfoldable pub on_source_cancelled : SelectionKind → ClipboardState → ClipboardState
unfolding ask
on_source_cancelled role s = set_source role none (
    ask (destroy_sources (source_of role s))
      (record s { events = s.events ++ (source_cancelled role ∷ []) }))

unfoldable pub take_events : ClipboardState → ClipboardState
take_events s = record s { events = [] }

-- `fd` is closed in any case when the call is over.
unfoldable pub receive_from_host : SelectionKind → Text → ℕ → ClipboardState → ClipboardState
unfolding ask
receive_from_host kind mime fd s = elim (offer_of kind s) [
  | none ↦ s
  | some offer ↦ ask (receive offer mime fd ∷ flush ∷ []) s
]

abbrev pub offer_mimes : ℕ → List Text → List Request
offer_mimes source [] = []
offer_mimes source (mime ∷ mimes) = offer_mime source mime ∷ offer_mimes source mimes

-- `source` is the number of the object that is made.
unfoldable pub set_host_selection : ℕ → SelectionKind → List Text → ClipboardState → ClipboardState
unfolding ask
set_host_selection source kind mimes s =
    if s.has_manager
    then if s.has_device
      then set_suppress kind (suppress_of kind s + 1) (
          set_source kind (some source) (
            ask
              (create_data_source source kind
                ∷ (offer_mimes source mimes
                    ++ (set_selection kind (some source)
                        ∷ (destroy_sources (source_of kind s) ++ (flush ∷ [])))))
              s))
      else s
    else s

unfoldable pub clear_host_selection : SelectionKind → ClipboardState → ClipboardState
unfolding ask
clear_host_selection kind s =
    if s.has_device
    then set_suppress kind (suppress_of kind s + 1) (
        set_source kind none
          (ask (set_selection kind none ∷ (destroy_sources (source_of kind s) ++ (flush ∷ []))) s))
    else s

-- `Drop`: what is held is destroyed.
unfoldable pub released : ClipboardState → List Request
released s =
    destroy_offers s.clipboard_offer
    ++ (destroy_offers s.primary_offer
        ++ (destroy_sources s.clipboard_source ++ destroy_sources s.primary_source))
