-- ===== src/Runs/Clip.antt =====
-- The theorems on the clipboard, on concrete states.
use emskin.Prelude.{
  zero, suc, replicate, ◌%◌, ◌^◌, ℕ, ◌≡◌, inl, refl, arith, true, false, none, some, List, [], ◌∷◌,
  ◌++◌, Bytes, map, length,
}
use emskin.Prelude.Dict.{lookup, insert}
use emskin.Clipboard.{clipboard, primary}
use emskin.Clipboard.X11.{
  change_property8, change_property32, send_notify, Atoms, wait_data, plain, SelectionRequestEvent,
  X11ClipboardProxy, mime_from_atom, selection_atom, selection_kind_from_atom, request, no_atom,
  suppress_of, set_selection_owner,
}
use emskin.Clipboard.X11.Incoming.{GetPropertyReply, on_selection_notify}
use emskin.Clipboard.X11.Incoming.Chunks.{join}
use emskin.Clipboard.X11.Incoming.Refused.{on_selection_notify-refused}
use emskin.Clipboard.X11.Outgoing.{
  property_notify, Answers, complete_outgoing, on_selection_request,
}
use emskin.Clipboard.X11.Echo.{ours_and_theirs, set_host_selection-hides}
use emskin.Clipboard.X11.Run.{Call, happened, receive, withdraw, run}
use emskin.Clipboard.X11.Run.Waiting.{Waits}
use emskin.Clipboard.X11.Run.Stalled.{complete_outgoing-stalls}
use emskin.Clipboard.DataControl
use emskin.Clipboard.DataControl.{ClipboardState}
use emskin.Clipboard.DataControl.Offers.{new_offer, has_mime}
use emskin.Clipboard.DataControl.Rounds.{Round, ours, theirs, set_to, play, foreign, play-reports}
use emskin.Clipboard.Bridge.{
  SelectionState, wayland, end_of_file, bytes_read, handle_clipboard_event, pipe_ready,
  request_client_selection, flush_clients,
}
use emskin.Clipboard.Bridge.Pipes
use emskin.Clipboard.Bridge.Pipes.{rounds, all_of}
use emskin.Clipboard.Bridge.Paste.{x11_backend, event, paste-received}

abbrev atoms : Atoms
atoms = record {
  known = record {
    clipboard_atom = 1;
    primary_atom = 2;
    targets = 3;
    timestamp = 4;
    incr = 5;
    utf8_string = 6;
    text = 7;
    clip_sel = 8;
    prim_sel = 9;
    clip_init = 10;
    prim_init = 11;
  };
  atom_name = λ a. none;
  intern_atom = λ mime. none;
}

abbrev proxy : X11ClipboardProxy
proxy = record {
  window = 50;
  our_clipboard_mimes = plain ∷ [];
  our_primary_mimes = [];
  our_clipboard_ts = 0;
  our_primary_ts = 0;
  pending_converts = [];
  next_outgoing_id = 1;
  outgoing_requests = [];
  incr_outgoing = [];
  events = [];
  suppress_clipboard = 0;
  suppress_primary = 0;
  requests = [];
}

-- The window 100 asks for the text of the clipboard in its property 200.
abbrev asks : SelectionRequestEvent
asks = record { time = 0; requestor = 100; selection = 1; target = 7; property = 200 }

abbrev with_request : X11ClipboardProxy
with_request = record proxy { outgoing_requests = insert 1 asks [] }

requested : lookup 1 with_request.outgoing_requests ≡ some asks
unfolding insert lookup
requested = refl

abbrev calm : Answers
calm = record { sent = true; reply = none; writes = []; pipe = none }

length-fives : (n : ℕ) → length (replicate {A = ℕ} n 5) ≡ n
unfolding length replicate
length-fives zero = refl
length-fives (suc n) = omega (arith, length-fives n)

abbrev large : Bytes
large = replicate {A = ℕ} 65537 5

-- The application deletes its property, which is not reported; a property of our own is.
abbrev later : List Call
later =
    happened (property_notify 50 8 true) calm
    ∷ receive true clipboard plain 30
    ∷ withdraw true clipboard
    ∷ []

complete_outgoing-stalls_example :
    let y = complete_outgoing atoms 1 large with_request in
    (y.requests
      ≡ []
        ++ (change_property32 100 200 5 (length large % 2 ^ 32 ∷ []) ∷ send_notify asks 200 ∷ []))
    × Waits
        (record { request = asks; unsent = large; flush_on_delete = false })
        (run atoms later y).incr_outgoing
complete_outgoing-stalls_example =
    complete_outgoing-stalls atoms 1 asks large later with_request requested
      (omega (arith, length-fives 65537)) (omega arith) (refl, (tt, (tt, tt)))

abbrev at_request : SelectionState X11ClipboardProxy
at_request = record {
  backend = some (on_selection_request atoms (some (20, 21)) asks proxy);
  clipboard_origin = wayland;
  primary_origin = wayland;
  pipes = [];
  calls = [];
}

abbrev first_round : List (List Bytes)
first_round = ((5 ∷ []) ∷ (6 ∷ []) ∷ []) ∷ []

abbrev last_round : List Bytes
last_round = (7 ∷ 8 ∷ []) ∷ []

kind_of_asks : selection_kind_from_atom atoms.known 1 ≡ some clipboard
unfolding selection_kind_from_atom
kind_of_asks = refl

mime_of_asks : mime_from_atom atoms 7 ≡ some plain
unfolding mime_from_atom
mime_of_asks = refl

four_bytes : length (all_of (x11_backend atoms) 1 first_round ++ Pipes.join last_round) ≡ 4
unfolding all_of Pipes.join
four_bytes = refl

abbrev after_paste : SelectionState X11ClipboardProxy
after_paste = pipe_ready (x11_backend atoms) 1 (map bytes_read last_round ++ (end_of_file ∷ [])) (
    rounds (x11_backend atoms) 1 first_round (
      handle_clipboard_event (x11_backend atoms) true
        (event atoms asks clipboard plain [] plain 20 21 proxy) at_request))

paste-received_example :
    (y : X11ClipboardProxy) × (after_paste.backend ≡ some y)
    × (after_paste.calls
        ≡ ([] ++ (request_client_selection clipboard plain 21 ∷ [])) ++ (flush_clients ∷ []))
    × (y.requests
        ≡ []
          ++ (change_property8 100 200 7
                (all_of (x11_backend atoms) 1 first_round ++ Pipes.join last_round)
              ∷ send_notify asks 200
              ∷ []))
paste-received_example =
    paste-received atoms asks clipboard plain [] plain 20 21 proxy at_request first_round last_round
      end_of_file (kind_of_asks, refl, omega arith, omega arith, mime_of_asks) refl refl (inl refl)
      (omega (arith, four_bytes))

abbrev in_chunks : GetPropertyReply
in_chunks = record { type_ = 5; value = []; value32 = none }

abbrev two_chunks : List Bytes
two_chunks = (5 ∷ 6 ∷ []) ∷ (7 ∷ []) ∷ []

-- The answer to a paste refuses it.
abbrev waiting : X11ClipboardProxy
waiting = record proxy {
  pending_converts =
      record { of_selection = 1; of_property = 8; convert = wait_data 30 false [] } ∷ [];
}

on_selection_notify-refused_example : on_selection_notify atoms none [] 1 no_atom waiting ≡ waiting
on_selection_notify-refused_example =
    on_selection_notify-refused atoms none [] 1 waiting (omega arith, tt)

set_host_selection-hides_example :
    ((ours_and_theirs atoms clipboard (plain ∷ []) 60 1 2 proxy).events ≡ [])
    × ((ours_and_theirs atoms clipboard (plain ∷ []) 60 1 2 proxy).pending_converts ≡ [])
    × ((ours_and_theirs atoms clipboard (plain ∷ []) 60 1 2 proxy).requests
        ≡ [] ++ (set_selection_owner 50 (selection_atom atoms.known clipboard) ∷ []))
    × (suppress_of clipboard (ours_and_theirs atoms clipboard (plain ∷ []) 60 1 2 proxy) ≡ 0)
set_host_selection-hides_example =
    set_host_selection-hides atoms clipboard (plain ∷ []) 60 1 2 proxy (omega arith) (omega arith)

abbrev host_state : ClipboardState
host_state = record {
  has_manager = true;
  has_device = true;
  clipboard_offer = none;
  primary_offer = none;
  pending_offers = [];
  clipboard_source = none;
  primary_source = none;
  events = [];
  suppress_clipboard = 0;
  suppress_primary = 0;
  requests = [];
}

-- A selection of ours with its report, and one of another application.
abbrev two_rounds : List Round
two_rounds =
    ours clipboard (set_to 3 (plain ∷ []) ∷ []) (((new_offer 4 ∷ []), some 4) ∷ [])
    ∷ theirs clipboard 5 (has_mime 5 plain ∷ [])
    ∷ []

play-reports_example :
    ((play two_rounds host_state).events ≡ [] ++ foreign two_rounds)
    × (DataControl.suppress_of clipboard (play two_rounds host_state) ≡ 0)
    × (DataControl.suppress_of primary (play two_rounds host_state) ≡ 0)
play-reports_example = play-reports two_rounds host_state (refl, (tt, tt)) refl refl refl refl
