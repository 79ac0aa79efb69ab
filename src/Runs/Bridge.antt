-- ===== src/Runs/Bridge.antt =====
-- The theorems on the framing of the Emacs socket and on the input method, on concrete states.
use emskin.Prelude.{◌≡◌, ◌≢◌, refl, true, false, none, List, [], ◌∷◌, Bytes, codes, bytes_eq}
use emskin.Prelude.Int.{pos}
use emskin.Proxy.Connection.{focus_changed, cursor_rect}
use emskin.Ipc.{WriteResult, wrote, write_would_block}
use emskin.Ime.{
  ImeBridge, ImeBridge, Host, Rect, same_identity_as, cached, desired_ime_allowed,
  desired_cursor_area,
}
use emskin.Ime
use emskin.Ime.Owner.Consistent.{
  IsConsistent, Event, fcitx, handle, after, after-IsConsistent, after-allowed,
}
use emskin.Ime.Sync.{Window, sync_to_winit, apply_calls, Tracks, wanted_area, sync_to_winit-Tracks}

abbrev json : Bytes
json = codes "{}"

abbrev writes : List WriteResult
writes = wrote 2 ∷ write_would_block ∷ []

abbrev host : Host
host = record {
  cursor_rectangle = none;
  has_text_input = true;
  surface_geometry = λ s. none;
  now = 5;
}

-- A fcitx client takes the focus and reports its cursor.
abbrev events : List Event
events =
    fcitx (focus_changed 1 (codes "/ic/1") true) none host
    ∷ fcitx (cursor_rect 1 (codes "/ic/1") (pos 3) (pos 4) (pos 1) (pos 9)) none host
    ∷ []

new-IsConsistent : IsConsistent Ime.new
unfolding IsConsistent
new-IsConsistent = (refl, refl, refl)

after-IsConsistent_example : IsConsistent (after events Ime.new)
after-IsConsistent_example = after-IsConsistent events Ime.new new-IsConsistent

events_allowed : desired_ime_allowed (after events Ime.new) ≡ true
unfolding after desired_ime_allowed bytes_eq handle same_identity_as cached
events_allowed = refl

after-allowed_example : desired_cursor_area (after events Ime.new) ≢ none
after-allowed_example = after-allowed events events_allowed

-- The area was pushed once; then the window was told to forget the input method.
abbrev again : ImeBridge
again = record (after events Ime.new) {
  last_applied_cursor_area = desired_cursor_area (after events Ime.new);
  last_applied_ime_allowed = false;
}

again-IsConsistent : IsConsistent again
unfolding IsConsistent
again-IsConsistent = after-IsConsistent events Ime.new new-IsConsistent

abbrev window : Window
window = (false, desired_cursor_area (after events Ime.new))

sync_to_winit-Tracks_example :
    let r = sync_to_winit again in
    Tracks r.0 (apply_calls r.1 window)
    × (apply_calls r.1 window
        ≡ (desired_ime_allowed again, wanted_area (desired_cursor_area again) window.1))
sync_to_winit-Tracks_example = sync_to_winit-Tracks again window again-IsConsistent (refl, refl)
