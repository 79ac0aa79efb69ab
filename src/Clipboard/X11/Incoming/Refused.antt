-- ===== src/Clipboard/X11/Incoming/Refused.antt =====
-- A conversion that the owner of the selection refuses
-- (`on_selection_notify` of crates/emskin-clipboard/src/x11.rs).
use emskin.Prelude.{ℕ, ◌≡◌, ◌≢◌, refl, ap, Option, none, List, [], ◌∷◌, All, arith}
use emskin.Clipboard.X11.{Atoms, no_atom, Waiting, X11ClipboardProxy}
use emskin.Clipboard.X11.Incoming.{
  GetPropertyReply, find_waiting, drop_waiting, remove_waiting, on_selection_notify,
}

-- Conversions are asked for with a property.
abbrev pub Named : Waiting → Type 0
Named w = w.of_property ≢ no_atom

find-Named : (sel : ℕ) (ws : List Waiting) → All Named ws → find_waiting sel no_atom ws ≡ none
unfolding find_waiting
find-Named sel [] h = refl
find-Named sel (w ∷ ws) h = ground (arith, h.0, find-Named sel ws h.1)

drop-Named : (sel : ℕ) (ws : List Waiting) → All Named ws → drop_waiting sel no_atom ws ≡ ws
unfolding drop_waiting
drop-Named sel [] h = refl
drop-Named sel (w ∷ ws) h = ground (arith, h.0, drop-Named sel ws h.1)

-- The answer that refuses a conversion has no property, and what waits is kept under the property
-- that was asked for. So nothing happens: no event says that the selection has no types, the
-- descriptor of a client that pastes is not closed, and the conversion goes on waiting.
pub on_selection_notify-refused :
    (atoms : Atoms) (reply : Option GetPropertyReply) (writes : List ℕ) (sel : ℕ)
    (x : X11ClipboardProxy)
    → All Named x.pending_converts
    → on_selection_notify atoms reply writes sel no_atom x ≡ x
unfolding on_selection_notify remove_waiting
on_selection_notify-refused atoms reply writes sel x h =
    rw (find-Named sel x.pending_converts h, on_selection_notify)
      (ap (λ ws. record x { pending_converts = ws }) (drop-Named sel x.pending_converts h))
