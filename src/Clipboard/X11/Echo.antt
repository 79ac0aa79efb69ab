-- ===== src/Clipboard/X11/Echo.antt =====
-- Our own changes of the host's selection, and the changes of others behind them
-- (`set_host_selection` and `on_xfixes_notify` of crates/emskin-clipboard/src/x11.rs).
use emskin.Prelude.{
  ℕ, suc, ◌-◌, Bool, ltb, lt→ltb, ◌≡◌, ◌≢◌, refl, true, some, List, [], ◌∷◌, ◌++◌, Text, arith,
  ==_self, ==_ne,
}
use emskin.Clipboard.{SelectionKind, clipboard, primary}
use emskin.Clipboard.X11.{
  Atoms, ClipboardAtoms, selection_atom, selection_kind_from_atom, X11ClipboardProxy, request,
  set_selection_owner, suppress_of, set_suppress, set_ts,
}
use emskin.Clipboard.X11.Incoming.{XfixesSelectionNotify, on_xfixes_notify}
use emskin.Clipboard.X11.Outgoing.{set_host_selection}

pub kind_of_atom :
    (atoms : ClipboardAtoms) (kind : SelectionKind)
    → atoms.primary_atom ≢ atoms.clipboard_atom
    → selection_kind_from_atom atoms (selection_atom atoms kind) ≡ some kind
unfolding selection_kind_from_atom
kind_of_atom atoms clipboard d = rw (==_self atoms.clipboard_atom) refl
kind_of_atom atoms primary d =
    rw (==_ne atoms.primary_atom atoms.clipboard_atom d, ==_self atoms.primary_atom) refl

abbrev pub owned_by : Atoms → SelectionKind → ℕ → ℕ → XfixesSelectionNotify
owned_by atoms kind owner time = record {
  owner = owner;
  selection = selection_atom atoms.known kind;
  selection_timestamp = time;
}

module _ (atoms : Atoms) (d : atoms.known.primary_atom ≢ atoms.known.clipboard_atom) where
  own_notice :
      (kind : SelectionKind) (sent : Bool) (t : ℕ) (x : X11ClipboardProxy)
      → on_xfixes_notify atoms sent (owned_by atoms kind x.window t) x ≡ set_ts kind t x
  unfolding on_xfixes_notify
  own_notice kind sent t x =
      rw (kind_of_atom atoms.known kind d, on_xfixes_notify) (rw (==_self x.window) refl)

  counted_notice :
      (kind : SelectionKind) (sent : Bool) (other t n : ℕ) (x : X11ClipboardProxy)
      → other ≢ x.window
      → suppress_of kind x ≡ suc n
      → on_xfixes_notify atoms sent (owned_by atoms kind other t) x ≡ set_suppress kind n x
  unfolding on_xfixes_notify
  counted_notice kind sent other t n x o e =
      let above : ltb 0 (suc n) ≡ true = lt→ltb 0 (suc n) (omega arith) in
      let below : suc n - 1 ≡ n = omega arith in
      rw (kind_of_atom atoms.known kind d, on_xfixes_notify)
        (rw (==_ne other x.window o, e, above, below) refl)

-- The server tells us of our own change, and then of another application's.
abbrev pub ours_and_theirs :
    Atoms → SelectionKind → List Text → ℕ → ℕ → ℕ → X11ClipboardProxy → X11ClipboardProxy
ours_and_theirs atoms kind mimes other t₁ t₂ x =
    on_xfixes_notify atoms true (owned_by atoms kind other t₂) (
      on_xfixes_notify atoms true (owned_by atoms kind x.window t₁)
        (set_host_selection atoms true kind mimes x))

-- The counter goes up with our change and the report of it does not bring it down, so the change of
-- another application behind it is taken for the report: no event says that the host's selection
-- changed, and nothing is asked of its new owner.
pub set_host_selection-hides :
    (atoms : Atoms) (kind : SelectionKind) (mimes : List Text) (other t₁ t₂ : ℕ)
    (x : X11ClipboardProxy)
    → atoms.known.primary_atom ≢ atoms.known.clipboard_atom
    → other ≢ x.window
    → ((ours_and_theirs atoms kind mimes other t₁ t₂ x).events ≡ x.events)
      × ((ours_and_theirs atoms kind mimes other t₁ t₂ x).pending_converts ≡ x.pending_converts)
      × ((ours_and_theirs atoms kind mimes other t₁ t₂ x).requests
          ≡ x.requests ++ (set_selection_owner x.window (selection_atom atoms.known kind) ∷ []))
      × (suppress_of kind (ours_and_theirs atoms kind mimes other t₁ t₂ x) ≡ suppress_of kind x)
unfolding set_host_selection request
set_host_selection-hides atoms clipboard mimes other t₁ t₂ x d o =
    let y = set_host_selection atoms true clipboard mimes x in
    rw (own_notice atoms d clipboard true t₁ y) (
      rw
        (counted_notice atoms d clipboard true other t₂ x.suppress_clipboard (set_ts clipboard t₁ y)
          o (omega arith))
        (refl, refl, refl, refl))
set_host_selection-hides atoms primary mimes other t₁ t₂ x d o =
    let y = set_host_selection atoms true primary mimes x in
    rw (own_notice atoms d primary true t₁ y) (
      rw
        (counted_notice atoms d primary true other t₂ x.suppress_primary (set_ts primary t₁ y) o
          (omega arith))
        (refl, refl, refl, refl))
