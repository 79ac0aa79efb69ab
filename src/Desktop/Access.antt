-- ===== src/Desktop/Access.antt =====
-- Reading and changing the compositor's state: `FocusState` and the space lookups of
-- crates/emskin/src/state/mod.rs and workspace.rs, and `AppManager` of apps.rs.
use emskin.Prelude.{
  ℕ, ◌+◌, Bool, true, false, Option, none, some, List, [], ◌∷◌, ◌++◌, ◌==◌, if◌then◌else◌,
}
use emskin.Prelude.Int.{pos, ◌+ℤ◌}
use emskin.Prelude.Dict.{lookup, insert, erase, modify, map_option}
use emskin.Ime.{wrap_i32, Point, Rect}
use emskin.Desktop.{
  SpaceOps, Workspace, WorkspaceState, AppWindow, AppManager, KeyboardFocusTarget, window_target,
  FocusOverride, prefix, layer, host, Call, keyboard_set_focus, EmskinState, Seat,
}

-- `FocusState`
same_override : FocusOverride → FocusOverride → Bool
same_override prefix prefix = true
same_override layer layer = true
same_override host host = true
same_override a b = false

unfoldable pub enter :
    FocusOverride
    → Option KeyboardFocusTarget
    → (FocusOverride → Option (Option KeyboardFocusTarget))
    → FocusOverride
    → Option (Option KeyboardFocusTarget)
unfolding same_override
enter kind current saves k = if same_override k kind then some current else saves k

unfoldable pub exit :
    FocusOverride
    → (FocusOverride → Option (Option KeyboardFocusTarget))
    → (FocusOverride → Option (Option KeyboardFocusTarget)) × Option (Option KeyboardFocusTarget)
unfolding same_override
exit kind saves = (λ k. if same_override k kind then none else saves k, saves kind)

unfoldable pub is_active :
    FocusOverride → (FocusOverride → Option (Option KeyboardFocusTarget)) → Bool
is_active kind saves = elim (saves kind) [ none ↦ false | some _ ↦ true ]

abbrev pub no_saves : FocusOverride → Option (Option KeyboardFocusTarget)
no_saves k = none

-- `AppManager`
unfoldable pub alloc_window_id : AppManager → AppManager × ℕ
alloc_window_id m = (record m { next_id = m.next_id + 1 }, m.next_id + 1)

unfoldable pub insert_app : AppWindow → AppManager → AppManager
unfolding insert
insert_app app m = record m { windows = insert app.window_id app m.windows }

unfoldable pub remove_app : ℕ → AppManager → AppManager
unfolding erase
remove_app id m = record m { windows = erase id m.windows }

-- A change through `get_mut`.
unfoldable pub modify_app : ℕ → (AppWindow → AppWindow) → AppManager → AppManager
unfolding modify
modify_app id f m = record m { windows = modify id f m.windows }

abbrev pub is_surface : Option ℕ → ℕ → Bool
is_surface none surface = false
is_surface (some s) surface = s == surface

unfoldable pub find_toplevel : Seat → ℕ → List ℕ → Option ℕ
find_toplevel seat surface [] = none
find_toplevel seat surface (w ∷ ws) =
    if is_surface (seat.toplevel w) surface then some w else find_toplevel seat surface ws

abbrev pub first_output : List ℕ → Option ℕ
first_output [] = none
first_output (o ∷ os) = some o

module _ {S : Type 0} where
  abbrev pub app_of : ℕ → EmskinState S → Option AppWindow
  app_of id st = lookup id st.apps.windows

  unfoldable pub update_app : ℕ → (AppWindow → AppWindow) → EmskinState S → EmskinState S
  unfolding modify_app
  update_app id f st = record st { apps = modify_app id f st.apps }

  unfoldable pub log : List Call → EmskinState S → EmskinState S
  log cs st = record st { calls = st.calls ++ cs }

  -- `space_for_mut`, read.
  unfoldable pub space_for : ℕ → WorkspaceState S → Option S
  unfolding lookup
  space_for id ws =
      if id == ws.active_id
      then some ws.active_space
      else map_option (λ (w : Workspace S). w.space) (lookup id ws.inactive)

  -- A change through `space_for_mut`.
  unfoldable pub modify_space : ℕ → (S → S) → WorkspaceState S → WorkspaceState S
  unfolding modify
  modify_space id f ws =
      if id == ws.active_id then record ws { active_space = f ws.active_space } else record ws {
        inactive = modify id (λ (w : Workspace S). record w { space = f w.space }) ws.inactive;
      }

  unfoldable pub update_space : ℕ → (S → S) → EmskinState S → EmskinState S
  unfolding modify_space
  update_space id f st = record st { workspace = modify_space id f st.workspace }

  unfoldable pub update_active : (S → S) → EmskinState S → EmskinState S
  update_active f st = record st {
    workspace = record st.workspace { active_space = f st.workspace.active_space };
  }

  module _ (ops : SpaceOps S) where
    -- The area of the first output of a space.
    unfoldable pub area_of : S → Option Rect
    area_of s = map_option ops.non_exclusive_zone (first_output (ops.outputs s))

    unfoldable pub emacs_geometry : EmskinState S → Option Rect
    unfolding area_of
    emacs_geometry st = area_of st.workspace.active_space

    abbrev origin_of : Option Rect → Point
    origin_of none = (pos 0, pos 0)
    origin_of (some geo) = geo.loc

    unfoldable pub emacs_rect_to_canvas : Rect → EmskinState S → Rect
    unfolding emacs_geometry
    emacs_rect_to_canvas rect st =
        let (ox, oy) = origin_of (emacs_geometry st) in
        record rect { loc = (wrap_i32 (rect.loc.0 +ℤ ox), wrap_i32 (rect.loc.1 +ℤ oy)) }

    unfoldable pub emacs_focus_target : Seat → EmskinState S → Option KeyboardFocusTarget
    unfolding find_toplevel
    emacs_focus_target seat st = elim st.emacs.surface [
      | none ↦ none
      | some surface ↦
          map_option window_target
            (find_toplevel seat surface (ops.elements st.workspace.active_space))
    ]

  -- `keyboard.set_focus`, where the seat has a keyboard.
  unfoldable pub set_focus : Seat → Option KeyboardFocusTarget → EmskinState S → EmskinState S
  unfolding log
  set_focus seat target st =
      if seat.has_keyboard then log (keyboard_set_focus target ∷ []) st else st
