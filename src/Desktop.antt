-- ===== src/Desktop.antt =====
-- The compositor's state: workspaces, embedded apps and focus (crates/emskin/src/state/mod.rs,
-- workspace.rs, apps.rs, emacs.rs). A window, a surface and an output are numbers. smithay's `Space`
-- is a parameter; what goes to smithay, to Emacs and to the effects is a list of calls.
pub mod Access
pub mod Workspaces
pub mod Placement
pub mod Dispatch
pub mod Frames
pub mod Tick
use emskin.Prelude.{
  ℕ, ◌+◌, Bool, true, false, Option, none, some, List, [], ◌∷◌, ◌++◌, Text, ◌==◌, if◌then◌else◌,
  ◌≡◌, ◌≢◌,
}
use emskin.Prelude.Int.{ℤ, pos, ◌+ℤ◌, ltb_ℤ}
use emskin.Prelude.Dict.{Dict, lookup, insert, erase, modify, map_option}
use emskin.Ime.{wrap_i32, Point, Rect, ImeBridge}

-- What the compositor asks of a `Space<Window>` and of the layer map of its outputs.
pub record SpaceOps (S : Type 0) : Type 0 where
  -- `Space::default`
  pub empty : S
  pub map_element : ℕ → Point → S → S
  pub unmap_elem : ℕ → S → S
  pub lower_element : ℕ → S → S
  pub element_location : ℕ → S → Option Point
  pub elements : S → List ℕ
  pub outputs : S → List ℕ
  pub map_output : ℕ → S → S
  -- `layer_map_for_output(output).non_exclusive_zone()`
  pub non_exclusive_zone : ℕ → Rect

-- What smithay documents of these calls: an element is where it was last mapped.
pub record SpaceLaws {S : Type 0} (ops : SpaceOps S) : Type 0 where
  pub location-map_self :
      (w : ℕ) (p : Point) (s : S) → ops.element_location w (ops.map_element w p s) ≡ some p
  pub location-map_ne :
      (v w : ℕ) (p : Point) (s : S)
      → v ≢ w
      → ops.element_location v (ops.map_element w p s) ≡ ops.element_location v s
  pub location-unmap_self : (w : ℕ) (s : S) → ops.element_location w (ops.unmap_elem w s) ≡ none
  pub location-unmap_ne :
      (v w : ℕ) (s : S)
      → v ≢ w
      → ops.element_location v (ops.unmap_elem w s) ≡ ops.element_location v s
  pub location-lower :
      (v w : ℕ) (s : S) → ops.element_location v (ops.lower_element w s) ≡ ops.element_location v s
  pub location-empty : (w : ℕ) → ops.element_location w ops.empty ≡ none
  pub location-map_output :
      (w o : ℕ) (s : S) → ops.element_location w (ops.map_output o s) ≡ ops.element_location w s

pub record Workspace (S : Type 0) : Type 0 where
  pub space : S
  pub emacs_surface : Option ℕ
  pub name : Text

-- The lists of toplevels that wait for a tick are arguments of the tick.
pub record WorkspaceState (S : Type 0) : Type 0 where
  pub active_space : S
  pub inactive : Dict (Workspace S)
  pub active_id : ℕ
  pub active_name : Text
  pub next_id : ℕ

pub record MirrorView : Type 0 where
  pub geometry : Rect
  pub workspace_id : ℕ

pub record AppWindow : Type 0 where
  pub window_id : ℕ
  pub window : ℕ
  pub workspace_id : ℕ
  pub geometry : Option Rect
  pub pending_geometry : Option Rect
  -- In milliseconds.
  pub pending_since : Option ℕ
  pub visible : Bool
  pub mirrors : Dict MirrorView

pub record AppManager : Type 0 where
  pub windows : Dict AppWindow
  pub next_id : ℕ

pub data KeyboardFocusTarget : Type 0 where
  window_target layer_target popup_target : ℕ → KeyboardFocusTarget

pub data FocusOverride : Type 0 where
  prefix layer host : FocusOverride

pub record EmacsState : Type 0 where
  pub surface : Option ℕ
  pub detect : Bool
  pub initial_size_settled : Bool
  pub child_frame_rects : List Rect

-- emskin → Emacs; a duration is in milliseconds.
pub data OutgoingMessage : Type 0 where
  connected : Text → OutgoingMessage
  error : Text → OutgoingMessage
  window_created : ℕ → Text → OutgoingMessage
  window_destroyed : ℕ → OutgoingMessage
  title_changed : ℕ → Text → OutgoingMessage
  surface_size : ℤ → ℤ → OutgoingMessage
  focus_view : ℕ → ℕ → OutgoingMessage
  xwayland_ready : ℕ → OutgoingMessage
  workspace_created workspace_switched workspace_destroyed : ℕ → OutgoingMessage
  recording_stopped : Text → ℕ → ℕ → Text → OutgoingMessage

pub record SkeletonRect : Type 0 where
  pub kind : Text
  pub label : Text
  pub rect : Rect
  pub selected : Bool

pub data Overlay : Type 0 where
  measure cursor_trail key_cast skeleton jelly_cursor : Overlay

-- What the state's operations call outside of it, in the order of the calls. `set_focus` calls
-- back, which `Ime.Owner.on_focus_changed` models.
pub data Call : Type 0 where
  ipc_send : OutgoingMessage → Call
  keyboard_set_focus : Option KeyboardFocusTarget → Call
  pointer_leave : Call
  -- A pending size and whether the tiled states or the full screen are set with it.
  configure configure_tiled configure_fullscreen : ℕ → Point → Call
  send_close : ℕ → Call
  effects_reset cursor_reset : Call
  overlay_set_enabled : Overlay → Bool → Call
  skeleton_set_rects : List SkeletonRect → Call
  skeleton_clear : Call
  jelly_set_color : Text → Call
  jelly_update : Option Rect → Call
  request_screenshot : Text → Call
  request_recording : Text → ℕ → Call
  stop_recording : Call
  loop_stop : Call

pub record EmskinState (S : Type 0) : Type 0 where
  pub workspace : WorkspaceState S
  pub apps : AppManager
  pub emacs : EmacsState
  -- `FocusState::saves`
  pub focus : FocusOverride → Option (Option KeyboardFocusTarget)
  pub ime : ImeBridge
  pub needs_redraw : Bool
  pub calls : List Call

-- What an operation asks of the seat, of a window's toplevel, of clients and of the clock.
pub record Seat : Type 0 where
  pub has_keyboard : Bool
  pub current_focus : Option KeyboardFocusTarget
  pub toplevel : ℕ → Option ℕ
  pub window_alive : ℕ → Bool
  pub surface_alive : ℕ → Bool
  pub now : ℕ
