-- ===== src/Desktop/Dispatch.antt =====
-- The handling of Emacs's messages (crates/emskin/src/ipc/dispatch.rs, messages.rs).
pub mod Mirrors
use emskin.Prelude.{
  ℕ, ◌+◌, Bool, true, false, not, ◌&&◌, ◌||◌, Option, none, some, List, [], ◌∷◌, ◌++◌, Text, ltb,
  if◌then◌else◌,
}
use emskin.Prelude.Int.{ℤ, pos, ltb_ℤ}
use emskin.Prelude.Dict.{lookup, insert, erase, modify}
use emskin.Ime.{Rect}
use emskin.Ime.Owner.{set_prefix_active}
use emskin.Desktop.{
  SpaceOps, MirrorView, AppWindow, EmskinState, Seat, Call, configure_tiled, send_close,
  overlay_set_enabled, measure, cursor_trail, key_cast, skeleton, jelly_cursor, skeleton_set_rects,
  skeleton_clear, jelly_set_color, jelly_update, request_screenshot, request_recording,
  stop_recording, SkeletonRect, KeyboardFocusTarget, window_target, prefix,
}
use emskin.Desktop.Access.{
  app_of, update_app, update_space, update_active, log, set_focus, emacs_focus_target,
  emacs_rect_to_canvas, exit,
}
use emskin.Desktop.Workspaces.{switch_workspace, migrate_app_to_active}
use emskin.Desktop.Dispatch.Mirrors.{
  ipc_add_mirror, ipc_update_mirror_geometry, ipc_remove_mirror, ipc_promote_mirror, is_empty_rect,
}

-- Emacs → emskin
pub data IncomingMessage : Type 0 where
  set_geometry : ℕ → Rect → IncomingMessage
  close : ℕ → IncomingMessage
  set_visibility : ℕ → Bool → IncomingMessage
  prefix_done prefix_clear : IncomingMessage
  add_mirror update_mirror_geometry : ℕ → ℕ → Rect → IncomingMessage
  remove_mirror promote_mirror : ℕ → ℕ → IncomingMessage
  set_focus_to : Option ℕ → IncomingMessage
  set_measure set_cursor_trail set_key_cast : Bool → IncomingMessage
  set_skeleton : Bool → List SkeletonRect → IncomingMessage
  switch_to : ℕ → IncomingMessage
  set_jelly_cursor : Bool → IncomingMessage
  set_cursor_rect : Rect → Option Text → IncomingMessage
  set_child_frames : List Rect → IncomingMessage
  take_screenshot : Text → IncomingMessage
  set_recording : Bool → Option Text → Option ℕ → IncomingMessage

module _ {S : Type 0} (ops : SpaceOps S) where
  color_calls : Option Text → List Call
  color_calls none = []
  color_calls (some hex) = jelly_set_color hex ∷ []

  unfoldable pub ipc_set_cursor_rect : Rect → Option Text → EmskinState S → EmskinState S
  unfolding log color_calls
  ipc_set_cursor_rect rect color st =
      log
        (color_calls color
          ++ (jelly_update
                (if is_empty_rect rect then none else some (emacs_rect_to_canvas ops rect st))
              ∷ []))
        st

  canvas_rects : List Rect → EmskinState S → List Rect
  canvas_rects [] st = []
  canvas_rects (r ∷ rs) st =
      if is_empty_rect r
      then canvas_rects rs st
      else emacs_rect_to_canvas ops r st ∷ canvas_rects rs st

  unfoldable pub ipc_set_child_frames : List Rect → EmskinState S → EmskinState S
  unfolding canvas_rects
  ipc_set_child_frames rects st = record st {
    emacs = record st.emacs { child_frame_rects = canvas_rects rects st };
    needs_redraw = true;
  }

  -- The first geometry maps the app; a later one waits for the client's commit.
  unfoldable pub give_geometry : Seat → ℕ → AppWindow → Rect → EmskinState S → EmskinState S
  unfolding update_app update_active
  give_geometry seat id app geo st = elim app.geometry [
    | none ↦
        update_active (ops.map_element app.window geo.loc)
          (update_app id (λ a. record a { geometry = some geo }) st)
    | some old ↦
        update_app id (λ a. record a { pending_geometry = some geo; pending_since = some seat.now })
          st
  ]

  -- The part behind the migration.
  unfoldable pub configure_app : Seat → ℕ → Rect → Rect → EmskinState S → EmskinState S
  unfolding log give_geometry
  configure_app seat id rect geo st = elim (app_of id st) [
    | none ↦ st
    | some app ↦ elim (seat.toplevel app.window) [
      | none ↦ st
      | some surface ↦
          give_geometry seat id app geo (log (configure_tiled surface rect.size ∷ []) st)
    ]
  ]

  unfoldable pub ipc_set_geometry : Seat → ℕ → Rect → EmskinState S → EmskinState S
  unfolding update_app configure_app
  ipc_set_geometry seat id rect st = if is_empty_rect rect then st else elim (app_of id st) [
    | none ↦ st
    | some app ↦
        configure_app seat id rect (emacs_rect_to_canvas ops rect st)
          (migrate_app_to_active ops id (update_app id (λ a. record a { visible = true }) st)).0
  ]

  unfoldable pub ipc_close : Seat → ℕ → EmskinState S → EmskinState S
  unfolding log
  ipc_close seat id st = elim (app_of id st) [
    | none ↦ st
    | some app ↦ elim (seat.toplevel app.window) [
      | none ↦ st
      | some surface ↦ log (send_close surface ∷ []) st
    ]
  ]

  unfoldable pub show_app : ℕ → AppWindow → EmskinState S → EmskinState S
  unfolding update_app update_active
  show_app id app st = elim app.geometry [
    | none ↦ st
    | some geo ↦
        update_active (ops.map_element app.window geo.loc) (
          update_app id (λ a. record a { geometry = some geo }) (migrate_app_to_active ops id st).0)
  ]

  unfoldable pub ipc_set_visibility : ℕ → Bool → EmskinState S → EmskinState S
  unfolding update_app update_space show_app
  ipc_set_visibility id visible st = elim (app_of id st) [
    | none ↦ st
    | some app ↦
        let st' = update_app id (λ a. record a { visible = visible }) st in
        if visible
        then show_app id app st'
        else update_space app.workspace_id (ops.unmap_elem app.window) st'
  ]

  unfoldable pub ipc_prefix_done : Seat → EmskinState S → EmskinState S
  ipc_prefix_done seat st =
      let st' = record st { ime = set_prefix_active false st.ime } in
      let (saves, saved) = exit prefix st'.focus in
      elim saved [
        | none ↦ record st' { focus = saves }
        | some target ↦ set_focus seat target (record st' { focus = saves })
      ]

  focus_target : Seat → Option ℕ → EmskinState S → Option KeyboardFocusTarget
  focus_target seat none st = emacs_focus_target ops seat st
  focus_target seat (some id) st = elim (app_of id st) [
    | none ↦ emacs_focus_target ops seat st
    | some app ↦ some (window_target app.window)
  ]

  unfoldable pub ipc_set_focus : Seat → Option ℕ → EmskinState S → EmskinState S
  unfolding focus_target
  ipc_set_focus seat id st =
      if seat.has_keyboard
      then set_focus seat (focus_target seat id st)
          (record st { focus = (exit prefix st.focus).0; ime = set_prefix_active false st.ime })
      else st

  unfoldable pub start_recording : Option Text → Option ℕ → EmskinState S → EmskinState S
  unfolding log
  start_recording (some path) (some fps) st =
      if ltb 0 fps
      then record (log (request_recording path fps ∷ []) st) { needs_redraw = true }
      else st
  start_recording path fps st = st

  unfoldable pub handle_ipc_message : Seat → IncomingMessage → EmskinState S → EmskinState S
  unfolding ipc_set_cursor_rect ipc_set_child_frames ipc_set_geometry ipc_close ipc_set_visibility
      ipc_prefix_done ipc_set_focus start_recording log
  handle_ipc_message seat (set_geometry id rect) st = ipc_set_geometry seat id rect st
  handle_ipc_message seat (close id) st = ipc_close seat id st
  handle_ipc_message seat (set_visibility id visible) st = ipc_set_visibility id visible st
  handle_ipc_message seat prefix_done st = ipc_prefix_done seat st
  handle_ipc_message seat prefix_clear st = record st { ime = set_prefix_active false st.ime }
  handle_ipc_message seat (add_mirror id view rect) st = ipc_add_mirror ops id view rect st
  handle_ipc_message seat (update_mirror_geometry id view rect) st =
      ipc_update_mirror_geometry ops id view rect st
  handle_ipc_message seat (remove_mirror id view) st = ipc_remove_mirror id view st
  handle_ipc_message seat (promote_mirror id view) st = ipc_promote_mirror ops id view st
  handle_ipc_message seat (set_focus_to id) st = ipc_set_focus seat id st
  handle_ipc_message seat (set_measure on) st = log (overlay_set_enabled measure on ∷ []) st
  handle_ipc_message seat (set_cursor_trail on) st =
      log (overlay_set_enabled cursor_trail on ∷ []) st
  handle_ipc_message seat (set_key_cast on) st = log (overlay_set_enabled key_cast on ∷ []) st
  handle_ipc_message seat (set_skeleton on rects) st =
      log
        (overlay_set_enabled skeleton on
          ∷ (if on then skeleton_set_rects rects else skeleton_clear)
          ∷ [])
        st
  handle_ipc_message seat (switch_to id) st = (switch_workspace ops seat id st).0
  handle_ipc_message seat (set_jelly_cursor on) st =
      log (overlay_set_enabled jelly_cursor on ∷ []) st
  handle_ipc_message seat (set_cursor_rect rect color) st = ipc_set_cursor_rect rect color st
  handle_ipc_message seat (set_child_frames rects) st = ipc_set_child_frames rects st
  handle_ipc_message seat (take_screenshot path) st =
      record (log (request_screenshot path ∷ []) st) { needs_redraw = true }
  handle_ipc_message seat (set_recording true path fps) st = start_recording path fps st
  handle_ipc_message seat (set_recording false path fps) st =
      record (log (stop_recording ∷ []) st) { needs_redraw = true }
