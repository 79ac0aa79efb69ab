-- ===== src/Desktop/Tick.antt =====
-- The apps in the event loop: their registration and removal (crates/emskin/src/tick.rs), pending
-- geometries (apps.rs, `commit` of handlers/compositor.rs) and the focus of a new window
-- (state/mod.rs).
use emskin.Prelude.{
  ℕ, ◌-◌, Bool, true, false, Option, none, some, List, [], ◌∷◌, Text, ltb, if◌then◌else◌,
}
use emskin.Prelude.Int.{pos}
use emskin.Prelude.Dict.{Dict}
use emskin.Ime.{Rect}
use emskin.Desktop.{
  SpaceOps, AppWindow, EmskinState, Seat, window_target, prefix, focus_view, window_created,
  window_destroyed, ipc_send, configure,
}
use emskin.Desktop.Access.{
  app_of, update_app, update_space, update_active, log, set_focus, is_surface, is_active,
  alloc_window_id, insert_app, emacs_focus_target,
}

-- `id_for_surface`
unfoldable pub id_for_surface : Seat → ℕ → Dict AppWindow → Option ℕ
id_for_surface seat surface [] = none
id_for_surface seat surface (e ∷ es) =
    if is_surface (seat.toplevel e.1.window) surface
    then some e.1.window_id
    else id_for_surface seat surface es

abbrev pub timed_out : Seat → ℕ → Option ℕ → Bool
timed_out seat timeout none = false
timed_out seat timeout (some since) = ltb timeout (seat.now - since)

-- The pending geometry becomes the geometry.
unfoldable pub commit_pending : Rect → AppWindow → AppWindow
commit_pending geo app = record app {
  geometry = some geo;
  pending_geometry = none;
  pending_since = none;
}

-- `collect_timed_out`: the changed apps, and what is to be mapped.
unfoldable pub collect_timed_out : Seat → ℕ → Dict AppWindow → Dict AppWindow × List (ℕ × ℕ × Rect)
unfolding commit_pending
collect_timed_out seat timeout [] = ([], [])
collect_timed_out seat timeout (e ∷ es) =
    let (es', out) = collect_timed_out seat timeout es in
    elim e.1.pending_geometry [
      | none ↦ (e ∷ es', out)
      | some geo ↦
          if timed_out seat timeout e.1.pending_since
          then ((e.0, commit_pending geo e.1) ∷ es', (e.1.window_id, e.1.window, geo) ∷ out)
          else (e ∷ es', out)
    ]

-- `drain_dead`: the apps whose window is gone.
abbrev pub dead_apps : Seat → Dict AppWindow → List AppWindow
dead_apps seat [] = []
dead_apps seat (e ∷ es) =
    if seat.window_alive e.1.window then dead_apps seat es else e.1 ∷ dead_apps seat es

abbrev pub live_apps : Seat → Dict AppWindow → Dict AppWindow
live_apps seat [] = []
live_apps seat (e ∷ es) =
    if seat.window_alive e.1.window then e ∷ live_apps seat es else live_apps seat es

module _ {S : Type 0} where
  -- A prefix sequence of keys keeps the focus.
  unfoldable pub auto_focus_new_window : Seat → ℕ → ℕ → EmskinState S → EmskinState S
  unfolding is_active log
  auto_focus_new_window seat w id st =
      let tell = ipc_send (focus_view id 0) ∷ [] in
      if is_active prefix st.focus
      then log tell st
      else log tell (set_focus seat (some (window_target w)) st)

  -- The app and its configure; its surface and title are those of the client.
  unfoldable pub register_embedded_app : Seat → ℕ → ℕ → Text → EmskinState S → EmskinState S
  unfolding alloc_window_id insert_app log auto_focus_new_window
  register_embedded_app seat surface w title st =
      let (apps, id) = alloc_window_id st.apps in
      let app : AppWindow = record {
        window_id = id;
        window = w;
        workspace_id = st.workspace.active_id;
        geometry = none;
        pending_geometry = none;
        pending_since = none;
        visible = false;
        mirrors = [];
      } in
      auto_focus_new_window seat w id (
        log (configure surface (pos 1, pos 1) ∷ ipc_send (window_created id title) ∷ [])
          (record st { apps = insert_app app apps }))

  unfoldable pub bury : (ops : SpaceOps S) → List AppWindow → EmskinState S → EmskinState S
  unfolding update_space log
  bury ops [] st = st
  bury ops (app ∷ apps) st = bury ops apps (
      log (ipc_send (window_destroyed app.window_id) ∷ [])
        (update_space app.workspace_id (ops.unmap_elem app.window) st))

  -- Emacs gets a focus that nobody has.
  unfoldable pub focus_emacs_if_lost : (ops : SpaceOps S) → Seat → EmskinState S → EmskinState S
  focus_emacs_if_lost ops seat st = elim seat.current_focus [
    | none ↦ set_focus seat (emacs_focus_target ops seat st) st
    | some target ↦ st
  ]

  clean_up : (ops : SpaceOps S) → Seat → List AppWindow → EmskinState S → EmskinState S
  unfolding bury focus_emacs_if_lost
  clean_up ops seat [] st = st
  clean_up ops seat (app ∷ apps) st =
      focus_emacs_if_lost ops seat (bury ops (app ∷ apps) (record st { needs_redraw = true }))

  unfoldable pub cleanup_dead_apps : (ops : SpaceOps S) → Seat → EmskinState S → EmskinState S
  unfolding clean_up
  cleanup_dead_apps ops seat st =
      clean_up ops seat (dead_apps seat st.apps.windows)
        (record st { apps = record st.apps { windows = live_apps seat st.apps.windows } })

module _ {S : Type 0} (ops : SpaceOps S) where
  -- The first commit of a client behind a configure: its window goes to the active space.
  unfoldable pub commit_app : ℕ → EmskinState S → EmskinState S
  unfolding update_app update_active commit_pending
  commit_app id st = elim (app_of id st) [
    | none ↦ st
    | some app ↦ elim app.pending_geometry [
      | none ↦ st
      | some geo ↦
          update_active (ops.map_element app.window geo.loc) (update_app id (commit_pending geo) st)
    ]
  ]

  unfoldable pub commit : Seat → ℕ → EmskinState S → EmskinState S
  unfolding commit_app
  commit seat root st = elim (id_for_surface seat root st.apps.windows) [
    | none ↦ st
    | some id ↦ commit_app id st
  ]

  workspace_or : ℕ → Option AppWindow → ℕ
  workspace_or active none = active
  workspace_or active (some app) = app.workspace_id

  -- A geometry that waited too long: the window goes to the space of its workspace.
  unfoldable pub map_timed_out : List (ℕ × ℕ × Rect) → EmskinState S → EmskinState S
  unfolding update_space workspace_or
  map_timed_out [] st = st
  map_timed_out ((id, w, geo) ∷ rest) st = map_timed_out rest (
      update_space (workspace_or st.workspace.active_id (app_of id st)) (ops.map_element w geo.loc)
        st)

  redraw_if : List (ℕ × ℕ × Rect) → EmskinState S → EmskinState S
  redraw_if [] st = st
  redraw_if (x ∷ xs) st = record st { needs_redraw = true }

  unfoldable pub commit_timed_out : Seat → EmskinState S → EmskinState S
  unfolding collect_timed_out map_timed_out redraw_if
  commit_timed_out seat st =
      let (windows, out) = collect_timed_out seat 100 st.apps.windows in
      map_timed_out out (redraw_if out (record st { apps = record st.apps { windows = windows } }))
