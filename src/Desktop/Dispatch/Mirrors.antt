-- ===== src/Desktop/Dispatch/Mirrors.antt =====
-- The messages about the mirrors of an app (crates/emskin/src/ipc/dispatch.rs).
use emskin.Prelude.{ℕ, Bool, not, ◌||◌, none, some, ◌==◌, if◌then◌else◌}
use emskin.Prelude.Int.{pos, ltb_ℤ}
use emskin.Prelude.Dict.{lookup, insert, erase, modify}
use emskin.Ime.{Rect}
use emskin.Desktop.{SpaceOps, MirrorView, AppWindow, EmskinState}
use emskin.Desktop.Access.{app_of, update_app, update_space, update_active, emacs_rect_to_canvas}

-- `w <= 0 || h <= 0`
abbrev pub is_empty_rect : Rect → Bool
is_empty_rect rect = not (ltb_ℤ (pos 0) rect.size.0) || not (ltb_ℤ (pos 0) rect.size.1)

-- The app takes the mirror's geometry and workspace.
unfoldable pub take_place : ℕ → MirrorView → AppWindow → AppWindow
unfolding erase
take_place view m a = record a {
  mirrors = erase view a.mirrors;
  geometry = some m.geometry;
  workspace_id = m.workspace_id;
}

module _ {S : Type 0} where
  unfoldable pub ipc_remove_mirror : ℕ → ℕ → EmskinState S → EmskinState S
  unfolding update_app erase
  ipc_remove_mirror id view st = update_app id (λ a. record a { mirrors = erase view a.mirrors }) st

module _ {S : Type 0} (ops : SpaceOps S) where
  -- A mirror belongs to the workspace that is active when it is added.
  unfoldable pub ipc_add_mirror : ℕ → ℕ → Rect → EmskinState S → EmskinState S
  unfolding update_app insert
  ipc_add_mirror id view rect st =
      if is_empty_rect rect
      then st
      else let m : MirrorView = record {
        geometry = emacs_rect_to_canvas ops rect st;
        workspace_id = st.workspace.active_id;
      } in
        update_app id (λ a. record a { mirrors = insert view m a.mirrors }) st

  unfoldable pub ipc_update_mirror_geometry : ℕ → ℕ → Rect → EmskinState S → EmskinState S
  unfolding update_app modify
  ipc_update_mirror_geometry id view rect st =
      if is_empty_rect rect
      then st
      else let geo = emacs_rect_to_canvas ops rect st in
        let move : MirrorView → MirrorView = λ m. record m { geometry = geo } in
        update_app id (λ a. record a { mirrors = modify view move a.mirrors }) st

  unfoldable pub move_source : AppWindow → MirrorView → EmskinState S → EmskinState S
  unfolding update_space update_active
  move_source app m st =
      if app.workspace_id == m.workspace_id
      then update_active (ops.map_element app.window m.geometry.loc) st
      else update_space m.workspace_id (ops.map_element app.window m.geometry.loc)
          (update_space app.workspace_id (ops.unmap_elem app.window) st)

  unfoldable pub ipc_promote_mirror : ℕ → ℕ → EmskinState S → EmskinState S
  unfolding update_app take_place move_source
  ipc_promote_mirror id view st = elim (app_of id st) [
    | none ↦ st
    | some app ↦ elim (lookup view app.mirrors) [
      | none ↦ st
      | some m ↦ move_source app m (update_app id (take_place view m) st)
    ]
  ]
