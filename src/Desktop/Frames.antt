-- ===== src/Desktop/Frames.antt =====
-- The frames of Emacs as workspaces: `process_pending_toplevels`, `process_workspace_actions` and
-- `detect_dead_workspaces` of crates/emskin/src/tick.rs.
pub mod Refines
pub mod Created
pub mod Run
use emskin.Prelude.{
  ℕ, Bool, true, false, not, ◌&&◌, Option, none, some, List, [], ◌∷◌, ◌++◌, ◌==◌, if◌then◌else◌,
}
use emskin.Prelude.Dict.{Dict, insert, modify}
use emskin.Ime.{Rect}
use emskin.Desktop.{
  SpaceOps, Workspace, EmacsState, EmskinState, Seat, ipc_send, configure_fullscreen, loop_stop,
  workspace_created, workspace_destroyed,
}
use emskin.Desktop.Access.{update_active, log, emacs_geometry, first_output}
use emskin.Desktop.Workspaces.{alloc_id, place_emacs, switch_workspace, destroy_workspace}

-- An Emacs toplevel that waits: its surface, its window and whether it has a parent.
pub record PendingToplevel : Type 0 where
  pub surface : ℕ
  pub window : ℕ
  pub has_parent : Bool

pub data WorkspaceAction : Type 0 where
  activate deactivate remove : ℕ → WorkspaceAction
  create_workspace : WorkspaceAction

abbrev is_dead : Seat → Option ℕ → Bool
is_dead seat none = true
is_dead seat (some surface) = not (seat.surface_alive surface)

main_died : Seat → EmacsState → Bool
main_died seat e =
    (e.detect && e.initial_size_settled)
    && (elim e.surface [ none ↦ false | some surface ↦ not (seat.surface_alive surface) ])

module _ {S : Type 0} where
  unfoldable pub insert_workspace : ℕ → Workspace S → EmskinState S → EmskinState S
  unfolding insert
  insert_workspace id w st = record st {
    workspace = record st.workspace { inactive = insert id w st.workspace.inactive };
  }

  abbrev dead_workspaces : Seat → Dict (Workspace S) → List ℕ
  dead_workspaces seat [] = []
  dead_workspaces seat (e ∷ es) =
      if is_dead seat e.1.emacs_surface
      then e.0 ∷ dead_workspaces seat es
      else dead_workspaces seat es

  unfoldable pub destroy_each : List ℕ → EmskinState S → EmskinState S
  unfolding log
  destroy_each [] st = st
  destroy_each (id ∷ ids) st =
      destroy_each ids (log (ipc_send (workspace_destroyed id) ∷ []) (destroy_workspace id st).0)

  abbrev first_key : Dict (Workspace S) → Option ℕ
  first_key [] = none
  first_key (e ∷ es) = some e.0

  redraw_if_any : List ℕ → EmskinState S → EmskinState S
  redraw_if_any [] st = st
  redraw_if_any (id ∷ ids) st = record st { needs_redraw = true }

module _ {S : Type 0} (ops : SpaceOps S) where
  unfoldable pub with_output : List ℕ → S
  with_output outputs = elim (first_output outputs) [
    | none ↦ ops.empty
    | some o ↦ ops.map_output o ops.empty
  ]

  -- The new frame is configured and mapped at the bottom of its own space.
  unfoldable pub configure_at : PendingToplevel → ℕ → Option Rect → EmskinState S → EmskinState S
  unfolding log modify place_emacs
  configure_at p id none st = st
  configure_at p id (some geo) st =
      let st' = log (configure_fullscreen p.surface geo.size ∷ []) st in
      record st' {
        workspace = record st'.workspace {
          inactive =
              modify id
                (λ (w : Workspace S). record w { space = place_emacs ops p.window geo w.space })
                st'.workspace.inactive;
        };
      }

  unfoldable pub new_frame : Seat → PendingToplevel → EmskinState S → EmskinState S
  unfolding update_active log alloc_id insert_workspace configure_at emacs_geometry with_output
  new_frame seat p st =
      let st₁ = update_active (ops.unmap_elem p.window) st in
      let (ws, id) = alloc_id st₁.workspace in
      let st₂ =
        insert_workspace id
          (record {
            space = with_output (ops.outputs st₁.workspace.active_space);
            emacs_surface = some p.surface;
            name = [];
          })
          (record st₁ { workspace = ws }) in
      (switch_workspace ops seat id (
        log (ipc_send (workspace_created id) ∷ [])
          (configure_at p id (emacs_geometry ops st₂) st₂))).0

  each_toplevel : Seat → List PendingToplevel → EmskinState S → EmskinState S
  unfolding new_frame
  each_toplevel seat [] st = st
  each_toplevel seat (p ∷ ps) st =
      each_toplevel seat ps (if p.has_parent then st else new_frame seat p st)

  pub process_pending_toplevels : Seat → List PendingToplevel → EmskinState S → EmskinState S
  unfolding each_toplevel
  process_pending_toplevels seat [] st = st
  process_pending_toplevels seat (p ∷ ps) st =
      each_toplevel seat (p ∷ ps) (record st { needs_redraw = true })

  unfoldable pub do_action : Seat → WorkspaceAction → EmskinState S → EmskinState S
  unfolding log
  do_action seat (activate id) st = (switch_workspace ops seat id st).0
  do_action seat (remove id) st =
      if id == st.workspace.active_id
      then st
      else log (ipc_send (workspace_destroyed id) ∷ []) (destroy_workspace id st).0
  do_action seat (deactivate id) st = st
  do_action seat create_workspace st = st

  each_action : Seat → List WorkspaceAction → EmskinState S → EmskinState S
  unfolding do_action
  each_action seat [] st = st
  each_action seat (a ∷ rest) st = each_action seat rest (do_action seat a st)

  pub process_workspace_actions : Seat → List WorkspaceAction → EmskinState S → EmskinState S
  unfolding each_action
  process_workspace_actions seat [] st = st
  process_workspace_actions seat (a ∷ rest) st =
      each_action seat (a ∷ rest) (record st { needs_redraw = true })

  pub detect_dead_workspaces : Seat → EmskinState S → EmskinState S
  unfolding redraw_if_any main_died destroy_each
  detect_dead_workspaces seat st =
      let dead = dead_workspaces seat st.workspace.inactive in
      let st₁ = redraw_if_any dead (destroy_each dead st) in
      if main_died seat st₁.emacs
      then elim (first_key st₁.workspace.inactive) [
        | none ↦ log (loop_stop ∷ []) st₁
        | some id ↦ record (switch_workspace ops seat id st₁).0 { needs_redraw = true }
      ]
      else st₁
