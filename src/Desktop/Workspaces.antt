-- ===== src/Desktop/Workspaces.antt =====
-- The life of a workspace (crates/emskin/src/state/mod.rs and workspace.rs).
pub mod Refinement
use emskin.Prelude.{
  ℕ, suc, ◌+◌, Bool, true, false, ◌||◌, Option, none, some, List, [], ◌∷◌, ◌++◌, map, Text, length,
  ◌==◌, if◌then◌else◌,
}
use emskin.Prelude.Dict.{Dict, lookup, insert, erase, modify, modify_all}
use emskin.Ime.{Rect}
use emskin.Ime.Owner.{reset_on_workspace_switch}
use emskin.Desktop.{
  SpaceOps, Workspace, WorkspaceState, AppWindow, EmskinState, Seat, Call, ipc_send, pointer_leave,
  configure, effects_reset, cursor_reset, surface_size, window_destroyed, workspace_switched,
}
use emskin.Desktop.Access.{
  app_of, update_app, update_space, log, set_focus, emacs_focus_target, emacs_geometry, is_surface,
  find_toplevel, no_saves, remove_app,
}

unfoldable pub alloc_id : {S : Type 0} → WorkspaceState S → WorkspaceState S × ℕ
alloc_id ws = (record ws { next_id = ws.next_id + 1 }, ws.next_id)

pub count : {S : Type 0} → WorkspaceState S → ℕ
count ws = 1 + length ws.inactive

any_inactive : {S : Type 0} → ℕ → Dict (Workspace S) → Bool
any_inactive surface [] = false
any_inactive surface (e ∷ es) = is_surface e.1.emacs_surface surface || any_inactive surface es

pub is_any_emacs_surface : {S : Type 0} → ℕ → EmskinState S → Bool
unfolding any_inactive
is_any_emacs_surface surface st =
    is_surface st.emacs.surface surface || any_inactive surface st.workspace.inactive

abbrev pub app_ids : ℕ → Dict AppWindow → List ℕ
app_ids id [] = []
app_ids id (e ∷ es) =
    if e.1.workspace_id == id then e.1.window_id ∷ app_ids id es else app_ids id es

-- The app's geometry is cleared: it is mapped at once by the next one.
unfoldable pub moved_to : ℕ → AppWindow → AppWindow
moved_to id app = record app {
  workspace_id = id;
  geometry = none;
  pending_geometry = none;
  pending_since = none;
}

module _ {S : Type 0} where
  -- The active workspace as an entry of the inactive ones.
  unfoldable pub stored : EmskinState S → Workspace S
  stored st = record {
    space = st.workspace.active_space;
    emacs_surface = st.emacs.surface;
    name = st.workspace.active_name;
  }

  unfoldable pub swap_in : ℕ → Workspace S → EmskinState S → EmskinState S
  unfolding stored
  swap_in target_id target st = record st {
    workspace = record st.workspace {
      active_space = target.space;
      inactive = insert st.workspace.active_id (stored st) (erase target_id st.workspace.inactive);
      active_id = target_id;
      active_name = target.name;
    };
    emacs = record st.emacs { surface = target.emacs_surface };
    focus = no_saves;
    ime = reset_on_workspace_switch st.ime;
  }

  unfoldable pub remove_apps : List ℕ → EmskinState S → EmskinState S
  unfolding remove_app log
  remove_apps [] st = st
  remove_apps (id ∷ ids) st = remove_apps ids (elim (app_of id st) [
    | none ↦ st
    | some app ↦
        log (ipc_send (window_destroyed app.window_id) ∷ [])
          (record st { apps = remove_app id st.apps })
  ])

  unfoldable pub destroy_workspace : ℕ → EmskinState S → EmskinState S × Option (Workspace S)
  destroy_workspace id st = elim (lookup id st.workspace.inactive) [
    | none ↦ (st, none)
    | some ws ↦ (
      remove_apps (app_ids id st.apps.windows) (record st {
        workspace = record st.workspace { inactive = erase id st.workspace.inactive };
      }),
      some ws,
    )
  ]

module _ {S : Type 0} (ops : SpaceOps S) where
  unfoldable pub after_switch : Seat → ℕ → EmskinState S → EmskinState S
  unfolding log
  after_switch seat target_id st = log (pointer_leave ∷ []) (
      set_focus seat (emacs_focus_target ops seat st)
        (log (effects_reset ∷ cursor_reset ∷ ipc_send (workspace_switched target_id) ∷ []) st))

  -- The result is whether the workspace changed.
  unfoldable pub switch_workspace : Seat → ℕ → EmskinState S → EmskinState S × Bool
  switch_workspace seat target_id st =
      if target_id == st.workspace.active_id
      then (st, false)
      else elim (lookup target_id st.workspace.inactive) [
        | none ↦ (st, false)
        | some target ↦ (after_switch seat target_id (swap_in target_id target st), true)
      ]

  -- The result is whether the app moved.
  unfoldable pub migrate_app_to_active : ℕ → EmskinState S → EmskinState S × Bool
  unfolding update_space update_app moved_to
  migrate_app_to_active id st = elim (app_of id st) [
    | none ↦ (st, false)
    | some app ↦ if app.workspace_id == st.workspace.active_id then (st, false) else (
      update_app id (moved_to st.workspace.active_id)
          (update_space app.workspace_id (ops.unmap_elem app.window) st),
      true,
    )
  ]

  unfoldable pub place_emacs : ℕ → Rect → S → S
  place_emacs w geo s = ops.lower_element w (ops.map_element w geo.loc s)

  -- The configure that goes to the frame, and the space.
  pub resize_emacs_in_space : Seat → Option ℕ → Rect → S → S × List Call
  unfolding find_toplevel place_emacs
  resize_emacs_in_space seat none geo s = (s, [])
  resize_emacs_in_space seat (some surface) geo s =
      elim (find_toplevel seat surface (ops.elements s)) [
        | none ↦ (s, [])
        | some w ↦ (place_emacs w geo s, configure surface geo.size ∷ [])
      ]

  resize_inactive : Seat → Rect → Dict (Workspace S) → Dict (Workspace S) × List Call
  unfolding resize_emacs_in_space
  resize_inactive seat geo [] = ([], [])
  resize_inactive seat geo (e ∷ es) =
      let (s, cs) = resize_emacs_in_space seat e.1.emacs_surface geo e.1.space in
      let (es', cs') = resize_inactive seat geo es in
      ((e.0, record e.1 { space = s }) ∷ es', cs ++ cs')

  pub relayout_emacs : Seat → EmskinState S → EmskinState S
  unfolding resize_inactive log
  relayout_emacs seat st = elim (emacs_geometry ops st) [
    | none ↦ st
    | some geo ↦
        let (s, cs) = resize_emacs_in_space seat st.emacs.surface geo st.workspace.active_space in
        let (inactive, cs') = resize_inactive seat geo st.workspace.inactive in
        log (cs ++ (cs' ++ (ipc_send (surface_size geo.size.0 geo.size.1) ∷ []))) (record st {
          workspace = record st.workspace { active_space = s; inactive = inactive };
          needs_redraw = true;
        })
  ]
