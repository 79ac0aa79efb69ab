-- ===== src/Desktop/Placement/Messages.antt =====
-- Every message of Emacs (crates/emskin/src/ipc/dispatch.rs), and sequences of them.
use emskin.Prelude.{
  ℕ, ◌≡◌, refl, sym, ap, ◌∙◌, Bool, true, false, Option, none, some, inl, inr, Option-cases, ==_eq,
  ==_ne, if◌then◌else◌, arith, Text, ltb,
}
use emskin.Prelude.Dict.{lookup, map_option, key-cases}
use emskin.Desktop.{
  SpaceOps, SpaceLaws, Workspace, AppWindow, MirrorView, EmskinState, Seat, KeyboardFocusTarget,
  prefix,
}
use emskin.Desktop.Access.{app_of, set_focus, log, space_for, exit}
use emskin.Desktop.Workspaces.{stored, swap_in, switch_workspace}
use emskin.Desktop.Workspaces.Refinement.{
  workspaces_of, after_switch-workspace, swap_in-workspaces_of, swap_in-IsValid,
  set_focus-workspace,
}
use emskin.Desktop.Dispatch.Mirrors.{
  is_empty_rect, ipc_add_mirror, ipc_update_mirror_geometry, ipc_remove_mirror,
}
use emskin.Desktop.Dispatch
use emskin.Desktop.Dispatch.{
  IncomingMessage, promote_mirror, handle_ipc_message, ipc_close, ipc_prefix_done, ipc_set_focus,
  start_recording, ipc_set_cursor_rect, ipc_set_child_frames,
}
use emskin.Desktop.Placement.{placed, IsPlaced, PlacedIn}
use emskin.Desktop.Placement.Handlers.{
  update_app-PlacedIn, ipc_set_geometry-PlacedIn, ipc_set_visibility-PlacedIn,
  ipc_promote_mirror-PlacedIn,
}

module _ {S : Type 0} where
  space_for-workspaces_of :
      (id : ℕ) (st : EmskinState S)
      → space_for id st.workspace ≡ map_option (λ (w : Workspace S). w.space) (workspaces_of st id)
  unfolding space_for workspaces_of stored
  space_for-workspaces_of id st = ground arith

module _ {S : Type 0} (ops : SpaceOps S) where
  -- A message that promotes a mirror in the workspace of its app finds that workspace active.
  abbrev pub IsHere : IncomingMessage → EmskinState S → Type 0
  IsHere msg st =
      (id view : ℕ) (app : AppWindow) (m : MirrorView)
      → msg ≡ promote_mirror id view
      → app_of id st ≡ some app
      → lookup view app.mirrors ≡ some m
      → m.workspace_id ≡ app.workspace_id
      → app.workspace_id ≡ st.workspace.active_id

  swap_in-PlacedIn :
      (id : ℕ) (target : Workspace S) (st : EmskinState S)
      → PlacedIn ops st
      → lookup id st.workspace.inactive ≡ some target
      → IsPlaced ops (swap_in id target st).workspace st.apps
  unfolding placed swap_in
  swap_in-PlacedIn id target st p found =
      let same : (desk : ℕ)
          → space_for desk (swap_in id target st).workspace ≡ space_for desk st.workspace =
        λ desk.
          space_for-workspaces_of desk (swap_in id target st)
          ∙ (ap (map_option (λ (w : Workspace S). w.space))
                (swap_in-workspaces_of id target st p.valid found desk)
              ∙ sym (space_for-workspaces_of desk st)) in
      record {
        valid = swap_in-IsValid id target st p.valid found;
        alone = λ j app desk e away. rw (same desk) (p.alone j app desk e away);
        distinct = p.distinct;
      }

  switch_workspace-PlacedIn :
      (seat : Seat) (id : ℕ) (st : EmskinState S)
      → PlacedIn ops st
      → PlacedIn ops (switch_workspace ops seat id st).0
  unfolding switch_workspace swap_in
  switch_workspace-PlacedIn seat id st p = elim (key-cases id st.workspace.active_id) [
    | inl same ↦ rw (==_eq id st.workspace.active_id same, switch_workspace) p
    | inr other ↦ elim (Option-cases (lookup id st.workspace.inactive)) [
      | inl gone ↦ rw (==_ne id st.workspace.active_id other, switch_workspace) (rw gone p)
      | inr (target, found) ↦
          let (ws, em, apps) = after_switch-workspace ops seat id (swap_in id target st) in
          rw (==_ne id st.workspace.active_id other, switch_workspace)
            (rw found (rw (ws, apps) (swap_in-PlacedIn id target st p found)))
    ]
  ]

  if-PlacedIn :
      (b : Bool) (s t : EmskinState S)
      → PlacedIn ops s
      → PlacedIn ops t
      → PlacedIn ops (if b then s else t)
  if-PlacedIn true s t p q = p
  if-PlacedIn false s t p q = q

  set_focus-PlacedIn :
      (seat : Seat) (target : Option KeyboardFocusTarget) (st : EmskinState S)
      → PlacedIn ops st
      → PlacedIn ops (set_focus seat target st)
  set_focus-PlacedIn seat target st p =
      let (ws, em, apps) = set_focus-workspace seat target st in rw (ws, apps) p

  ipc_close-PlacedIn :
      (seat : Seat) (id : ℕ) (st : EmskinState S)
      → PlacedIn ops st
      → PlacedIn ops (ipc_close ops seat id st)
  unfolding ipc_close log
  ipc_close-PlacedIn seat id st p = elim (Option-cases (app_of id st)) [
    | inl gone ↦ rw (gone, ipc_close) p
    | inr (app, found) ↦ elim (Option-cases (seat.toplevel app.window)) [
      | inl no_top ↦ rw (found, ipc_close) (rw no_top p)
      | inr (surface, top) ↦ rw (found, ipc_close) (rw top p)
    ]
  ]

  ipc_prefix_done-PlacedIn :
      (seat : Seat) (st : EmskinState S)
      → PlacedIn ops st
      → PlacedIn ops (ipc_prefix_done ops seat st)
  unfolding ipc_prefix_done exit
  ipc_prefix_done-PlacedIn seat st p = elim (Option-cases (st.focus prefix)) [
    | inl idle ↦ rw (idle, ipc_prefix_done) p
    | inr (target, saved) ↦ rw (saved, ipc_prefix_done) (set_focus-PlacedIn seat target _ p)
  ]

  ipc_set_focus-PlacedIn :
      (seat : Seat) (id : Option ℕ) (st : EmskinState S)
      → PlacedIn ops st
      → PlacedIn ops (ipc_set_focus ops seat id st)
  unfolding ipc_set_focus
  ipc_set_focus-PlacedIn seat id st p =
      if-PlacedIn seat.has_keyboard _ st (set_focus-PlacedIn seat _ _ p) p

  start_recording-PlacedIn :
      (path : Option Text) (fps : Option ℕ) (st : EmskinState S)
      → PlacedIn ops st
      → PlacedIn ops (start_recording ops path fps st)
  unfolding start_recording log
  start_recording-PlacedIn none fps st p = p
  start_recording-PlacedIn (some path) none st p = p
  start_recording-PlacedIn (some path) (some fps) st p = if-PlacedIn (ltb 0 fps) _ st p p

module _ {S : Type 0} (ops : SpaceOps S) (laws : SpaceLaws ops) where
  -- After any message of Emacs the workspaces are valid, no window belongs to two apps, and each
  -- app's window is mapped in no workspace but the app's, where that held before and, for the
  -- promotion of a mirror in the workspace of its app, that workspace is the active one.
  pub handle_ipc_message-IsPlaced :
      (seat : Seat) (msg : IncomingMessage) (st : EmskinState S)
      → PlacedIn ops st
      → IsHere ops msg st
      → IsPlaced ops
          (handle_ipc_message ops seat msg st).workspace
          (handle_ipc_message ops seat msg st).apps
  unfolding handle_ipc_message ipc_add_mirror ipc_update_mirror_geometry ipc_remove_mirror
      ipc_set_cursor_rect ipc_set_child_frames log
  handle_ipc_message-IsPlaced seat (Dispatch.set_geometry id rect) st p h =
      ipc_set_geometry-PlacedIn ops laws seat id rect st p
  handle_ipc_message-IsPlaced seat (Dispatch.close id) st p h = ipc_close-PlacedIn ops seat id st p
  handle_ipc_message-IsPlaced seat (Dispatch.set_visibility id visible) st p h =
      ipc_set_visibility-PlacedIn ops laws id visible st p
  handle_ipc_message-IsPlaced seat Dispatch.prefix_done st p h =
      ipc_prefix_done-PlacedIn ops seat st p
  handle_ipc_message-IsPlaced seat Dispatch.prefix_clear st p h = p
  handle_ipc_message-IsPlaced seat (Dispatch.add_mirror id view rect) st p h =
      if-PlacedIn ops (is_empty_rect rect) st _ p
        (update_app-PlacedIn ops laws id _ st p (λ a. (refl, refl)))
  handle_ipc_message-IsPlaced seat (Dispatch.update_mirror_geometry id view rect) st p h =
      if-PlacedIn ops (is_empty_rect rect) st _ p
        (update_app-PlacedIn ops laws id _ st p (λ a. (refl, refl)))
  handle_ipc_message-IsPlaced seat (Dispatch.remove_mirror id view) st p h =
      update_app-PlacedIn ops laws id _ st p (λ a. (refl, refl))
  handle_ipc_message-IsPlaced seat (promote_mirror id view) st p h =
      ipc_promote_mirror-PlacedIn ops laws id view st p (λ app m. h id view app m refl)
  handle_ipc_message-IsPlaced seat (Dispatch.set_focus_to id) st p h =
      ipc_set_focus-PlacedIn ops seat id st p
  handle_ipc_message-IsPlaced seat (Dispatch.set_measure on) st p h = p
  handle_ipc_message-IsPlaced seat (Dispatch.set_cursor_trail on) st p h = p
  handle_ipc_message-IsPlaced seat (Dispatch.set_key_cast on) st p h = p
  handle_ipc_message-IsPlaced seat (Dispatch.set_skeleton on rects) st p h = p
  handle_ipc_message-IsPlaced seat (Dispatch.switch_to id) st p h =
      switch_workspace-PlacedIn ops seat id st p
  handle_ipc_message-IsPlaced seat (Dispatch.set_jelly_cursor on) st p h = p
  handle_ipc_message-IsPlaced seat (Dispatch.set_cursor_rect rect color) st p h = p
  handle_ipc_message-IsPlaced seat (Dispatch.set_child_frames rects) st p h = p
  handle_ipc_message-IsPlaced seat (Dispatch.take_screenshot path) st p h = p
  handle_ipc_message-IsPlaced seat (Dispatch.set_recording true path fps) st p h =
      start_recording-PlacedIn ops path fps st p
  handle_ipc_message-IsPlaced seat (Dispatch.set_recording false path fps) st p h = p
