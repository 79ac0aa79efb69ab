-- ===== src/Desktop/Frames/Run.antt =====
-- Sequences of the calls that switch, destroy and create workspaces
-- (crates/emskin/src/state/mod.rs and tick.rs).
use emskin.Prelude.{ℕ, ◌≡◌, refl, ap, ◌∙◌, List, [], ◌∷◌}
use emskin.Desktop.{SpaceOps, EmskinState, Seat}
use emskin.Desktop.Workspaces.{switch_workspace, destroy_workspace}
use emskin.Desktop.Workspaces.Refinement.{IsValid}
use emskin.Desktop.Frames.{PendingToplevel, new_frame}
use emskin.Desktop.Frames.Refines.{
  Desks, desks, show_desk, drop_desk, switch_workspace-refines, destroy_workspace-refines,
}
use emskin.Desktop.Frames.Created.{open_desk, new_frame-refines}

-- The calls that change which workspaces there are and which is active.
pub data DeskCall : Type 0 where
  switched : Seat → ℕ → DeskCall
  destroyed : ℕ → DeskCall
  framed : Seat → PendingToplevel → DeskCall

module _ {S : Type 0} (ops : SpaceOps S) where
  unfoldable pub run : List DeskCall → EmskinState S → EmskinState S
  run [] st = st
  run (switched seat id ∷ cs) st = run cs (switch_workspace ops seat id st).0
  run (destroyed id ∷ cs) st = run cs (destroy_workspace id st).0
  run (framed seat p ∷ cs) st = run cs (new_frame ops seat p st)

  unfoldable pub replay : List DeskCall → Desks S → Desks S
  replay [] a = a
  replay (switched seat id ∷ cs) a = replay cs (show_desk id a)
  replay (destroyed id ∷ cs) a = replay cs (drop_desk id a)
  replay (framed seat p ∷ cs) a = replay cs (open_desk ops p a)

  -- From a valid state any calls that switch, destroy and create workspaces end in a valid state,
  -- and do to the map from ids to workspaces, the active id and the next id what the specification
  -- of each call says: no workspace is lost, changed or confused with another by being swapped in
  -- or out.
  pub run-refines :
      (cs : List DeskCall) (st : EmskinState S)
      → IsValid st.workspace
      → (desks (run cs st) ≡ replay cs (desks st)) × IsValid (run cs st).workspace
  unfolding run replay
  run-refines [] st v = (refl, v)
  run-refines (switched seat id ∷ cs) st v =
      let (e, w) = switch_workspace-refines ops seat id st v in
      let (f, x) = run-refines cs (switch_workspace ops seat id st).0 w in (f ∙ ap (replay cs) e, x)
  run-refines (destroyed id ∷ cs) st v =
      let (e, w) = destroy_workspace-refines id st v in
      let (f, x) = run-refines cs (destroy_workspace id st).0 w in (f ∙ ap (replay cs) e, x)
  run-refines (framed seat p ∷ cs) st v =
      let (e, w) = new_frame-refines ops seat p st v in
      let (f, x) = run-refines cs (new_frame ops seat p st) w in (f ∙ ap (replay cs) e, x)
