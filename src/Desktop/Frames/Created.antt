-- ===== src/Desktop/Frames/Created.antt =====
-- A new frame of Emacs gets a workspace of its own (`process_pending_toplevels` of
-- crates/emskin/src/tick.rs).
use emskin.Prelude.{
  ℕ, ◌+◌, ◌≡◌, ◌≢◌, refl, sym, ap, ◌∙◌, fun_ext, Option, none, some, List, [], ◌∷◌, arith, ◌==◌,
  if◌then◌else◌, ==_self, ==_eq, ==_ne, inl, inr,
}
use emskin.Prelude.Dict.{
  Dict, lookup, insert, modify, map_option, lookup-insert_self, lookup-insert_ne,
  lookup-modify_self, lookup-modify_ne, key-cases,
}
use emskin.Ime.{Rect}
use emskin.Desktop.{SpaceOps, Workspace, EmskinState, Seat, ipc_send, workspace_created}
use emskin.Desktop.Access.{update_active, log, emacs_geometry, area_of}
use emskin.Desktop.Workspaces.{stored, alloc_id, place_emacs}
use emskin.Desktop.Workspaces.Refinement.{IsValid, workspaces_of}
use emskin.Desktop.Frames.{PendingToplevel, new_frame, with_output, insert_workspace, configure_at}
use emskin.Desktop.Frames.Refines.{
  Desks, desks, desks-cong, show_desk, show_desk-found, switch_workspace-refines,
}

module _ {S : Type 0} (ops : SpaceOps S) where
  -- The space of a frame, by the outputs and the area of the space that its window leaves.
  unfoldable frame_space : PendingToplevel → List ℕ → Option Rect → S
  frame_space p outputs none = with_output ops outputs
  frame_space p outputs (some geo) = place_emacs ops p.window geo (with_output ops outputs)

  unfoldable pub frame_of : PendingToplevel → S → Workspace S
  unfolding frame_space
  frame_of p s = record {
    space = frame_space p (ops.outputs s) (area_of ops s);
    emacs_surface = some p.surface;
    name = [];
  }

  -- The specification: the window leaves the active workspace for a new one, which is shown.
  open_from : PendingToplevel → Option (Workspace S) → Desks S → Desks S
  unfolding frame_of
  open_from p none a = a
  open_from p (some w) a =
      let s = ops.unmap_elem p.window w.space in
      record {
        active = a.next;
        contents = λ j.
            if j == a.next
            then some (frame_of p s)
            else if j == a.active
            then some (record w { space = s })
            else a.contents j;
        next = a.next + 1;
      }

  unfoldable pub open_desk : PendingToplevel → Desks S → Desks S
  unfolding open_from
  open_desk p a = open_from p (a.contents a.active) a

  -- A state with a new entry in the map of the inactive workspaces.
  abbrev opened : PendingToplevel → EmskinState S → Dict (Workspace S) → EmskinState S
  opened p st d = record st {
    workspace = record st.workspace {
      active_space = ops.unmap_elem p.window st.workspace.active_space;
      inactive = d;
      next_id = st.workspace.next_id + 1;
    };
  }

  -- What configuring the frame leaves in the map.
  configure_at-inactive :
      (p : PendingToplevel) (geo : Option Rect) (outputs : List ℕ) (st : EmskinState S)
      → let n = st.workspace.next_id in
        let w : Workspace S = record {
          space = with_output ops outputs;
          emacs_surface = some p.surface;
          name = [];
        } in
        let w' : Workspace S = record w { space = frame_space p outputs geo } in
        let st' = configure_at ops p n geo (opened p st (insert n w st.workspace.inactive)) in
        (d : Dict (Workspace S)) × (st'.workspace ≡ (opened p st d).workspace)
        × (st'.emacs ≡ st.emacs)
        × (lookup n d ≡ some w')
        × ((j : ℕ) → j ≢ n → lookup j d ≡ lookup j st.workspace.inactive)
  unfolding configure_at log frame_space
  configure_at-inactive p none outputs st =
      let n = st.workspace.next_id in
      let w : Workspace S = record {
        space = with_output ops outputs;
        emacs_surface = some p.surface;
        name = [];
      } in
      let inactive = st.workspace.inactive in
      (
        insert n w inactive,
        refl,
        refl,
        lookup-insert_self n w inactive,
        λ j other. lookup-insert_ne j n w inactive other,
      )
  configure_at-inactive p (some geo) outputs st =
      let n = st.workspace.next_id in
      let w : Workspace S = record {
        space = with_output ops outputs;
        emacs_surface = some p.surface;
        name = [];
      } in
      let inactive = st.workspace.inactive in
      let f : Workspace S → Workspace S =
        λ w. record w { space = place_emacs ops p.window geo w.space } in
      (
        modify n f (insert n w inactive),
        refl,
        refl,
        lookup-modify_self n f (insert n w inactive)
            ∙ ap (map_option f) (lookup-insert_self n w inactive),
        λ j other.
            lookup-modify_ne j n f (insert n w inactive) other
            ∙ lookup-insert_ne j n w inactive other,
      )

  module _ (p : PendingToplevel) (st : EmskinState S) (v : IsValid st.workspace)
      (d : Dict (Workspace S))
      (there : lookup st.workspace.next_id d
        ≡ some (frame_of p (ops.unmap_elem p.window st.workspace.active_space)))
      (rest : (j : ℕ)
        → j ≢ st.workspace.next_id
        → lookup j d ≡ lookup j st.workspace.inactive) where
    new_id : st.workspace.next_id ≢ st.workspace.active_id
    new_id = λ same. let below = v.active_below in omega arith

    opened-new :
        workspaces_of (opened p st d) st.workspace.next_id
        ≡ some (frame_of p (ops.unmap_elem p.window st.workspace.active_space))
    unfolding workspaces_of
    opened-new = rw (==_ne st.workspace.next_id st.workspace.active_id new_id) there

    opened-contents :
        (j : ℕ) → workspaces_of (opened p st d) j ≡ (open_desk p (desks st)).contents j
    unfolding workspaces_of open_desk open_from desks stored
    opened-contents j =
        rw (==_self st.workspace.active_id) (elim (key-cases j st.workspace.active_id) [
          | inl active ↦
              let fresh : j ≢ st.workspace.next_id = λ same. new_id (sym same ∙ active) in
              rw (==_ne j st.workspace.next_id fresh, ==_eq j st.workspace.active_id active) refl
          | inr passive ↦ elim (key-cases j st.workspace.next_id) [
            | inl same ↦
                rw (==_ne j st.workspace.active_id passive, ==_eq j st.workspace.next_id same, same)
                  there
            | inr other ↦
                rw (==_ne j st.workspace.active_id passive, ==_ne j st.workspace.next_id other)
                  (rest j other)
          ]
        ])

    opened-IsValid : IsValid (opened p st d).workspace
    opened-IsValid =
        let below = v.active_below in
        record {
          active_out = rest st.workspace.active_id (λ same. new_id (sym same)) ∙ v.active_out;
          active_below = omega arith;
          below = λ j h. rest j (λ same. omega arith) ∙ v.below j (omega arith);
        }

    opened-desks : show_desk st.workspace.next_id (desks (opened p st d)) ≡ open_desk p (desks st)
    unfolding desks open_desk open_from workspaces_of stored
    opened-desks =
        show_desk-found st.workspace.next_id (desks (opened p st d)) _ opened-new
        ∙ (ap
              (λ (c : ℕ → Option (Workspace S)). record (desks st) {
                active = st.workspace.next_id;
                contents = c;
                next = st.workspace.next_id + 1;
              })
              (fun_ext opened-contents)
            ∙ rw (==_self st.workspace.active_id) refl)

  pub new_frame-refines :
      (seat : Seat) (p : PendingToplevel) (st : EmskinState S)
      → IsValid st.workspace
      → (desks (new_frame ops seat p st) ≡ open_desk p (desks st))
        × IsValid (new_frame ops seat p st).workspace
  unfolding new_frame update_active insert_workspace log frame_of emacs_geometry alloc_id desks
  new_frame-refines seat p st v =
      let s = ops.unmap_elem p.window st.workspace.active_space in
      let (d, ws, em, there, rest) = configure_at-inactive p (area_of ops s) (ops.outputs s) st in
      let n = st.workspace.next_id in
      let w : Workspace S = record {
        space = with_output ops (ops.outputs s);
        emacs_surface = some p.surface;
        name = [];
      } in
      let announced =
        log (ipc_send (workspace_created n) ∷ [])
          (configure_at ops p n (area_of ops s) (opened p st (insert n w st.workspace.inactive))) in
      let shown =
        switch_workspace-refines ops seat n announced
          (rw ws (opened-IsValid p st v d there rest)) in
      (
        shown.0
            ∙ (ap (show_desk n) (desks-cong announced (opened p st d) ws em)
                ∙ opened-desks p st v d there rest),
        shown.1,
      )
