-- ===== src/Desktop/Workspaces/Refinement.antt =====
-- The workspaces as a map from ids to workspaces, of which one is active: what
-- `switch_workspace` and `destroy_workspace` (crates/emskin/src/state/mod.rs) do to it.
use emskin.Prelude.{
  ℕ, ◌≤◌, ◌<◌, ◌≡◌, ◌≢◌, refl, ◌∙◌, Option, none, some, arith, leb, ◌==◌, if◌then◌else◌, ==_self,
  ==_ne, Bool-cases, inl, inr,
}
use emskin.Prelude.Dict.{
  lookup, erase, lookup-erase_self, lookup-erase_ne, lookup-insert_self, lookup-insert_ne,
  key-cases,
}
use emskin.Desktop.{SpaceOps, Workspace, WorkspaceState, EmskinState, Seat, KeyboardFocusTarget}
use emskin.Desktop.Access.{set_focus, log}
use emskin.Desktop.Workspaces.{stored, swap_in, after_switch}

-- A workspace that is active is not among the inactive ones, and an id that is still to be given
-- belongs to none.
pub record IsValid {S : Type 0} (ws : WorkspaceState S) : Type 0 where
  pub active_out : lookup ws.active_id ws.inactive ≡ none
  pub active_below : ws.active_id < ws.next_id
  pub below : (id : ℕ) → ws.next_id ≤ id → lookup id ws.inactive ≡ none

module _ {S : Type 0} where
  unfoldable pub workspaces_of : EmskinState S → ℕ → Option (Workspace S)
  workspaces_of st id =
      if id == st.workspace.active_id then some (stored st) else lookup id st.workspace.inactive

  pub set_focus-workspace :
      (seat : Seat) (target : Option KeyboardFocusTarget) (st : EmskinState S)
      → ((set_focus seat target st).workspace ≡ st.workspace)
        × ((set_focus seat target st).emacs ≡ st.emacs)
        × ((set_focus seat target st).apps ≡ st.apps)
  unfolding set_focus log
  set_focus-workspace seat target st = ground arith

  pub swap_in-workspaces_of :
      (id : ℕ) (target : Workspace S) (st : EmskinState S)
      → IsValid st.workspace
      → lookup id st.workspace.inactive ≡ some target
      → (j : ℕ) → workspaces_of (swap_in id target st) j ≡ workspaces_of st j
  unfolding workspaces_of swap_in stored
  swap_in-workspaces_of id target st v e j =
      let out = v.active_out in
      let inactive = st.workspace.inactive in
      let aid = st.workspace.active_id in
      let apart : id ≢ aid = λ same. cc in
      elim (key-cases j id) [
        | inl same ↦ rw (same, ==_self id, ==_ne id aid apart, e) refl
        | inr other ↦ elim (key-cases j aid) [
          | inl active ↦
              rw
                (
                  ==_ne j id other,
                  active,
                  ==_self aid,
                  lookup-insert_self aid (stored st) (erase id inactive),
                )
                refl
          | inr passive ↦
              rw (==_ne j id other, ==_ne j aid passive)
                (lookup-insert_ne j aid (stored st) (erase id inactive) passive
                  ∙ lookup-erase_ne j id inactive other)
        ]
      ]

  pub swap_in-IsValid :
      (id : ℕ) (target : Workspace S) (st : EmskinState S)
      → IsValid st.workspace
      → lookup id st.workspace.inactive ≡ some target
      → IsValid (swap_in id target st).workspace
  unfolding swap_in stored
  swap_in-IsValid id target st v e =
      let inactive = st.workspace.inactive in
      let aid = st.workspace.active_id in
      let out = v.active_out in
      let aid_below = v.active_below in
      let apart : id ≢ aid = λ same. cc in
      record {
        active_out =
            lookup-insert_ne id aid (stored st) (erase id inactive) apart
            ∙ lookup-erase_self id inactive;
        active_below = elim (Bool-cases (leb st.workspace.next_id id)) [
          | inl over ↦ let gone = v.below id (ground (arith, over)) in absurd (cc)
          | inr under ↦ ground (arith, under)
        ];
        below = λ j h.
            let not_active : j ≢ aid = λ same. omega arith in
            let gone = v.below j h in
            let other : j ≢ id = λ same. cc in
            lookup-insert_ne j aid (stored st) (erase id inactive) not_active
            ∙ (lookup-erase_ne j id inactive other ∙ gone);
      }

  module _ (ops : SpaceOps S) where
    pub after_switch-workspace :
        (seat : Seat) (id : ℕ) (st : EmskinState S)
        → ((after_switch ops seat id st).workspace ≡ st.workspace)
          × ((after_switch ops seat id st).emacs ≡ st.emacs)
          × ((after_switch ops seat id st).apps ≡ st.apps)
    unfolding after_switch log
    after_switch-workspace seat id st = set_focus-workspace seat _ _
