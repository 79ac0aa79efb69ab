-- ===== src/Desktop/Frames/Refines.antt =====
-- What an outside observer sees of the workspaces (crates/emskin/src/state/mod.rs, tick.rs): a map
-- from ids, one of them active, and the next free id. Which one lies in the fields of the active
-- workspace and which in the map of the inactive ones is forgotten.
use emskin.Prelude.{
  ℕ, ◌≡◌, ◌≢◌, refl, sym, ap, ◌∙◌, fun_ext, true, false, Option, none, some, ◌⊎◌, List, [], ◌∷◌,
  arith, not, ◌&&◌, ◌==◌, if◌then◌else◌, ==_self, ==_eq, ==_ne, Option-cases, inl, inr,
}
use emskin.Prelude.Dict.{lookup, erase, lookup-erase_self, lookup-erase_ne, key-cases}
use emskin.Desktop.{SpaceOps, Workspace, EmskinState, Seat}
use emskin.Desktop.Access.{app_of, log}
use emskin.Desktop.Workspaces.{
  stored, swap_in, after_switch, switch_workspace, remove_apps, destroy_workspace, app_ids,
}
use emskin.Desktop.Workspaces.Refinement.{
  IsValid, workspaces_of, after_switch-workspace, swap_in-workspaces_of, swap_in-IsValid,
}

pub record Desks (S : Type 0) : Type 0 where
  pub active : ℕ
  pub contents : ℕ → Option (Workspace S)
  pub next : ℕ

module _ {S : Type 0} where
  unfoldable pub desks : EmskinState S → Desks S
  desks st = record {
    active = st.workspace.active_id;
    contents = workspaces_of st;
    next = st.workspace.next_id;
  }

  pub desks-cong :
      (a b : EmskinState S) → a.workspace ≡ b.workspace → a.emacs ≡ b.emacs → desks a ≡ desks b
  unfolding desks workspaces_of stored
  desks-cong a b p q = rw (p, q) refl

  -- The specification: a workspace that exists becomes the active one.
  unfoldable pub show_desk : ℕ → Desks S → Desks S
  show_desk id a = elim (a.contents id) [ none ↦ a | some _ ↦ record a { active = id } ]

  -- A workspace that is not active disappears.
  unfoldable pub drop_desk : ℕ → Desks S → Desks S
  drop_desk id a = record a {
    contents = λ j. if j == id && not (j == a.active) then none else a.contents j;
  }

  show_desk-missing : (id : ℕ) (a : Desks S) → a.contents id ≡ none → show_desk id a ≡ a
  unfolding show_desk
  show_desk-missing id a e = rw (e, show_desk) refl

  pub show_desk-found :
      (id : ℕ) (a : Desks S) (w : Workspace S)
      → a.contents id ≡ some w
      → show_desk id a ≡ record a { active = id }
  unfolding show_desk
  show_desk-found id a w e = rw (e, show_desk) refl

  workspaces_of-active :
      (st : EmskinState S) → workspaces_of st st.workspace.active_id ≡ some (stored st)
  unfolding workspaces_of
  workspaces_of-active st = rw (==_self st.workspace.active_id) refl

  workspaces_of-inactive :
      (id : ℕ) (st : EmskinState S)
      → id ≢ st.workspace.active_id
      → workspaces_of st id ≡ lookup id st.workspace.inactive
  unfolding workspaces_of
  workspaces_of-inactive id st h = rw (==_ne id st.workspace.active_id h) refl

  remove_apps-workspace :
      (ids : List ℕ) (st : EmskinState S)
      → ((remove_apps ids st).workspace ≡ st.workspace) × ((remove_apps ids st).emacs ≡ st.emacs)
  unfolding remove_apps log
  remove_apps-workspace [] st = (refl, refl)
  remove_apps-workspace (id ∷ ids) st = elim (Option-cases (app_of id st)) [
    | inl gone ↦ rw (gone, remove_apps) (remove_apps-workspace ids st)
    | inr (app, found) ↦ rw (found, remove_apps) (remove_apps-workspace ids _)
  ]

  module _ (ops : SpaceOps S) where
    switch-cases :
        (seat : Seat) (id : ℕ) (st : EmskinState S)
        → ((switch_workspace ops seat id st ≡ (st, false))
            × ((id ≡ st.workspace.active_id)
                ⊎ ((id ≢ st.workspace.active_id) × (lookup id st.workspace.inactive ≡ none))))
          ⊎ ((target : Workspace S) × (switch_workspace ops seat id st
                ≡ (after_switch ops seat id (swap_in id target st), true))
              × (id ≢ st.workspace.active_id)
              × (lookup id st.workspace.inactive ≡ some target))
    unfolding switch_workspace
    switch-cases seat id st = elim (key-cases id st.workspace.active_id) [
      | inl same ↦ inl (rw (same, ==_self st.workspace.active_id) refl, inl same)
      | inr other ↦ elim (Option-cases (lookup id st.workspace.inactive)) [
        | inl gone ↦ inl (rw (==_ne id st.workspace.active_id other, gone) refl, inr (other, gone))
        | inr (target, found) ↦
            inr (target, rw (==_ne id st.workspace.active_id other, found) refl, other, found)
      ]
    ]

    swapped_desks :
        (id : ℕ) (target : Workspace S) (st : EmskinState S)
        → IsValid st.workspace
        → lookup id st.workspace.inactive ≡ some target
        → desks (swap_in id target st) ≡ record (desks st) { active = id }
    unfolding desks swap_in
    swapped_desks id target st v found =
        ap (λ c. record (desks st) { active = id; contents = c })
          (fun_ext (swap_in-workspaces_of id target st v found))

    pub switch_workspace-refines :
        (seat : Seat) (id : ℕ) (st : EmskinState S)
        → IsValid st.workspace
        → (desks (switch_workspace ops seat id st).0 ≡ show_desk id (desks st))
          × IsValid (switch_workspace ops seat id st).0.workspace
    unfolding desks
    switch_workspace-refines seat id st v = elim (switch-cases seat id st) [
      | inl (e, inl same) ↦ rw e (
        rw same
            (sym (show_desk-found st.workspace.active_id (desks st) _ (workspaces_of-active st))),
        v,
      )
      | inl (e, inr (other, gone)) ↦
          rw e
            (sym (show_desk-missing id (desks st) (workspaces_of-inactive id st other ∙ gone)), v)
      | inr (target, e, other, found) ↦
          let next = swap_in id target st in
          let same = after_switch-workspace ops seat id next in
          (
            ap desks (ap (λ x. x.0) e)
                ∙ (desks-cong (after_switch ops seat id next) next same.0 same.1
                    ∙ (swapped_desks id target st v found
                        ∙ sym (
                            show_desk-found id (desks st) target
                              (workspaces_of-inactive id st other ∙ found)))),
            rw (e, same.0) (swap_in-IsValid id target st v found),
          )
    ]

  -- The state with the workspace taken out of the map.
  abbrev without : ℕ → EmskinState S → EmskinState S
  without id st = record st {
    workspace = record st.workspace { inactive = erase id st.workspace.inactive };
  }

  without-contents :
      (id : ℕ) (st : EmskinState S) (j : ℕ)
      → workspaces_of (without id st) j ≡ (drop_desk id (desks st)).contents j
  unfolding desks drop_desk workspaces_of stored
  without-contents id st j =
      let inactive = st.workspace.inactive in
      elim (key-cases j st.workspace.active_id) [
        | inl active ↦ rw (active, ==_self st.workspace.active_id) (ground arith)
        | inr passive ↦ elim (key-cases j id) [
          | inl same ↦
              rw (==_eq j id same, ==_ne j st.workspace.active_id passive, same)
                (lookup-erase_self id inactive)
          | inr other ↦
              rw (==_ne j id other, ==_ne j st.workspace.active_id passive)
                (lookup-erase_ne j id inactive other)
        ]
      ]

  without-refines : (id : ℕ) (st : EmskinState S) → desks (without id st) ≡ drop_desk id (desks st)
  unfolding desks drop_desk
  without-refines id st =
      ap (λ c. record (desks st) { contents = c }) (fun_ext (without-contents id st))

  without-IsValid :
      (id : ℕ) (st : EmskinState S) → IsValid st.workspace → IsValid (without id st).workspace
  without-IsValid id st v =
      let erased : (j : ℕ)
          → lookup j st.workspace.inactive ≡ none
          → lookup j (erase id st.workspace.inactive) ≡ none =
        λ j gone. elim (key-cases j id) [
          | inl same ↦ rw same (lookup-erase_self id st.workspace.inactive)
          | inr other ↦ lookup-erase_ne j id st.workspace.inactive other ∙ gone
        ] in
      record {
        active_out = erased st.workspace.active_id v.active_out;
        active_below = v.active_below;
        below = λ j h. erased j (v.below j h);
      }

  -- Without a workspace of that id nothing changes.
  missing-refines :
      (id : ℕ) (st : EmskinState S)
      → lookup id st.workspace.inactive ≡ none
      → desks st ≡ drop_desk id (desks st)
  unfolding desks drop_desk workspaces_of stored
  missing-refines id st gone =
      let same : (j : ℕ) → workspaces_of st j ≡ workspaces_of (without id st) j = λ j.
        elim (key-cases j id) [
          | inl same ↦
              rw (same, lookup-erase_self id st.workspace.inactive, gone, workspaces_of) refl
          | inr other ↦ rw (lookup-erase_ne j id st.workspace.inactive other, workspaces_of) refl
        ] in
      ap (λ c. record (desks st) { contents = c }) (fun_ext same) ∙ without-refines id st

  pub destroy_workspace-refines :
      (id : ℕ) (st : EmskinState S)
      → IsValid st.workspace
      → (desks (destroy_workspace id st).0 ≡ drop_desk id (desks st))
        × IsValid (destroy_workspace id st).0.workspace
  unfolding destroy_workspace
  destroy_workspace-refines id st v = elim (Option-cases (lookup id st.workspace.inactive)) [
    | inl gone ↦ rw (gone, destroy_workspace) (missing-refines id st gone, v)
    | inr (ws, found) ↦
        let out = without id st in
        let kept = remove_apps-workspace (app_ids id st.apps.windows) out in
        rw (found, destroy_workspace)
          (
            desks-cong _ out kept.0 kept.1 ∙ without-refines id st,
            rw kept.0 (without-IsValid id st v),
          )
  ]
