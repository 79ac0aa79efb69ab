-- ===== src/Desktop/Placement/Migrate.antt =====
-- `migrate_app_to_active` of crates/emskin/src/state/mod.rs, and an app that leaves a workspace.
use emskin.Prelude.{
  ℕ, ◌≡◌, ◌≢◌, refl, sym, ap, subst, ◌∙◌, Bool, true, false, none, some, ◌⊎◌, inl, inr,
  Option-cases, ==_eq, ==_ne,
}
use emskin.Prelude.Dict.{lookup, map_option, key-cases, some-injective, lookup-modify_self}
use emskin.Desktop.{SpaceOps, SpaceLaws, WorkspaceState, AppWindow, AppManager, EmskinState}
use emskin.Desktop.Access.{app_of, update_app, update_space, modify_space, modify_app}
use emskin.Desktop.Workspaces.{moved_to, migrate_app_to_active}
use emskin.Desktop.Placement.{
  placed, IsPlaced, PlacedIn, modify_space-active_id, placed-unmap, placed-unmap_self,
}
use emskin.Desktop.Placement.Changes.{app-IsPlaced, unmap-IsPlaced}

module _ {S : Type 0} (ops : SpaceOps S) (laws : SpaceLaws ops) where
  -- An app that leaves its workspace for another, unmapped there.
  pub leave-IsPlaced :
      (id : ℕ) (app : AppWindow) (f : AppWindow → AppWindow) (ws : WorkspaceState S)
      (m : AppManager)
      → IsPlaced ops ws m
      → lookup id m.windows ≡ some app
      → (f app).window ≡ app.window
      → IsPlaced ops
          (modify_space app.workspace_id (ops.unmap_elem app.window) ws)
          (modify_app id f m)
  leave-IsPlaced id app f ws m p found win =
      let ws' = modify_space app.workspace_id (ops.unmap_elem app.window) ws in
      app-IsPlaced ops id f ws' m (unmap-IsPlaced ops laws app.workspace_id app.window ws m p)
        (λ a e.
          let same = some-injective a app (sym e ∙ found) in
          (
            ap (λ x. (f x).window) same ∙ (win ∙ ap (λ x. x.window) (sym same)),
            λ desk away.
                ap (λ x. placed ops desk x.window ws') same
                ∙ (elim (key-cases desk app.workspace_id) [
                  | inl own ↦
                      ap (λ d. placed ops d app.window ws') own
                      ∙ placed-unmap_self ops laws app.workspace_id app.window ws
                  | inr other ↦
                      placed-unmap ops laws desk app.workspace_id app.window app.window ws
                        (p.alone id app desk found other)
                ]),
          ))

  -- The app that the migration leaves, if there is one, is in the active workspace.
  pub migrate-cases :
      (id : ℕ) (st : EmskinState S)
      → ((migrate_app_to_active ops id st ≡ (st, false))
          × ((app_of id st ≡ none)
              ⊎ ((app : AppWindow) × (app_of id st ≡ some app)
                  × (app.workspace_id ≡ st.workspace.active_id))))
        ⊎ ((app : AppWindow) × (app_of id st ≡ some app)
            × (app.workspace_id ≢ st.workspace.active_id)
            × (migrate_app_to_active ops id st ≡ (
              update_app id
                  (moved_to st.workspace.active_id)
                  (update_space app.workspace_id (ops.unmap_elem app.window) st),
              true,
            )))
  unfolding migrate_app_to_active
  migrate-cases id st = elim (Option-cases (app_of id st)) [
    | inl gone ↦ inl (rw (gone, migrate_app_to_active) refl, inl gone)
    | inr (app, found) ↦ elim (key-cases app.workspace_id st.workspace.active_id) [
      | inl here ↦ inl (
        rw (found, ==_eq app.workspace_id st.workspace.active_id here, migrate_app_to_active) refl,
        inr (app, found, here),
      )
      | inr away ↦ inr (
        app,
        found,
        away,
        rw (found, ==_ne app.workspace_id st.workspace.active_id away, migrate_app_to_active) refl,
      )
    ]
  ]

  pub migrate-PlacedIn :
      (id : ℕ) (st : EmskinState S)
      → PlacedIn ops st
      → PlacedIn ops (migrate_app_to_active ops id st).0
  unfolding update_space update_app moved_to
  migrate-PlacedIn id st p = elim (migrate-cases id st) [
    | inl (e, why) ↦ subst (λ r. PlacedIn ops r.0) (sym e) p
    | inr (app, found, away, e) ↦
        subst (λ r. PlacedIn ops r.0) (sym e)
          (leave-IsPlaced id app (moved_to st.workspace.active_id) st.workspace st.apps p found
            refl)
  ]

  -- An app stays an app, with its window, and is in the active workspace.
  pub migrate-app :
      (id : ℕ) (app : AppWindow) (st : EmskinState S)
      → app_of id st ≡ some app
      → let st' = (migrate_app_to_active ops id st).0 in
        (app' : AppWindow) × (app_of id st' ≡ some app')
        × (app'.window ≡ app.window)
        × (app'.workspace_id ≡ st'.workspace.active_id)
        × (st'.workspace.active_id ≡ st.workspace.active_id)
        × (app'.visible ≡ app.visible)
  unfolding update_space update_app moved_to modify_app
  migrate-app id app st found = elim (migrate-cases id st) [
    | inl (e, inl gone) ↦ absurd (cc)
    | inl (e, inr (b, there, here)) ↦
        let same = some-injective app b (sym found ∙ there) in
        subst
          (λ (r : EmskinState S × Bool).
            (app' : AppWindow) × (app_of id r.0 ≡ some app')
            × (app'.window ≡ app.window)
            × (app'.workspace_id ≡ r.0.workspace.active_id)
            × (r.0.workspace.active_id ≡ st.workspace.active_id)
            × (app'.visible ≡ app.visible))
          (sym e) (app, found, refl, ap (λ x. x.workspace_id) same ∙ here, refl, refl)
    | inr (b, there, away, e) ↦
        let same = some-injective app b (sym found ∙ there) in
        let f = moved_to st.workspace.active_id in
        let kept = modify_space-active_id b.workspace_id (ops.unmap_elem b.window) st.workspace in
        subst
          (λ (r : EmskinState S × Bool).
            (app' : AppWindow) × (app_of id r.0 ≡ some app')
            × (app'.window ≡ app.window)
            × (app'.workspace_id ≡ r.0.workspace.active_id)
            × (r.0.workspace.active_id ≡ st.workspace.active_id)
            × (app'.visible ≡ app.visible))
          (sym e)
          (
            f app,
            lookup-modify_self id f st.apps.windows ∙ ap (map_option f) found,
            refl,
            sym kept,
            kept,
            refl,
          )
  ]
