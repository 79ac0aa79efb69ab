-- ===== src/Desktop/Placement/Shown.antt =====
-- What showing an app (`ipc_set_visibility` of crates/emskin/src/ipc/dispatch.rs) and a client's
-- commit (crates/emskin/src/handlers/compositor.rs) do to the app and its window.
use emskin.Prelude.{ℕ, ◌≡◌, refl, sym, ap, ◌∙◌, true, none, some, ==_self}
use emskin.Ime.{Point, Rect}
use emskin.Desktop.{SpaceOps, SpaceLaws, WorkspaceState, AppWindow, EmskinState}
use emskin.Desktop.Access.{app_of, space_for, update_app, update_active, modify_app}
use emskin.Desktop.Workspaces.{migrate_app_to_active}
use emskin.Desktop.Dispatch.{show_app, ipc_set_visibility}
use emskin.Desktop.Tick.{commit_pending, commit_app}
use emskin.Desktop.Placement.{placed}
use emskin.Desktop.Placement.Migrate.{migrate-app}
use emskin.Desktop.Placement.Changes.{update_app-app}

module _ {S : Type 0} (ops : SpaceOps S) (laws : SpaceLaws ops) where
  placed-map_active :
      (w : ℕ) (p : Point) (ws : WorkspaceState S)
      → placed ops ws.active_id w (record ws { active_space = ops.map_element w p ws.active_space })
        ≡ some p
  unfolding placed space_for
  placed-map_active w p ws = rw (==_self ws.active_id) (laws.location-map_self w p ws.active_space)

  -- The app is what the change makes of it, and its window is mapped in the active workspace.
  abbrev IsShown : ℕ → AppWindow → Point → EmskinState S → Type 0
  IsShown id app at st =
      (app_of id st ≡ some app)
      × (placed ops st.workspace.active_id app.window st.workspace ≡ some at)

  map_active-IsShown :
      (id w : ℕ) (app : AppWindow) (f : AppWindow → AppWindow) (at : Point) (st : EmskinState S)
      → app_of id st ≡ some app
      → (f app).window ≡ w
      → IsShown id (f app) at (update_active (ops.map_element w at) (update_app id f st))
  unfolding update_active update_app modify_app
  map_active-IsShown id w app f at st found win =
      (update_app-app id f app st found, rw win (placed-map_active w at st.workspace))

  -- Showing an app that has a geometry makes it visible in the active workspace, wherever it was,
  -- with the geometry it had, and maps its window at that place there.
  pub ipc_set_visibility-shows :
      (id : ℕ) (app : AppWindow) (geo : Rect) (st : EmskinState S)
      → app_of id st ≡ some app
      → app.geometry ≡ some geo
      → let st' = ipc_set_visibility ops id true st in
        (app' : AppWindow) × (app_of id st' ≡ some app')
        × (app'.window ≡ app.window)
        × (app'.visible ≡ true)
        × (app'.geometry ≡ some geo)
        × (app'.workspace_id ≡ st.workspace.active_id)
        × (placed ops st.workspace.active_id app.window st'.workspace ≡ some geo.loc)
  unfolding ipc_set_visibility show_app update_active update_app
  ipc_set_visibility-shows id app geo st found known =
      let f : AppWindow → AppWindow = λ a. record a { visible = true } in
      let shown = update_app id f st in
      let (app', there, win, own, kept, seen) =
        migrate-app ops laws id (f app) shown (update_app-app id f app st found) in
      let g : AppWindow → AppWindow = λ a. record a { geometry = some geo } in
      let moved = (migrate_app_to_active ops id shown).0 in
      let final =
        (update_active (ops.map_element app.window geo.loc) (update_app id g moved)).workspace in
      let (is, at) = map_active-IsShown id app.window app' g geo.loc moved there win in
      rw (found, ipc_set_visibility)
        (rw (known, show_app)
          (
            g app',
            is,
            win,
            seen,
            refl,
            own ∙ kept,
            ap (λ d. placed ops d app.window final) (sym kept)
                ∙ (ap (λ w. placed ops moved.workspace.active_id w final) (sym win) ∙ at),
          ))

  -- The commit of a client whose geometry was pending makes it the geometry of the app, which waits
  -- for none any more, and maps the window at that place in the active workspace, whatever the
  -- workspace of the app, which it leaves as it was.
  pub commit_app-maps_active :
      (id : ℕ) (app : AppWindow) (geo : Rect) (st : EmskinState S)
      → app_of id st ≡ some app
      → app.pending_geometry ≡ some geo
      → let st' = commit_app ops id st in
        (app' : AppWindow) × (app_of id st' ≡ some app')
        × (app'.geometry ≡ some geo)
        × (app'.pending_geometry ≡ none)
        × (app'.workspace_id ≡ app.workspace_id)
        × (app'.window ≡ app.window)
        × (placed ops st.workspace.active_id app.window st'.workspace ≡ some geo.loc)
  unfolding commit_app commit_pending
  commit_app-maps_active id app geo st found waiting =
      let (is, at) =
        map_active-IsShown id app.window app (commit_pending geo) geo.loc st found refl in
      rw (found, commit_app) (rw waiting (commit_pending geo app, is, refl, refl, refl, refl, at))
