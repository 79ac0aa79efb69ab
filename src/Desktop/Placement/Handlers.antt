-- ===== src/Desktop/Placement/Handlers.antt =====
-- `ipc_set_geometry`, `ipc_set_visibility` and `ipc_promote_mirror`
-- (crates/emskin/src/ipc/dispatch.rs) and where they leave the windows of apps.
use emskin.Prelude.{
  ℕ, ◌≡◌, refl, sym, ap, subst, ◌∙◌, Bool, true, false, some, inl, inr, Option-cases, Bool-cases,
  ==_eq, ==_ne,
}
use emskin.Prelude.Dict.{lookup, map_option, key-cases, some-injective, lookup-modify_self}
use emskin.Ime.{Point, Rect}
use emskin.Desktop.{SpaceOps, SpaceLaws, AppWindow, MirrorView, EmskinState, Seat}
use emskin.Desktop.Access.{
  app_of, update_app, update_space, update_active, modify_space, modify_app, log,
}
use emskin.Desktop.Workspaces.{migrate_app_to_active}
use emskin.Desktop.Dispatch.Mirrors.{is_empty_rect, take_place, move_source, ipc_promote_mirror}
use emskin.Desktop.Dispatch.{
  give_geometry, configure_app, ipc_set_geometry, show_app, ipc_set_visibility,
}
use emskin.Desktop.Placement.{IsPlaced, PlacedIn, modify_space-active}
use emskin.Desktop.Placement.Changes.{
  app-IsPlaced, kept-IsPlaced, unmap-IsPlaced, map-IsPlaced, update_app-app,
}
use emskin.Desktop.Placement.Migrate.{leave-IsPlaced, migrate-PlacedIn, migrate-app}

module _ {S : Type 0} (ops : SpaceOps S) (laws : SpaceLaws ops) where
  -- An app of the active workspace is changed and mapped there.
  map_active-PlacedIn :
      (id : ℕ) (app : AppWindow) (f : AppWindow → AppWindow) (w : ℕ) (at : Point)
      (st : EmskinState S)
      → PlacedIn ops st
      → app_of id st ≡ some app
      → app.workspace_id ≡ st.workspace.active_id
      → (f app).window ≡ app.window
      → (f app).workspace_id ≡ app.workspace_id
      → app.window ≡ w
      → PlacedIn ops (update_active (ops.map_element w at) (update_app id f st))
  unfolding update_app update_active modify_app
  map_active-PlacedIn id app f w at st p found own win desk same =
      let ws = st.workspace in
      let m = modify_app id f st.apps in
      let there = lookup-modify_self id f st.apps.windows ∙ ap (map_option f) found in
      let changed = app-IsPlaced ops id f ws st.apps p (λ a e.
        let eq = some-injective a app (sym e ∙ found) in
        (
          ap (λ x. (f x).window) eq ∙ (win ∙ ap (λ x. x.window) (sym eq)),
          λ d away. p.alone id a d e (λ x. away (
              x
              ∙ (ap (λ y. y.workspace_id) eq
                  ∙ (sym desk ∙ ap (λ y. (f y).workspace_id) (sym eq))))),
        )) in
      let mapped =
        map-IsPlaced ops laws id (f app) ws.active_id at ws m changed there (sym own ∙ sym desk) in
      subst
        (λ (v : ℕ).
          IsPlaced ops (record ws { active_space = ops.map_element v at ws.active_space }) m)
        (win ∙ same)
        (subst (λ x. IsPlaced ops x m) (modify_space-active (ops.map_element (f app).window at) ws)
          mapped)

  -- A change that keeps the app's window and workspace.
  pub update_app-PlacedIn :
      (id : ℕ) (f : AppWindow → AppWindow) (st : EmskinState S)
      → PlacedIn ops st
      → ((app : AppWindow)
          → ((f app).window ≡ app.window) × ((f app).workspace_id ≡ app.workspace_id))
      → PlacedIn ops (update_app id f st)
  unfolding update_app
  update_app-PlacedIn id f st p h = kept-IsPlaced ops id f st.workspace st.apps p h

  give_geometry-PlacedIn :
      (seat : Seat) (id : ℕ) (app : AppWindow) (geo : Rect) (st : EmskinState S)
      → PlacedIn ops st
      → app_of id st ≡ some app
      → app.workspace_id ≡ st.workspace.active_id
      → PlacedIn ops (give_geometry ops seat id app geo st)
  unfolding give_geometry
  give_geometry-PlacedIn seat id app geo st p found own = elim (Option-cases app.geometry) [
    | inl new ↦
        rw (new, give_geometry)
          (map_active-PlacedIn id app (λ a. record a { geometry = some geo }) app.window geo.loc st
            p found own refl refl refl)
    | inr (old, known) ↦
        rw (known, give_geometry) (update_app-PlacedIn id _ st p (λ a. (refl, refl)))
  ]

  configure_app-PlacedIn :
      (seat : Seat) (id : ℕ) (rect geo : Rect) (app : AppWindow) (st : EmskinState S)
      → PlacedIn ops st
      → app_of id st ≡ some app
      → app.workspace_id ≡ st.workspace.active_id
      → PlacedIn ops (configure_app ops seat id rect geo st)
  unfolding configure_app log
  configure_app-PlacedIn seat id rect geo app st p found own =
      elim (Option-cases (seat.toplevel app.window)) [
        | inl x11 ↦ rw (found, configure_app) (rw x11 p)
        | inr (surface, top) ↦
            rw (found, configure_app)
              (rw top (give_geometry-PlacedIn seat id app geo _ p found own))
      ]

  pub ipc_set_geometry-PlacedIn :
      (seat : Seat) (id : ℕ) (rect : Rect) (st : EmskinState S)
      → PlacedIn ops st
      → PlacedIn ops (ipc_set_geometry ops seat id rect st)
  unfolding ipc_set_geometry
  ipc_set_geometry-PlacedIn seat id rect st p = elim (Bool-cases (is_empty_rect rect)) [
    | inl empty ↦ rw (empty, ipc_set_geometry) p
    | inr full ↦ elim (Option-cases (app_of id st)) [
      | inl gone ↦ rw (full, gone, ipc_set_geometry) p
      | inr (app, found) ↦
          let f : AppWindow → AppWindow = λ a. record a { visible = true } in
          let shown = update_app id f st in
          let (app', there, win, own, same, seen) =
            migrate-app ops laws id (f app) shown (update_app-app id f app st found) in
          rw (full, found, ipc_set_geometry)
            (configure_app-PlacedIn seat id rect _ app' (migrate_app_to_active ops id shown).0
              (migrate-PlacedIn ops laws id shown
                (update_app-PlacedIn id f st p (λ a. (refl, refl))))
              there own)
    ]
  ]

  show_app-PlacedIn :
      (id : ℕ) (app : AppWindow) (st : EmskinState S)
      → PlacedIn ops st
      → app_of id st ≡ some app
      → PlacedIn ops (show_app ops id app st)
  unfolding show_app
  show_app-PlacedIn id app st p found = elim (Option-cases app.geometry) [
    | inl hidden ↦ rw (hidden, show_app) p
    | inr (geo, known) ↦
        let (app', there, win, own, same, seen) = migrate-app ops laws id app st found in
        rw (known, show_app)
          (map_active-PlacedIn id app' (λ a. record a { geometry = some geo }) app.window geo.loc
            (migrate_app_to_active ops id st).0 (migrate-PlacedIn ops laws id st p) there own refl
            refl win)
  ]

  pub ipc_set_visibility-PlacedIn :
      (id : ℕ) (visible : Bool) (st : EmskinState S)
      → PlacedIn ops st
      → PlacedIn ops (ipc_set_visibility ops id visible st)
  unfolding ipc_set_visibility update_space update_app
  ipc_set_visibility-PlacedIn id true st p =
      let f : AppWindow → AppWindow = λ a. record a { visible = true } in
      elim (Option-cases (app_of id st)) [
        | inl gone ↦ rw (gone, ipc_set_visibility) p
        | inr (app, found) ↦
            rw (found, ipc_set_visibility)
              (show_app-PlacedIn id (f app) (update_app id f st)
                (update_app-PlacedIn id f st p (λ a. (refl, refl)))
                (update_app-app id f app st found))
      ]
  ipc_set_visibility-PlacedIn id false st p =
      let f : AppWindow → AppWindow = λ a. record a { visible = false } in
      elim (Option-cases (app_of id st)) [
        | inl gone ↦ rw (gone, ipc_set_visibility) p
        | inr (app, found) ↦
            rw (found, ipc_set_visibility)
              (unmap-IsPlaced ops laws app.workspace_id app.window st.workspace
                (modify_app id f st.apps) (update_app-PlacedIn id f st p (λ a. (refl, refl))))
      ]

  -- The mirror's place becomes the app's.
  move_source-PlacedIn :
      (id view : ℕ) (app : AppWindow) (m : MirrorView) (st : EmskinState S)
      → PlacedIn ops st
      → app_of id st ≡ some app
      → (m.workspace_id ≡ app.workspace_id → app.workspace_id ≡ st.workspace.active_id)
      → PlacedIn ops (move_source ops app m (update_app id (take_place view m) st))
  unfolding move_source take_place update_space update_app modify_app
  move_source-PlacedIn id view app m st p found h =
      elim (key-cases app.workspace_id m.workspace_id) [
        | inl same ↦
            rw (==_eq app.workspace_id m.workspace_id same, move_source)
              (map_active-PlacedIn id app (take_place view m) app.window m.geometry.loc st p found
                (h (sym same)) refl (sym same) refl)
        | inr other ↦
            let ws = modify_space app.workspace_id (ops.unmap_elem app.window) st.workspace in
            let apps = modify_app id (take_place view m) st.apps in
            let left =
              leave-IsPlaced ops laws id app (take_place view m) st.workspace st.apps p found
                refl in
            rw (==_ne app.workspace_id m.workspace_id other, move_source)
              (map-IsPlaced ops laws id (take_place view m app) m.workspace_id m.geometry.loc ws
                apps left
                (lookup-modify_self id (take_place view m) st.apps.windows
                  ∙ ap (map_option (take_place view m)) found)
                refl)
      ]

  pub ipc_promote_mirror-PlacedIn :
      (id view : ℕ) (st : EmskinState S)
      → PlacedIn ops st
      → ((app : AppWindow) (m : MirrorView)
          → app_of id st ≡ some app
          → lookup view app.mirrors ≡ some m
          → m.workspace_id ≡ app.workspace_id
          → app.workspace_id ≡ st.workspace.active_id)
      → PlacedIn ops (ipc_promote_mirror ops id view st)
  unfolding ipc_promote_mirror
  ipc_promote_mirror-PlacedIn id view st p h = elim (Option-cases (app_of id st)) [
    | inl gone ↦ rw (gone, ipc_promote_mirror) p
    | inr (app, found) ↦ elim (Option-cases (lookup view app.mirrors)) [
      | inl none_there ↦ rw (found, ipc_promote_mirror) (rw none_there p)
      | inr (m, there) ↦
          rw (found, ipc_promote_mirror)
            (rw there (move_source-PlacedIn id view app m st p found (h app m found there)))
    ]
  ]
