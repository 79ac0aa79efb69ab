-- ===== src/Desktop/Placement.antt =====
-- Where the windows of apps are mapped (the spaces of crates/emskin/src/state/workspace.rs and the
-- apps of apps.rs), and the changes that handlers put together.
pub mod Changes
pub mod Migrate
pub mod Handlers
pub mod Messages
pub mod Shown
use emskin.Prelude.{
  ℕ, ◌≡◌, ◌≢◌, refl, sym, ap, ◌∙◌, Option, none, some, ◌==◌, if◌then◌else◌, ==_self, ==_eq, ==_ne,
  ◌⊎◌, inl, inr,
}
use emskin.Prelude.Dict.{
  lookup, modify, map_option, lookup-modify_self, lookup-modify_ne, key-cases,
}
use emskin.Ime.{Point}
use emskin.Desktop.{
  SpaceOps, SpaceLaws, Workspace, WorkspaceState, AppWindow, AppManager, EmskinState,
}
use emskin.Desktop.Workspaces.Refinement.{IsValid}
use emskin.Desktop.Access.{space_for, modify_space, modify_app}

module _ {S : Type 0} where
  space-modified :
      (f : S → S) (o : Option (Workspace S))
      → map_option {A = Workspace S}
          (λ w. w.space)
          (map_option {A = Workspace S} (λ w. record w { space = f w.space }) o)
        ≡ map_option f (map_option (λ w. w.space) o)
  space-modified f none = refl
  space-modified f (some w) = refl

  space_for-modify_self :
      (id : ℕ) (f : S → S) (ws : WorkspaceState S)
      → space_for id (modify_space id f ws) ≡ map_option f (space_for id ws)
  unfolding space_for modify_space
  space_for-modify_self id f ws = elim (key-cases id ws.active_id) [
    | inl active ↦ rw (active, ==_self ws.active_id) (rw (==_self ws.active_id) refl)
    | inr passive ↦
        let kept =
          lookup-modify_self id (λ (w : Workspace S). record w { space = f w.space }) ws.inactive in
        rw (==_ne id ws.active_id passive)
          (rw (==_ne id ws.active_id passive, kept) (space-modified f (lookup id ws.inactive)))
  ]

  space_for-modify_ne :
      (j id : ℕ) (f : S → S) (ws : WorkspaceState S)
      → j ≢ id
      → space_for j (modify_space id f ws) ≡ space_for j ws
  unfolding space_for modify_space
  space_for-modify_ne j id f ws h = elim (key-cases id ws.active_id) [
    | inl active ↦
        rw (==_eq id ws.active_id active, ==_ne j ws.active_id (λ e. h (e ∙ sym active))) refl
    | inr passive ↦
        let kept =
          lookup-modify_ne j id (λ (w : Workspace S). record w { space = f w.space }) ws.inactive
            h in
        rw (==_ne id ws.active_id passive, kept) refl
  ]

  pub modify_space-active :
      (f : S → S) (ws : WorkspaceState S)
      → modify_space ws.active_id f ws ≡ record ws { active_space = f ws.active_space }
  unfolding modify_space
  modify_space-active f ws = rw (==_self ws.active_id) refl

  pub modify_space-active_id :
      (id : ℕ) (f : S → S) (ws : WorkspaceState S) → (modify_space id f ws).active_id ≡ ws.active_id
  unfolding modify_space
  modify_space-active_id id f ws = elim (key-cases id ws.active_id) [
    | inl active ↦ rw (==_eq id ws.active_id active) refl
    | inr passive ↦ rw (==_ne id ws.active_id passive) refl
  ]

  pub modify_space-IsValid :
      (id : ℕ) (f : S → S) (ws : WorkspaceState S) → IsValid ws → IsValid (modify_space id f ws)
  unfolding modify_space
  modify_space-IsValid id f ws v =
      let g : Workspace S → Workspace S = λ w. record w { space = f w.space } in
      let missing : (j : ℕ)
          → lookup j ws.inactive ≡ none
          → lookup j (modify id g ws.inactive) ≡ none =
        λ j gone. elim (key-cases j id) [
          | inl same ↦ rw same (
              lookup-modify_self id g ws.inactive
              ∙ ap (map_option g) (ap (λ x. lookup x ws.inactive) (sym same) ∙ gone))
          | inr other ↦ lookup-modify_ne j id g ws.inactive other ∙ gone
        ] in
      elim (key-cases id ws.active_id) [
        | inl active ↦
            rw (==_eq id ws.active_id active)
              (record { active_out = v.active_out; active_below = v.active_below; below = v.below })
        | inr passive ↦ rw (==_ne id ws.active_id passive) (record {
          active_out = missing ws.active_id v.active_out;
          active_below = v.active_below;
          below = λ j h. missing j (v.below j h);
        })
      ]

module _ {S : Type 0} (ops : SpaceOps S) where
  location_in : ℕ → Option S → Option Point
  location_in w none = none
  location_in w (some s) = ops.element_location w s

  -- Where a window is mapped in a workspace.
  unfoldable pub placed : ℕ → ℕ → WorkspaceState S → Option Point
  unfolding location_in
  placed id w ws = location_in w (space_for id ws)

  -- The workspaces are valid, no window belongs to two apps, and an app's window is mapped in no
  -- workspace but the app's.
  pub record IsPlaced (ws : WorkspaceState S) (apps : AppManager) : Type 0 where
    pub valid : IsValid ws
    pub alone :
        (id : ℕ) (app : AppWindow) (desk : ℕ)
        → lookup id apps.windows ≡ some app
        → desk ≢ app.workspace_id
        → placed desk app.window ws ≡ none
    pub distinct :
        (i j : ℕ) (a b : AppWindow)
        → lookup i apps.windows ≡ some a
        → lookup j apps.windows ≡ some b
        → a.window ≡ b.window
        → i ≡ j

  abbrev pub PlacedIn : EmskinState S → Type 0
  PlacedIn st = IsPlaced st.workspace st.apps

module _ {S : Type 0} (ops : SpaceOps S) (laws : SpaceLaws ops) where
  location-unmap :
      (v w : ℕ) (o : Option S)
      → location_in ops v o ≡ none
      → location_in ops v (map_option (ops.unmap_elem w) o) ≡ none
  unfolding location_in
  location-unmap v w none e = refl
  location-unmap v w (some s) e = elim (key-cases v w) [
    | inl same ↦ rw same (laws.location-unmap_self w s)
    | inr other ↦ laws.location-unmap_ne v w s other ∙ e
  ]

  location-unmap_self :
      (w : ℕ) (o : Option S) → location_in ops w (map_option (ops.unmap_elem w) o) ≡ none
  unfolding location_in
  location-unmap_self w none = refl
  location-unmap_self w (some s) = laws.location-unmap_self w s

  location-map_ne :
      (v w : ℕ) (p : Point) (o : Option S)
      → v ≢ w
      → location_in ops v (map_option (ops.map_element w p) o) ≡ location_in ops v o
  unfolding location_in
  location-map_ne v w p none h = refl
  location-map_ne v w p (some s) h = laws.location-map_ne v w p s h

  -- Unmapping leaves unmapped what was unmapped.
  pub placed-unmap :
      (j id v w : ℕ) (ws : WorkspaceState S)
      → placed ops j v ws ≡ none
      → placed ops j v (modify_space id (ops.unmap_elem w) ws) ≡ none
  unfolding placed
  placed-unmap j id v w ws e = elim (key-cases j id) [
    | inl same ↦
        rw (same, space_for-modify_self id (ops.unmap_elem w) ws)
          (location-unmap v w (space_for id ws) (rw (sym same) e))
    | inr other ↦ rw (space_for-modify_ne j id (ops.unmap_elem w) ws other) e
  ]

  pub placed-unmap_self :
      (id w : ℕ) (ws : WorkspaceState S)
      → placed ops id w (modify_space id (ops.unmap_elem w) ws) ≡ none
  unfolding placed
  placed-unmap_self id w ws =
      rw (space_for-modify_self id (ops.unmap_elem w) ws) (location-unmap_self w (space_for id ws))

  -- Mapping a window changes only where that window is, and only in that workspace.
  pub placed-map_ne :
      (j id v w : ℕ) (p : Point) (ws : WorkspaceState S)
      → (j ≢ id) ⊎ (v ≢ w)
      → placed ops j v (modify_space id (ops.map_element w p) ws) ≡ placed ops j v ws
  unfolding placed
  placed-map_ne j id v w p ws (inl desk) =
      rw (space_for-modify_ne j id (ops.map_element w p) ws desk) refl
  placed-map_ne j id v w p ws (inr window) = elim (key-cases j id) [
    | inl same ↦
        rw (same, space_for-modify_self id (ops.map_element w p) ws)
          (location-map_ne v w p (space_for id ws) window)
    | inr other ↦ rw (space_for-modify_ne j id (ops.map_element w p) ws other) refl
  ]
