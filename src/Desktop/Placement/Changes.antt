-- ===== src/Desktop/Placement/Changes.antt =====
-- The changes that the handlers of crates/emskin/src/ipc/dispatch.rs and tick.rs make to apps and
-- spaces, and where they leave the windows.
use emskin.Prelude.{ℕ, ◌≡◌, ◌≢◌, sym, ap, ◌∙◌, none, some, ◌⊎◌, inl, inr}
use emskin.Prelude.Dict.{
  lookup, modify, map_option, lookup-modify_self, key-cases, some-injective, modify-some,
}
use emskin.Ime.{Point}
use emskin.Desktop.{SpaceOps, SpaceLaws, WorkspaceState, AppWindow, AppManager, EmskinState}
use emskin.Desktop.Access.{app_of, update_app, modify_space, modify_app}
use emskin.Desktop.Placement.{placed, IsPlaced, modify_space-IsValid, placed-unmap, placed-map_ne}

module _ {S : Type 0} (ops : SpaceOps S) where
  -- An app that keeps its window and is mapped nowhere but in its workspace of then.
  pub app-IsPlaced :
      (id : ℕ) (f : AppWindow → AppWindow) (ws : WorkspaceState S) (m : AppManager)
      → IsPlaced ops ws m
      → ((app : AppWindow)
          → lookup id m.windows ≡ some app
          → ((f app).window ≡ app.window)
            × ((desk : ℕ) → desk ≢ (f app).workspace_id → placed ops desk app.window ws ≡ none))
      → IsPlaced ops ws (modify_app id f m)
  unfolding modify_app
  app-IsPlaced id f ws m p h =
      let window_of : (j : ℕ) (b : AppWindow)
          → lookup j (modify id f m.windows) ≡ some b
          → (a : AppWindow) × (lookup j m.windows ≡ some a) × (b.window ≡ a.window) =
        λ j b e.
          let (a, found, change) = modify-some j id f m.windows b e in
          (
            a,
            found,
            elim change [
              | inl (same, changed) ↦
                  sym (ap (λ x. x.window) changed)
                  ∙ (h a (ap (λ x. lookup x m.windows) (sym same) ∙ found)).0
              | inr (other, kept) ↦ sym (ap (λ x. x.window) kept)
            ],
          ) in
      record {
        valid = p.valid;
        alone = λ j b desk e away.
            let (a, found, change) = modify-some j id f m.windows b e in
            elim change [
              | inl (same, changed) ↦
                  let (win, alone) = h a (ap (λ x. lookup x m.windows) (sym same) ∙ found) in
                  ap (λ w. placed ops desk w ws) (sym (ap (λ x. x.window) changed) ∙ win)
                  ∙ alone desk (λ eq. away (eq ∙ ap (λ x. x.workspace_id) changed))
              | inr (other, kept) ↦
                  ap (λ x. placed ops desk x.window ws) (sym kept)
                  ∙ p.alone j a desk found (λ eq. away (eq ∙ ap (λ x. x.workspace_id) kept))
            ];
        distinct = λ i j a b ea eb same.
            let (a', fa, wa) = window_of i a ea in
            let (b', fb, wb) = window_of j b eb in
            p.distinct i j a' b' fa fb (sym wa ∙ (same ∙ wb));
      }

  -- An app whose window and workspace stay.
  pub kept-IsPlaced :
      (id : ℕ) (f : AppWindow → AppWindow) (ws : WorkspaceState S) (m : AppManager)
      → IsPlaced ops ws m
      → ((app : AppWindow)
          → ((f app).window ≡ app.window) × ((f app).workspace_id ≡ app.workspace_id))
      → IsPlaced ops ws (modify_app id f m)
  kept-IsPlaced id f ws m p h = app-IsPlaced id f ws m p (λ app found.
      ((h app).0, λ desk away. p.alone id app desk found (λ e. away (e ∙ sym (h app).1))))

  module _ (laws : SpaceLaws ops) where
    pub unmap-IsPlaced :
        (desk w : ℕ) (ws : WorkspaceState S) (m : AppManager)
        → IsPlaced ops ws m
        → IsPlaced ops (modify_space desk (ops.unmap_elem w) ws) m
    unmap-IsPlaced desk w ws m p = record {
      valid = modify_space-IsValid desk (ops.unmap_elem w) ws p.valid;
      alone = λ id app j found away.
          placed-unmap ops laws j desk app.window w ws (p.alone id app j found away);
      distinct = p.distinct;
    }

    -- An app is mapped in its own workspace.
    pub map-IsPlaced :
        (id : ℕ) (app : AppWindow) (desk : ℕ) (at : Point) (ws : WorkspaceState S) (m : AppManager)
        → IsPlaced ops ws m
        → lookup id m.windows ≡ some app
        → desk ≡ app.workspace_id
        → IsPlaced ops (modify_space desk (ops.map_element app.window at) ws) m
    map-IsPlaced id app desk at ws m p found own =
        let apart : (j : ℕ) (b : AppWindow) (k : ℕ)
            → lookup j m.windows ≡ some b
            → k ≢ b.workspace_id
            → (k ≢ desk) ⊎ (b.window ≢ app.window) =
          λ j b k e away. elim (key-cases b.window app.window) [
            | inr other ↦ inr other
            | inl same ↦
                let j_id = p.distinct j id b app e found same in
                let b_app =
                  some-injective b app (sym e ∙ (ap (λ x. lookup x m.windows) j_id ∙ found)) in
                inl (λ k_desk. away (k_desk ∙ (own ∙ ap (λ x. x.workspace_id) (sym b_app))))
          ] in
        record {
          valid = modify_space-IsValid desk (ops.map_element app.window at) ws p.valid;
          alone = λ j b k e away.
              placed-map_ne ops laws k desk b.window app.window at ws (apart j b k e away)
              ∙ p.alone j b k e away;
          distinct = p.distinct;
        }

module _ {S : Type 0} where
  pub update_app-app :
      (id : ℕ) (f : AppWindow → AppWindow) (app : AppWindow) (st : EmskinState S)
      → app_of id st ≡ some app
      → app_of id (update_app id f st) ≡ some (f app)
  unfolding update_app modify_app
  update_app-app id f app st found =
      lookup-modify_self id f st.apps.windows ∙ ap (map_option f) found
