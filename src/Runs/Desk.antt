-- ===== src/Runs/Desk.antt =====
-- The theorems on workspaces and apps, on a concrete state. Here a space is the list of the windows
-- that are mapped in it, with their places, and every space has output 1.
use emskin.Prelude.{
  ℕ, ◌+◌, ◌≡◌, ◌≢◌, refl, sym, ap, ◌∙◌, true, false, none, some, List, [], ◌∷◌, map, arith, codes,
  ==_ne, inl, inr,
}
use emskin.Prelude.Int.{pos}
use emskin.Prelude.Dict.{
  Dict, lookup, insert, erase, lookup-insert_self, lookup-insert_ne, lookup-erase_self,
  lookup-erase_ne, key-cases, some-injective,
}
use emskin.Ime
use emskin.Ime.{Point, Rect}
use emskin.Desktop.{SpaceOps, SpaceLaws, AppWindow, EmskinState, Seat}
use emskin.Desktop.Access.{app_of, no_saves, space_for}
use emskin.Desktop.Workspaces.Refinement.{IsValid}
use emskin.Desktop.Frames.Refines.{desks}
use emskin.Desktop.Frames.Run.{DeskCall, switched, destroyed, framed, run, replay, run-refines}
use emskin.Desktop.Dispatch.{
  IncomingMessage, set_visibility, handle_ipc_message, ipc_set_visibility,
}
use emskin.Desktop.Tick.{commit_app}
use emskin.Desktop.Placement.{placed, IsPlaced, PlacedIn}
use emskin.Desktop.Placement.Messages.{handle_ipc_message-IsPlaced}
use emskin.Desktop.Placement.Shown.{ipc_set_visibility-shows, commit_app-maps_active}

abbrev Places : Type 0
Places = Dict Point

abbrev ops : SpaceOps Places
ops = record {
  empty = [];
  map_element = insert;
  unmap_elem = erase;
  lower_element = λ w s. s;
  element_location = lookup;
  elements = map (λ e. e.0);
  outputs = λ s. 1 ∷ [];
  map_output = λ o s. s;
  non_exclusive_zone = λ o. record { loc = (pos 0, pos 30); size = (pos 800, pos 600) };
}

laws : SpaceLaws ops
unfolding lookup
laws = record {
  location-map_self = λ w p s. lookup-insert_self w p s;
  location-map_ne = λ v w p s h. lookup-insert_ne v w p s h;
  location-unmap_self = λ w s. lookup-erase_self w s;
  location-unmap_ne = λ v w s h. lookup-erase_ne v w s h;
  location-lower = λ v w s. refl;
  location-empty = λ w. refl;
  location-map_output = λ w o s. refl;
}

abbrev seat : Seat
seat = record {
  has_keyboard = true;
  current_focus = none;
  toplevel = λ w. some (w + 100);
  window_alive = λ w. true;
  surface_alive = λ s. true;
  now = 7;
}

abbrev at : Rect
at = record { loc = (pos 5, pos 6); size = (pos 70, pos 80) }

-- An app in the workspace that is not active.
abbrev app : AppWindow
app = record {
  window_id = 1;
  window = 20;
  workspace_id = 2;
  geometry = some at;
  pending_geometry = some at;
  pending_since = some 3;
  visible = false;
  mirrors = [];
}

abbrev state : EmskinState Places
state = record {
  workspace = record {
    active_space = (10, (pos 0, pos 30)) ∷ [];
    inactive = (2, record { space = []; emacs_surface = some 111; name = [] }) ∷ [];
    active_id = 1;
    active_name = codes "one";
    next_id = 3;
  };
  apps = record { windows = (1, app) ∷ []; next_id = 1 };
  emacs = record {
    surface = some 110;
    detect = true;
    initial_size_settled = true;
    child_frame_rects = [];
  };
  focus = no_saves;
  ime = Ime.new;
  needs_redraw = false;
  calls = [];
}

state-IsValid : IsValid (state.workspace)
unfolding lookup
state-IsValid = record {
  active_out = refl;
  active_below = omega arith;
  below = λ id h. ground arith;
}

abbrev calls : List DeskCall
calls =
    framed seat (record { surface = 112; window = 12; has_parent = false })
    ∷ switched seat 2
    ∷ destroyed 1
    ∷ []

run-refines_example :
    (desks (run ops calls state) ≡ replay ops calls (desks state))
    × IsValid (run ops calls state).workspace
run-refines_example = run-refines ops calls state state-IsValid

the_app : (id : ℕ) (a : AppWindow) → lookup id (state.apps.windows) ≡ some a → (id ≡ 1) × (app ≡ a)
unfolding lookup
the_app id a e = elim (key-cases 1 id) [
  | inl same ↦ (sym same, some-injective app a (ap (λ x. lookup x (state.apps.windows)) same ∙ e))
  | inr other ↦
      let gone : lookup id (state.apps.windows) ≡ none = rw (==_ne 1 id other) refl in absurd (cc)
]

state-PlacedIn : PlacedIn ops state
unfolding placed space_for lookup
state-PlacedIn = record {
  valid = state-IsValid;
  alone = λ id a desk e away.
      let same = (the_app id a e).1 in
      let far : desk ≢ 2 = λ x. away (x ∙ ap (λ y. y.workspace_id) same) in
      ap (λ y. placed ops desk y.window (state.workspace)) (sym same) ∙ (elim (key-cases desk 1) [
        | inl active ↦ rw active refl
        | inr passive ↦ rw (==_ne desk 1 passive, ==_ne 2 desk (λ x. far (sym x))) refl
      ]);
  distinct = λ i j a b ea eb same. (the_app i a ea).0 ∙ sym (the_app j b eb).0;
}

abbrev show : IncomingMessage
show = set_visibility 1 true

handle_ipc_message-IsPlaced_example :
    IsPlaced ops
      (handle_ipc_message ops seat show state).workspace
      (handle_ipc_message ops seat show state).apps
handle_ipc_message-IsPlaced_example =
    handle_ipc_message-IsPlaced ops laws seat show state state-PlacedIn (λ i v a m e. absurd (cc))

state-app : app_of 1 state ≡ some app
unfolding lookup
state-app = refl

ipc_set_visibility-shows_example :
    let st' = ipc_set_visibility ops 1 true state in
    (app' : AppWindow) × (app_of 1 st' ≡ some app')
    × (app'.window ≡ 20)
    × (app'.visible ≡ true)
    × (app'.geometry ≡ some at)
    × (app'.workspace_id ≡ 1)
    × (placed ops 1 20 st'.workspace ≡ some (pos 5, pos 6))
ipc_set_visibility-shows_example = ipc_set_visibility-shows ops laws 1 app at state state-app refl

commit_app-maps_active_example :
    let st' = commit_app ops 1 state in
    (app' : AppWindow) × (app_of 1 st' ≡ some app')
    × (app'.geometry ≡ some at)
    × (app'.pending_geometry ≡ none)
    × (app'.workspace_id ≡ app.workspace_id)
    × (app'.window ≡ 20)
    × (placed ops 1 20 st'.workspace ≡ some (pos 5, pos 6))
commit_app-maps_active_example = commit_app-maps_active ops laws 1 app at state state-app refl
