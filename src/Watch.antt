-- ===== src/Watch.antt =====
-- The supervisor of xwayland-satellite (crates/emskin/src/xwayland_satellite/watch.rs): which
-- sources it has in the event loop, and when it starts the satellite. The loop is a list of tokens;
-- what the system calls and the loop answer are arguments.
pub mod Sources
use emskin.Prelude.{
  ℕ, ◌+◌, Bool, true, false, not, ◌&&◌, ◌||◌, Option, none, some, List, [], ◌∷◌, ◌==◌,
  if◌then◌else◌,
}

pub data WatchState : Type 0 where
  disarmed : WatchState
  watching : ℕ → Option ℕ → WatchState
  running : WatchState

-- `XwlsIntegration` and its part of the event loop: the tokens of the sources, the next token, and
-- the spawner threads started so far.
pub record XwlsIntegration : Type 0 where
  pub has_abstract : Bool
  pub state : WatchState
  pub sources : List ℕ
  pub next_token : ℕ
  pub spawned : ℕ

abbrev pub new : Bool → XwlsIntegration
new has_abstract = record {
  has_abstract = has_abstract;
  state = disarmed;
  sources = [];
  next_token = 0;
  spawned = 0;
}

-- Whether the clones of the descriptors and the insertions succeed.
pub record ArmAnswers : Type 0 where
  pub unix_cloned : Bool
  pub abstract_cloned : Bool
  pub unix_inserted : Bool
  pub abstract_inserted : Bool

pub data Outcome : Type 0 where
  fine failed : Outcome

unfoldable pub remove_source : ℕ → List ℕ → List ℕ
remove_source t [] = []
remove_source t (s ∷ ss) = if s == t then remove_source t ss else s ∷ remove_source t ss

abbrev pub remove_both : ℕ → Option ℕ → List ℕ → List ℕ
remove_both t none ss = remove_source t ss
remove_both t (some a) ss = remove_source a (remove_source t ss)

unfoldable pub insert_source : XwlsIntegration → XwlsIntegration
insert_source x = record x { sources = x.next_token ∷ x.sources; next_token = x.next_token + 1 }

-- Behind the unix source; an error leaves that source in the loop.
unfoldable pub arm_abstract : ArmAnswers → XwlsIntegration → XwlsIntegration × Outcome
unfolding insert_source
arm_abstract a x =
    let t = x.next_token in
    let x₁ = insert_source x in
    if x.has_abstract
    then (if a.abstract_inserted
        then (record (insert_source x₁) { state = watching t (some x₁.next_token) }, fine)
        else (x₁, failed))
    else (record x₁ { state = watching t none }, fine)

-- The two clones.
abbrev pub cloned : ArmAnswers → Bool → Bool
cloned a has_abstract = a.unix_cloned && (a.abstract_cloned || not has_abstract)

unfoldable pub arm : ArmAnswers → XwlsIntegration → XwlsIntegration × Outcome
unfolding arm_abstract
arm a x = elim x.state [
  | disarmed ↦ if cloned a x.has_abstract && a.unix_inserted then arm_abstract a x else (x, failed)
  | watching t o ↦ (x, fine)
  | running ↦ (x, fine)
]

unfoldable pub disarm : XwlsIntegration → XwlsIntegration
unfolding remove_source
disarm x = elim x.state [
  | disarmed ↦ record x { state = disarmed }
  | watching t o ↦ record x { state = disarmed; sources = remove_both t o x.sources }
  | running ↦ record x { state = disarmed }
]

-- Whether the clones for the spawner's thread and the thread itself succeed.
unfoldable pub spawn_satellite_thread : Bool → XwlsIntegration → XwlsIntegration × Outcome
spawn_satellite_thread true x = (record x { state = running; spawned = x.spawned + 1 }, fine)
spawn_satellite_thread false x = (x, failed)

-- An X client connected. A spawner that fails leads to another try of `arm`, and to the error.
unfoldable pub on_socket_connect : Bool → ArmAnswers → XwlsIntegration → XwlsIntegration × Outcome
unfolding remove_source arm spawn_satellite_thread
on_socket_connect spawns a x = elim x.state [
  | watching t o ↦
      let x₁ = record x { state = disarmed; sources = remove_both t o x.sources } in
      if spawns then spawn_satellite_thread true x₁ else ((arm a x₁).0, failed)
  | disarmed ↦ (x, fine)
  | running ↦ (x, fine)
]

-- The satellite exited; whether the pending connections could be drained.
unfoldable pub on_rearm : Bool → ArmAnswers → XwlsIntegration → XwlsIntegration × Outcome
unfolding arm
on_rearm drained a x = if drained then arm a (record x { state = disarmed }) else (x, failed)
