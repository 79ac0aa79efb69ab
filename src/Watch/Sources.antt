-- ===== src/Watch/Sources.antt =====
-- The sources of `XwlsIntegration` over any sequence of its calls
-- (crates/emskin/src/xwayland_satellite/watch.rs).
use emskin.Prelude.{
  ℕ, ◌+◌, ◌<◌, ◌≤◌, ◌≡◌, refl, ap, ◌∙◌, ◌&&◌, Bool, true, false, Option, none, some, List, [], ◌∷◌,
  ◌++◌, All, arith, length, ==_self, ==_ne, Bool-cases, inl, inr, if◌then◌else◌,
}
use emskin.Watch.{
  WatchState, disarmed, watching, running, XwlsIntegration, new, ArmAnswers, cloned, remove_source,
  remove_both, insert_source, arm_abstract, arm, disarm, spawn_satellite_thread, on_socket_connect,
  on_rearm,
}

-- The sources that a state has.
unfoldable pub tokens : WatchState → List ℕ
tokens disarmed = []
tokens (watching t none) = t ∷ []
tokens (watching t (some a)) = a ∷ t ∷ []
tokens running = []

-- The abstract source could not be inserted.
abbrev pub missed : ArmAnswers → ℕ
missed a = if a.abstract_inserted then 0 else 1

-- What happens to the supervisor: it is armed, an X client connects, the satellite exits, which is
-- not reported while the sockets are watched, or the watch is given up. The number is that of
-- insertions of the abstract source that fail, if they are tried.
pub data Step : ℕ → XwlsIntegration → XwlsIntegration → Type 0 where
  armed : (x : XwlsIntegration) (a : ArmAnswers) → Step (missed a) x (arm a x).0
  connected :
      (x : XwlsIntegration) (spawns : Bool) (a : ArmAnswers)
      → Step (missed a) x (on_socket_connect spawns a x).0
  exited :
      (x : XwlsIntegration) (drained : Bool) (a : ArmAnswers)
      → tokens x.state ≡ []
      → Step (missed a) x (on_rearm drained a x).0
  released : (x : XwlsIntegration) → Step 0 x (disarm x)

pub data Reach (x : XwlsIntegration) : ℕ → XwlsIntegration → Type 0 where
  here : Reach x 0 x
  next : {m n : ℕ} {y z : XwlsIntegration} → Reach x m y → Step n y z → Reach x (m + n) z

-- Tokens that were given out before another.
abbrev Below : ℕ → List ℕ → Type 0
Below n os = All (λ o. o < n) os

-- The tokens of a state are newer than those that were left behind, and older than the next.
abbrev Ordered : ℕ → List ℕ → WatchState → Type 0
Ordered n os disarmed = Below n os
Ordered n os running = Below n os
Ordered n os (watching t none) = Below t os × (t < n)
Ordered n os (watching t (some a)) = Below t os × (t < a) × (a < n)

-- The loop has the sources of the state, and those that were left behind.
record IsTidy (os : List ℕ) (x : XwlsIntegration) : Type 0 where
  exact : x.sources ≡ tokens x.state ++ os
  ordered : Ordered x.next_token os x.state

Below-le : (m n : ℕ) (os : List ℕ) → m ≤ n → Below m os → Below n os
Below-le m n [] le h = tt
Below-le m n (o ∷ os) le (h, hs) = (omega arith, Below-le m n os le hs)

remove_source-Below : (t s : ℕ) (os : List ℕ) → t ≤ s → Below t os → remove_source s os ≡ os
unfolding remove_source
remove_source-Below t s [] le h = refl
remove_source-Below t s (o ∷ os) le (h, hs) =
    rw (==_ne o s (omega arith), remove_source-Below t s os le hs) refl

-- A watch that ends takes its own sources along and no other.
remove_both-tokens :
    (n t : ℕ) (o : Option ℕ) (os : List ℕ)
    → Ordered n os (watching t o)
    → (remove_both t o (tokens (watching t o) ++ os) ≡ os) × Below n os
unfolding tokens remove_source
remove_both-tokens n t none os (below, lt) = (
  rw (==_self t) (remove_source-Below t t os (omega arith) below),
  Below-le t n os (omega arith) below,
)
remove_both-tokens n t (some a) os (below, lt, lt') = (
  rw (==_ne a t (omega arith), ==_self t)
      (rw (remove_source-Below t t os (omega arith) below)
        (rw (==_self a) (remove_source-Below t a os (omega arith) below))),
  Below-le t n os (omega arith) below,
)

-- As many more are left behind as insertions may have failed.
Leaves : List ℕ → ℕ → XwlsIntegration → Type 0
Leaves os k x = (qs : List ℕ) × IsTidy qs x × (length qs ≤ length os + k)

same-Leaves : (os : List ℕ) (k : ℕ) (x : XwlsIntegration) → IsTidy os x → Leaves os k x
unfolding Leaves
same-Leaves os k x h = (os, h, omega arith)

-- Arming where none of the state's sources is there.
arm_abstract-Leaves :
    (a : ArmAnswers) (x : XwlsIntegration) (os : List ℕ)
    → x.state ≡ disarmed
    → x.sources ≡ os
    → Below x.next_token os
    → Leaves os (missed a) (arm_abstract a x).0
unfolding arm_abstract insert_source tokens Leaves
arm_abstract-Leaves a x os off h below =
    let n = x.next_token in
    elim (Bool-cases x.has_abstract) [
      | inr one ↦
          rw (one, arm_abstract)
            (
              os,
              record { exact = ap (λ ss. n ∷ ss) h; ordered = (below, omega arith) },
              omega arith,
            )
      | inl both ↦ elim (Bool-cases a.abstract_inserted) [
        | inl ins ↦
            rw (both, arm_abstract)
              (rw ins (
                os,
                record {
                  exact = ap (λ ss. (n + 1) ∷ n ∷ ss) h;
                  ordered = (below, omega arith, omega arith);
                },
                omega arith,
              ))
        | inr ins ↦
            rw (both, arm_abstract)
              (rw ins (
                n ∷ os,
                rw off (record {
                  exact = ap (λ ss. n ∷ ss) h;
                  ordered = (omega arith, Below-le n (n + 1) os (omega arith) below);
                }),
                omega arith,
              ))
      ]
    ]

arm_at-Leaves :
    (a : ArmAnswers) (x : XwlsIntegration) (s : WatchState) (os : List ℕ)
    → IsTidy os (record x { state = s })
    → Leaves os (missed a) (arm a (record x { state = s })).0
unfolding arm tokens
arm_at-Leaves a x disarmed os h = elim (Bool-cases (cloned a x.has_abstract && a.unix_inserted)) [
  | inl can ↦
      rw (can, arm)
        (arm_abstract-Leaves a (record x { state = disarmed }) os refl h.exact h.ordered)
  | inr cannot ↦ rw (cannot, arm) (same-Leaves os _ _ h)
]
arm_at-Leaves a x (watching t o) os h = same-Leaves os _ _ h
arm_at-Leaves a x running os h = same-Leaves os _ _ h

-- A watch that is given up.
unwatched-IsTidy :
    (x : XwlsIntegration) (t : ℕ) (o : Option ℕ) (os : List ℕ)
    → IsTidy os (record x { state = watching t o })
    → (remove_both t o x.sources ≡ os) × Below x.next_token os
unwatched-IsTidy x t o os h =
    let (gone, below) = remove_both-tokens x.next_token t o os h.ordered in
    (ap (remove_both t o) h.exact ∙ gone, below)

connect_at-Leaves :
    (spawns : Bool) (a : ArmAnswers) (x : XwlsIntegration) (s : WatchState) (os : List ℕ)
    → IsTidy os (record x { state = s })
    → Leaves os (missed a) (on_socket_connect spawns a (record x { state = s })).0
unfolding on_socket_connect spawn_satellite_thread tokens
connect_at-Leaves spawns a x disarmed os h = same-Leaves os _ _ h
connect_at-Leaves spawns a x running os h = same-Leaves os _ _ h
connect_at-Leaves true a x (watching t o) os h =
    let (gone, below) = unwatched-IsTidy x t o os h in
    same-Leaves os _ _ (record { exact = gone; ordered = below })
connect_at-Leaves false a x (watching t o) os h =
    let (gone, below) = unwatched-IsTidy x t o os h in
    arm_at-Leaves a (record x { sources = remove_both t o x.sources }) disarmed os
      (record { exact = gone; ordered = below })

disarm_at-IsTidy :
    (x : XwlsIntegration) (s : WatchState) (os : List ℕ)
    → IsTidy os (record x { state = s })
    → IsTidy os (disarm (record x { state = s }))
unfolding disarm tokens
disarm_at-IsTidy x disarmed os h = h
disarm_at-IsTidy x running os h = record { exact = h.exact; ordered = h.ordered }
disarm_at-IsTidy x (watching t o) os h =
    let (gone, below) = unwatched-IsTidy x t o os h in record { exact = gone; ordered = below }

exit_at-Leaves :
    (drained : Bool) (a : ArmAnswers) (x : XwlsIntegration) (s : WatchState) (os : List ℕ)
    → tokens s ≡ []
    → IsTidy os (record x { state = s })
    → Leaves os (missed a) (on_rearm drained a (record x { state = s })).0
unfolding on_rearm tokens
exit_at-Leaves false a x s os e h = same-Leaves os _ _ h
exit_at-Leaves true a x disarmed os e h = arm_at-Leaves a x disarmed os h
exit_at-Leaves true a x running os e h =
    arm_at-Leaves a x disarmed os (record { exact = h.exact; ordered = h.ordered })
exit_at-Leaves true a x (watching t none) os e h = absurd (cc)
exit_at-Leaves true a x (watching t (some b)) os e h = absurd (cc)

Step-Leaves :
    {n : ℕ} {x y : XwlsIntegration} (os : List ℕ) → Step n x y → IsTidy os x → Leaves os n y
Step-Leaves os (armed x a) h = arm_at-Leaves a x x.state os h
Step-Leaves os (connected x spawns a) h = connect_at-Leaves spawns a x x.state os h
Step-Leaves os (exited x drained a e) h = exit_at-Leaves drained a x x.state os e h
Step-Leaves os (released x) h = same-Leaves os 0 _ (disarm_at-IsTidy x x.state os h)

Reach-Leaves :
    {x : XwlsIntegration} {n : ℕ} {y : XwlsIntegration} → Reach x n y → IsTidy [] x → Leaves [] n y
unfolding Leaves
Reach-Leaves here h = ([], h, omega arith)
Reach-Leaves (next r s) h =
    let (os, tidy, few) = Reach-Leaves r h in
    let (qs, tidy', more) = Step-Leaves os s tidy in (qs, tidy', omega arith)

-- In every state that a new supervisor reaches, the event loop has the sources of the state: none
-- while it is disarmed or the satellite runs, and where it watches, the unix source and, if there is
-- one, the abstract source. Behind them are at most as many others as insertions of the abstract
-- source failed, so none where none failed. The exit of the satellite is not reported while the
-- sockets are watched.
pub Reach-tokens :
    (has_abstract : Bool) {n : ℕ} {x : XwlsIntegration}
    → Reach (new has_abstract) n x
    → (os : List ℕ) × (x.sources ≡ tokens x.state ++ os) × (length os ≤ n)
unfolding Leaves tokens
Reach-tokens has_abstract r =
    let (os, tidy, few) = Reach-Leaves r (record { exact = refl; ordered = tt }) in
    (os, tidy.exact, omega (arith, few))
