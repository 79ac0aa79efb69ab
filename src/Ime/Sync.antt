-- ===== src/Ime/Sync.antt =====
-- `sync_to_winit` of crates/emskin/src/state/ime.rs.
use emskin.Prelude.{
  ◌≡◌, refl, sym, ap, ◌∙◌, Bool, true, false, not, ◌&&◌, ◌||◌, Option, none, some, List, [], ◌∷◌,
  ◌++◌, arith, Bool-cases, Option-cases, inl, inr, if◌then◌else◌,
}
use emskin.Ime.{Area, ImeBridge, desired_ime_allowed, desired_cursor_area}
use emskin.Ime.Owner.{same_point, same_point-true}
use emskin.Ime.Owner.Consistent.{IsConsistent, consistent-allowed}

-- The calls to the window.
pub data WinitCall : Type 0 where
  set_ime_allowed : Bool → WinitCall
  set_ime_cursor_area : Area → WinitCall

same_bool : Bool → Bool → Bool
same_bool true b = b
same_bool false b = not b

same_area : Option Area → Area → Bool
same_area none a = false
same_area (some b) a = same_point b.0 a.0 && same_point b.1 a.1

sync_allowed : Bool → ImeBridge → ImeBridge × List WinitCall
unfolding same_bool
sync_allowed want b =
    if same_bool want b.last_applied_ime_allowed
    then (b, [])
    else (record b { last_applied_ime_allowed = want }, set_ime_allowed want ∷ [])

sync_area : Option Area → Bool → ImeBridge → ImeBridge × List WinitCall
unfolding same_area
sync_area none activating b = (b, [])
sync_area (some area) activating b =
    if not (same_area b.last_applied_cursor_area area) || activating
    then (record b { last_applied_cursor_area = some area }, set_ime_cursor_area area ∷ [])
    else (b, [])

pub sync_to_winit : ImeBridge → ImeBridge × List WinitCall
unfolding sync_allowed sync_area
sync_to_winit b =
    let want = desired_ime_allowed b in
    let activating = want && not b.last_applied_ime_allowed in
    let (b', calls) = sync_allowed want b in
    let (b'', calls') = sync_area (desired_cursor_area b') activating b' in (b'', calls ++ calls')

-- What the window is left with: whether the input method is allowed, and its area.
abbrev pub Window : Type 0
Window = Bool × Option Area

-- Enabling the input method resets what it knew, and with it the area.
pub apply_calls : List WinitCall → Window → Window
apply_calls [] w = w
apply_calls (set_ime_allowed true ∷ cs) w = apply_calls cs (true, none)
apply_calls (set_ime_allowed false ∷ cs) w = apply_calls cs (false, w.1)
apply_calls (set_ime_cursor_area area ∷ cs) w = apply_calls cs (w.0, some area)

-- The bridge knows what the window was last told.
abbrev pub Tracks : ImeBridge → Window → Type 0
Tracks b w = (b.last_applied_ime_allowed ≡ w.0) × (b.last_applied_cursor_area ≡ w.1)

-- The wanted area, where there is one; else the one that the window has.
abbrev pub wanted_area : Option Area → Option Area → Option Area
wanted_area none old = old
wanted_area (some area) old = some area

same_bool-true : (a b : Bool) → same_bool a b ≡ true → a ≡ b
unfolding same_bool
same_bool-true a b h = ground (arith, h)

same_area-true : (o : Option Area) (a : Area) → same_area o a ≡ true → o ≡ some a
unfolding same_area
same_area-true none a h = absurd (cc)
same_area-true (some (p, s)) (q, t) h = elim (Bool-cases (same_point p q)) [
  | inl e ↦ rw (same_point-true p q e, same_point-true s t (ground (arith, e, h))) refl
  | inr e ↦ absurd (ground (arith, e, h))
]

-- A sync that does not enable the input method.
sync_allowed-told :
    (want : Bool) (b : ImeBridge) (w : Window)
    → want && not b.last_applied_ime_allowed ≡ false
    → Tracks b w
    → Tracks (sync_allowed want b).0 (apply_calls (sync_allowed want b).1 w)
      × (apply_calls (sync_allowed want b).1 w ≡ (want, w.1))
      × ((sync_allowed want b).0.cursor ≡ b.cursor)
unfolding sync_allowed apply_calls same_bool
sync_allowed-told true b w quiet (t, a) =
    let on : b.last_applied_ime_allowed ≡ true = ground (arith, quiet) in
    rw (on, sync_allowed) ((sym on ∙ t, a), ap (λ x. (x, w.1)) (sym t ∙ on), refl)
sync_allowed-told false b w quiet (t, a) = elim (Bool-cases b.last_applied_ime_allowed) [
  | inl on ↦ rw (on, sync_allowed) ((refl, a), refl, refl)
  | inr off ↦ rw (off, sync_allowed) ((sym off ∙ t, a), ap (λ x. (x, w.1)) (sym t ∙ off), refl)
]

sync_area-told :
    (area : Option Area) (activating : Bool) (b : ImeBridge) (w : Window)
    → Tracks b w
    → Tracks (sync_area area activating b).0 (apply_calls (sync_area area activating b).1 w)
      × (apply_calls (sync_area area activating b).1 w ≡ (w.0, wanted_area area w.1))
unfolding sync_area apply_calls
sync_area-told none activating b w t = (t, refl)
sync_area-told (some area) activating b w (t, a) =
    elim (Bool-cases (not (same_area b.last_applied_cursor_area area) || activating)) [
      | inl e ↦ rw (e, sync_area) ((t, refl), refl)
      | inr e ↦
          let s : same_area b.last_applied_cursor_area area ≡ true = ground (arith, e) in
          rw (e, sync_area) ((t, a), ap (λ x. (w.0, x)) (sym a ∙ same_area-true _ _ s))
    ]

apply_calls-append :
    (cs ds : List WinitCall) (w : Window)
    → apply_calls (cs ++ ds) w ≡ apply_calls ds (apply_calls cs w)
unfolding apply_calls
apply_calls-append [] ds w = refl
apply_calls-append (set_ime_allowed true ∷ cs) ds w = apply_calls-append cs ds (true, none)
apply_calls-append (set_ime_allowed false ∷ cs) ds w = apply_calls-append cs ds (false, w.1)
apply_calls-append (set_ime_cursor_area area ∷ cs) ds w = apply_calls-append cs ds (w.0, some area)

-- A sync that enables the input method, where there is an area.
Synced : ImeBridge → Window → ImeBridge × List WinitCall → Type 0
Synced b w r =
    Tracks r.0 (apply_calls r.1 w)
    × (apply_calls r.1 w ≡ (desired_ime_allowed b, wanted_area (desired_cursor_area b) w.1))

enabling-Synced :
    (b : ImeBridge) (w : Window) (area : Area)
    → desired_ime_allowed b ≡ true
    → b.last_applied_ime_allowed ≡ false
    → desired_cursor_area b ≡ some area
    → Synced b w (sync_to_winit b)
unfolding Synced sync_to_winit sync_allowed sync_area same_bool apply_calls
enabling-Synced b w area on off here =
    rw (on, off, here, sync_to_winit, sync_allowed)
      (elim (Bool-cases (same_area b.last_applied_cursor_area area)) [
        | inl e ↦ rw (e, sync_area) ((refl, refl), refl)
        | inr e ↦ rw (e, sync_area) ((refl, refl), refl)
      ])

-- Where the bridge is consistent and knows what the window was last told, a sync tells the window
-- what is wanted: whether the input method is allowed, and the cursor's area if there is one. This
-- holds although enabling the input method makes the window forget its area. And the bridge knows
-- it then.
pub sync_to_winit-Tracks :
    (b : ImeBridge) (w : Window)
    → IsConsistent b
    → Tracks b w
    → let r = sync_to_winit b in
      Tracks r.0 (apply_calls r.1 w)
      × (apply_calls r.1 w ≡ (desired_ime_allowed b, wanted_area (desired_cursor_area b) w.1))
unfolding sync_to_winit Synced
sync_to_winit-Tracks b w c t =
    let want = desired_ime_allowed b in
    let activating = want && not b.last_applied_ime_allowed in
    elim (Bool-cases activating) [
      | inl act ↦
          let on : want ≡ true = ground (arith, act) in
          let off : b.last_applied_ime_allowed ≡ false = ground (arith, act) in
          elim (Option-cases (desired_cursor_area b)) [
            | inl missing ↦ absurd (consistent-allowed b c on missing)
            | inr (area, here) ↦ enabling-Synced b w area on off here
          ]
      | inr quiet ↦
          let r = sync_allowed want b in
          let w' = apply_calls r.1 w in
          let q = sync_area r.0.cursor activating r.0 in
          let (t', e, same) = sync_allowed-told want b w quiet t in
          let (t'', e') = sync_area-told r.0.cursor activating r.0 w' t' in
          let joined = apply_calls-append r.1 q.1 w in
          (rw joined t'', joined ∙ e' ∙ rw (e, same) refl)
    ]
