-- ===== src/Ime/Owner/Consistent.antt =====
-- The states that `ImeBridge` (crates/emskin/src/state/ime.rs) can be in.
use emskin.Prelude.{
  ℕ, ◌≡◌, ◌≢◌, refl, Bool, true, false, ◌&&◌, Option, none, some, List, [], ◌∷◌, Text, arith,
  bytes_eq, ◌==◌, Bool-cases, Option-cases, inl, inr, if◌then◌else◌,
}
use emskin.Proxy.Connection.{FcitxEvent, focus_changed, cursor_rect, ic_destroyed}
use emskin.Ime.{
  Point, Rect, Area, same_identity_as, ImeOwner, no_owner, tip, dbus, ImeBridge, new, Host, app_loc,
  translate, cached, tip_key, dbus_key, desired_ime_allowed, desired_cursor_area,
}
use emskin.Ime.Owner.{
  cleared, begin_owner, set_owner, clear_owner, report_from, report_dbus_cursor, tip_change,
  report_tip_cursor_change, upgrade, poll_tip_freshness, set_prefix_active,
  reset_on_workspace_switch, on_fcitx_event, on_focus_changed, on_host_ime_event, owns, same_rect,
  in_settle,
}

-- What the cursor, `cursor_is_real` and `dbus_cursor_received` are for an owner.
Fits : ImeOwner → Option Area → Bool → Bool → Type 0
Fits no_owner cursor real received = (cursor ≡ none) × (real ≡ false) × (received ≡ false)
Fits (tip surface) cursor real received = (cursor ≢ none) × (received ≡ false)
Fits (dbus conn ic_path origin) cursor real received =
    (real ≡ true → cursor ≢ none) × (received ≡ true → real ≡ true)

unfoldable pub IsConsistent : ImeBridge → Type 0
unfolding Fits
IsConsistent b = Fits b.owner b.cursor b.cursor_is_real b.dbus_cursor_received

begin_owner-IsConsistent :
    (o : ImeOwner) (host : Host) (b : ImeBridge) → IsConsistent (begin_owner o host (cleared o b))
unfolding begin_owner IsConsistent
begin_owner-IsConsistent no_owner host b = (refl, refl, refl)
begin_owner-IsConsistent (tip s) host b = elim (Option-cases (cached (tip_key s) b.cursor_cache)) [
  | inl e ↦ rw (e, begin_owner) (λ h. cc, refl)
  | inr (r, e) ↦ rw (e, begin_owner) (λ h. cc, refl)
]
begin_owner-IsConsistent (dbus k p o) host b =
    elim (Option-cases (cached (dbus_key k p) b.cursor_cache)) [
      | inl e ↦ rw (e, begin_owner) (λ h. cc, λ h. cc)
      | inr (r, e) ↦ rw (e, begin_owner) (λ h. λ i. cc, λ h. refl)
    ]

set_owner-IsConsistent :
    (o : ImeOwner) (host : Host) (b : ImeBridge)
    → IsConsistent b
    → IsConsistent (set_owner o host b)
unfolding set_owner
set_owner-IsConsistent o host b h = elim (Bool-cases (same_identity_as b.owner o)) [
  | inl e ↦ rw (e, set_owner) h
  | inr e ↦ rw (e, set_owner) (begin_owner-IsConsistent o host b)
]

clear_owner-IsConsistent : (b : ImeBridge) → IsConsistent b → IsConsistent (clear_owner b)
unfolding clear_owner IsConsistent Fits
clear_owner-IsConsistent b h = ground arith

dbus-real :
    (o : ImeOwner) (k : ℕ) (p : Text) (origin : Point) (a : Area)
    → o ≡ dbus k p origin
    → Fits o (some a) true true
unfolding Fits
dbus-real o k p origin a e = rw e (λ h i. cc, λ h. refl)

tip-real :
    (o : ImeOwner) (s : ℕ) (a : Area) (cursor : Option Area) (real received : Bool)
    → o ≡ tip s
    → Fits o cursor real received
    → Fits o (some a) true received
unfolding Fits
tip-real no_owner s a cursor real received e h = absurd (cc)
tip-real (dbus k p g) s a cursor real received e h = absurd (cc)
tip-real (tip t) s a cursor real received e h = (λ i. cc, h.1)

report_from-IsConsistent :
    (o : ImeOwner) (k : ℕ) (p : Text) (r : Rect) (host : Host) (b : ImeBridge)
    → b.owner ≡ o
    → IsConsistent b
    → IsConsistent (report_from o k p r host b)
unfolding report_from IsConsistent Fits
report_from-IsConsistent no_owner k p r host b e h = h
report_from-IsConsistent (tip s) k p r host b e h = h
report_from-IsConsistent (dbus oc oi origin) k p r host b e h =
    elim (Bool-cases ((oc == k) && bytes_eq oi p)) [
      | inr c ↦ rw (c, report_from) h
      | inl c ↦ elim (Bool-cases (b.dbus_cursor_received && in_settle host b.dbus_focused_at)) [
        | inl s ↦ rw (c, s, report_from) h
        | inr s ↦ rw (c, s, report_from) (dbus-real b.owner oc oi origin (translate r origin) e)
      ]
    ]

tip_change-IsConsistent :
    (o : ImeOwner) (r : Option Rect) (host : Host) (b : ImeBridge)
    → b.owner ≡ o
    → IsConsistent b
    → IsConsistent (tip_change o r host b)
unfolding tip_change IsConsistent Fits
tip_change-IsConsistent no_owner r host b e h = h
tip_change-IsConsistent (dbus k p o) r host b e h = h
tip_change-IsConsistent (tip s) none host b e h = h
tip_change-IsConsistent (tip s) (some r) host b e h =
    elim (Bool-cases (same_rect b.tip_snapshot r)) [
      | inl c ↦ rw (c, tip_change) h
      | inr c ↦
          rw (c, tip_change)
            (tip-real b.owner s (translate r (app_loc host s)) b.cursor b.cursor_is_real
              b.dbus_cursor_received e h)
    ]

report_tip-IsConsistent :
    (host : Host) (b : ImeBridge) → IsConsistent b → IsConsistent (report_tip_cursor_change host b)
unfolding report_tip_cursor_change
report_tip-IsConsistent host b h =
    tip_change-IsConsistent b.owner host.cursor_rectangle host b refl h

upgraded_if :
    (c : Bool) (s : ℕ) (host : Host) (b : ImeBridge)
    → IsConsistent b
    → IsConsistent (if c then set_owner (tip s) host b else b)
upgraded_if true s host b h = set_owner-IsConsistent (tip s) host b h
upgraded_if false s host b h = h

upgrade-IsConsistent :
    (o : ImeOwner) (s : Option ℕ) (host : Host) (b : ImeBridge)
    → IsConsistent b
    → IsConsistent (upgrade o s host b)
unfolding upgrade
upgrade-IsConsistent no_owner (some s) host b h = upgraded_if host.has_text_input s host b h
upgrade-IsConsistent no_owner none host b h = h
upgrade-IsConsistent (tip t) s host b h = h
upgrade-IsConsistent (dbus k p o) s host b h = h

cleared_if :
    (c : Bool) (b : ImeBridge) → IsConsistent b → IsConsistent (if c then clear_owner b else b)
cleared_if true b h = clear_owner-IsConsistent b h
cleared_if false b h = h

on_fcitx_event-IsConsistent :
    (e : FcitxEvent) (o : Option Point) (host : Host) (b : ImeBridge)
    → IsConsistent b
    → IsConsistent (on_fcitx_event e o host b)
unfolding on_fcitx_event report_dbus_cursor
on_fcitx_event-IsConsistent (focus_changed k p true) o host b h = set_owner-IsConsistent _ host b h
on_fcitx_event-IsConsistent (focus_changed k p false) o host b h = cleared_if (owns b.owner k p) b h
on_fcitx_event-IsConsistent (cursor_rect k p x y w t) o host b h =
    report_from-IsConsistent b.owner k p (record { loc = (x, y); size = (w, t) }) host b refl h
on_fcitx_event-IsConsistent (ic_destroyed k p) o host b h =
    unfold IsConsistent in cleared_if (owns b.owner k p) b h

-- The calls that the compositor makes.
pub data Event : Type 0 where
  prefix : Bool → Event
  poll : Host → Event
  fcitx : FcitxEvent → Option Point → Host → Event
  focus : Option ℕ → Host → Event
  host_ime : Host → Event
  workspace_switch : Event

unfoldable pub handle : Event → ImeBridge → ImeBridge
unfolding set_prefix_active poll_tip_freshness on_fcitx_event on_focus_changed
    reset_on_workspace_switch
handle (prefix active) b = set_prefix_active active b
handle (poll host) b = poll_tip_freshness host b
handle (fcitx event origin host) b = on_fcitx_event event origin host b
handle (focus surface host) b = on_focus_changed surface host b
handle (host_ime host) b = on_host_ime_event host b
handle workspace_switch b = reset_on_workspace_switch b

handle-IsConsistent : (e : Event) (b : ImeBridge) → IsConsistent b → IsConsistent (handle e b)
unfolding handle set_prefix_active poll_tip_freshness on_focus_changed reset_on_workspace_switch
    IsConsistent Fits
handle-IsConsistent (prefix active) b h = h
handle-IsConsistent (poll host) b h =
    report_tip-IsConsistent host _ (upgrade-IsConsistent b.owner b.focused_surface host b h)
handle-IsConsistent (fcitx event origin host) b h =
    on_fcitx_event-IsConsistent event origin host b h
handle-IsConsistent (focus surface host) b h =
    set_owner-IsConsistent _ host (record b { focused_surface = surface }) h
handle-IsConsistent (host_ime host) b h = report_tip-IsConsistent host b h
handle-IsConsistent workspace_switch b h = (refl, refl, refl)

unfoldable pub after : List Event → ImeBridge → ImeBridge
after [] b = b
after (e ∷ es) b = after es (handle e b)

-- After any calls the owner and the cursor fit together: no owner has no cursor, a client with a
-- text input has one, and a fcitx client has one where it counts as real, as it does once the
-- client has reported one.
pub after-IsConsistent :
    (es : List Event) (b : ImeBridge) → IsConsistent b → IsConsistent (after es b)
unfolding after
after-IsConsistent [] b h = h
after-IsConsistent (e ∷ es) b h = after-IsConsistent es (handle e b) (handle-IsConsistent e b h)

pub consistent-allowed :
    (b : ImeBridge) → IsConsistent b → desired_ime_allowed b ≡ true → desired_cursor_area b ≢ none
unfolding IsConsistent Fits desired_ime_allowed
consistent-allowed b h e = ground (arith, h, e)

-- After any calls, the input method is wanted only where there is a cursor area to give the window.
-- Of where the area comes from nothing is said: before an owner of text-input reports its caret, it
-- is a stand-in at the origin of its surface.
pub after-allowed :
    (es : List Event)
    → desired_ime_allowed (after es new) ≡ true
    → desired_cursor_area (after es new) ≢ none
after-allowed es e =
    consistent-allowed (after es new)
      (after-IsConsistent es new (unfold IsConsistent in unfold Fits in (refl, refl, refl))) e
