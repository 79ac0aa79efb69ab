-- ===== src/Ime/Owner.antt =====
-- The operations of `ImeBridge` (crates/emskin/src/state/ime.rs) on the owner and its cursor.
pub mod Consistent
use emskin.Prelude.{
  ℕ, ◌-◌, Bool, true, false, not, ◌&&◌, Option, none, some, List, [], ◌∷◌, Text, bytes_eq, ltb,
  ◌==◌, if◌then◌else◌, ◌≡◌, refl, arith, Bool-cases, inl, inr,
}
use emskin.Prelude.Int.{ℤ, pos, negsuc}
use emskin.Proxy.Connection.{FcitxEvent, focus_changed, cursor_rect, ic_destroyed}
use emskin.Ime.{
  Point, Rect, Area, ImeOwner, no_owner, tip, dbus, CursorCacheKey, tip_key, dbus_key,
  same_identity_as, cached, forget, ImeBridge, Host, app_loc, translate,
}

-- `FOCUS_IN_CURSOR_RECT_SETTLE`, in milliseconds.
abbrev pub focus_in_cursor_rect_settle : ℕ
focus_in_cursor_rect_settle = 300

-- The fields that `set_owner`, `clear_owner` and `reset_on_workspace_switch` clear.
abbrev pub cleared : ImeOwner → ImeBridge → ImeBridge
cleared owner b = record b {
  owner = owner;
  cursor = none;
  cursor_is_real = false;
  tip_snapshot = none;
  dbus_focused_at = none;
  dbus_cursor_received = false;
}

-- The cursor that an owner begins with: the one last seen, else (for `tip`) the corner of its app.
unfoldable pub begin_owner : ImeOwner → Host → ImeBridge → ImeBridge
begin_owner no_owner host b = b
begin_owner (tip surface) host b =
    let b' = record b { tip_snapshot = host.cursor_rectangle } in
    elim (cached (tip_key surface) b.cursor_cache) [
      | some rect ↦ record b' {
        cursor = some (translate rect (app_loc host surface));
        cursor_is_real = true;
      }
      | none ↦ record b' { cursor = some (app_loc host surface, (pos 1, pos 1)) }
    ]
begin_owner (dbus conn ic_path origin) host b =
    let b' = record b { dbus_focused_at = some host.now } in
    elim (cached (dbus_key conn ic_path) b.cursor_cache) [
      | some rect ↦ record b' { cursor = some (translate rect origin); cursor_is_real = true }
      | none ↦ b'
    ]

unfoldable pub set_owner : ImeOwner → Host → ImeBridge → ImeBridge
unfolding begin_owner
set_owner owner host b =
    if same_identity_as b.owner owner then b else begin_owner owner host (cleared owner b)

unfoldable pub clear_owner : ImeBridge → ImeBridge
clear_owner b = elim b.owner [
  | no_owner ↦ b
  | tip surface ↦ cleared no_owner b
  | dbus conn ic_path origin ↦ cleared no_owner b
]

unfoldable pub in_settle : Host → Option ℕ → Bool
in_settle host none = false
in_settle host (some t) = ltb (host.now - t) focus_in_cursor_rect_settle

-- Of the input context that owns the input method; soon after the focus only the first counts.
report_from : ImeOwner → ℕ → Text → Rect → Host → ImeBridge → ImeBridge
unfolding in_settle
report_from (dbus oc oi origin) conn ic_path rect host b =
    if not ((oc == conn) && bytes_eq oi ic_path)
    then b
    else if b.dbus_cursor_received && in_settle host b.dbus_focused_at
    then b
    else record b {
      cursor = some (translate rect origin);
      cursor_is_real = true;
      dbus_cursor_received = true;
      cursor_cache = (dbus_key conn ic_path, rect) ∷ b.cursor_cache;
    }
report_from owner conn ic_path rect host b = b

unfoldable pub report_dbus_cursor : ℕ → Text → Rect → Host → ImeBridge → ImeBridge
unfolding report_from
report_dbus_cursor conn ic_path rect host b = report_from b.owner conn ic_path rect host b

same_int : ℤ → ℤ → Bool
same_int (pos a) (pos b) = a == b
same_int (negsuc a) (negsuc b) = a == b
same_int a b = false

unfoldable pub same_point : Point → Point → Bool
unfolding same_int
same_point a b = same_int a.0 b.0 && same_int a.1 b.1

same_int-true : (a b : ℤ) → same_int a b ≡ true → a ≡ b
unfolding same_int
same_int-true (pos a) (pos b) h = ground (arith, h)
same_int-true (negsuc a) (negsuc b) h = ground (arith, h)
same_int-true (pos a) (negsuc b) h = absurd (cc)
same_int-true (negsuc a) (pos b) h = absurd (cc)

pub same_point-true : (a b : Point) → same_point a b ≡ true → a ≡ b
unfolding same_point
same_point-true (ax, ay) (bx, by) h = elim (Bool-cases (same_int ax bx)) [
  | inl e ↦ rw (same_int-true ax bx e, same_int-true ay by (ground (arith, e, h))) refl
  | inr e ↦ absurd (ground (arith, e, h))
]

unfoldable pub same_rect : Option Rect → Rect → Bool
unfolding same_point
same_rect none r = false
same_rect (some s) r = same_point s.loc r.loc && same_point s.size r.size

-- A surface with a text input moved its cursor.
tip_change : ImeOwner → Option Rect → Host → ImeBridge → ImeBridge
tip_change (tip surface) (some current) host b =
    if same_rect b.tip_snapshot current then b else record b {
      tip_snapshot = some current;
      cursor = some (translate current (app_loc host surface));
      cursor_is_real = true;
      cursor_cache = (tip_key surface, current) ∷ b.cursor_cache;
    }
tip_change owner rectangle host b = b

unfoldable pub report_tip_cursor_change : Host → ImeBridge → ImeBridge
unfolding tip_change
report_tip_cursor_change host b = tip_change b.owner host.cursor_rectangle host b

-- A client that bound its text input after it was focused owns it now.
upgrade : ImeOwner → Option ℕ → Host → ImeBridge → ImeBridge
unfolding set_owner
upgrade no_owner (some surface) host b =
    if host.has_text_input then set_owner (tip surface) host b else b
upgrade owner focused host b = b

unfoldable pub poll_tip_freshness : Host → ImeBridge → ImeBridge
unfolding upgrade report_tip_cursor_change
poll_tip_freshness host b = report_tip_cursor_change host (upgrade b.owner b.focused_surface host b)

unfoldable pub set_prefix_active : Bool → ImeBridge → ImeBridge
set_prefix_active active b = record b { prefix_active = active }

unfoldable pub reset_on_workspace_switch : ImeBridge → ImeBridge
reset_on_workspace_switch b = record (cleared no_owner b) {
  focused_surface = none;
  cursor_cache = [];
  prefix_active = false;
}

unfoldable pub owns : ImeOwner → ℕ → Text → Bool
owns (dbus oc oi origin) conn ic_path = (oc == conn) && bytes_eq oi ic_path
owns owner conn ic_path = false

abbrev origin_or_zero : Option Point → Point
origin_or_zero none = (pos 0, pos 0)
origin_or_zero (some p) = p

unfoldable pub on_fcitx_event : FcitxEvent → Option Point → Host → ImeBridge → ImeBridge
unfolding set_owner clear_owner report_dbus_cursor owns
on_fcitx_event (focus_changed conn ic_path true) app_origin host b =
    set_owner (dbus conn ic_path (origin_or_zero app_origin)) host b
on_fcitx_event (focus_changed conn ic_path false) app_origin host b =
    if owns b.owner conn ic_path then clear_owner b else b
on_fcitx_event (cursor_rect conn ic_path x y w h) app_origin host b =
    report_dbus_cursor conn ic_path (record { loc = (x, y); size = (w, h) }) host b
on_fcitx_event (ic_destroyed conn ic_path) app_origin host b =
    let b' = if owns b.owner conn ic_path then clear_owner b else b in
    record b' { cursor_cache = forget (dbus_key conn ic_path) b'.cursor_cache }

-- The owner that a focus gives.
abbrev owner_of : Option ℕ → Bool → ImeOwner
owner_of (some surface) true = tip surface
owner_of _ _ = no_owner

unfoldable pub on_focus_changed : Option ℕ → Host → ImeBridge → ImeBridge
unfolding set_owner
on_focus_changed new_focus host b =
    set_owner (owner_of new_focus host.has_text_input) host
      (record b { focused_surface = new_focus })

-- What `on_host_ime_event` does to the bridge: the same for every event of the host.
abbrev pub on_host_ime_event : Host → ImeBridge → ImeBridge
on_host_ime_event host b = report_tip_cursor_change host b
