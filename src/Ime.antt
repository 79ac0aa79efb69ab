-- ===== src/Ime.antt =====
-- crates/emskin/src/state/ime.rs: who owns the input method, and where its cursor is. A surface is
-- a number, a time is in milliseconds; what the code asks of smithay and the clock is a `Host`.
pub mod Owner
pub mod Sync
use emskin.Prelude.{
  ℕ, ◌+◌, ◌-◌, ◌%◌, ◌^◌, Bool, true, false, not, ◌&&◌, Option, none, some, List, [], ◌∷◌, ◌++◌,
  Text, bytes_eq, ltb, ◌==◌, if◌then◌else◌,
}
use emskin.Prelude.Int.{ℤ, pos, negsuc, ◌+ℤ◌, ltb_ℤ}

-- `i32`: what is out of its range wraps around, as in a release build.
pub wrap_i32 : ℤ → ℤ
wrap_i32 (pos n) = let m = n % 2 ^ 32 in if ltb m (2 ^ 31) then pos m else negsuc (2 ^ 32 - 1 - m)
wrap_i32 (negsuc n) =
    let m = n % 2 ^ 32 in if ltb m (2 ^ 31) then negsuc m else pos (2 ^ 32 - 1 - m)

abbrev pub Point : Type 0
Point = ℤ × ℤ

pub record Rect : Type 0 where
  pub loc : Point
  pub size : Point

-- A position and a size.
abbrev pub Area : Type 0
Area = Point × Point

pub data ImeOwner : Type 0 where
  no_owner : ImeOwner
  tip : ℕ → ImeOwner
  dbus : ℕ → Text → Point → ImeOwner

pub data CursorCacheKey : Type 0 where
  tip_key : ℕ → CursorCacheKey
  dbus_key : ℕ → Text → CursorCacheKey

unfoldable pub same_identity_as : ImeOwner → ImeOwner → Bool
same_identity_as no_owner no_owner = true
same_identity_as (tip a) (tip b) = a == b
same_identity_as (dbus ac ap ao) (dbus bc bp bo) = (ac == bc) && bytes_eq ap bp
same_identity_as _ _ = false

unfoldable pub same_key : CursorCacheKey → CursorCacheKey → Bool
same_key (tip_key a) (tip_key b) = a == b
same_key (dbus_key ac ap) (dbus_key bc bp) = (ac == bc) && bytes_eq ap bp
same_key _ _ = false

-- The cache is a list of its entries, the newest in front.
abbrev pub Cache : Type 0
Cache = List (CursorCacheKey × Rect)

unfoldable pub cached : CursorCacheKey → Cache → Option Rect
cached k [] = none
cached k (e ∷ es) = if same_key e.0 k then some e.1 else cached k es

unfoldable pub forget : CursorCacheKey → Cache → Cache
forget k [] = []
forget k (e ∷ es) = if same_key e.0 k then forget k es else e ∷ forget k es

pub record ImeBridge : Type 0 where
  pub focused_surface : Option ℕ
  pub owner : ImeOwner
  pub cursor : Option Area
  pub cursor_is_real : Bool
  pub cursor_cache : Cache
  pub tip_snapshot : Option Rect
  pub dbus_focused_at : Option ℕ
  pub dbus_cursor_received : Bool
  pub prefix_active : Bool
  pub last_applied_ime_allowed : Bool
  pub last_applied_cursor_area : Option Area

abbrev pub new : ImeBridge
new = record {
  focused_surface = none;
  owner = no_owner;
  cursor = none;
  cursor_is_real = false;
  cursor_cache = [];
  tip_snapshot = none;
  dbus_focused_at = none;
  dbus_cursor_received = false;
  prefix_active = false;
  last_applied_ime_allowed = false;
  last_applied_cursor_area = none;
}

-- `TextInputHandle::cursor_rectangle`, whether the focused client has a text input, the place of
-- a surface among the apps, and the time.
pub record Host : Type 0 where
  pub cursor_rectangle : Option Rect
  pub has_text_input : Bool
  pub surface_geometry : ℕ → Option Point
  pub now : ℕ

pub app_loc : Host → ℕ → Point
app_loc host surface = elim (host.surface_geometry surface) [ none ↦ (pos 0, pos 0) | some p ↦ p ]

abbrev pub at_least_one : ℤ → ℤ
at_least_one v = if ltb_ℤ v (pos 1) then pos 1 else v

pub translate : Rect → Point → Area
unfolding wrap_i32
translate rect (x, y) = (
  (wrap_i32 (x +ℤ rect.loc.0), wrap_i32 (y +ℤ rect.loc.1)),
  (at_least_one rect.size.0, at_least_one rect.size.1),
)

unfoldable pub active_dbus_ic : ImeBridge → Option (ℕ × Text)
active_dbus_ic b = elim b.owner [
  | dbus conn ic_path origin ↦ some (conn, ic_path)
  | no_owner ↦ none
  | tip surface ↦ none
]

abbrev allowed_for : ImeOwner → Bool → Bool
allowed_for no_owner real = false
allowed_for (tip surface) real = true
allowed_for (dbus conn ic_path origin) real = real

unfoldable pub desired_ime_allowed : ImeBridge → Bool
desired_ime_allowed b = not b.prefix_active && allowed_for b.owner b.cursor_is_real

abbrev pub desired_cursor_area : ImeBridge → Option Area
desired_cursor_area b = b.cursor
