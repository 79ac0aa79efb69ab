-- ===== src/Fcitx.antt =====
-- crates/emskin-dbus/src/fcitx.rs: recognition of fcitx5 calls, the allocation of input contexts
-- and the replies.
pub mod Classify
pub mod Allocate
use emskin.Prelude.{
  ℕ, zero, suc, ◌+◌, ◌/◌, ◌%◌, ◌^◌, Bool, true, false, ◌&&◌, ◌||◌, Option, none, some, List, [],
  ◌∷◌, ◌++◌, Bytes, Text, ltb, if◌then◌else◌, codes, bytes_eq, replicate,
}
use emskin.Prelude.Int.{ℤ}
use emskin.Wire.Zvariant.{Zvariant}
use emskin.Wire.Frame.{Frame, encode}
use emskin.Wire.Body.{
  BodyType, string_pairs, u64, four_i32, four_i32_f64, two_i32, string_two_u32, two_u32, Body,
  BodyCodec, object_path, byte_array,
}
use emskin.Wire.Builder.{
  bump, method_return_to, with_serial, body_args, add_arg, finish, build, decode_body,
}
use mathlib.Core.Option

abbrev pub input_method_interface : Text
input_method_interface = codes "org.fcitx.Fcitx.InputMethod1"

abbrev pub input_context_interface : Text
input_context_interface = codes "org.fcitx.Fcitx.InputContext1"

abbrev pub input_context_interface_fcitx4 : Text
input_context_interface_fcitx4 = codes "org.fcitx.Fcitx.InputContext"

abbrev pub input_context_path_prefix : Text
input_context_path_prefix = codes "/org/freedesktop/portal/inputcontext/"

unfoldable pub is_fcitx_interface : Text → Bool
is_fcitx_interface iface =
    bytes_eq iface input_method_interface
    || (bytes_eq iface input_context_interface || bytes_eq iface input_context_interface_fcitx4)

-- Is it one of `FCITX5_WELL_KNOWN_NAMES`?
unfoldable pub is_fcitx_well_known : Text → Bool
is_fcitx_well_known name =
    bytes_eq name (codes "org.fcitx.Fcitx5")
    || (bytes_eq name (codes "org.freedesktop.portal.Fcitx")
        || bytes_eq name (codes "org.fcitx.Fcitx"))

pub data Fcitx5MethodCall : Type 0 where
  create_input_context : List (Text × Text) → Fcitx5MethodCall
  focus_in focus_out reset destroy_ic : Text → Fcitx5MethodCall
  set_capability : Text → ℕ → Fcitx5MethodCall
  set_cursor_rect : Text → ℤ → ℤ → ℤ → ℤ → Fcitx5MethodCall
  -- The scale is the bit pattern of an `f64`.
  set_cursor_rect_v2 : Text → ℤ → ℤ → ℤ → ℤ → ℕ → Fcitx5MethodCall
  set_cursor_location : Text → ℤ → ℤ → Fcitx5MethodCall
  set_surrounding_text : Text → Text → ℕ → ℕ → Fcitx5MethodCall
  set_surrounding_text_position : Text → ℕ → ℕ → Fcitx5MethodCall

-- The arms of the `match` in `classify`.
pub data Arm : Type 0 where
  arm_create arm_focus_in arm_focus_out arm_reset arm_destroy arm_capability arm_rect arm_rect_v2 :
      Arm
  arm_location arm_surrounding arm_position other : Arm

is_call : Text → Text → Text → Text → Text → Text → Bool
is_call i m s iface member sig = bytes_eq i iface && (bytes_eq m member && bytes_eq s sig)

-- The `match` on interface, member and signature.
pub arm_of : Text → Text → Text → Arm
unfolding is_call
arm_of i m s =
    if is_call i m s input_method_interface (codes "CreateInputContext") (codes "a(ss)")
    then arm_create
    else if is_call i m s input_context_interface (codes "FocusIn") []
    then arm_focus_in
    else if is_call i m s input_context_interface (codes "FocusOut") []
    then arm_focus_out
    else if is_call i m s input_context_interface (codes "Reset") []
    then arm_reset
    else if is_call i m s input_context_interface (codes "DestroyIC") []
    then arm_destroy
    else if is_call i m s input_context_interface (codes "SetCapability") (codes "t")
    then arm_capability
    else if is_call i m s input_context_interface (codes "SetCursorRect") (codes "iiii")
    then arm_rect
    else if is_call i m s input_context_interface (codes "SetCursorRectV2") (codes "iiiid")
    then arm_rect_v2
    else if is_call i m s input_context_interface_fcitx4 (codes "SetCursorLocation") (codes "ii")
    then arm_location
    else if is_call i m s input_context_interface (codes "SetSurroundingText") (codes "suu")
    then arm_surrounding
    else if is_call i m s input_context_interface (codes "SetSurroundingTextPosition") (codes "uu")
    then arm_position
    else other

infixl 5 ◌>>=◌
abbrev ◌>>=◌ {ℓ κ} : {A : Type ℓ} {B : Type κ} → Option A → (A → Option B) → Option B
none >>= f = none
some a >>= f = f a

module _ (c : BodyCodec) (frame : Frame) where
  -- The bodies of the arms, with the path of the frame.
  run_arm : Arm → Option Text → Option Fcitx5MethodCall
  run_arm arm_create path = do
    hints ← decode_body c string_pairs frame
    some (create_input_context hints)
  run_arm arm_focus_in path = Option.map focus_in path
  run_arm arm_focus_out path = Option.map focus_out path
  run_arm arm_reset path = Option.map reset path
  run_arm arm_destroy path = Option.map destroy_ic path
  run_arm arm_capability path = do
    capability ← decode_body c u64 frame
    p ← path
    some (set_capability p capability)
  run_arm arm_rect path = do
    (x, y, w, h) ← decode_body c four_i32 frame
    p ← path
    some (set_cursor_rect p x y w h)
  run_arm arm_rect_v2 path = do
    (x, y, w, h, scale) ← decode_body c four_i32_f64 frame
    p ← path
    some (set_cursor_rect_v2 p x y w h scale)
  run_arm arm_location path = do
    (x, y) ← decode_body c two_i32 frame
    p ← path
    some (set_cursor_location p x y)
  run_arm arm_surrounding path = do
    (text, cursor, anchor) ← decode_body c string_two_u32 frame
    p ← path
    some (set_surrounding_text p text cursor anchor)
  run_arm arm_position path = do
    (cursor, anchor) ← decode_body c two_u32 frame
    p ← path
    some (set_surrounding_text_position p cursor anchor)
  run_arm other path = none

  unfoldable pub classify : Option Fcitx5MethodCall
  unfolding run_arm arm_of
  classify = do
    iface ← frame.headers.interface
    member ← frame.headers.member
    let sig = Option.get_or frame.headers.signature []
    run_arm (arm_of iface member sig) frame.headers.path

-- The decimal digits of a number, in front of a text. A 64-bit number has at most 20.
digits_before : ℕ → ℕ → Text → Text
digits_before zero n rest = rest
digits_before (suc fuel) n rest =
    let front = digits_before fuel (n / 10) ((b'0' + n % 10) ∷ rest) in
    if ltb n 10 then (b'0' + n) ∷ rest else front

-- `format!("{id}")`
unfoldable pub decimal : ℕ → Text
unfolding digits_before
decimal n = digits_before 20 n []

-- `u64::to_le_bytes`
unfoldable pub le_bytes : ℕ → ℕ → Bytes
le_bytes zero n = []
le_bytes (suc k) n = n % 256 ∷ le_bytes k (n / 256)

-- `InputContextAllocator`: the next id. `+= 1` is taken below 2⁶⁴.
abbrev pub new_allocator : ℕ
new_allocator = 1

-- The path, the uuid and the allocator behind it.
unfoldable pub allocate : ℕ → (Text × Bytes) × ℕ
unfolding decimal le_bytes
allocate next_id = (
  (input_context_path_prefix ++ decimal next_id, le_bytes 8 next_id ++ replicate 8 0),
  next_id + 1,
)

module _ (c : BodyCodec) (request : Frame) where
  -- The frame of a reply, the allocator and the serial counter behind it.
  unfoldable pub reply_frame : Fcitx5MethodCall → ℕ → ℕ → Frame × ℕ × ℕ
  reply_frame (create_input_context hints) ic_alloc serials =
      let serial = bump serials in
      let ((path, uuid), ic_alloc') = allocate ic_alloc in
      let b = body_args (with_serial (method_return_to request) serial) in
      (
        build (finish (add_arg c (add_arg c b (object_path path)) (byte_array uuid))),
        ic_alloc',
        serial,
      )
  reply_frame method ic_alloc serials =
      let serial = bump serials in
      (build (with_serial (method_return_to request) serial), ic_alloc, serial)

pub build_reply : Zvariant → BodyCodec → Frame → Fcitx5MethodCall → ℕ → ℕ → Bytes × ℕ × ℕ
build_reply z c request method ic_alloc serials =
    let (frame, ic_alloc', serials') = reply_frame c request method ic_alloc serials in
    (encode z frame, ic_alloc', serials')
