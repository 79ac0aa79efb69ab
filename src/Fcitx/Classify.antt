-- ===== src/Fcitx/Classify.antt =====
-- `classify` of crates/emskin-dbus/src/fcitx.rs.
use emskin.Prelude.{
  ◌≡◌, ◌≢◌, ◌⊎◌, inl, inr, true, Option, none, some, [], Text, arith, Option-cases,
}
use mathlib.Core.Option.{get_or}
use emskin.Wire.Frame.{Frame}
use emskin.Wire.Body.{BodyCodec}
use emskin.Fcitx.{
  Fcitx5MethodCall, create_input_context, focus_in, focus_out, reset, destroy_ic, set_capability,
  set_cursor_rect, set_cursor_rect_v2, set_cursor_location, set_surrounding_text,
  set_surrounding_text_position, Arm, arm_create, other, arm_of, run_arm, classify,
  is_fcitx_interface,
}

-- The input context that a call is about: `create_input_context` has none yet.
abbrev pub context_of : Fcitx5MethodCall → Option Text
context_of (create_input_context hints) = none
context_of (focus_in p) = some p
context_of (focus_out p) = some p
context_of (reset p) = some p
context_of (destroy_ic p) = some p
context_of (set_capability p k) = some p
context_of (set_cursor_rect p x y w h) = some p
context_of (set_cursor_rect_v2 p x y w h s) = some p
context_of (set_cursor_location p x y) = some p
context_of (set_surrounding_text p t k a) = some p
context_of (set_surrounding_text_position p k a) = some p

arm_of-interface : (i m s : Text) → arm_of i m s ≢ other → is_fcitx_interface i ≡ true
unfolding arm_of is_fcitx_interface
arm_of-interface i m s h = ground arith

module _ (c : BodyCodec) (f : Frame) where
  run_arm-other :
      (p : Option Text) (m : Fcitx5MethodCall) (a : Arm) → run_arm c f a p ≡ some m → a ≢ other
  unfolding run_arm
  run_arm-other p m other h = absurd (ground arith)
  run_arm-other p m _ h = λ e. cc

  run_arm-context :
      (p : Option Text) (m : Fcitx5MethodCall) (a : Arm)
      → run_arm c f a p ≡ some m
      → (context_of m ≡ none) ⊎ (context_of m ≡ p)
  unfolding run_arm
  run_arm-context p m arm_create h = ground arith
  run_arm-context p m _ h = ground arith

  classify_inv :
      (m : Fcitx5MethodCall)
      → classify c f ≡ some m
      → (iface member : Text) × (f.headers.interface ≡ some iface)
        × (f.headers.member ≡ some member)
        × (run_arm c f (arm_of iface member (get_or f.headers.signature [])) f.headers.path
            ≡ some m)
  unfolding classify
  classify_inv m h = elim (Option-cases f.headers.interface) [
    | inl e ↦ absurd (ground (arith, e))
    | inr (iface, e) ↦ elim (Option-cases f.headers.member) [
      | inl e' ↦ absurd (ground (arith, e, e'))
      | inr (member, e') ↦ (iface, member, e, e', ground (arith, e, e'))
    ]
  ]

  -- Only a call of one of the three fcitx interfaces is taken from the client's traffic, and the
  -- input context that it is said to be about is the path of the message.
  pub classify-some :
      (m : Fcitx5MethodCall)
      → classify c f ≡ some m
      → (iface : Text) × (f.headers.interface ≡ some iface)
        × (is_fcitx_interface iface ≡ true)
        × ((context_of m ≡ none) ⊎ (context_of m ≡ f.headers.path))
  classify-some m h =
      let (iface, member, e, _, r) = classify_inv m h in
      (
        iface,
        e,
        arm_of-interface iface member _ (run_arm-other f.headers.path m (arm_of iface member _) r),
        run_arm-context f.headers.path m (arm_of iface member _) r,
      )
