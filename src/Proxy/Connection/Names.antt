-- ===== src/Proxy/Connection/Names.antt =====
-- How a connection learns the unique name of the fcitx server (crates/emskin-dbus/src/proxy/mod.rs).
use emskin.Prelude.{
  ℕ, Bool, false, not, ◌&&◌, Option, none, some, List, [], ◌∷◌, Text, codes, bytes_eq, ◌==◌,
  if◌then◌else◌, ◌≡◌, refl, Option-cases, Bool-cases, inl, inr, arith,
}
use emskin.Wire.Frame.{Frame, MessageKind, method_call, method_return, error, signal}
use emskin.Wire.Body.{BodyCodec, string, three_strings}
use emskin.Wire.Builder.{decode_body}
use emskin.Fcitx.{is_fcitx_well_known}
use emskin.Proxy.Connection.{Connection}

unfoldable pub is_text : Option Text → Text → Bool
is_text none t = false
is_text (some s) t = bytes_eq s t

pub is_get_name_owner_method : Frame → Bool
unfolding is_text
is_get_name_owner_method f =
    is_text f.headers.interface (codes "org.freedesktop.DBus")
    && (is_text f.headers.member (codes "GetNameOwner") && is_text f.headers.signature (codes "s"))

pub is_name_owner_changed_signal : Frame → Bool
unfolding is_text
is_name_owner_changed_signal f =
    is_text f.headers.interface (codes "org.freedesktop.DBus")
    && (is_text f.headers.member (codes "NameOwnerChanged")
        && is_text f.headers.signature (codes "sss"))

-- `HashMap::remove` and `insert`: a key stands in one entry.
unfoldable pub find : ℕ → List (ℕ × Text) → Option Text
find k [] = none
find k (e ∷ es) = if e.0 == k then some e.1 else find k es

unfoldable pub remove : ℕ → List (ℕ × Text) → List (ℕ × Text)
remove k [] = []
remove k (e ∷ es) = if e.0 == k then remove k es else e ∷ remove k es

unfoldable pub insert : ℕ → Text → List (ℕ × Text) → List (ℕ × Text)
unfolding remove
insert k t es = (k, t) ∷ remove k es

module _ (c : BodyCodec) where
  -- A request for the owner of a fcitx name is remembered by its serial.
  unfoldable pub track : Frame → Connection → Connection
  unfolding insert
  track frame conn =
      if is_get_name_owner_method frame
      then elim (decode_body c string frame) [
        | none ↦ conn
        | some name ↦
            if is_fcitx_well_known name
            then record conn {
              pending_name_lookups = insert frame.serial name conn.pending_name_lookups;
            }
            else conn
      ]
      else conn

  learn_from_reply : Frame → Connection → Connection
  unfolding find remove
  learn_from_reply frame conn = elim frame.headers.reply_serial [
    | none ↦ conn
    | some reply_serial ↦ elim (find reply_serial conn.pending_name_lookups) [
      | none ↦ conn
      | some looked_up ↦
          let kept = record conn {
            pending_name_lookups = remove reply_serial conn.pending_name_lookups;
          } in
          elim (decode_body c string frame) [
            | none ↦ kept
            | some owner ↦ record kept { fcitx_server_name = some owner }
          ]
    ]
  ]

  owner_or_none : Text → Option Text
  owner_or_none [] = none
  owner_or_none (b ∷ bs) = some (b ∷ bs)

  learn_from_signal : Frame → Connection → Connection
  unfolding owner_or_none
  learn_from_signal frame conn = elim (decode_body c three_strings frame) [
    | none ↦ conn
    | some (name, old, new) ↦
        if is_fcitx_well_known name
        then record conn { fcitx_server_name = owner_or_none new }
        else conn
  ]

  learn_by : MessageKind → Frame → Connection → Connection
  unfolding learn_from_reply learn_from_signal
  learn_by method_return frame conn = learn_from_reply frame conn
  learn_by signal frame conn =
      if is_name_owner_changed_signal frame then learn_from_signal frame conn else conn
  learn_by method_call frame conn = conn
  learn_by error frame conn = conn

  -- The `match` on the kind of a message from the bus.
  unfoldable pub learn : Frame → Connection → Connection
  unfolding learn_by
  learn frame conn = learn_by frame.kind frame conn

  -- What is learnt is a name: the queue to the client and the buffer stay.
  abbrev Same : Connection → Connection → Type 0
  Same conn conn' = (conn'.client_out ≡ conn.client_out) × (conn'.upstream_buf ≡ conn.upstream_buf)

  learn_from_reply-Same :
      (frame : Frame) (conn : Connection) → Same conn (learn_from_reply frame conn)
  unfolding learn_from_reply
  learn_from_reply-Same frame conn = ground arith

  learn_from_signal-Same :
      (frame : Frame) (conn : Connection) → Same conn (learn_from_signal frame conn)
  unfolding learn_from_signal
  learn_from_signal-Same frame conn = elim (Option-cases (decode_body c three_strings frame)) [
    | inl e ↦ rw (e, learn_from_signal) (refl, refl)
    | inr ((name, old, new), e) ↦ elim (Bool-cases (is_fcitx_well_known name)) [
      | inl h ↦ rw (e, h, learn_from_signal) (refl, refl)
      | inr h ↦ rw (e, h, learn_from_signal) (refl, refl)
    ]
  ]

  learn_by-Same :
      (kind : MessageKind) (frame : Frame) (conn : Connection)
      → Same conn (learn_by kind frame conn)
  unfolding learn_by
  learn_by-Same method_return frame conn = learn_from_reply-Same frame conn
  learn_by-Same signal frame conn = elim (Bool-cases (is_name_owner_changed_signal frame)) [
    | inl h ↦ rw (h, learn_by) (learn_from_signal-Same frame conn)
    | inr h ↦ rw (h, learn_by) (refl, refl)
  ]
  learn_by-Same method_call frame conn = (refl, refl)
  learn_by-Same error frame conn = (refl, refl)

  pub learn-Same : (frame : Frame) (conn : Connection) → Same conn (learn frame conn)
  unfolding learn
  learn-Same frame conn = learn_by-Same frame.kind frame conn

abbrev is_unique_name : Text → Bool
is_unique_name [] = false
is_unique_name (b ∷ bs) = b == b':'

-- A unique name that an intercepted call was addressed to is kept.
unfoldable pub capture : Frame → Connection → Connection
unfolding is_text
capture frame conn = elim frame.headers.destination [
  | none ↦ conn
  | some dest ↦
      if is_unique_name dest && not (is_text conn.fcitx_server_name dest)
      then record conn { fcitx_server_name = some dest }
      else conn
]
