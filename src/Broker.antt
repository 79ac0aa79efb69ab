-- ===== src/Broker.antt =====
-- crates/emskin-dbus/src/broker/state.rs: the byte-stream state machine of one connection.
pub mod Look
pub mod Split
pub mod Outcome
pub mod Frames
pub mod Feed
pub mod Chunks
pub mod Total
use emskin.Prelude.{
  ℕ, zero, suc, ◌+◌, ◌-◌, Bool, true, false, Option, none, some, List, [], ◌∷◌, ◌++◌, Bytes, Result,
  ok, err, stuck, ◌>>=◌, map_err, ltb, if◌then◌else◌, length, take, drop,
}
use emskin.Wire.Zvariant.{Zvariant}
use emskin.Wire.Sasl.{SaslError, find_begin_end}
use emskin.Wire.Frame.{FrameError, bytes_needed}

pub data Phase : Type 0 where
  auth messages : Phase

-- A range is its two ends.
pub record FeedOutcome : Type 0 where
  pub outbound : Bytes
  pub frame_ranges : List (ℕ × ℕ)

pub data BrokerError : Type 0 where
  sasl : SaslError → BrokerError
  frame : FrameError → BrokerError

pub record ConnectionState : Type 0 where
  pub client_phase : Phase
  pub auth_accumulator : Bytes
  pub msg_buf : Bytes

abbrev pub new : ConnectionState
new = record { client_phase = auth; auth_accumulator = []; msg_buf = [] }

-- `FeedOutcome::default()`
abbrev pub nothing : FeedOutcome
nothing = record { outbound = []; frame_ranges = [] }

-- The next `total` bytes go out, as one frame.
unfoldable pub push_frame : ℕ → Bytes → FeedOutcome → FeedOutcome
push_frame total msg_buf out =
    let offset = length out.outbound in
    record {
      outbound = out.outbound ++ take total msg_buf;
      frame_ranges = out.frame_ranges ++ ((offset, offset + total) ∷ []);
    }

is_empty : Bytes → Bool
is_empty [] = true
is_empty (b ∷ bs) = false

-- The loop over the buffered messages. A frame has 16 bytes at least, so the fuel that
-- `feed_messages` gives is enough.
unfoldable pub split_frames :
    Zvariant → ℕ → Bytes → FeedOutcome → Result BrokerError (Bytes × FeedOutcome)
unfolding is_empty
split_frames z zero msg_buf out = stuck
split_frames z (suc fuel) msg_buf out =
    let step =
      λ (total : ℕ). split_frames z fuel (drop total msg_buf) (push_frame total msg_buf out) in
    if is_empty msg_buf
    then ok (msg_buf, out)
    else (map_err frame (bytes_needed z msg_buf) >>= λ needed. elim needed [
      | none ↦ ok (msg_buf, out)
      | some total ↦ elim (ltb (length msg_buf) total) [
        | true ↦ ok (msg_buf, out)
        | false ↦ step total
      ]
    ])

-- `feed_from_client` from the bytes behind the handshake on.
unfoldable pub feed_messages :
    Zvariant
    → ConnectionState
    → FeedOutcome
    → Bytes
    → Result BrokerError (ConnectionState × FeedOutcome)
feed_messages z st out rest = do
  let msg_buf = st.msg_buf ++ rest
  (left, out') ← split_frames z (suc (length msg_buf)) msg_buf out
  ok (record st { msg_buf = left }, out')

pub feed_auth :
    Zvariant → ConnectionState → Bytes → Result BrokerError (ConnectionState × FeedOutcome)
unfolding feed_messages
feed_auth z st chunk = do
  let original_auth_len = length st.auth_accumulator
  let accumulated = st.auth_accumulator ++ chunk
  found ← map_err sasl (find_begin_end accumulated)
  elim found [
    | none ↦ ok (
      record st { auth_accumulator = accumulated },
      record { outbound = chunk; frame_ranges = [] },
    )
    | some end ↦
        let auth_bytes_in_chunk = end - original_auth_len in
        feed_messages z (record st { auth_accumulator = []; client_phase = messages })
          (record { outbound = take auth_bytes_in_chunk chunk; frame_ranges = [] })
          (drop auth_bytes_in_chunk chunk)
  ]

feed_in :
    Phase → Zvariant → ConnectionState → Bytes → Result BrokerError (ConnectionState × FeedOutcome)
unfolding feed_auth
feed_in auth z st chunk = feed_auth z st chunk
feed_in messages z st chunk = feed_messages z st nothing chunk

unfoldable pub feed_from_client :
    Zvariant → ConnectionState → Bytes → Result BrokerError (ConnectionState × FeedOutcome)
unfolding feed_in
feed_from_client z st chunk = feed_in st.client_phase z st chunk

-- The other direction: bytes pass through.
pub feed_from_bus : ConnectionState → Bytes → FeedOutcome
feed_from_bus st chunk = record { outbound = chunk; frame_ranges = [] }

abbrev phase_authenticated : Phase → Bool
phase_authenticated auth = false
phase_authenticated messages = true

unfoldable pub is_authenticated : ConnectionState → Bool
is_authenticated st = phase_authenticated st.client_phase
