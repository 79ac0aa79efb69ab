-- ===== src/Recorder.antt =====
-- Screenshots and recordings (crates/emskin/src/recording.rs): the encoder, and the state machine of
-- `Recorder`. What ffmpeg, the renderer, the writer thread and the clocks answer are arguments; a
-- time is a number of nanoseconds, and 1/fps in them is a parameter. A captured frame carries the
-- bytes that mapping it gives.
pub mod Took
pub mod Frames
pub mod Flip
pub mod Account
pub mod Counts
pub mod Ticks
use emskin.Prelude.{
  ℕ, zero, suc, ◌+◌, ◌-◌, ◌*◌, ◌≡◌, Bool, true, false, not, ◌&&◌, ◌||◌, Option, none, some, List,
  [], ◌∷◌, ◌++◌, Bytes, Text, take, drop, replicate, length, ltb, leb, ◌==◌, if◌then◌else◌,
}
use emskin.Prelude.Int.{ℤ, pos, negsuc}

pub data Orientation : Type 0 where
  top_down : Orientation
  bottom_up : Orientation

pub record CapturedFrame : Type 0 where
  pub width : ℕ
  pub height : ℕ
  pub orientation : Orientation
  -- `none` where the texture cannot be mapped.
  pub mapped : Option Bytes

-- `dropped_frames` counts the frames that found the queue full. `queued` is what went to the writer
-- thread, which hands it to ffmpeg in order, and `sender` whether the queue is open.
pub record VideoEncoder : Type 0 where
  pub size : ℤ × ℤ
  pub fps : ℕ
  pub bytes_per_frame : ℕ
  pub dropped_frames : ℕ
  pub sender : Bool
  pub queued : List Bytes

abbrev is_positive : ℤ → Bool
is_positive (pos n) = ltb 0 n
is_positive (negsuc n) = false

-- `as usize`, of a size that is positive.
abbrev usize : ℤ → ℕ
usize (pos n) = n
usize (negsuc n) = 0

-- `started` is whether the directory can be made and ffmpeg and the thread be started.
unfoldable pub spawn : Bool → ℤ × ℤ → ℕ → Option VideoEncoder
spawn started size fps =
    if is_positive size.0 && (is_positive size.1 && (ltb 0 fps && started))
    then some (record {
      size = size;
      fps = fps;
      bytes_per_frame = usize size.0 * usize size.1 * 4;
      dropped_frames = 0;
      sender = true;
      queued = [];
    })
    else none

-- The answers of `try_send`.
pub data TrySend : Type 0 where
  taken : TrySend
  full : TrySend
  disconnected : TrySend

abbrev pub hand_over : TrySend → Bytes → VideoEncoder → VideoEncoder × Bool
hand_over taken bytes e = (record e { queued = e.queued ++ (bytes ∷ []) }, true)
hand_over full bytes e = (record e { dropped_frames = e.dropped_frames + 1 }, true)
hand_over disconnected bytes e = (e, false)

-- The result is whether the frame was taken or dropped.
unfoldable pub push_bytes : TrySend → Bytes → VideoEncoder → VideoEncoder × Bool
push_bytes answer bytes e =
    if not (length bytes == e.bytes_per_frame)
    then (e, false)
    else if not e.sender
    then (e, false)
    else hand_over answer bytes e

unfoldable pub push_frame : TrySend → CapturedFrame → VideoEncoder → VideoEncoder × Bool
unfolding push_bytes
push_frame answer frame e = elim frame.mapped [
  | none ↦ (e, false)
  | some bytes ↦ push_bytes answer bytes e
]

pub data FinishReason : Type 0 where
  user : FinishReason
  resize : FinishReason
  encoder_error : FinishReason
  replaced : FinishReason

pub record FinishEvent : Type 0 where
  pub path : Text
  pub frames_written : ℕ
  pub duration : ℕ
  pub reason : FinishReason

pub record RecordingMeta : Type 0 where
  pub path : Text
  pub started_at : ℕ
  pub started_at_present : ℕ
  pub frame_interval : ℕ
  pub last_frame_at : Option ℕ
  pub frames_written : ℕ
  pub size : ℤ × ℤ

pub data RecorderState : Type 0 where
  idle : RecorderState
  screenshot_requested : Text → RecorderState
  screenshot_pending : CapturedFrame → Text → RecorderState
  recording_requested : Text → ℕ → RecorderState
  -- The frame to push, and the one that was just captured.
  recording :
      VideoEncoder → RecordingMeta → Option CapturedFrame → Option CapturedFrame → RecorderState
  stopping : VideoEncoder → RecordingMeta → Option CapturedFrame → FinishReason → RecorderState

-- What became of an encoder: closed so that ffmpeg writes the video, or dropped and killed.
pub data Ended : Type 0 where
  finished : VideoEncoder → Ended
  killed : VideoEncoder → Ended

-- A picture that was written: the path, the size and the bytes.
pub record Screenshot : Type 0 where
  pub path : Text
  pub width : ℕ
  pub height : ℕ
  pub bytes : Bytes

pub record Recorder : Type 0 where
  pub state : RecorderState
  -- The encoders that were started, and how they ended.
  pub started : ℕ
  pub ended : List Ended
  pub pictures : List Screenshot

abbrev pub new : Recorder
new = record { state = idle; started = 0; ended = []; pictures = [] }

-- A state that is dropped takes its encoder with it.
abbrev pub dropped : RecorderState → List Ended
dropped idle = []
dropped (screenshot_requested path) = []
dropped (screenshot_pending frame path) = []
dropped (recording_requested path fps) = []
dropped (recording e meta to_push just_captured) = killed e ∷ []
dropped (stopping e meta to_push reason) = killed e ∷ []

unfoldable pub request_screenshot : Text → Recorder → Recorder
request_screenshot path r = record r {
  state = screenshot_requested path;
  ended = r.ended ++ dropped r.state;
}

abbrev pub requested : Text → ℕ → RecorderState → RecorderState
requested path fps (recording e meta to_push just_captured) = stopping e meta none replaced
requested path fps (stopping e meta to_push reason) = stopping e meta to_push reason
requested path fps (screenshot_requested old) = recording_requested path fps
requested path fps (screenshot_pending frame old) = recording_requested path fps
requested path fps (recording_requested old f) = recording_requested path fps
requested path fps idle = recording_requested path fps

unfoldable pub request_recording : Text → ℕ → Recorder → Recorder
request_recording path fps r = record r { state = requested path fps r.state }

abbrev pub stopped : RecorderState → RecorderState
stopped (recording e meta to_push just_captured) = stopping e meta to_push user
stopped (recording_requested path fps) = idle
stopped idle = idle
stopped (screenshot_requested path) = screenshot_requested path
stopped (screenshot_pending frame path) = screenshot_pending frame path
stopped (stopping e meta to_push reason) = stopping e meta to_push reason

unfoldable pub stop_recording : Recorder → Recorder
stop_recording r = record r { state = stopped r.state }
