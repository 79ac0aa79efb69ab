-- ===== src/Recorder/Frames.antt =====
-- What the recorder does at each frame: capturing, pushing, writing a picture
-- (`capture_frame`, `finalize` and `write_screenshot` of crates/emskin/src/recording.rs).
use emskin.Prelude.{
  ℕ, zero, suc, ◌+◌, ◌-◌, ◌*◌, Bool, true, false, not, ◌&&◌, Option, none, some, List, [], ◌∷◌,
  ◌++◌, Bytes, Text, take, drop, replicate, length, leb, ◌==◌, if◌then◌else◌,
}
use emskin.Prelude.Int.{ℤ, pos, negsuc}
use emskin.Recorder.{
  top_down, bottom_up, CapturedFrame, VideoEncoder, spawn, TrySend, push_frame, FinishReason,
  resize, encoder_error, FinishEvent, RecordingMeta, RecorderState, idle, screenshot_requested,
  screenshot_pending, recording_requested, recording, stopping, finished, Screenshot, Recorder,
}

-- What one tick answers: the time, the size of the framebuffer, the time of the effects, whether
-- ffmpeg starts, the frame that can be captured, the answer of the queue, whether the picture can
-- be written, and the time at the end of a recording.
pub record Tick : Type 0 where
  pub now : ℕ
  pub physical_size : ℤ × ℤ
  pub present_time : ℕ
  pub can_start : Bool
  pub captured : Option CapturedFrame
  pub try_send : TrySend
  pub can_write : Bool
  pub ended_at : ℕ

abbrev pub ℤ_eq : ℤ → ℤ → Bool
ℤ_eq (pos a) (pos b) = a == b
ℤ_eq (pos a) (negsuc b) = false
ℤ_eq (negsuc a) (pos b) = false
ℤ_eq (negsuc a) (negsuc b) = a == b

abbrev pub same_size : ℤ × ℤ → ℤ × ℤ → Bool
same_size a b = ℤ_eq a.0 b.0 && ℤ_eq a.1 b.1

abbrev pub is_due : ℕ → RecordingMeta → Bool
is_due now meta = elim meta.last_frame_at [
  | none ↦ true
  | some last ↦ leb meta.frame_interval (now - last)
]

abbrev pub start_recording : (ℕ → ℕ) → Tick → Text → ℕ → Recorder → Recorder
start_recording interval t path fps r = elim (spawn t.can_start t.physical_size fps) [
  | none ↦ record r { state = idle }
  | some e ↦ record r {
    started = r.started + 1;
    state =
        recording e
          (record {
            path = path;
            started_at = t.now;
            started_at_present = t.present_time;
            frame_interval = interval fps;
            last_frame_at = none;
            frames_written = 0;
            size = t.physical_size;
          })
          none t.captured;
  }
]

abbrev pub capture_next : Tick → VideoEncoder → RecordingMeta → Option CapturedFrame → RecorderState
capture_next t e meta to_push =
    if not (same_size t.physical_size meta.size)
    then stopping e meta to_push resize
    else recording e meta to_push (if is_due t.now meta then t.captured else none)

abbrev pub shoot : Option CapturedFrame → Text → RecorderState
shoot none path = idle
shoot (some frame) path = screenshot_pending frame path

abbrev pub capture_at : (ℕ → ℕ) → Tick → RecorderState → Recorder → Recorder
capture_at interval t idle r = r
capture_at interval t (screenshot_pending frame path) r = r
capture_at interval t (stopping e meta to_push reason) r = r
capture_at interval t (screenshot_requested path) r = record r { state = shoot t.captured path }
capture_at interval t (recording_requested path fps) r = start_recording interval t path fps r
capture_at interval t (recording e meta to_push just_captured) r = record r {
  state = capture_next t e meta to_push;
}

unfoldable pub capture_frame : (ℕ → ℕ) → Tick → Recorder → Recorder
unfolding spawn
capture_frame interval t r = capture_at interval t r.state r

-- The rows of a picture from the bottom: `dst` is overwritten at an offset.
abbrev pub overwrite : ℕ → Bytes → Bytes → Bytes
overwrite at_ src dst = take at_ dst ++ (src ++ drop (at_ + length src) dst)

-- `rows` is how many rows are left, and `y` the next one.
unfoldable pub flip_rows : ℕ → ℕ → ℕ → ℕ → Bytes → Bytes → Bytes
flip_rows zero y height stride bytes flipped = flipped
flip_rows (suc rows) y height stride bytes flipped =
    flip_rows rows (y + 1) height stride bytes
      (overwrite ((height - 1 - y) * stride) (take stride (drop (y * stride) bytes)) flipped)

unfoldable pub flip : ℕ → ℕ → Bytes → Bytes
unfolding flip_rows
flip height stride bytes = flip_rows height 0 height stride bytes (replicate (length bytes) 0)

abbrev pub image_data : CapturedFrame → Bytes → Bytes
image_data frame bytes = elim frame.orientation [
  | top_down ↦ bytes
  | bottom_up ↦ flip frame.height (frame.width * 4) bytes
]

abbrev pub write_screenshot : Bool → CapturedFrame → Text → List Screenshot
write_screenshot can_write frame path = elim frame.mapped [
  | none ↦ []
  | some bytes ↦
      if can_write
      then record {
        path = path;
        width = frame.width;
        height = frame.height;
        bytes = image_data frame bytes;
      }
        ∷ []
      else []
]

abbrev pub pushed :
    Tick
    → Option CapturedFrame
    → VideoEncoder
    → RecordingMeta
    → (VideoEncoder × RecordingMeta) × Bool
pushed t none e meta = ((e, meta), true)
pushed t (some frame) e meta =
    let (e', fine) = push_frame t.try_send frame e in
    if fine
    then (
      (e', record meta { frames_written = meta.frames_written + 1; last_frame_at = some t.now }),
      true,
    )
    else ((e', meta), false)

abbrev pub rotate :
    Tick
    → VideoEncoder
    → RecordingMeta
    → Option CapturedFrame
    → Option CapturedFrame
    → RecorderState
rotate t e meta to_push just_captured =
    let ((e', meta'), fine) = pushed t to_push e meta in
    if fine then recording e' meta' just_captured none else stopping e' meta' none encoder_error

-- The last frame counts, but its time is not kept.
abbrev pub last_push : Tick → Option CapturedFrame → VideoEncoder → RecordingMeta → VideoEncoder × ℕ
last_push t none e meta = (e, meta.frames_written)
last_push t (some frame) e meta =
    let (e', fine) = push_frame t.try_send frame e in
    (e', if fine then meta.frames_written + 1 else meta.frames_written)

abbrev pub close :
    Tick
    → VideoEncoder
    → RecordingMeta
    → Option CapturedFrame
    → FinishReason
    → Recorder
    → Recorder × Option FinishEvent
close t e meta to_push reason r =
    let (e', written) = last_push t to_push e meta in
    (
      record r { state = idle; ended = r.ended ++ (finished e' ∷ []) },
      some (record {
        path = meta.path;
        frames_written = written;
        duration = t.ended_at - meta.started_at;
        reason = reason;
      }),
    )

abbrev pub finalize_at : Tick → RecorderState → Recorder → Recorder × Option FinishEvent
finalize_at t idle r = (r, none)
finalize_at t (screenshot_requested path) r = (r, none)
finalize_at t (recording_requested path fps) r = (r, none)
finalize_at t (screenshot_pending frame path) r = (
  record r { state = idle; pictures = r.pictures ++ write_screenshot t.can_write frame path },
  none,
)
finalize_at t (recording e meta to_push just_captured) r =
    (record r { state = rotate t e meta to_push just_captured }, none)
finalize_at t (stopping e meta to_push reason) r = close t e meta to_push reason r

unfoldable pub finalize : Tick → Recorder → Recorder × Option FinishEvent
unfolding push_frame flip
finalize t r = finalize_at t r.state r

unfoldable pub wants_continuous_frames : Recorder → Bool
wants_continuous_frames r = elim r.state [ idle ↦ false | _ ↦ true ]

unfoldable pub overlay_started_at : ℕ → Recorder → Option ℕ
overlay_started_at now r = elim r.state [
  | recording_requested path fps ↦ some now
  | recording e meta to_push just_captured ↦ some meta.started_at_present
  | _ ↦ none
]
