-- ===== src/Recorder/Ticks.antt =====
-- Single recordings from tick to tick (crates/emskin/src/recording.rs).
use emskin.Prelude.{
  ℕ, ◌-◌, ◌≤◌, ◌≡◌, refl, ap, Bool, true, Option, none, some, List, [], ◌∷◌, ◌++◌, ◌+◌, Text, Bytes,
  leb, arith, length, ==_self, ◌∙◌,
}
use emskin.Recorder.{
  CapturedFrame, VideoEncoder, FinishReason, user, replaced, RecordingMeta, RecorderState, idle,
  recording, stopping, Recorder, finished, request_recording, stop_recording, taken, push_bytes,
  push_frame,
}
use emskin.Recorder.Frames.{Tick, same_size, is_due, capture_frame, finalize}

abbrev pub in_state : RecorderState → Recorder → Recorder
in_state s r = record r { state = s }

is_due_mono : (a b : ℕ) (meta : RecordingMeta) → a ≤ b → is_due a meta ≡ true → is_due b meta ≡ true
is_due_mono a b meta le due = at_last meta.last_frame_at due
  where
    at_last :
        (o : Option ℕ)
        → elim o as (λ o'. Bool) [ none ↦ true | some last ↦ leb meta.frame_interval (a - last) ]
          ≡ true
        → elim o as (λ o'. Bool) [ none ↦ true | some last ↦ leb meta.frame_interval (b - last) ]
          ≡ true
    at_last none h = refl
    at_last (some last) h = ground arith

-- A frame is captured at one tick when none waits to be pushed: then one is captured at the next
-- tick too, however little time has passed, since only a push sets the time that the interval
-- counts from. The size of the framebuffer is that of the recording at both.
pub capture-twice :
    (interval : ℕ → ℕ) (t₁ t₂ t₃ : Tick) (e : VideoEncoder) (meta : RecordingMeta) (r : Recorder)
    → same_size t₁.physical_size meta.size ≡ true
    → same_size t₃.physical_size meta.size ≡ true
    → is_due t₁.now meta ≡ true
    → t₁.now ≤ t₃.now
    → (capture_frame interval t₃
        (finalize t₂ (capture_frame interval t₁ (in_state (recording e meta none none) r))).0).state
      ≡ recording e meta t₁.captured t₃.captured
unfolding capture_frame finalize
capture-twice interval t₁ t₂ t₃ e meta r s₁ s₃ due later =
    rw (s₁, due) (rw (s₃, is_due_mono t₁.now t₃.now meta later due) refl)

pub captures : (ℕ → ℕ) → List Tick → Recorder → Recorder
captures interval [] r = r
captures interval (t ∷ ts) r = captures interval ts (capture_frame interval t r)

captures-stopping :
    (interval : ℕ → ℕ) (ts : List Tick) (e : VideoEncoder) (meta : RecordingMeta)
    (a : Option CapturedFrame) (why : FinishReason) (r : Recorder)
    → captures interval ts (in_state (stopping e meta a why) r) ≡ in_state (stopping e meta a why) r
unfolding captures capture_frame
captures-stopping interval [] e meta a why r = refl
captures-stopping interval (t ∷ ts) e meta a why r = captures-stopping interval ts e meta a why r

-- A recording that is stopped while a frame waits ends at the next `finalize`, however many ticks
-- only capture before it: where the frame can be mapped, has the size of the recording and finds
-- room in the queue of a running encoder, it is the last that goes to ffmpeg and is counted, the
-- encoder is closed so that ffmpeg writes the video, the recorder is idle, and one event names the
-- file and says that the user stopped it.
pub stop-finishes :
    (interval : ℕ → ℕ) (ts : List Tick) (t : Tick) (e : VideoEncoder) (meta : RecordingMeta)
    (frame : CapturedFrame) (b : Option CapturedFrame) (bytes : Bytes) (r : Recorder)
    → frame.mapped ≡ some bytes
    → length bytes ≡ e.bytes_per_frame
    → e.sender ≡ true
    → t.try_send ≡ taken
    → finalize t
        (captures interval ts (stop_recording (in_state (recording e meta (some frame) b) r)))
      ≡ (
        record r {
          state = idle;
          ended = r.ended ++ (finished (record e { queued = e.queued ++ (bytes ∷ []) }) ∷ []);
        },
        some (record {
          path = meta.path;
          frames_written = meta.frames_written + 1;
          duration = t.ended_at - meta.started_at;
          reason = user;
        }),
      )
unfolding finalize stop_recording push_frame push_bytes
stop-finishes interval ts t e meta frame b bytes r m size open_ room =
    ap (finalize t) (captures-stopping interval ts e meta (some frame) user r)
    ∙ rw (m, push_frame) (rw (size, ==_self e.bytes_per_frame, open_, push_bytes) (rw room refl))

-- A request for a second recording ends the one that runs, and is itself forgotten: when the first
-- has ended with its event the recorder is idle, and nothing was started.
pub request_recording-forgets :
    (interval : ℕ → ℕ) (path : Text) (fps : ℕ) (t₁ t₂ : Tick) (e : VideoEncoder)
    (meta : RecordingMeta) (a b : Option CapturedFrame) (r : Recorder)
    → ((finalize t₂ (
          capture_frame interval t₁
            (request_recording path fps (in_state (recording e meta a b) r)))).0.state
        ≡ idle)
      × ((finalize t₂ (
            capture_frame interval t₁
              (request_recording path fps (in_state (recording e meta a b) r)))).0.started
          ≡ r.started)
      × ((finalize t₂ (
            capture_frame interval t₁
              (request_recording path fps (in_state (recording e meta a b) r)))).1
          ≡ some (record {
            path = meta.path;
            frames_written = meta.frames_written;
            duration = t₂.ended_at - meta.started_at;
            reason = replaced;
          }))
unfolding capture_frame finalize request_recording
request_recording-forgets interval path fps t₁ t₂ e meta a b r = (refl, refl, refl)
