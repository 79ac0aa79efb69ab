-- ===== src/Recorder/Account.antt =====
-- What becomes of recordings over any sequence of calls (crates/emskin/src/recording.rs).
use emskin.Prelude.{
  ℕ, ◌+◌, ◌≡◌, inl, inr, refl, Option, none, some, List, [], ◌∷◌, ◌++◌, Text, length, arith,
  Bool-cases, Option-cases, append-nil,
}
use emskin.Recorder.{
  CapturedFrame, VideoEncoder, spawn, push_frame, FinishEvent, RecordingMeta, RecorderState, idle,
  screenshot_requested, screenshot_pending, recording_requested, recording, stopping, Ended,
  finished, killed, Recorder, dropped, request_screenshot, requested, request_recording, stopped,
  stop_recording,
}
use emskin.Recorder.Frames.{
  Tick, same_size, start_recording, capture_next, shoot, capture_at, capture_frame, rotate,
  last_push, finalize_at, finalize,
}

pub data Call : Type 0 where
  screenshot : Text → Call
  record_to : Text → ℕ → Call
  stop : Call
  capture : Tick → Call
  finish : Tick → Call

unfoldable pub run : (ℕ → ℕ) → List Call → Recorder → Recorder × List FinishEvent
run interval [] r = (r, [])
run interval (screenshot path ∷ cs) r = run interval cs (request_screenshot path r)
run interval (record_to path fps ∷ cs) r = run interval cs (request_recording path fps r)
run interval (stop ∷ cs) r = run interval cs (stop_recording r)
run interval (capture t ∷ cs) r = run interval cs (capture_frame interval t r)
run interval (finish t ∷ cs) r =
    let (r₁, event) = finalize t r in
    let (r₂, events) = run interval cs r₁ in
    (r₂, elim event [ none ↦ events | some e ↦ e ∷ events ])

-- Whether an encoder runs.
pub live : RecorderState → ℕ
live (recording e meta to_push just_captured) = 1
live (stopping e meta to_push reason) = 1
live idle = 0
live (screenshot_requested path) = 0
live (screenshot_pending frame path) = 0
live (recording_requested path fps) = 0

pub kills : List Ended → ℕ
kills [] = 0
kills (killed e ∷ es) = kills es + 1
kills (finished e ∷ es) = kills es

kills-append : (es fs : List Ended) → kills (es ++ fs) ≡ kills es + kills fs
unfolding kills
kills-append [] fs = omega arith
kills-append (killed e ∷ es) fs = omega (arith, kills-append es fs)
kills-append (finished e ∷ es) fs = omega (arith, kills-append es fs)

-- The encoders that were killed or run, against those that were started.
abbrev kept : Recorder → ℕ
kept r = kills r.ended + live r.state

screenshot-kept : (path : Text) (r : Recorder) → kept (request_screenshot path r) ≡ kept r
unfolding request_screenshot live kills
screenshot-kept path r = at_state r.state
  where
    at_state : (s : RecorderState) → kills (r.ended ++ dropped s) + 0 ≡ kills r.ended + live s
    at_state idle = rw (append-nil r.ended) refl
    at_state (screenshot_requested p) = rw (append-nil r.ended) refl
    at_state (screenshot_pending frame p) = rw (append-nil r.ended) refl
    at_state (recording_requested p fps) = rw (append-nil r.ended) refl
    at_state (recording e meta a b) = omega (arith, kills-append r.ended (killed e ∷ []))
    at_state (stopping e meta a b) = omega (arith, kills-append r.ended (killed e ∷ []))

live-requested : (path : Text) (fps : ℕ) (s : RecorderState) → live (requested path fps s) ≡ live s
unfolding live
live-requested path fps idle = refl
live-requested path fps (screenshot_requested p) = refl
live-requested path fps (screenshot_pending frame p) = refl
live-requested path fps (recording_requested p f) = refl
live-requested path fps (recording e meta a b) = refl
live-requested path fps (stopping e meta a b) = refl

live-stopped : (s : RecorderState) → live (stopped s) ≡ live s
unfolding live
live-stopped idle = refl
live-stopped (screenshot_requested p) = refl
live-stopped (screenshot_pending frame p) = refl
live-stopped (recording_requested p f) = refl
live-stopped (recording e meta a b) = refl
live-stopped (stopping e meta a b) = refl

live-shoot : (o : Option CapturedFrame) (path : Text) → live (shoot o path) ≡ 0
unfolding live
live-shoot none path = refl
live-shoot (some frame) path = refl

live-next :
    (t : Tick) (e : VideoEncoder) (meta : RecordingMeta) (to_push : Option CapturedFrame)
    → live (capture_next t e meta to_push) ≡ 1
unfolding live
live-next t e meta to_push = elim (Bool-cases (same_size t.physical_size meta.size)) [
  | inl s ↦ rw s refl
  | inr s ↦ rw s refl
]

-- A start of ffmpeg counts.
capture-kept :
    (interval : ℕ → ℕ) (t : Tick) (r : Recorder) (s : RecorderState)
    → r.state ≡ s
    → kept (capture_at interval t s r) + r.started ≡ kept r + (capture_at interval t s r).started
unfolding live
capture-kept interval t r idle e = refl
capture-kept interval t r (screenshot_pending frame path) e = refl
capture-kept interval t r (stopping enc meta a b) e = refl
capture-kept interval t r (screenshot_requested path) e = rw (live-shoot t.captured path, e) refl
capture-kept interval t r (recording enc meta a b) e = rw (live-next t enc meta a, e) refl
capture-kept interval t r (recording_requested path fps) e =
    elim (Option-cases (spawn t.can_start t.physical_size fps)) [
      | inl s ↦ rw (s, start_recording) (rw e refl)
      | inr (enc, s) ↦ rw (s, start_recording) (rw e (omega arith))
    ]

live-rotate :
    (t : Tick) (e : VideoEncoder) (meta : RecordingMeta) (a b : Option CapturedFrame)
    → live (rotate t e meta a b) ≡ 1
unfolding live
live-rotate t e meta none b = refl
live-rotate t e meta (some frame) b = elim (Bool-cases (push_frame t.try_send frame e).1) [
  | inl f ↦ rw f refl
  | inr f ↦ rw f refl
]

abbrev one_if : Option FinishEvent → ℕ
one_if none = 0
one_if (some e) = 1

finalize-kept :
    (t : Tick) (r : Recorder) (s : RecorderState)
    → r.state ≡ s
    → (kept (finalize_at t s r).0 + one_if (finalize_at t s r).1 ≡ kept r)
      × ((finalize_at t s r).0.started ≡ r.started)
unfolding live kills
finalize-kept t r idle e = (omega arith, refl)
finalize-kept t r (screenshot_requested path) e = (omega arith, refl)
finalize-kept t r (recording_requested path fps) e = (omega arith, refl)
finalize-kept t r (screenshot_pending frame path) e = (rw e (omega arith), refl)
finalize-kept t r (recording enc meta a b) e =
    (rw (live-rotate t enc meta a b, e) (omega arith), refl)
finalize-kept t r (stopping enc meta a why) e =
    (rw e (omega (arith, kills-append r.ended (finished (last_push t a enc meta).0 ∷ []))), refl)

screenshot-started : (path : Text) (r : Recorder) → (request_screenshot path r).started ≡ r.started
unfolding request_screenshot
screenshot-started path r = refl

recording-kept :
    (path : Text) (fps : ℕ) (r : Recorder) → kept (request_recording path fps r) ≡ kept r
unfolding request_recording
recording-kept path fps r = omega (arith, live-requested path fps r.state)

recording-started :
    (path : Text) (fps : ℕ) (r : Recorder) → (request_recording path fps r).started ≡ r.started
unfolding request_recording
recording-started path fps r = refl

stop-kept : (r : Recorder) → kept (stop_recording r) ≡ kept r
unfolding stop_recording
stop-kept r = omega (arith, live-stopped r.state)

stop-started : (r : Recorder) → (stop_recording r).started ≡ r.started
unfolding stop_recording
stop-started r = refl

capture_frame-kept :
    (interval : ℕ → ℕ) (t : Tick) (r : Recorder)
    → kept (capture_frame interval t r) + r.started ≡ kept r + (capture_frame interval t r).started
unfolding capture_frame
capture_frame-kept interval t r = capture-kept interval t r r.state refl

finalize-all :
    (t : Tick) (r : Recorder)
    → (kept (finalize t r).0 + one_if (finalize t r).1 ≡ kept r)
      × ((finalize t r).0.started ≡ r.started)
unfolding finalize
finalize-all t r = finalize-kept t r r.state refl

cons-one_if :
    (o : Option FinishEvent) (es : List FinishEvent)
    → length (elim o as (λ o'. List FinishEvent) [ none ↦ es | some e ↦ e ∷ es ])
      ≡ one_if o + length es
cons-one_if none es = omega arith
cons-one_if (some e) es = omega arith

-- Every encoder that was started still runs, was killed, or has ended with one event, after any
-- calls: no recording ends with two events, and one that was not killed ends with one.
pub run-accounts :
    (interval : ℕ → ℕ) (cs : List Call) (r : Recorder)
    → length (run interval cs r).1
        + (kills (run interval cs r).0.ended + live (run interval cs r).0.state)
        + r.started
      ≡ kills r.ended + live r.state + (run interval cs r).0.started
unfolding run
run-accounts interval [] r = omega arith
run-accounts interval (screenshot path ∷ cs) r = omega (
  arith,
  run-accounts interval cs (request_screenshot path r),
  screenshot-kept path r,
  screenshot-started path r,
)
run-accounts interval (record_to path fps ∷ cs) r = omega (
  arith,
  run-accounts interval cs (request_recording path fps r),
  recording-kept path fps r,
  recording-started path fps r,
)
run-accounts interval (stop ∷ cs) r =
    omega (arith, run-accounts interval cs (stop_recording r), stop-kept r, stop-started r)
run-accounts interval (capture t ∷ cs) r =
    omega (
      arith,
      run-accounts interval cs (capture_frame interval t r),
      capture_frame-kept interval t r,
    )
run-accounts interval (finish t ∷ cs) r = omega (
  arith,
  run-accounts interval cs (finalize t r).0,
  (finalize-all t r).0,
  (finalize-all t r).1,
  cons-one_if (finalize t r).1 (run interval cs (finalize t r).0).1,
)
