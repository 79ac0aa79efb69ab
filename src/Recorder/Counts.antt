-- ===== src/Recorder/Counts.antt =====
-- The frames of a recording, and the number that its event reports
-- (crates/emskin/src/recording.rs).
use emskin.Prelude.{
  ℕ, ◌≡◌, inl, inr, refl, sym, ap, ◌∙◌, Bool, Option, none, some, List, [], ◌∷◌, ◌++◌, Text, arith,
  Bool-cases, Option-cases, append_assoc, append-nil,
}
use emskin.Prelude.Int.{ℤ}
use emskin.Recorder.{
  CapturedFrame, VideoEncoder, spawn, FinishEvent, RecordingMeta, RecorderState, idle,
  screenshot_requested, screenshot_pending, recording_requested, recording, stopping, Ended,
  finished, Recorder, dropped, request_screenshot, requested, request_recording, stopped,
  stop_recording,
}
use emskin.Recorder.Frames.{
  Tick, same_size, start_recording, shoot, capture_at, capture_frame, pushed, rotate, last_push,
  finalize_at, finalize,
}
use emskin.Recorder.Account.{Call, screenshot, record_to, stop, capture, finish, run}
use emskin.Recorder.Took.{Fits, IsCounted, counts, reported, counts-append, pushed-Fits, last-took}

-- What one call keeps, and what it reports.
abbrev Kept : Recorder → Recorder × List FinishEvent → Type 0
Kept r r' = IsCounted r'.0.state × (counts r'.0.ended ≡ counts r.ended ++ reported r'.1)

kept_dropped : (es : List Ended) (s : RecorderState) → counts (es ++ dropped s) ≡ counts es ++ []
unfolding counts
kept_dropped es s = counts-append es (dropped s) ∙ ap (λ ns. counts es ++ ns) (none_of s)
  where
    none_of : (s : RecorderState) → counts (dropped s) ≡ []
    none_of idle = refl
    none_of (screenshot_requested p) = refl
    none_of (screenshot_pending frame p) = refl
    none_of (recording_requested p f) = refl
    none_of (recording e meta a b) = refl
    none_of (stopping e meta a b) = refl

requested-IsCounted :
    (path : Text) (fps : ℕ) (s : RecorderState) → IsCounted s → IsCounted (requested path fps s)
requested-IsCounted path fps idle h = tt
requested-IsCounted path fps (screenshot_requested p) h = tt
requested-IsCounted path fps (screenshot_pending frame p) h = tt
requested-IsCounted path fps (recording_requested p f) h = tt
requested-IsCounted path fps (recording e meta a b) h = h
requested-IsCounted path fps (stopping e meta a b) h = h

stopped-IsCounted : (s : RecorderState) → IsCounted s → IsCounted (stopped s)
stopped-IsCounted idle h = tt
stopped-IsCounted (screenshot_requested p) h = tt
stopped-IsCounted (screenshot_pending frame p) h = tt
stopped-IsCounted (recording_requested p f) h = tt
stopped-IsCounted (recording e meta a b) h = h
stopped-IsCounted (stopping e meta a b) h = h

spawn-empty :
    (started : Bool) (size : ℤ × ℤ) (fps : ℕ) (e : VideoEncoder)
    → spawn started size fps ≡ some e
    → (e.queued ≡ []) × (e.dropped_frames ≡ 0)
unfolding spawn
spawn-empty started size fps e h = ground arith

shoot-IsCounted : (o : Option CapturedFrame) (path : Text) → IsCounted (shoot o path)
shoot-IsCounted none path = tt
shoot-IsCounted (some frame) path = tt

capture-IsCounted :
    (interval : ℕ → ℕ) (t : Tick) (r : Recorder) (s : RecorderState)
    → IsCounted s
    → IsCounted r.state
    → IsCounted (capture_at interval t s r).state × ((capture_at interval t s r).ended ≡ r.ended)
capture-IsCounted interval t r idle h k = (k, refl)
capture-IsCounted interval t r (screenshot_pending frame path) h k = (k, refl)
capture-IsCounted interval t r (stopping enc meta a b) h k = (k, refl)
capture-IsCounted interval t r (screenshot_requested path) h k =
    (shoot-IsCounted t.captured path, refl)
capture-IsCounted interval t r (recording enc meta a b) h k =
    elim (Bool-cases (same_size t.physical_size meta.size)) [
      | inl s ↦ rw s (h, refl)
      | inr s ↦ rw s (h, refl)
    ]
capture-IsCounted interval t r (recording_requested path fps) h k =
    elim (Option-cases (spawn t.can_start t.physical_size fps)) [
      | inl s ↦ rw (s, start_recording) (tt, refl)
      | inr (enc, s) ↦
          let (q, d) = spawn-empty t.can_start t.physical_size fps enc s in
          rw (s, start_recording) ((rw (q, d) (omega arith), rw q tt), refl)
    ]

rotate-IsCounted :
    (t : Tick) (e : VideoEncoder) (meta : RecordingMeta) (a b : Option CapturedFrame)
    → Fits e meta
    → IsCounted (rotate t e meta a b)
rotate-IsCounted t e meta a b h = elim (Bool-cases (pushed t a e meta).1) [
  | inl f ↦ rw f (pushed-Fits t a e meta h)
  | inr f ↦ rw f (pushed-Fits t a e meta h)
]

abbrev report : Option FinishEvent → List ℕ
report none = []
report (some e) = e.frames_written ∷ []

finalize-IsCounted :
    (t : Tick) (r : Recorder) (s : RecorderState)
    → IsCounted s
    → IsCounted r.state
    → IsCounted (finalize_at t s r).0.state
      × (counts (finalize_at t s r).0.ended ≡ counts r.ended ++ report (finalize_at t s r).1)
unfolding counts
finalize-IsCounted t r idle h k = (k, sym (append-nil _))
finalize-IsCounted t r (screenshot_requested path) h k = (k, sym (append-nil _))
finalize-IsCounted t r (recording_requested path fps) h k = (k, sym (append-nil _))
finalize-IsCounted t r (screenshot_pending frame path) h k = (tt, sym (append-nil _))
finalize-IsCounted t r (recording enc meta a b) h k =
    (rotate-IsCounted t enc meta a b h, sym (append-nil _))
finalize-IsCounted t r (stopping enc meta a why) h k = (
  tt,
  counts-append r.ended (finished (last_push t a enc meta).0 ∷ [])
      ∙ ap (λ (n : ℕ). counts r.ended ++ (n ∷ [])) (sym (last-took t a enc meta h)),
)

reported-cons :
    (o : Option FinishEvent) (es : List FinishEvent)
    → reported (elim o as (λ o'. List FinishEvent) [ none ↦ es | some e ↦ e ∷ es ])
      ≡ report o ++ reported es
unfolding reported
reported-cons none es = refl
reported-cons (some e) es = refl

-- The events report, in order, how many frames the encoders took that were closed: those that went
-- to ffmpeg and those that were dropped because the queue was full. Every frame that went there has
-- the size that the encoder was started with. Both hold after any calls, and so for a new recorder.
pub run-counts :
    (interval : ℕ → ℕ) (cs : List Call) (r : Recorder)
    → IsCounted r.state
    → IsCounted (run interval cs r).0.state
      × (counts (run interval cs r).0.ended ≡ counts r.ended ++ reported (run interval cs r).1)
unfolding run request_screenshot request_recording stop_recording capture_frame finalize reported
run-counts interval [] r h = (h, sym (append-nil _))
run-counts interval (screenshot path ∷ cs) r h =
    let (still, same) = run-counts interval cs (request_screenshot path r) tt in
    (
      still,
      same
          ∙ ap (λ ns. ns ++ reported (run interval cs (request_screenshot path r)).1)
              (kept_dropped r.ended r.state ∙ append-nil _),
    )
run-counts interval (record_to path fps ∷ cs) r h =
    run-counts interval cs (request_recording path fps r) (requested-IsCounted path fps r.state h)
run-counts interval (stop ∷ cs) r h =
    run-counts interval cs (stop_recording r) (stopped-IsCounted r.state h)
run-counts interval (capture t ∷ cs) r h =
    let (now, ended) = capture-IsCounted interval t r r.state h h in
    let (still, same) = run-counts interval cs (capture_frame interval t r) now in
    (
      still,
      same
          ∙ ap (λ es. counts es ++ reported (run interval cs (capture_frame interval t r)).1) ended,
    )
run-counts interval (finish t ∷ cs) r h =
    let (now, one) = finalize-IsCounted t r r.state h h in
    let (still, same) = run-counts interval cs (finalize t r).0 now in
    let later = (run interval cs (finalize t r).0).1 in
    (
      still,
      same
          ∙ ap (λ ns. ns ++ reported later) one
          ∙ append_assoc (counts r.ended) (report (finalize t r).1) (reported later)
          ∙ ap (λ ns. counts r.ended ++ ns) (sym (reported-cons (finalize t r).1 later)),
    )
