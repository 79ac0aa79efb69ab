-- ===== src/Recorder/Took.antt =====
-- How many frames an encoder took (`VideoEncoder::push_frame` of
-- crates/emskin/src/recording.rs).
use emskin.Prelude.{
  ℕ, suc, ◌+◌, ◌≡◌, inl, inr, refl, sym, ap, ◌∙◌, Bool, true, false, not, Option, none, some, List,
  [], ◌∷◌, ◌++◌, Bytes, length, All, if◌then◌else◌, ◌==◌, arith, Bool-cases, length-append, ==_iff,
  subst,
}
use emskin.Recorder.{
  CapturedFrame, VideoEncoder, TrySend, taken, full, disconnected, push_bytes, push_frame,
  hand_over, FinishEvent, RecordingMeta, RecorderState, idle, screenshot_requested,
  screenshot_pending, recording_requested, recording, stopping, Ended, finished, killed,
}
use emskin.Recorder.Frames.{Tick, pushed, last_push}

-- The frames that the encoder took: those for ffmpeg and those that it dropped.
abbrev pub took : VideoEncoder → ℕ
took e = length e.queued + e.dropped_frames

-- The frames for ffmpeg have the size that it was started with, and the recording counts the frames
-- that the encoder took.
abbrev pub Fits : VideoEncoder → RecordingMeta → Type 0
Fits e meta = (meta.frames_written ≡ took e) × All (λ b. length b ≡ e.bytes_per_frame) e.queued

abbrev pub IsCounted : RecorderState → Type 0
IsCounted (recording e meta to_push just_captured) = Fits e meta
IsCounted (stopping e meta to_push reason) = Fits e meta
IsCounted idle = Unit
IsCounted (screenshot_requested path) = Unit
IsCounted (screenshot_pending frame path) = Unit
IsCounted (recording_requested path fps) = Unit

-- What was taken by the encoders that were closed.
unfoldable pub counts : List Ended → List ℕ
counts [] = []
counts (finished e ∷ es) = took e ∷ counts es
counts (killed e ∷ es) = counts es

unfoldable pub reported : List FinishEvent → List ℕ
reported [] = []
reported (e ∷ es) = e.frames_written ∷ reported es

pub counts-append : (es fs : List Ended) → counts (es ++ fs) ≡ counts es ++ counts fs
unfolding counts
counts-append [] fs = refl
counts-append (finished e ∷ es) fs = ap (λ ns. took e ∷ ns) (counts-append es fs)
counts-append (killed e ∷ es) fs = counts-append es fs

All-push {κ} :
    {A : Type 0} (P : A → Type κ) (xs : List A) (x : A) → All P xs → P x → All P (xs ++ (x ∷ []))
All-push P [] x h p = (p, tt)
All-push P (y ∷ ys) x h p = (h.0, All-push P ys x h.1 p)

-- A frame that is taken counts, and one that is not changes nothing.
Pushed : VideoEncoder → VideoEncoder × Bool → Type 0
Pushed e r =
    (r.0.bytes_per_frame ≡ e.bytes_per_frame)
    × (took r.0 ≡ (if r.1 then suc (took e) else took e))
    × (All (λ b. length b ≡ e.bytes_per_frame) e.queued
        → All (λ b. length b ≡ e.bytes_per_frame) r.0.queued)

unchanged : (e : VideoEncoder) → Pushed e (e, false)
unfolding Pushed
unchanged e = (refl, refl, λ h. h)

hand_over-Pushed :
    (a : TrySend) (bytes : Bytes) (e : VideoEncoder)
    → length bytes ≡ e.bytes_per_frame
    → Pushed e (hand_over a bytes e)
unfolding Pushed
hand_over-Pushed taken bytes e fits = (
  refl,
  omega (arith, length-append e.queued (bytes ∷ [])),
  λ h. All-push (λ b. length b ≡ e.bytes_per_frame) e.queued bytes h fits,
)
hand_over-Pushed full bytes e fits = (refl, omega arith, λ h. h)
hand_over-Pushed disconnected bytes e fits = (refl, refl, λ h. h)

guarded :
    (a : TrySend) (bytes : Bytes) (e : VideoEncoder) (b c : Bool)
    → (length bytes == e.bytes_per_frame) ≡ b
    → Pushed e (if not b then (e, false) else if not c then (e, false) else hand_over a bytes e)
guarded a bytes e false c h = unchanged e
guarded a bytes e true false h = unchanged e
guarded a bytes e true true h = hand_over-Pushed a bytes e ((==_iff _ _).0 h)

frame-Pushed :
    (a : TrySend) (frame : CapturedFrame) (e : VideoEncoder) → Pushed e (push_frame a frame e)
unfolding push_frame push_bytes
frame-Pushed a frame e = at_bytes frame.mapped
  where
    at_bytes :
        (o : Option Bytes)
        → Pushed e (elim o [ none ↦ (e, false) | some bytes ↦ push_bytes a bytes e ])
    at_bytes none = unchanged e
    at_bytes (some bytes) = guarded a bytes e (length bytes == e.bytes_per_frame) e.sender refl

-- After a push the recording fits, whether the frame was taken or not.
pub pushed-Fits :
    (t : Tick) (o : Option CapturedFrame) (e : VideoEncoder) (meta : RecordingMeta)
    → Fits e meta
    → Fits (pushed t o e meta).0.0 (pushed t o e meta).0.1
unfolding Pushed
pushed-Fits t none e meta h = h
pushed-Fits t (some frame) e meta h =
    let (same, count, all) = frame-Pushed t.try_send frame e in
    let fits' =
      subst (λ (n : ℕ). All (λ b. length b ≡ n) (push_frame t.try_send frame e).0.queued) (sym same)
        (all h.1) in
    elim (Bool-cases (push_frame t.try_send frame e).1) [
      | inl f ↦
          let taken_ : took (push_frame t.try_send frame e).0 ≡ suc (took e) =
            count ∙ ap (λ b. if b then suc (took e) else took e) f in
          rw f (omega (arith, h.0, taken_), fits')
      | inr f ↦
          let left : took (push_frame t.try_send frame e).0 ≡ took e =
            count ∙ ap (λ b. if b then suc (took e) else took e) f in
          rw f (h.0 ∙ sym left, fits')
    ]

pub last-took :
    (t : Tick) (o : Option CapturedFrame) (e : VideoEncoder) (meta : RecordingMeta)
    → Fits e meta
    → (last_push t o e meta).1 ≡ took (last_push t o e meta).0
unfolding Pushed
last-took t none e meta h = h.0
last-took t (some frame) e meta h =
    let count = (frame-Pushed t.try_send frame e).1 in
    elim (Bool-cases (push_frame t.try_send frame e).1) [
      | inl f ↦
          let taken_ : took (push_frame t.try_send frame e).0 ≡ suc (took e) =
            count ∙ ap (λ b. if b then suc (took e) else took e) f in
          rw f (omega (arith, h.0, taken_))
      | inr f ↦
          let left : took (push_frame t.try_send frame e).0 ≡ took e =
            count ∙ ap (λ b. if b then suc (took e) else took e) f in
          rw f (h.0 ∙ sym left)
    ]
