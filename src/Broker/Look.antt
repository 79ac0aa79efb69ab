-- ===== src/Broker/Look.antt =====
-- One round of the loop that cuts frames (crates/emskin-dbus/src/broker/state.rs).
use emskin.Prelude.{
  ℕ, zero, suc, ◌≤◌, ◌≡◌, ◌≢◌, refl, sym, ap, ◌∙◌, ◌⊎◌, inl, inr, Option, none, some, [], ◌∷◌, ◌++◌,
  Bytes, Result, ok, err, stuck, ◌>>=◌, ltb, if◌then◌else◌, length, drop, arith, length-append,
}
use emskin.Wire.Zvariant.{Zvariant}
use emskin.Wire.Frame.{FrameError, bytes_needed}
use emskin.Wire.Frame.Size.{bytes_needed-append, bytes_needed-bound, bytes_needed-ne-stuck}
use emskin.Broker.{FeedOutcome, BrokerError, frame, push_frame, is_empty, split_frames}

-- What one look at the buffer says.
pub data Look : Type 0 where
  wait : Look
  cut : ℕ → Look
  fail : FrameError → Look
  loops : Look

look_at : Result FrameError (Option ℕ) → Bytes → Look
look_at (ok none) m = wait
look_at (ok (some total)) m = if ltb (length m) total then wait else cut total
look_at (err e) m = fail e
look_at stuck m = loops

pub look : Zvariant → Bytes → Look
unfolding look_at
look z [] = wait
look z (b ∷ bs) = look_at (bytes_needed z (b ∷ bs)) (b ∷ bs)

go_on :
    Look
    → Bytes
    → FeedOutcome
    → (ℕ → Result BrokerError (Bytes × FeedOutcome))
    → Result BrokerError (Bytes × FeedOutcome)
go_on wait m out step = ok (m, out)
go_on (cut total) m out step = step total
go_on (fail e) m out step = err (frame e)
go_on loops m out step = stuck

split_frames_lem :
    (z : Zvariant) (fuel : ℕ) (m : Bytes) (out : FeedOutcome)
    → split_frames z (suc fuel) m out
      ≡ go_on
          (look z m)
          m
          out
          (λ total. split_frames z fuel (drop total m) (push_frame total m out))
unfolding split_frames look look_at go_on is_empty
split_frames_lem z fuel [] out = refl
split_frames_lem z fuel (b ∷ bs) out = ground arith

module _ (z : Zvariant) where
  pub look-ne-loops : (m : Bytes) → look z m ≢ loops
  unfolding look look_at
  look-ne-loops [] h = ground arith
  look-ne-loops (b ∷ bs) h = ground (arith, bytes_needed-ne-stuck z (b ∷ bs))

  pub look-cut :
      (m : Bytes) (total : ℕ)
      → look z m ≡ cut total
      → (bytes_needed z m ≡ ok (some total)) × (16 ≤ total) × (total ≤ length m)
  unfolding look look_at
  look-cut [] total h = absurd (ground arith)
  look-cut (b ∷ bs) total h = ground (arith, bytes_needed-bound z (b ∷ bs) total)

  -- More bytes change nothing but a wait.
  pub look-append : (m t : Bytes) → look z m ≢ wait → look z (m ++ t) ≡ look z m
  unfolding look look_at
  look-append [] t h = absurd (h refl)
  look-append (b ∷ bs) t h = ground (arith, bytes_needed-append z (b ∷ bs) t, length-append bs t)

  go_on-cong :
      (l : Look) (m : Bytes) (out : FeedOutcome)
      (k k' : ℕ → Result BrokerError (Bytes × FeedOutcome))
      → ((n : ℕ) → l ≡ cut n → k n ≡ k' n)
      → go_on l m out k ≡ go_on l m out k'
  unfolding go_on
  go_on-cong wait m out k k' h = refl
  go_on-cong (cut n) m out k k' h = h n refl
  go_on-cong (fail e) m out k k' h = refl
  go_on-cong loops m out k k' h = refl

  go_on_inv :
      (l : Look) (m : Bytes) (out : FeedOutcome) (k : ℕ → Result BrokerError (Bytes × FeedOutcome))
      {left : Bytes} {out' : FeedOutcome}
      → go_on l m out k ≡ ok (left, out')
      → ((l ≡ wait) × (left ≡ m) × (out' ≡ out)) ⊎ ((n : ℕ) × (l ≡ cut n) × (k n ≡ ok (left, out')))
  unfolding go_on
  go_on_inv wait m out k h = inl (refl, cc, cc)
  go_on_inv (cut n) m out k h = inr (n, refl, h)
  go_on_inv (fail e) m out k h = cc
  go_on_inv loops m out k h = cc

  go_on-ne-stuck :
      (l : Look) (m : Bytes) (out : FeedOutcome) (k : ℕ → Result BrokerError (Bytes × FeedOutcome))
      → l ≢ loops
      → ((n : ℕ) → l ≡ cut n → k n ≢ stuck)
      → go_on l m out k ≢ stuck
  unfolding go_on
  go_on-ne-stuck wait m out k hl h = λ e. cc
  go_on-ne-stuck (cut n) m out k hl h = h n refl
  go_on-ne-stuck (fail x) m out k hl h = λ e. cc
  go_on-ne-stuck loops m out k hl h = absurd (hl refl)

  -- A round that succeeds either waits or sends one frame.
  pub split_frames_inv :
      (fuel : ℕ) (m : Bytes) (out : FeedOutcome) {left : Bytes} {out' : FeedOutcome}
      → split_frames z (suc fuel) m out ≡ ok (left, out')
      → ((look z m ≡ wait) × (left ≡ m) × (out' ≡ out))
        ⊎ ((n : ℕ) × (look z m ≡ cut n)
            × (split_frames z fuel (drop n m) (push_frame n m out) ≡ ok (left, out')))
  split_frames_inv fuel m out h =
      go_on_inv (look z m) m out _ (sym (split_frames_lem z fuel m out) ∙ h)

  pub split_frames-cut :
      (fuel n : ℕ) (m : Bytes) (out : FeedOutcome)
      → look z m ≡ cut n
      → split_frames z (suc fuel) m out ≡ split_frames z fuel (drop n m) (push_frame n m out)
  unfolding go_on
  split_frames-cut fuel n m out e = split_frames_lem z fuel m out ∙ rw e refl

  pub split_frames-cong :
      (f g : ℕ) (m : Bytes) (out : FeedOutcome)
      → ((n : ℕ)
          → look z m ≡ cut n
          → split_frames z f (drop n m) (push_frame n m out)
            ≡ split_frames z g (drop n m) (push_frame n m out))
      → split_frames z (suc f) m out ≡ split_frames z (suc g) m out
  split_frames-cong f g m out h =
      split_frames_lem z f m out
      ∙ go_on-cong (look z m) m out _ _ h
      ∙ sym (split_frames_lem z g m out)

  pub split_frames-round-ne-stuck :
      (f : ℕ) (m : Bytes) (out : FeedOutcome)
      → ((n : ℕ) → look z m ≡ cut n → split_frames z f (drop n m) (push_frame n m out) ≢ stuck)
      → split_frames z (suc f) m out ≢ stuck
  split_frames-round-ne-stuck f m out h =
      rw (split_frames_lem z f m out) (go_on-ne-stuck (look z m) m out _ (look-ne-loops m) h)

  go_on-map :
      (g : FeedOutcome → FeedOutcome) (l : Look) (m : Bytes) (p : FeedOutcome)
      (k k' : ℕ → Result BrokerError (Bytes × FeedOutcome))
      → ((n : ℕ) → k n ≡ (k' n >>= λ r. ok (r.0, g r.1)))
      → go_on l m (g p) k ≡ (go_on l m p k' >>= λ r. ok (r.0, g r.1))
  unfolding go_on
  go_on-map g wait m p k k' h = refl
  go_on-map g (cut n) m p k k' h = h n
  go_on-map g (fail e) m p k k' h = refl
  go_on-map g loops m p k k' h = refl

  -- What has been sent before does not change what the loop does.
  pub split_frames-map :
      (g : FeedOutcome → FeedOutcome)
      → ((n : ℕ) (m : Bytes) (p : FeedOutcome) → push_frame n m (g p) ≡ g (push_frame n m p))
      → (f : ℕ) (m : Bytes) (p : FeedOutcome)
      → split_frames z f m (g p) ≡ (split_frames z f m p >>= λ r. ok (r.0, g r.1))
  split_frames-map g push zero m p = unfold split_frames in refl
  split_frames-map g push (suc f) m p =
      split_frames_lem z f m (g p)
      ∙ go_on-map g (look z m) m p _ _ (λ n.
        ap (split_frames z f (drop n m)) (push n m p)
        ∙ split_frames-map g push f (drop n m) (push_frame n m p))
      ∙ ap (λ (r : Result BrokerError (Bytes × FeedOutcome)). r >>= λ x. ok (x.0, g x.1))
          (sym (split_frames_lem z f m p))
