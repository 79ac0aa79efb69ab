-- ===== src/Broker/Split.antt =====
-- The loop of `feed_from_client` (crates/emskin-dbus/src/broker/state.rs) that cuts the buffered
-- bytes into frames.
use emskin.Prelude.{
  ℕ, zero, suc, ◌≤◌, ◌<◌, ◌≡◌, ◌≢◌, refl, ap, ◌∙◌, inl, inr, ◌++◌, Bytes, ok, stuck, length, take,
  drop, arith, append_assoc, length-append, length-drop, take-append-drop, take-append_left,
  drop-append_left,
}
use emskin.Wire.Zvariant.{Zvariant}
use emskin.Broker.{FeedOutcome, push_frame, split_frames}
use emskin.Broker.Look.{
  cut, look, look-cut, look-append, split_frames_inv, split_frames-cut, split_frames-cong,
  split_frames-round-ne-stuck,
}

module _ (z : Zvariant) where
  shorter :
      (f : ℕ) (m : Bytes) (n : ℕ) → look z m ≡ cut n → length m < suc f → length (drop n m) < f
  shorter f m n e le = omega (arith, (look-cut z m n e).1, (look-cut z m n e).2, length-drop n m)

  -- Any fuel above the length of the buffer gives the same result.
  pub split_frames-fuel :
      (f g : ℕ) (m : Bytes) (out : FeedOutcome)
      → length m < f
      → length m < g
      → split_frames z f m out ≡ split_frames z g m out
  split_frames-fuel zero g m out hf hg = absurd (omega arith)
  split_frames-fuel (suc f) zero m out hf hg = absurd (omega arith)
  split_frames-fuel (suc f) (suc g) m out hf hg = split_frames-cong z f g m out (λ n e.
      split_frames-fuel f g (drop n m) (push_frame n m out) (shorter f m n e hf)
        (shorter g m n e hg))

  -- The loop ends.
  pub split_frames-ne-stuck :
      (f : ℕ) (m : Bytes) (out : FeedOutcome) → length m < f → split_frames z f m out ≢ stuck
  split_frames-ne-stuck zero m out h = absurd (omega arith)
  split_frames-ne-stuck (suc f) m out h =
      split_frames-round-ne-stuck z f m out
        (λ n e. split_frames-ne-stuck f (drop n m) (push_frame n m out) (shorter f m n e h))

  -- Frames leave from the front: what goes out and what stays are the bytes that were there.
  pub split_frames-bytes :
      (f : ℕ) (m : Bytes) (out : FeedOutcome) {left : Bytes} {out' : FeedOutcome}
      → split_frames z f m out ≡ ok (left, out')
      → out'.outbound ++ left ≡ out.outbound ++ m
  unfolding push_frame
  split_frames-bytes zero m out h = unfold split_frames in cc
  split_frames-bytes (suc f) m out h = elim (split_frames_inv z f m out h) [
    | inl (e, l, o) ↦ rw (l, o) refl
    | inr (n, e, rest) ↦
        split_frames-bytes f (drop n m) (push_frame n m out) rest
        ∙ append_assoc out.outbound (take n m) (drop n m)
        ∙ ap (λ (x : Bytes). out.outbound ++ x) (take-append-drop n m)
  ]

  pub split_frames-left :
      (f : ℕ) (m : Bytes) (out : FeedOutcome) {left : Bytes} {out' : FeedOutcome}
      → split_frames z f m out ≡ ok (left, out')
      → length left ≤ length m
  split_frames-left zero m out h = unfold split_frames in cc
  split_frames-left (suc f) m out h = elim (split_frames_inv z f m out h) [
    | inl (e, l, o) ↦ omega (arith, ap length l)
    | inr (n, e, rest) ↦
        omega (arith, split_frames-left f (drop n m) (push_frame n m out) rest, length-drop n m)
  ]

  push_frame-append :
      (n : ℕ) (m t : Bytes) (out : FeedOutcome)
      → n ≤ length m
      → push_frame n (m ++ t) out ≡ push_frame n m out
  unfolding push_frame
  push_frame-append n m t out h = rw (take-append_left n m t h)

  -- Cutting a buffer and then what is left with more bytes behind it is cutting the whole.
  pub split_frames-append :
      (f g : ℕ) (m t : Bytes) (out : FeedOutcome) {left : Bytes} {out' : FeedOutcome}
      → split_frames z f m out ≡ ok (left, out')
      → length (m ++ t) < g
      → split_frames z g (m ++ t) out ≡ split_frames z g (left ++ t) out'
  split_frames-append zero g m t out h hg = unfold split_frames in cc
  split_frames-append (suc f) zero m t out h hg = absurd (omega arith)
  split_frames-append (suc f) (suc g) m t out {left} {out'} h hg =
      elim (split_frames_inv z f m out h) [
        | inl (e, l, o) ↦ rw (l, o) refl
        | inr (n, e, rest) ↦
            let (_, big, fits) = look-cut z m n e in
            let whole = look-append z m t (λ w. cc) in
            let lens = length-append m t in
            let less : length (drop n m ++ t) < g =
              omega (arith, length-append (drop n m) t, length-drop n m) in
            let after : length (left ++ t) < g = omega (
              arith,
              split_frames-left f (drop n m) (push_frame n m out) rest,
              length-drop n m,
              length-append left t,
            ) in
            split_frames-cut z g n (m ++ t) out (whole ∙ e)
            ∙ rw (drop-append_left n m t fits, push_frame-append n m t out fits)
                (split_frames-append f g (drop n m) t (push_frame n m out) rest less
                  ∙ split_frames-fuel g (suc g) (left ++ t) out' after (omega arith))
      ]
