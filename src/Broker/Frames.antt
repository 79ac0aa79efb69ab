-- ===== src/Broker/Frames.antt =====
-- What `feed_from_client` sends and keeps (crates/emskin-dbus/src/broker/state.rs).
use emskin.Prelude.{
  ℕ, zero, suc, ◌+◌, ◌-◌, ◌≤◌, ◌≡◌, ◌≢◌, refl, sym, ap, ◌∙◌, inl, inr, none, some, List, [], ◌∷◌,
  ◌++◌, Bytes, ok, length, take, drop, arith, append-nil, length-append, take-append-drop,
}
use emskin.Wire.Zvariant.{Zvariant}
use emskin.Broker.{
  auth, messages, FeedOutcome, ConnectionState, nothing, split_frames, feed_messages,
  feed_from_client,
}
use emskin.Broker.Split.{split_frames-bytes}
use emskin.Broker.Feed.{feed_messages_inv}
use emskin.Broker.Chunks.{
  sent, begun, feed_auth_wait, feed_auth_found, feed_auth_inv, in_auth, in_messages, Phase-cases,
  ok_pair,
}
use emskin.Broker.{push_frame}
use emskin.Wire.Sasl.{find_begin_end}
use emskin.Broker.Look.{split_frames_inv, look, cut, look-cut}
use emskin.Wire.Frame.{bytes_needed}
use emskin.Wire.Frame.Size.{bytes_needed-append, bytes_needed-none_iff}
use emskin.Prelude.{slice-append_left, length-take, drop-append_exact, take_all}

-- During the handshake no message bytes are buffered.
abbrev pub IsValid : ConnectionState → Type 0
IsValid st = st.client_phase ≡ auth → st.msg_buf ≡ []

pub new-IsValid : IsValid (record { client_phase = auth; auth_accumulator = []; msg_buf = [] })
new-IsValid e = refl

module _ (z : Zvariant) (st : ConnectionState) (chunk : Bytes) {st' : ConnectionState}
    {out : FeedOutcome} where
  feed_messages-bytes :
      (s : ConnectionState) (o : FeedOutcome) (rest : Bytes)
      → feed_messages z s o rest ≡ ok (st', out)
      → out.outbound ++ st'.msg_buf ≡ o.outbound ++ (s.msg_buf ++ rest)
  feed_messages-bytes s o rest h =
      let f = feed_messages_inv z s o rest h in
      ap (λ (x : ConnectionState). out.outbound ++ x.msg_buf) f.state
      ∙ split_frames-bytes z _ (s.msg_buf ++ rest) o f.split

  -- In a valid state, where the handshake buffers no message, no byte is lost, made up or put out
  -- of order: what was buffered and what arrives is what is sent and what stays buffered.
  pub feed_from_client-bytes :
      IsValid st
      → feed_from_client z st chunk ≡ ok (st', out)
      → out.outbound ++ st'.msg_buf ≡ st.msg_buf ++ chunk
  feed_from_client-bytes v h = elim (Phase-cases st.client_phase) [
    | inr e ↦ feed_messages-bytes st nothing chunk (sym (in_messages z st chunk e) ∙ h)
    | inl e ↦
        let h' = sym (in_auth z st chunk e) ∙ h in
        elim (feed_auth_inv z st chunk h') [
          | inl f ↦
              let (s, o) = ok_pair (sym (feed_auth_wait z st chunk f) ∙ h') in
              ap (λ (x : FeedOutcome). x.outbound ++ st'.msg_buf) (sym o)
              ∙ ap (λ (x : ConnectionState). chunk ++ x.msg_buf) (sym s)
              ∙ ap (λ (m : Bytes). chunk ++ m) (v e)
              ∙ append-nil chunk
              ∙ ap (λ (m : Bytes). m ++ chunk) (sym (v e))
          | inr (end, f) ↦
              let k = end - length st.auth_accumulator in
              feed_messages-bytes (begun st) (sent (take k chunk)) (drop k chunk)
                (sym (feed_auth_found z st chunk end f) ∙ h')
              ∙ ap (λ (m : Bytes). take k chunk ++ (m ++ drop k chunk)) (v e)
              ∙ take-append-drop k chunk
              ∙ ap (λ (m : Bytes). m ++ chunk) (sym (v e))
        ]
  ]

-- The ranges from `lo` to `hi` lie one behind the other, and each holds one complete frame.
abbrev pub Framed : Zvariant → Bytes → ℕ → List (ℕ × ℕ) → ℕ → Type 0
Framed z bytes lo [] hi = lo ≡ hi
Framed z bytes lo ((a, b) ∷ rs) hi =
    (a ≡ lo)
    × (a ≤ b)
    × (b ≤ length bytes)
    × (bytes_needed z (take (b - a) (drop a bytes)) ≡ ok (some (b - a)))
    × Framed z bytes b rs hi

module _ (z : Zvariant) where
  Framed-append :
      (bytes more : Bytes) (lo : ℕ) (rs : List (ℕ × ℕ)) (hi : ℕ)
      → Framed z bytes lo rs hi
      → Framed z (bytes ++ more) lo rs hi
  Framed-append bytes more lo [] hi f = f
  Framed-append bytes more lo ((a, b) ∷ rs) hi (p, q, r, n, f) = (
    p,
    q,
    omega (arith, length-append bytes more),
    ap (bytes_needed z) (slice-append_left (b - a) a bytes more (omega arith)) ∙ n,
    Framed-append bytes more b rs hi f,
  )

  Framed-snoc :
      (bytes : Bytes) (lo : ℕ) (rs : List (ℕ × ℕ)) (hi top : ℕ)
      → Framed z bytes lo rs hi
      → hi ≤ top
      → top ≤ length bytes
      → bytes_needed z (take (top - hi) (drop hi bytes)) ≡ ok (some (top - hi))
      → Framed z bytes lo (rs ++ ((hi, top) ∷ [])) top
  Framed-snoc bytes lo [] hi top f p q n = (sym f, p, q, n, refl)
  Framed-snoc bytes lo ((a, b) ∷ rs) hi top (x, y, w, m, f) p q n =
      (x, y, w, m, Framed-snoc bytes b rs hi top f p q n)

  -- The bytes that are cut off are a frame by themselves.
  cut_frame : (m : Bytes) (n : ℕ) → look z m ≡ cut n → bytes_needed z (take n m) ≡ ok (some n)
  cut_frame m n e =
      let (size, big, fits) = look-cut z m n e in
      let some_size : bytes_needed z (take n m) ≢ ok none = λ w.
        absurd (omega (arith, (bytes_needed-none_iff z (take n m)).0 w, length-take n m fits)) in
      sym (bytes_needed-append z (take n m) (drop n m) some_size)
      ∙ ap (bytes_needed z) (take-append-drop n m)
      ∙ size

  push_frame-Framed :
      (lo n : ℕ) (m : Bytes) (o : FeedOutcome)
      → look z m ≡ cut n
      → Framed z o.outbound lo o.frame_ranges (length o.outbound)
      → Framed z
          (push_frame n m o).outbound
          lo
          (push_frame n m o).frame_ranges
          (length (push_frame n m o).outbound)
  unfolding push_frame
  push_frame-Framed lo n m o e f =
      let fits = (look-cut z m n e).2 in
      let len : length o.outbound + n ≡ length (o.outbound ++ take n m) =
        omega (arith, length-append o.outbound (take n m), length-take n m fits) in
      let gap : length o.outbound + n - length o.outbound ≡ n = omega arith in
      let slice : take n (drop (length o.outbound) (o.outbound ++ take n m)) ≡ take n m =
        ap (take n) (drop-append_exact o.outbound (take n m))
        ∙ ap (λ (k : ℕ). take k (take n m)) (sym (length-take n m fits))
        ∙ take_all (take n m) in
      rw (← len) (
        Framed-snoc (o.outbound ++ take n m) lo o.frame_ranges (length o.outbound)
          (length o.outbound + n)
          (Framed-append o.outbound (take n m) lo o.frame_ranges (length o.outbound) f)
          (omega arith) (omega (arith, len)) (rw (gap, slice) (cut_frame m n e)))

  split_frames-Framed :
      (lo f : ℕ) (m : Bytes) (o : FeedOutcome) {left : Bytes} {o' : FeedOutcome}
      → split_frames z f m o ≡ ok (left, o')
      → Framed z o.outbound lo o.frame_ranges (length o.outbound)
      → Framed z o'.outbound lo o'.frame_ranges (length o'.outbound)
  split_frames-Framed lo zero m o h f = unfold split_frames in cc
  split_frames-Framed lo (suc fuel) m o h f = elim (split_frames_inv z fuel m o h) [
    | inl (_, _, e) ↦ rw e f
    | inr (n, e, rest) ↦
        split_frames-Framed lo fuel (drop n m) (push_frame n m o) rest
          (push_frame-Framed lo n m o e f)
  ]

  -- Where the frames of a feed begin: in front, past the handshake; nowhere, since there is none,
  -- while the handshake goes on; behind that part of the chunk that the handshake ends in.
  pub data Begins (st : ConnectionState) (chunk : Bytes) (out : FeedOutcome) : ℕ → Type 0 where
    past : st.client_phase ≡ messages → Begins st chunk out 0
    during :
        (lo : ℕ)
        → find_begin_end (st.auth_accumulator ++ chunk) ≡ ok none
        → out.frame_ranges ≡ []
        → out.outbound ≡ chunk
        → Begins st chunk out lo
    across :
        (end : ℕ)
        → find_begin_end (st.auth_accumulator ++ chunk) ≡ ok (some end)
        → Begins st chunk out (length (take (end - length st.auth_accumulator) chunk))

  -- The frames that a feed reports tile what it sends, one complete frame behind the other to the
  -- end: from the front if the connection was past the handshake, and from the end of the handshake
  -- if the chunk has it. While the handshake goes on there is none, and the chunk is sent on.
  pub feed_from_client-Framed :
      (st : ConnectionState) (chunk : Bytes) {st' : ConnectionState} {out : FeedOutcome}
      → feed_from_client z st chunk ≡ ok (st', out)
      → (lo : ℕ) × Framed z out.outbound lo out.frame_ranges (length out.outbound)
        × Begins st chunk out lo
  feed_from_client-Framed st chunk {st'} {out} h = elim (Phase-cases st.client_phase) [
    | inr e ↦
        let f = feed_messages_inv z st nothing chunk (sym (in_messages z st chunk e) ∙ h) in
        (0, split_frames-Framed 0 _ (st.msg_buf ++ chunk) nothing f.split refl, past e)
    | inl e ↦
        let h' = sym (in_auth z st chunk e) ∙ h in
        elim (feed_auth_inv z st chunk h') [
          | inl f ↦
              let (_, o) = ok_pair (sym (feed_auth_wait z st chunk f) ∙ h') in
              (length chunk, rw (← o) refl, during (length chunk) f (rw (← o) refl) (rw (← o) refl))
          | inr (end, f) ↦
              let k = end - length st.auth_accumulator in
              let s =
                feed_messages_inv z (begun st) (sent (take k chunk)) (drop k chunk)
                  (sym (feed_auth_found z st chunk end f) ∙ h') in
              (
                length (take k chunk),
                split_frames-Framed _ _ (st.msg_buf ++ drop k chunk) (sent (take k chunk)) s.split
                    refl,
                across end f,
              )
        ]
  ]
