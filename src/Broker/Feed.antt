-- ===== src/Broker/Feed.antt =====
-- The message phase of `feed_from_client` (crates/emskin-dbus/src/broker/state.rs), chunk by chunk.
use emskin.Prelude.{
  ℕ, suc, ◌<◌, ◌≡◌, refl, sym, ap, subst, ◌∙◌, List, ◌++◌, Bytes, ok, >>=-eq-ok, length, arith,
  append_assoc, length-append,
}
use emskin.Wire.Zvariant.{Zvariant}
use emskin.Broker.{FeedOutcome, ConnectionState, nothing, split_frames, feed_messages}
use emskin.Broker.Split.{split_frames-append, split_frames-fuel, split_frames-left}
use emskin.Broker.Outcome.{join, push_frame-join, split_frames-join}
use emskin.Broker.Look.{split_frames-map}

module _ (z : Zvariant) where
  pub record Splits (st : ConnectionState) (o : FeedOutcome) (rest : Bytes) (st' : ConnectionState)
      (o' : FeedOutcome) : Type 0 where
    pub left : Bytes
    pub split :
        split_frames z (suc (length (st.msg_buf ++ rest))) (st.msg_buf ++ rest) o ≡ ok (left, o')
    pub state : st' ≡ record st { msg_buf = left }

  pub feed_messages_inv :
      (st : ConnectionState) (o : FeedOutcome) (rest : Bytes) {st' : ConnectionState}
      {o' : FeedOutcome}
      → feed_messages z st o rest ≡ ok (st', o')
      → Splits st o rest st' o'
  unfolding feed_messages
  feed_messages_inv st o rest h =
      let (p, e, r) = >>=-eq-ok (split_frames z _ (st.msg_buf ++ rest) o) _ h in
      record { left = p.0; split = e ∙ ground (arith, r); state = ground (arith, r) }

  pub feed_messages_intro :
      (st : ConnectionState) (o : FeedOutcome) (rest : Bytes) {left : Bytes} {o' : FeedOutcome}
      → split_frames z (suc (length (st.msg_buf ++ rest))) (st.msg_buf ++ rest) o ≡ ok (left, o')
      → feed_messages z st o rest ≡ ok (record st { msg_buf = left }, o')
  unfolding feed_messages
  feed_messages_intro st o rest h = rw h

  pub feed_messages-join :
      (st : ConnectionState) (o p : FeedOutcome) (rest : Bytes) {st' : ConnectionState}
      {p' : FeedOutcome}
      → feed_messages z st p rest ≡ ok (st', p')
      → feed_messages z st (join o p) rest ≡ ok (st', join o p')
  feed_messages-join st o p rest {st'} {p'} h =
      let s = feed_messages_inv st p rest h in
      feed_messages_intro st (join o p) rest
        (split_frames-map z (join o) (push_frame-join o) _ (st.msg_buf ++ rest) p ∙ rw s.split refl)
      ∙ ap (λ (x : ConnectionState). ok (x, join o p')) (sym s.state)

  pub feed_messages-append :
      (st : ConnectionState) (o : FeedOutcome) (a b : Bytes) {st1 st2 : ConnectionState}
      {o1 o2 : FeedOutcome}
      → feed_messages z st o a ≡ ok (st1, o1)
      → feed_messages z st1 nothing b ≡ ok (st2, o2)
      → feed_messages z st o (a ++ b) ≡ ok (st2, join o1 o2)
  feed_messages-append st o a b {st1} {st2} {o1} {o2} h k =
      let s = feed_messages_inv st o a h in
      let t = feed_messages_inv st1 nothing b k in
      let m : List ℕ = st.msg_buf ++ a in
      let assoc : m ++ b ≡ st.msg_buf ++ (a ++ b) = append_assoc st.msg_buf a b in
      let buf : st1.msg_buf ≡ s.left = ap (λ (x : ConnectionState). x.msg_buf) s.state in
      let less : length (st1.msg_buf ++ b) < suc (length (m ++ b)) = omega (
        arith,
        split_frames-left z _ m o s.split,
        ap length buf,
        length-append st1.msg_buf b,
        length-append m b,
      ) in
      let cut : split_frames z (suc (length (m ++ b))) (m ++ b) o ≡ ok (t.left, join o1 o2) =
        split_frames-append z _ (suc (length (m ++ b))) m b o s.split (omega arith)
        ∙ ap (λ (x : Bytes). split_frames z (suc (length (m ++ b))) (x ++ b) o1) (sym buf)
        ∙ split_frames-fuel z _ (suc (length (st1.msg_buf ++ b))) (st1.msg_buf ++ b) o1 less
            (omega arith)
        ∙ split_frames-join z _ (st1.msg_buf ++ b) o1
        ∙ rw t.split refl in
      feed_messages_intro st o (a ++ b) (
        subst (λ (x : Bytes). split_frames z (suc (length x)) x o ≡ ok (t.left, join o1 o2)) assoc
          cut)
      ∙ ap (λ (x : ConnectionState). ok (x, join o1 o2)) (same s.state t.state)
    where
      same :
          {l l' : Bytes}
          → st1 ≡ record st { msg_buf = l }
          → st2 ≡ record st1 { msg_buf = l' }
          → record st { msg_buf = l' } ≡ st2
      same e f = ground arith
