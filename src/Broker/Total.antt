-- ===== src/Broker/Total.antt =====
-- The results of `feed_from_client` (crates/emskin-dbus/src/broker/state.rs).
use emskin.Prelude.{
  suc, ◌-◌, ◌≢◌, sym, ◌∙◌, arith, none, some, ◌++◌, Bytes, stuck, Result-cases, inl, inr, length,
  take, drop,
}
use emskin.Wire.Zvariant.{Zvariant}
use emskin.Wire.Sasl.{find_begin_end}
use emskin.Wire.Sasl.Prefix.{find_begin_end-ne-stuck}
use emskin.Broker.{
  ConnectionState, FeedOutcome, Phase, auth, messages, nothing, split_frames, feed_messages,
  feed_auth, feed_in, feed_from_client,
}
use emskin.Broker.Chunks.{begun, sent, feed_auth_found}
use emskin.Broker.Split.{split_frames-ne-stuck}

module _ (z : Zvariant) where
  feed_messages-ne-stuck :
      (st : ConnectionState) (out : FeedOutcome) (rest : Bytes)
      → feed_messages z st out rest ≢ stuck
  unfolding feed_messages
  feed_messages-ne-stuck st out rest h =
      let m = st.msg_buf ++ rest in
      elim (Result-cases (split_frames z (suc (length m)) m out)) [
        | inl e ↦ split_frames-ne-stuck z (suc (length m)) m out (omega arith) e
        | inr (inl (x, e)) ↦ absurd (ground (arith, e, h))
        | inr (inr (p, e)) ↦ absurd (ground (arith, e, h))
      ]

  feed_auth-ne-stuck : (st : ConnectionState) (chunk : Bytes) → feed_auth z st chunk ≢ stuck
  unfolding feed_auth
  feed_auth-ne-stuck st chunk h =
      elim (Result-cases (find_begin_end (st.auth_accumulator ++ chunk))) [
        | inl e ↦ find_begin_end-ne-stuck (st.auth_accumulator ++ chunk) e
        | inr (inl (x, e)) ↦ absurd (ground (arith, e, h))
        | inr (inr (none, e)) ↦ absurd (ground (arith, e, h))
        | inr (inr (some end, e)) ↦
            feed_messages-ne-stuck (begun st) (sent (take (end - length st.auth_accumulator) chunk))
              (drop (end - length st.auth_accumulator) chunk)
              (sym (feed_auth_found z st chunk end e) ∙ h)
      ]

  feed_in-ne-stuck :
      (p : Phase) (st : ConnectionState) (chunk : Bytes) → feed_in p z st chunk ≢ stuck
  unfolding feed_in
  feed_in-ne-stuck auth st chunk = feed_auth-ne-stuck st chunk
  feed_in-ne-stuck messages st chunk = feed_messages-ne-stuck st nothing chunk

  -- In every state and for every chunk, the machine returns an outcome or an error: neither the
  -- scan of the handshake nor the loop over the messages runs out of fuel.
  pub feed_from_client-ne-stuck :
      (st : ConnectionState) (chunk : Bytes) → feed_from_client z st chunk ≢ stuck
  unfolding feed_from_client
  feed_from_client-ne-stuck st chunk = feed_in-ne-stuck st.client_phase st chunk
