-- ===== src/Broker/Chunks.antt =====
-- `feed_from_client` of crates/emskin-dbus/src/broker/state.rs on a stream that is cut into chunks.
use emskin.Prelude.{
  ℕ, ◌+◌, ◌-◌, ◌≤◌, ◌≡◌, refl, sym, ap, ◌∙◌, ◌⊎◌, inl, inr, none, some, [], ◌++◌, Bytes, Result, ok,
  >>=-eq-ok, map_err, length, take, drop, arith, append_assoc, length-append, take-append_left,
  drop-append_left, take-append_right, drop-append_right, Option-cases,
}
use emskin.Wire.Zvariant.{Zvariant}
use emskin.Wire.Sasl.{find_begin_end}
use emskin.Wire.Sasl.Prefix.{
  find_begin_end-append, find_begin_end-append_none, find_begin_end-bound,
}
use emskin.Broker.{
  Phase, auth, messages, FeedOutcome, BrokerError, sasl, ConnectionState, nothing, feed_messages,
  feed_auth, feed_in, feed_from_client,
}
use emskin.Broker.Outcome.{join}
use emskin.Broker.Feed.{feed_messages_inv, feed_messages-join, feed_messages-append}

-- The state once the handshake is over.
abbrev pub begun : ConnectionState → ConnectionState
begun st = record st { auth_accumulator = []; client_phase = messages }

abbrev pub sent : Bytes → FeedOutcome
sent bytes = record { outbound = bytes; frame_ranges = [] }

module _ (z : Zvariant) (st : ConnectionState) (chunk : Bytes) where
  pub feed_auth_wait :
      find_begin_end (st.auth_accumulator ++ chunk) ≡ ok none
      → feed_auth z st chunk
        ≡ ok (record st { auth_accumulator = st.auth_accumulator ++ chunk }, sent chunk)
  unfolding feed_auth
  feed_auth_wait e = rw e

  pub feed_auth_found :
      (end : ℕ)
      → find_begin_end (st.auth_accumulator ++ chunk) ≡ ok (some end)
      → feed_auth z st chunk
        ≡ feed_messages z
            (begun st)
            (sent (take (end - length st.auth_accumulator) chunk))
            (drop (end - length st.auth_accumulator) chunk)
  unfolding feed_auth
  feed_auth_found end e = rw e

  pub feed_auth_inv :
      {r : ConnectionState × FeedOutcome}
      → feed_auth z st chunk ≡ ok r
      → (find_begin_end (st.auth_accumulator ++ chunk) ≡ ok none)
        ⊎ ((end : ℕ) × (find_begin_end (st.auth_accumulator ++ chunk) ≡ ok (some end)))
  unfolding feed_auth
  feed_auth_inv h =
      let (found, e, _) =
        >>=-eq-ok (map_err sasl (find_begin_end (st.auth_accumulator ++ chunk))) _ h in
      elim (Option-cases found) [
        | inl n ↦ inl (ground (arith, e, n))
        | inr (end, s) ↦ inr (end, ground (arith, e, s))
      ]

  pub in_auth : st.client_phase ≡ auth → feed_from_client z st chunk ≡ feed_auth z st chunk
  unfolding feed_from_client feed_in
  in_auth e = ap (λ (p : Phase). feed_in p z st chunk) e

  pub in_messages :
      st.client_phase ≡ messages → feed_from_client z st chunk ≡ feed_messages z st nothing chunk
  unfolding feed_from_client feed_in
  in_messages e = ap (λ (p : Phase). feed_in p z st chunk) e

pub Phase-cases : (p : Phase) → (p ≡ auth) ⊎ (p ≡ messages)
Phase-cases auth = inl refl
Phase-cases messages = inr refl

module _ (z : Zvariant) (st : ConnectionState) (a b : Bytes) {st1 st2 : ConnectionState}
    {o1 o2 : FeedOutcome} where
  append_messages :
      st.client_phase ≡ messages
      → feed_from_client z st a ≡ ok (st1, o1)
      → feed_from_client z st1 b ≡ ok (st2, o2)
      → feed_from_client z st (a ++ b) ≡ ok (st2, join o1 o2)
  append_messages e h k =
      let h' = sym (in_messages z st a e) ∙ h in
      let later : st1.client_phase ≡ messages =
        ap (λ (x : ConnectionState). x.client_phase) (feed_messages_inv z st nothing a h').state
        ∙ e in
      in_messages z st (a ++ b) e
      ∙ feed_messages-append z st nothing a b h' (sym (in_messages z st1 b later) ∙ k)

  -- The handshake ends in the first chunk.
  append_found :
      (end : ℕ)
      → st.client_phase ≡ auth
      → find_begin_end (st.auth_accumulator ++ a) ≡ ok (some end)
      → feed_from_client z st a ≡ ok (st1, o1)
      → feed_from_client z st1 b ≡ ok (st2, o2)
      → feed_from_client z st (a ++ b) ≡ ok (st2, join o1 o2)
  append_found end e f h k =
      let acc : Bytes = st.auth_accumulator in
      let h' = sym (feed_auth_found z st a end f) ∙ sym (in_auth z st a e) ∙ h in
      let later : st1.client_phase ≡ messages =
        ap (λ (x : ConnectionState). x.client_phase) (feed_messages_inv z _ _ _ h').state in
      let f' : find_begin_end (acc ++ (a ++ b)) ≡ ok (some end) =
        rw (append_assoc acc a b) at (find_begin_end-append (acc ++ a) b end f) in
      let within : end - length acc ≤ length a =
        omega (arith, (find_begin_end-bound (acc ++ a) end f).1, length-append acc a) in
      in_auth z st (a ++ b) e
      ∙ feed_auth_found z st (a ++ b) end f'
      ∙ rw
          (
            take-append_left (end - length acc) a b within,
            drop-append_left (end - length acc) a b within,
          )
          (feed_messages-append z (begun st) _ _ b h' (sym (in_messages z st1 b later) ∙ k))

module _ (z : Zvariant) (st : ConnectionState) (a b : Bytes) {st2 : ConnectionState}
    {o2 : FeedOutcome} where
  -- The handshake ends in the second chunk.
  append_later :
      (end : ℕ)
      → st.client_phase ≡ auth
      → find_begin_end (st.auth_accumulator ++ a) ≡ ok none
      → find_begin_end ((st.auth_accumulator ++ a) ++ b) ≡ ok (some end)
      → feed_from_client z (record st { auth_accumulator = st.auth_accumulator ++ a }) b
        ≡ ok (st2, o2)
      → feed_from_client z st (a ++ b) ≡ ok (st2, join (sent a) o2)
  append_later end e f g k =
      let acc : Bytes = st.auth_accumulator in
      let mid : ConnectionState = record st { auth_accumulator = acc ++ a } in
      let n : ℕ = end - length (acc ++ a) in
      let k' = sym (feed_auth_found z mid b end g) ∙ sym (in_auth z mid b e) ∙ k in
      let g' : find_begin_end (acc ++ (a ++ b)) ≡ ok (some end) = rw (append_assoc acc a b) at g in
      let n_lem : end - length acc ≡ length a + n =
        omega (arith, find_begin_end-append_none (acc ++ a) b end f g, length-append acc a) in
      in_auth z st (a ++ b) e
      ∙ feed_auth_found z st (a ++ b) end g'
      ∙ rw (n_lem, take-append_right a b n, drop-append_right a b n)
          (feed_messages-join z (begun st) (sent a) (sent (take n b)) (drop n b) k')

  -- The handshake is not over after both chunks.
  append_waiting :
      st.client_phase ≡ auth
      → find_begin_end ((st.auth_accumulator ++ a) ++ b) ≡ ok none
      → feed_from_client z (record st { auth_accumulator = st.auth_accumulator ++ a }) b
        ≡ ok (st2, o2)
      → feed_from_client z st (a ++ b) ≡ ok (st2, join (sent a) o2)
  append_waiting e g k =
      let acc : Bytes = st.auth_accumulator in
      let mid : ConnectionState = record st { auth_accumulator = acc ++ a } in
      let assoc : (acc ++ a) ++ b ≡ acc ++ (a ++ b) = append_assoc acc a b in
      let k' = sym (feed_auth_wait z mid b g) ∙ sym (in_auth z mid b e) ∙ k in
      in_auth z st (a ++ b) e
      ∙ feed_auth_wait z st (a ++ b) (rw assoc at g)
      ∙ rw (← assoc) (ground (arith, k'))

pub ok_pair :
    {x y : ConnectionState} {o p : FeedOutcome}
    → ◌≡◌ {A = Result BrokerError (ConnectionState × FeedOutcome)} (ok (x, o)) (ok (y, p))
    → (x ≡ y) × (o ≡ p)
ok_pair h = ground arith

-- Where two chunks are fed one after the other and neither feed is an error, feeding them at once is
-- no error either and comes to the same: the state is the same, and so are the bytes and the frames
-- sent, those of the second chunk behind those of the first. Of errors nothing is said: a handshake
-- that is too long in its first part, or an error behind a whole frame, depends on the cut.
pub feed_from_client-append :
    (z : Zvariant) (st : ConnectionState) (a b : Bytes) {st1 st2 : ConnectionState}
    {o1 o2 : FeedOutcome}
    → feed_from_client z st a ≡ ok (st1, o1)
    → feed_from_client z st1 b ≡ ok (st2, o2)
    → feed_from_client z st (a ++ b) ≡ ok (st2, join o1 o2)
feed_from_client-append z st a b {st1} {st2} {o1} {o2} h k = elim (Phase-cases st.client_phase) [
  | inr e ↦ append_messages z st a b e h k
  | inl e ↦ elim (feed_auth_inv z st a (sym (in_auth z st a e) ∙ h)) [
    | inr (end, f) ↦ append_found z st a b end e f h k
    | inl f ↦
        let mid : ConnectionState = record st { auth_accumulator = st.auth_accumulator ++ a } in
        let (s, o) = ok_pair (sym (feed_auth_wait z st a f) ∙ sym (in_auth z st a e) ∙ h) in
        let k' : feed_from_client z mid b ≡ ok (st2, o2) =
          ap (λ (x : ConnectionState). feed_from_client z x b) s ∙ k in
        elim (feed_auth_inv z mid b (sym (in_auth z mid b e) ∙ k')) [
          | inl g ↦ append_waiting z st a b e g k' ∙ ap (λ (x : FeedOutcome). ok (st2, join x o2)) o
          | inr (end, g) ↦
              append_later z st a b end e f g k' ∙ ap (λ (x : FeedOutcome). ok (st2, join x o2)) o
        ]
  ]
]
