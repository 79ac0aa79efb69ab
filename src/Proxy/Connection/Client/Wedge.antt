-- ===== src/Proxy/Connection/Client/Wedge.antt =====
-- Descriptors that arrive before the bytes of their message are whole
-- (`pump_client_to_upstream` of crates/emskin-dbus/src/proxy/mod.rs).
use emskin.Prelude.{
  ℕ, ◌≡◌, ◌≢◌, refl, sym, ap, ◌∙◌, Bool, true, false, List, [], ◌∷◌, ◌++◌, Bytes, Result, ok, err,
  stuck, arith, inl, inr, append_assoc, Option-cases, Bool-cases, ltb, append-nil, take,
}
use emskin.Wire.Zvariant.{Zvariant}
use emskin.Wire.Frame.{Frame, FrameError, parse}
use emskin.Wire.Body.{BodyCodec}
use emskin.Broker.{ConnectionState, BrokerError, FeedOutcome, nothing, feed_from_client}
use emskin.Fcitx.{classify}
use emskin.Proxy.Packets.{OutPacket, Answer, Flushed, try_flush}
use emskin.Proxy.Packets.Blocked.{IsBlocked, try_flush-blocked}
use emskin.Proxy.Connection.{
  Connection, Received, got, recv_would_block, recv_interrupted, recv_failed, FcitxEvent, Pumped,
  Floats,
}
use emskin.Proxy.Connection.Names.{track, capture}
use emskin.Proxy.Connection.Client.{
  to_upstream_out, intercept, client_frame, client_message, client_messages, auth_tail,
  flush_upstream, flush_upstream_out, then_client, flush_both, route, fed, pump_client_to_upstream,
  slices, route_ranges, declared_fds, parsed, unparsed,
}

-- The queue to the bus begins with descriptors that no byte carries.
abbrev pub IsWedged : Connection → Type 0
IsWedged conn =
    (p : OutPacket) × (queue : List OutPacket) × (conn.upstream_out ≡ p ∷ queue) × IsBlocked p

-- What the bus is still to get begins as before.
abbrev Extends : Connection → Connection → Type 0
Extends conn conn' = (ps : List OutPacket) × (conn'.upstream_out ≡ conn.upstream_out ++ ps)

Extends-IsWedged : (conn conn' : Connection) → Extends conn conn' → IsWedged conn → IsWedged conn'
Extends-IsWedged conn conn' (ps, h) (q, queue, e, b) = (q, queue ++ ps, h ∙ rw e refl, b)

keeps : (conn conn' : Connection) → conn'.upstream_out ≡ conn.upstream_out → Extends conn conn'
keeps conn conn' h = ([], h ∙ sym (append-nil conn.upstream_out))

Extends-trans : (a b d : Connection) → Extends a b → Extends b d → Extends a d
Extends-trans a b d (ps, h) (qs, k) =
    (ps ++ qs, k ∙ ap (λ x. x ++ qs) h ∙ append_assoc a.upstream_out ps qs)

pub data Turn : Type 0 where
  pump : Received → List Answer → List Answer → Turn
  retry : List Answer → Turn

held_some : (xs : List ℕ) (y : ℕ) (ys : List ℕ) → xs ++ (y ∷ ys) ≢ []
held_some [] y ys = λ h. cc
held_some (x ∷ xs) y ys = λ h. cc

module _ (z : Zvariant) (c : BodyCodec) (fl : Floats) (id : ℕ) where
  track-upstream_out :
      (frame : Frame) (conn : Connection) → (track c frame conn).upstream_out ≡ conn.upstream_out
  unfolding track
  track-upstream_out frame conn = ground arith

  capture-upstream_out :
      (frame : Frame) (conn : Connection) → (capture frame conn).upstream_out ≡ conn.upstream_out
  unfolding capture
  capture-upstream_out frame conn = ground arith

  client_frame-Extends :
      (frame : Frame) (m : Bytes) (conn : Connection) (es : List FcitxEvent)
      → Extends conn (client_frame z c fl id frame m conn es).0
  unfolding client_frame intercept
  client_frame-Extends frame m conn es = elim (Option-cases (classify c frame)) [
    | inl e ↦
        let p : OutPacket = record {
          bytes = m;
          fds = take (declared_fds frame) conn.client_in_fds;
        } in
        rw (e, client_frame) (p ∷ [], ap (λ x. x ++ (p ∷ [])) (track-upstream_out frame _))
    | inr (method, e) ↦
        rw (e, client_frame)
          (
            [],
            capture-upstream_out frame _
                ∙ track-upstream_out frame _
                ∙ sym (append-nil conn.upstream_out),
          )
  ]

  parsed-Extends :
      (r : Result FrameError Frame) (m : Bytes) (conn : Connection) (es : List FcitxEvent)
      → Extends conn (parsed z c fl id r m conn es).0
  unfolding parsed unparsed
  parsed-Extends (ok frame) m conn es = client_frame-Extends frame m conn es
  parsed-Extends (err e) m conn es = (_, refl)
  parsed-Extends stuck m conn es = keeps conn conn refl

  client_message-Extends :
      (m : Bytes) (conn : Connection) (es : List FcitxEvent)
      → Extends conn (client_message z c fl id m conn es).0
  unfolding client_message
  client_message-Extends m conn es = parsed-Extends (parse z m) m conn es

  client_messages-Extends :
      (ms : List Bytes) (conn : Connection) (es : List FcitxEvent)
      → Extends conn (client_messages z c fl id ms conn es).0
  unfolding client_messages
  client_messages-Extends [] conn es = keeps conn conn refl
  client_messages-Extends (m ∷ ms) conn es =
      let next = client_message z c fl id m conn es in
      Extends-trans conn next.0 (client_messages z c fl id ms next.0 next.1).0
        (client_message-Extends m conn es) (client_messages-Extends ms next.0 next.1)

  auth_tail-Extends :
      (start : ℕ) (b : Bytes) (conn : Connection) → Extends conn (auth_tail z c fl id start b conn)
  unfolding auth_tail
  auth_tail-Extends start b conn = elim (Bool-cases (ltb 0 start)) [
    | inl e ↦ rw (e, auth_tail) (_, refl)
    | inr e ↦ rw (e, auth_tail) (keeps conn conn refl)
  ]

  -- A wedged connection stays so, and nothing reaches the bus.
  abbrev StaysWedged : Pumped → Type 0
  StaysWedged p = (p.to_upstream ≡ []) × IsWedged p.conn

  flush-wedged :
      (conn : Connection) (answers : List Answer)
      → IsWedged conn
      → StaysWedged (flush_upstream z c fl id conn answers)
  unfolding flush_upstream
  flush-wedged conn answers (p, queue, e, b) =
      let f = ap (try_flush answers) e ∙ try_flush-blocked answers p queue b in
      (ap (λ (x : Flushed). x.delivered) f, (p, queue, ap (λ (x : Flushed). x.queue) f, b))

  then_client-wedged :
      (to_cl : List Answer) (failed : Bool) (p : Pumped)
      → StaysWedged p
      → StaysWedged (then_client z c fl id to_cl failed p)
  unfolding then_client
  then_client-wedged to_cl true p h = h
  then_client-wedged to_cl false p h = h

  flush_both-wedged :
      (conn : Connection) (es : List FcitxEvent) (a b : List Answer)
      → IsWedged conn
      → StaysWedged (flush_both z c fl id conn es a b)
  unfolding flush_both
  flush_both-wedged conn es a b w = then_client-wedged b _ _ (flush-wedged conn a w)

  route_ranges-wedged :
      (ranges : List (ℕ × ℕ)) (outbound : Bytes) (conn : Connection) (a b : List Answer)
      → IsWedged conn
      → StaysWedged (route_ranges z c fl id ranges outbound conn a b)
  unfolding route_ranges
  route_ranges-wedged [] outbound conn a b w =
      let packet : OutPacket = record { bytes = outbound; fds = conn.client_in_fds } in
      let pushed = to_upstream_out packet (record conn { client_in_fds = [] }) in
      flush-wedged pushed a (Extends-IsWedged conn pushed (packet ∷ [], refl) w)
  route_ranges-wedged (r ∷ rs) outbound conn a b w =
      let start = auth_tail z c fl id r.0 outbound conn in
      let ms = slices z c fl id outbound (r ∷ rs) in
      let walked = client_messages z c fl id ms start [] in
      flush_both-wedged walked.0 walked.1 a b (
        Extends-IsWedged start walked.0 (client_messages-Extends ms start [])
          (Extends-IsWedged conn start (auth_tail-Extends r.0 outbound conn) w))

  fed-wedged :
      (r : Result BrokerError (ConnectionState × FeedOutcome)) (conn : Connection)
      (a b : List Answer)
      → IsWedged conn
      → StaysWedged (fed z c fl id r conn a b)
  unfolding fed route
  fed-wedged (ok (state, out)) conn a b w =
      route_ranges-wedged out.frame_ranges out.outbound _ a b w
  fed-wedged (err e) conn a b w = (refl, w)
  fed-wedged stuck conn a b w = (refl, w)

  pump-wedged :
      (conn : Connection) (r : Received) (a b : List Answer)
      → IsWedged conn
      → StaysWedged (pump_client_to_upstream z c fl id conn r a b)
  unfolding pump_client_to_upstream
  pump-wedged conn (got [] fds) a b w = (refl, w)
  pump-wedged conn (got (x ∷ xs) fds) a b w = fed-wedged _ _ a b w
  pump-wedged conn recv_would_block a b w = (refl, w)
  pump-wedged conn recv_interrupted a b w = (refl, w)
  pump-wedged conn recv_failed a b w = (refl, w)

  pub turn : Connection → Turn → Pumped
  turn conn (pump r a b) = pump_client_to_upstream z c fl id conn r a b
  turn conn (retry a) = flush_upstream_out z c fl id conn a

  -- What the bus is sent in a run of pumps and retries.
  unfoldable pub run : Connection → List Turn → List (Bytes × List ℕ)
  run conn [] = []
  run conn (t ∷ ts) = (turn conn t).to_upstream ++ run (turn conn t).conn ts

  turn-wedged : (conn : Connection) (t : Turn) → IsWedged conn → StaysWedged (turn conn t)
  unfolding turn
  turn-wedged conn (pump r a b) w = pump-wedged conn r a b w
  turn-wedged conn (retry a) w = flush-wedged conn a w

  run-wedged : (conn : Connection) (ts : List Turn) → IsWedged conn → run conn ts ≡ []
  unfolding run
  run-wedged conn [] w = refl
  run-wedged conn (t ∷ ts) w =
      let (e, w') = turn-wedged conn t w in
      ap (λ x. x ++ run (turn conn t).conn ts) e ∙ run-wedged (turn conn t).conn ts w'

  turn-incomplete :
      (conn : Connection) (b : ℕ) (bs : Bytes) (fd : ℕ) (fds : List ℕ) (st : ConnectionState)
      (to_up to_cl : List Answer)
      → feed_from_client z conn.state (b ∷ bs) ≡ ok (st, nothing)
      → conn.upstream_out ≡ []
      → StaysWedged (turn conn (pump (got (b ∷ bs) (fd ∷ fds)) to_up to_cl))
  unfolding turn pump_client_to_upstream fed route route_ranges
  turn-incomplete conn b bs fd fds st to_up to_cl h e =
      let held = conn.client_in_fds ++ (fd ∷ fds) in
      let packet : OutPacket = record { bytes = []; fds = held } in
      let kept : Connection = record conn { state = st; client_in_fds = [] } in
      let w : IsWedged (to_upstream_out packet kept) =
        (packet, [], ap (λ q. q ++ (packet ∷ [])) e, (refl, held_some conn.client_in_fds fd fds)) in
      rw (h, fed) (flush-wedged (to_upstream_out packet kept) to_up w)

  -- Descriptors come with bytes that complete no message, when nothing waits for the bus: from
  -- then on no pump of the client and no retry sends the bus anything, whatever the client writes
  -- and the kernel answers.
  pub run-incomplete :
      (conn : Connection) (b : ℕ) (bs : Bytes) (fd : ℕ) (fds : List ℕ) (st : ConnectionState)
      (to_up to_cl : List Answer) (later : List Turn)
      → feed_from_client z conn.state (b ∷ bs) ≡ ok (st, nothing)
      → conn.upstream_out ≡ []
      → run conn (pump (got (b ∷ bs) (fd ∷ fds)) to_up to_cl ∷ later) ≡ []
  unfolding run
  run-incomplete conn b bs fd fds st to_up to_cl later h e =
      let t = pump (got (b ∷ bs) (fd ∷ fds)) to_up to_cl in
      let (f, w) = turn-incomplete conn b bs fd fds st to_up to_cl h e in
      ap (λ x. x ++ run (turn conn t).conn later) f ∙ run-wedged (turn conn t).conn later w
