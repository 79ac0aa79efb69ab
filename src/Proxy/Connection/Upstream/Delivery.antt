-- ===== src/Proxy/Connection/Upstream/Delivery.antt =====
-- The bytes that pass `pump_upstream_to_client` (crates/emskin-dbus/src/proxy/mod.rs).
use emskin.Prelude.{
  ℕ, zero, suc, ◌≡◌, refl, sym, ap, ◌∙◌, Bool, true, false, none, some, List, [], ◌∷◌, ◌++◌, Bytes,
  Result, ok, err, stuck, append_assoc, append-nil, Bool-cases, inl, inr, ◌⊎◌, length, take, drop,
  take-append-drop, ltb, Result-cases,
}
use emskin.Wire.Zvariant.{Zvariant}
use emskin.Wire.Frame.{Frame, FrameError, parse, bytes_needed}
use emskin.Wire.Body.{BodyCodec}
use emskin.Broker.{is_authenticated}
use emskin.Proxy.Packets.{OutPacket, bytes_only, Answer, try_flush}
use emskin.Proxy.Packets.Order.{queued_bytes, sent_bytes, try_flush-InOrder}
use emskin.Proxy.Connection.{Connection, got}
use emskin.Proxy.Connection.Names.{learn, learn-Same}
use emskin.Proxy.Connection.Client.{declared_fds}
use emskin.Proxy.Connection.Upstream.{
  to_client_out, bytes_if_any, unparsed, bus_frame, parsed, give_up, bus_message, bus_messages,
  flush_client, relay, pump_upstream_to_client,
}

-- What the client is still to get.
abbrev pub pending : Connection → Bytes
pending conn = queued_bytes conn.client_out ++ conn.upstream_buf

queued_bytes-append :
    (q r : List OutPacket) → queued_bytes (q ++ r) ≡ queued_bytes q ++ queued_bytes r
queued_bytes-append [] r = refl
queued_bytes-append (p ∷ q) r =
    ap (λ (x : Bytes). p.bytes ++ x) (queued_bytes-append q r)
    ∙ sym (append_assoc p.bytes (queued_bytes q) (queued_bytes r))

to_client_out-bytes :
    (p : OutPacket) (conn : Connection)
    → queued_bytes (to_client_out p conn).client_out ≡ queued_bytes conn.client_out ++ p.bytes
to_client_out-bytes p conn =
    queued_bytes-append conn.client_out (p ∷ [])
    ∙ ap (λ (x : Bytes). queued_bytes conn.client_out ++ x) (append-nil p.bytes)

module _ (z : Zvariant) (c : BodyCodec) where
  -- A message goes out whole, whatever is in it.
  unfoldable pub Forwards : Bytes → Connection → Connection → Type 0
  Forwards m conn conn' =
      (queued_bytes conn'.client_out ≡ queued_bytes conn.client_out ++ m)
      × (conn'.upstream_buf ≡ conn.upstream_buf)

  pub parsed-Forwards :
      (r : Result FrameError Frame) (m : Bytes) (conn : Connection)
      → Forwards m conn (parsed z c r m conn)
  unfolding parsed bus_frame unparsed Forwards
  parsed-Forwards (ok frame) m conn =
      let popped : Connection = record conn {
        upstream_in_fds = drop (declared_fds frame) conn.upstream_in_fds;
      } in
      let (out, buf) = learn-Same c frame popped in
      let packet : OutPacket = record {
        bytes = m;
        fds = take (declared_fds frame) conn.upstream_in_fds;
      } in
      (to_client_out-bytes packet (learn c frame popped) ∙ ap (λ q. queued_bytes q ++ m) out, buf)
  parsed-Forwards (err e) m conn = (to_client_out-bytes (bytes_only m) conn, refl)
  parsed-Forwards stuck m conn = (to_client_out-bytes (bytes_only m) conn, refl)

  bytes_if_any-pending :
      (b : Bytes) (conn : Connection)
      → queued_bytes (bytes_if_any b conn).client_out ≡ queued_bytes conn.client_out ++ b
  bytes_if_any-pending [] conn = sym (append-nil (queued_bytes conn.client_out))
  bytes_if_any-pending (b ∷ bs) conn = to_client_out-bytes (bytes_only (b ∷ bs)) conn

  give_up-pending : (conn : Connection) → pending (give_up z c conn) ≡ pending conn
  unfolding give_up
  give_up-pending conn = append-nil _ ∙ bytes_if_any-pending conn.upstream_buf conn

  step-pending :
      (total : ℕ) (conn : Connection)
      → pending (
          bus_message z c
            (take total conn.upstream_buf)
            (record conn { upstream_buf = drop total conn.upstream_buf }))
        ≡ pending conn
  unfolding bus_message Forwards
  step-pending total conn =
      let m = take total conn.upstream_buf in
      let cut : Connection = record conn { upstream_buf = drop total conn.upstream_buf } in
      let (out, buf) = parsed-Forwards (parse z m) m cut in
      rw (out, buf)
        (append_assoc (queued_bytes conn.client_out) m (drop total conn.upstream_buf)
          ∙ ap (λ x. queued_bytes conn.client_out ++ x) (take-append-drop total conn.upstream_buf))

  bus_messages-pending :
      (fuel : ℕ) (conn : Connection) → pending (bus_messages z c fuel conn) ≡ pending conn
  unfolding bus_messages
  bus_messages-pending zero conn = refl
  bus_messages-pending (suc fuel) conn = elim (Result-cases (bytes_needed z conn.upstream_buf)) [
    | inl e ↦ rw (e, bus_messages) (give_up-pending conn)
    | inr (inl (x, e)) ↦ rw (e, bus_messages) (give_up-pending conn)
    | inr (inr (none, e)) ↦ rw (e, bus_messages) refl
    | inr (inr (some total, e)) ↦ elim (Bool-cases (ltb (length conn.upstream_buf) total)) [
      | inl h ↦ rw (e, h, bus_messages) refl
      | inr h ↦ rw (e, h, bus_messages) (bus_messages-pending fuel _ ∙ step-pending total conn)
    ]
  ]

  relay-pending :
      (known : Bool) (b : Bytes) (conn : Connection)
      → known ≡ true ⊎ conn.upstream_buf ≡ []
      → pending (relay z c known b conn) ≡ pending conn ++ b
  unfolding relay
  relay-pending true b conn h =
      let buffered = conn.upstream_buf ++ b in
      bus_messages-pending (suc (length buffered)) (record conn { upstream_buf = buffered })
      ∙ sym (append_assoc (queued_bytes conn.client_out) conn.upstream_buf b)
  relay-pending false b conn (inl h) = absurd (cc)
  relay-pending false b conn (inr h) =
      let packet : OutPacket = record { bytes = b; fds = conn.upstream_in_fds } in
      rw h (
        append-nil (queued_bytes (conn.client_out ++ (packet ∷ [])))
        ∙ to_client_out-bytes packet conn
        ∙ ap (λ x. x ++ b) (sym (append-nil (queued_bytes conn.client_out))))

  -- The bytes that have come from the bus leave for the client in their order, none lost, none
  -- twice and none changed, also where they are no messages: what this pump sends, and then what
  -- it leaves to be sent, is what was left before and then what it read. (A connection whose
  -- client is not authenticated buffers nothing.)
  pub pump_upstream_to_client-delivers :
      (conn : Connection) (b : ℕ) (bs : Bytes) (fds : List ℕ) (answers : List Answer)
      → is_authenticated conn.state ≡ true ⊎ conn.upstream_buf ≡ []
      → let p = pump_upstream_to_client z c conn (got (b ∷ bs) fds) answers in
        sent_bytes p.to_client ++ pending p.conn ≡ pending conn ++ (b ∷ bs)
  unfolding pump_upstream_to_client flush_client
  pump_upstream_to_client-delivers conn b bs fds answers h =
      let start : Connection = record conn { upstream_in_fds = conn.upstream_in_fds ++ fds } in
      let relayed = relay z c (is_authenticated conn.state) (b ∷ bs) start in
      let f = try_flush answers relayed.client_out in
      sym (append_assoc (sent_bytes f.delivered) (queued_bytes f.queue) relayed.upstream_buf)
      ∙ ap (λ x. x ++ relayed.upstream_buf) (try_flush-InOrder answers relayed.client_out).bytes
      ∙ relay-pending (is_authenticated conn.state) (b ∷ bs) start h
