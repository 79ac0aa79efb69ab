-- ===== src/Proxy/Connection/Upstream/Waiting.antt =====
-- What `pump_upstream_to_client` (crates/emskin-dbus/src/proxy/mod.rs) keeps in its buffer.
use emskin.Prelude.{
  Result, Option, ok, err, stuck, ℕ, zero, suc, ◌<◌, ◌≤◌, ◌≡◌, ap, true, none, some, List, ◌∷◌,
  ◌++◌, Bytes, arith, Bool-cases, Result-cases, inl, inr, length, take, drop, length-drop, ltb,
}
use emskin.Wire.Zvariant.{Zvariant}
use emskin.Wire.Frame.{parse, bytes_needed, sized, FrameError}
use emskin.Wire.Frame.Size.{bytes_needed-bound}
use emskin.Wire.Body.{BodyCodec}
use emskin.Broker.{is_authenticated}
use emskin.Proxy.Packets.{Answer}
use emskin.Proxy.Connection.{Connection, got}
use emskin.Proxy.Connection.Upstream.{
  give_up, bus_message, bus_messages, flush_client, relay, pump_upstream_to_client,
}
use emskin.Proxy.Connection.Upstream.Delivery.{parsed-Forwards, Forwards}

-- Of so many bytes: is the size unknown yet, or larger?
unfoldable pub IsPartial : Result FrameError (Option ℕ) → ℕ → Type 0
IsPartial (ok none) k = Unit
IsPartial (ok (some n)) k = k < n
IsPartial (err e) k = ⊥
IsPartial stuck k = ⊥

module _ (z : Zvariant) (c : BodyCodec) where
  -- The buffer does not hold the whole of its first message, and nothing is wrong with it.
  abbrev pub IsIncomplete : Bytes → Type 0
  IsIncomplete b = IsPartial (bytes_needed z b) (length b)

  none-IsIncomplete : (b : Bytes) → bytes_needed z b ≡ ok none → IsIncomplete b
  unfolding IsPartial
  none-IsIncomplete b e = rw e tt

  some-IsIncomplete :
      (b : Bytes) (n : ℕ) → bytes_needed z b ≡ ok (some n) → length b < n → IsIncomplete b
  unfolding IsPartial
  some-IsIncomplete b n e l = rw e l

  give_up-IsIncomplete : (conn : Connection) → IsIncomplete (give_up z c conn).upstream_buf
  unfolding give_up IsPartial bytes_needed sized
  give_up-IsIncomplete conn = tt

  bus_message-buf :
      (m : Bytes) (conn : Connection) → (bus_message z c m conn).upstream_buf ≡ conn.upstream_buf
  unfolding bus_message Forwards
  bus_message-buf m conn = (parsed-Forwards z c (parse z m) m conn).1

  bus_messages-IsIncomplete :
      (fuel : ℕ) (conn : Connection)
      → length conn.upstream_buf < fuel
      → IsIncomplete (bus_messages z c fuel conn).upstream_buf
  unfolding bus_messages
  bus_messages-IsIncomplete zero conn l = absurd (omega arith)
  bus_messages-IsIncomplete (suc fuel) conn l =
      elim (Result-cases (bytes_needed z conn.upstream_buf)) [
        | inl e ↦ rw (e, bus_messages) (give_up-IsIncomplete conn)
        | inr (inl (x, e)) ↦ rw (e, bus_messages) (give_up-IsIncomplete conn)
        | inr (inr (none, e)) ↦ rw (e, bus_messages) (none-IsIncomplete conn.upstream_buf e)
        | inr (inr (some total, e)) ↦ elim (Bool-cases (ltb (length conn.upstream_buf) total)) [
          | inl h ↦
              rw (e, h, bus_messages)
                (some-IsIncomplete conn.upstream_buf total e (ground (arith, h)))
          | inr h ↦
              let buf = conn.upstream_buf in
              let cut : Connection = record conn { upstream_buf = drop total buf } in
              let next = bus_message z c (take total buf) cut in
              let fits : total ≤ length buf = ground (arith, h) in
              let less : length next.upstream_buf < fuel = omega (
                arith,
                ap length (bus_message-buf (take total buf) cut),
                length-drop total buf,
                (bytes_needed-bound z buf total e).0,
              ) in
              rw (e, h, bus_messages) (bus_messages-IsIncomplete fuel next less)
        ]
      ]

  -- Once the client is authenticated, every whole message that has come from the bus is queued for
  -- the client: what a pump leaves in the buffer is less than its first message.
  pub pump_upstream_to_client-IsIncomplete :
      (conn : Connection) (b : ℕ) (bs : Bytes) (fds : List ℕ) (answers : List Answer)
      → is_authenticated conn.state ≡ true
      → IsIncomplete (pump_upstream_to_client z c conn (got (b ∷ bs) fds) answers).conn.upstream_buf
  unfolding pump_upstream_to_client flush_client relay
  pump_upstream_to_client-IsIncomplete conn b bs fds answers h =
      let buffered = conn.upstream_buf ++ (b ∷ bs) in
      let start : Connection = record conn {
        upstream_in_fds = conn.upstream_in_fds ++ fds;
        upstream_buf = buffered;
      } in
      rw (h, relay) (bus_messages-IsIncomplete (suc (length buffered)) start (omega arith))
