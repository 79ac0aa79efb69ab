-- ===== src/Proxy/Table/Signals.antt =====
-- The signals of `emit_commit_string` and `emit_preedit` on their way to the client
-- (crates/emskin-dbus/src/proxy/mod.rs).
use emskin.Prelude.{
  ℕ, ◌≡◌, ◌≢◌, refl, sym, ap, ◌∙◌, some, List, [], ◌∷◌, ◌++◌, append-nil, append_assoc,
}
use emskin.Prelude.Dict.{lookup, map_option, lookup-modify_self, lookup-modify_ne}
use emskin.Wire.Zvariant.{Zvariant}
use emskin.Wire.Frame.{Frame, encode}
use emskin.Wire.Body.{BodyCodec}
use emskin.Wire.Builder.{bump}
use emskin.Proxy.Packets.{OutPacket, bytes_only, Answer}
use emskin.Proxy.Packets.Order.{queued_bytes, sent_bytes, try_flush-InOrder}
use emskin.Proxy.Connection.{Connection, Pumped}
use emskin.Proxy.Connection.Upstream.{flush_client}
use emskin.Proxy.Table.{DbusBroker, emit}

queued_bytes-append :
    (q : List OutPacket) (p : OutPacket) → queued_bytes (q ++ (p ∷ [])) ≡ queued_bytes q ++ p.bytes
queued_bytes-append [] p = append-nil p.bytes
queued_bytes-append (x ∷ q) p =
    ap (λ b. x.bytes ++ b) (queued_bytes-append q p)
    ∙ sym (append_assoc x.bytes (queued_bytes q) p.bytes)

module _ (z : Zvariant) (c : BodyCodec) where
  -- A signal to a client of the table: the bytes that the client gets and then those that wait for
  -- it are those that waited and then the frame; the frame uses up a serial of that connection;
  -- and no other connection changes.
  pub emit-delivers :
      (id : ℕ) (frame : Connection → Frame) (answers : List Answer) (b : DbusBroker)
      (conn : Connection)
      → lookup id b.connections ≡ some conn
      → let r = emit z c id frame answers b in
        (p : Pumped) × (r.1 ≡ some p)
        × (lookup id r.0.connections ≡ some p.conn)
        × (p.conn.serial_counter ≡ bump conn.serial_counter)
        × (sent_bytes p.to_client ++ queued_bytes p.conn.client_out
            ≡ queued_bytes conn.client_out ++ encode z (frame conn))
        × ((j : ℕ) → j ≢ id → lookup j r.0.connections ≡ lookup j b.connections)
  unfolding emit flush_client
  emit-delivers id frame answers b conn found =
      let packet = bytes_only (encode z (frame conn)) in
      let pumped =
        flush_client z c
          (record conn {
            serial_counter = bump conn.serial_counter;
            client_out = conn.client_out ++ (packet ∷ []);
          })
          answers in
      rw (found, emit)
        (
          pumped,
          refl,
          lookup-modify_self id (λ _. pumped.conn) b.connections
              ∙ ap (map_option (λ _. pumped.conn)) found,
          refl,
          (try_flush-InOrder answers (conn.client_out ++ (packet ∷ []))).bytes
              ∙ queued_bytes-append conn.client_out packet,
          λ j other. lookup-modify_ne j id (λ _. pumped.conn) b.connections other,
        )
