-- ===== src/Proxy/Connection/Client/Alignment.antt =====
-- Messages and their descriptors in `pump_client_to_upstream`
-- (crates/emskin-dbus/src/proxy/mod.rs).
use emskin.Prelude.{
  ℕ, ◌≡◌, sym, ap, ◌∙◌, none, some, List, [], ◌∷◌, ◌++◌, map, Bytes, Result, ok, arith,
  append_assoc, append-nil, Option-cases, inl, inr, length, take, drop, take-append_exact,
  drop-append_exact,
}
use emskin.Wire.Zvariant.{Zvariant}
use emskin.Wire.Frame.{Frame, FrameError, parse}
use emskin.Wire.Body.{BodyCodec}
use emskin.Fcitx.{classify}
use emskin.Proxy.Packets.{OutPacket}
use emskin.Proxy.Connection.{Connection, FcitxEvent, Floats}
use emskin.Proxy.Connection.Names.{track, capture}
use emskin.Proxy.Connection.Client.{
  intercept, client_frame, client_message, client_messages, declared_fds, parsed,
}

-- A message with the descriptors that its sender attached.
abbrev pub Group : Type 0
Group = Bytes × List ℕ

abbrev pub attached : List Group → List ℕ
attached [] = []
attached (g ∷ gs) = g.1 ++ attached gs

module _ (z : Zvariant) (c : BodyCodec) where
  -- The header declares as many descriptors as are attached.
  abbrev pub Declares : Group → Type 0
  Declares (m, fds) = (frame : Frame) × (parse z m ≡ ok frame) × (declared_fds frame ≡ length fds)

  abbrev pub Declared : List Group → Type 0
  Declared [] = Unit
  Declared (g ∷ gs) = Declares g × Declared gs

  -- What the bus is sent for one message: nothing for a fcitx call.
  packet_of : Result FrameError Frame → Group → List OutPacket
  packet_of (ok frame) (m, fds) = elim (classify c frame) [
    | some method ↦ []
    | none ↦ record { bytes = m; fds = fds } ∷ []
  ]
  packet_of _ (m, fds) = []

  pub packets : List Group → List OutPacket
  unfolding packet_of
  packets [] = []
  packets (g ∷ gs) = packet_of (parse z g.0) g ++ packets gs

  module _ (fl : Floats) (id : ℕ) where
    track-same :
        (frame : Frame) (conn : Connection)
        → ((track c frame conn).upstream_out ≡ conn.upstream_out)
          × ((track c frame conn).client_in_fds ≡ conn.client_in_fds)
    unfolding track
    track-same frame conn = ground arith

    capture-same :
        (frame : Frame) (conn : Connection)
        → ((capture frame conn).upstream_out ≡ conn.upstream_out)
          × ((capture frame conn).client_in_fds ≡ conn.client_in_fds)
    unfolding capture
    capture-same frame conn = ground arith

    -- One message takes its own descriptors and leaves the rest.
    client_frame-aligned :
        (frame : Frame) (m : Bytes) (fds rest : List ℕ) (conn : Connection) (es : List FcitxEvent)
        → declared_fds frame ≡ length fds
        → conn.client_in_fds ≡ fds ++ rest
        → let r = (client_frame z c fl id frame m conn es).0 in
          (r.upstream_out ≡ conn.upstream_out ++ packet_of (ok frame) (m, fds))
          × (r.client_in_fds ≡ rest)
    unfolding client_frame intercept packet_of
    client_frame-aligned frame m fds rest conn es d e =
        let n = declared_fds frame in
        let left : drop n conn.client_in_fds ≡ rest = rw (d, e) (drop-append_exact fds rest) in
        let mine : take n conn.client_in_fds ≡ fds = rw (d, e) (take-append_exact fds rest) in
        let popped : Connection = record conn { client_in_fds = drop n conn.client_in_fds } in
        let (up, fd) = track-same frame popped in
        elim (Option-cases (classify c frame)) [
          | inl h ↦
              rw (h, client_frame, packet_of)
                (
                  ap
                        (λ (q : List OutPacket).
                          q ++ (record { bytes = m; fds = take n conn.client_in_fds } ∷ []))
                        up
                      ∙ ap
                          (λ (x : List ℕ).
                            conn.upstream_out ++ (record { bytes = m; fds = x } ∷ []))
                          mine,
                  fd ∙ left,
                )
          | inr (method, h) ↦
              let (up', fd') = capture-same frame (track c frame popped) in
              rw (h, client_frame, packet_of)
                (up' ∙ up ∙ sym (append-nil conn.upstream_out), fd' ∙ fd ∙ left)
        ]

    client_message-aligned :
        (m : Bytes) (fds rest : List ℕ) (conn : Connection) (es : List FcitxEvent)
        → Declares (m, fds)
        → conn.client_in_fds ≡ fds ++ rest
        → let r = (client_message z c fl id m conn es).0 in
          (r.upstream_out ≡ conn.upstream_out ++ packet_of (parse z m) (m, fds))
          × (r.client_in_fds ≡ rest)
    unfolding client_message parsed
    client_message-aligned m fds rest conn es (frame, p, d) e =
        rw p (client_frame-aligned frame m fds rest conn es d e)

    -- Every message declares the descriptors that its sender attached, and these stand in the queue
    -- in their order, `rest` behind them. Then the bus gets each message that is no fcitx call,
    -- whole and in order, with its own descriptors and no others, and `rest` is left.
    pub client_messages-aligned :
        (groups : List Group) (rest : List ℕ) (conn : Connection) (es : List FcitxEvent)
        → Declared groups
        → conn.client_in_fds ≡ attached groups ++ rest
        → let r = (client_messages z c fl id (map (λ g. g.0) groups) conn es).0 in
          (r.upstream_out ≡ conn.upstream_out ++ packets groups) × (r.client_in_fds ≡ rest)
    unfolding client_messages packets
    client_messages-aligned [] rest conn es d e = (sym (append-nil conn.upstream_out), e)
    client_messages-aligned (g ∷ gs) rest conn es (d, ds) e =
        let next = client_message z c fl id g.0 conn es in
        let (up, fd) =
          client_message-aligned g.0 g.1 (attached gs ++ rest) conn es d
            (e ∙ append_assoc g.1 (attached gs) rest) in
        let (up', fd') = client_messages-aligned gs rest next.0 next.1 ds fd in
        (
          up'
              ∙ ap (λ (q : List OutPacket). q ++ packets gs) up
              ∙ append_assoc conn.upstream_out (packet_of (parse z g.0) g) (packets gs),
          fd',
        )
