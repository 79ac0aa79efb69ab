-- ===== src/Ipc/Server/Delivery.antt =====
-- What Emacs is sent over a connection of `IpcServer` (crates/emskin/src/ipc/mod.rs).
use emskin.Prelude.{
  ◌≡◌, refl, sym, ap, subst, ◌∙◌, ◌^◌, Option, none, some, List, [], ◌∷◌, ◌++◌, Bytes, codes,
  length, ltb, append_assoc, append-nil, Bool-cases, ◌⊎◌, inl, inr,
}
use emskin.Prelude.Dict.{some-injective}
use emskin.Ipc.{
  IpcConn, new, enqueue, WriteResult, FlushResult, flushed, pending, write_error, try_flush,
}
use emskin.Ipc.Framing.{try_flush-append}
use emskin.Desktop.{OutgoingMessage, connected}
use emskin.Ipc.Server.{Json, IpcServer, bound, stream, kept_after, enqueue_all, accept, flush, send}

-- A use of the server between two events of its connection.
pub data Use : Type 0 where
  sending : OutgoingMessage → List WriteResult → Use
  flushing : List WriteResult → Use

abbrev pub sent : List Use → List OutgoingMessage
sent [] = []
sent (sending msg writes ∷ us) = msg ∷ sent us
sent (flushing writes ∷ us) = sent us

enqueue-append :
    (conn : IpcConn) (o : Option Bytes)
    → (enqueue conn o).write_buf ≡ conn.write_buf ++ (enqueue new o).write_buf
unfolding enqueue
enqueue-append conn none = sym (append-nil conn.write_buf)
enqueue-append conn (some b) = elim (Bool-cases (ltb (length b) (2 ^ 32))) [
  | inl small ↦ rw small refl
  | inr large ↦ rw large (sym (append-nil conn.write_buf))
]

abbrev with_connection : Option IpcConn → List OutgoingMessage → IpcServer
with_connection c w = record { connection = c; waiting = w }

flush-result :
    (r : Bytes × FlushResult × Bytes) (conn : IpcConn) (w : List OutgoingMessage)
    → r.2 ++ r.0 ≡ conn.write_buf
    → (with_connection (kept_after conn r) w ≡ with_connection none w)
      ⊎ ((conn' : IpcConn) × (with_connection (kept_after conn r) w
            ≡ with_connection (some conn') w)
          × (r.2 ++ conn'.write_buf ≡ conn.write_buf))
flush-result (left, write_error, out) conn w e = inl refl
flush-result (left, flushed, out) conn w e = inr (record conn { write_buf = left }, refl, e)
flush-result (left, pending, out) conn w e = inr (record conn { write_buf = left }, refl, e)

-- What a flush leaves, where it leaves a connection.
flush-cases :
    (writes : List WriteResult) (conn : IpcConn) (w : List OutgoingMessage)
    → let r = flush writes (with_connection (some conn) w) in
      (r.0 ≡ with_connection none w)
      ⊎ ((conn' : IpcConn) × (r.0 ≡ with_connection (some conn') w)
          × (r.1 ++ conn'.write_buf ≡ conn.write_buf))
unfolding flush
flush-cases writes conn w =
    flush-result (try_flush writes conn.write_buf) conn w (try_flush-append writes conn.write_buf)

module _ (json : Json) where
  -- The frames of messages, one behind the other.
  unfoldable pub frames : List OutgoingMessage → Bytes
  frames [] = []
  frames (msg ∷ msgs) = (enqueue new (json.to_vec msg)).write_buf ++ frames msgs

  frames-append : (xs ys : List OutgoingMessage) → frames (xs ++ ys) ≡ frames xs ++ frames ys
  unfolding frames
  frames-append [] ys = refl
  frames-append (x ∷ xs) ys =
      ap (λ b. (enqueue new (json.to_vec x)).write_buf ++ b) (frames-append xs ys)
      ∙ sym (append_assoc (enqueue new (json.to_vec x)).write_buf (frames xs) (frames ys))

  enqueue_all-append :
      (msgs : List OutgoingMessage) (conn : IpcConn)
      → (enqueue_all json msgs conn).write_buf ≡ conn.write_buf ++ frames msgs
  unfolding enqueue_all frames
  enqueue_all-append [] conn = sym (append-nil conn.write_buf)
  enqueue_all-append (msg ∷ msgs) conn =
      enqueue_all-append msgs (enqueue conn (json.to_vec msg))
      ∙ (ap (λ b. b ++ frames msgs) (enqueue-append conn (json.to_vec msg))
          ∙ append_assoc conn.write_buf (enqueue new (json.to_vec msg)).write_buf (frames msgs))

  -- The state after the uses, and all that they wrote.
  unfoldable pub run : List Use → IpcServer → IpcServer × Bytes
  run [] server = (server, [])
  run (sending msg writes ∷ us) server =
      let (server', out) = send json msg writes server in
      let (last, rest) = run us server' in (last, out ++ rest)
  run (flushing writes ∷ us) server =
      let (server', out) = flush writes server in
      let (last, rest) = run us server' in (last, out ++ rest)

  -- Without a connection the messages wait.
  run-waiting :
      (us : List Use) (w : List OutgoingMessage)
      → run us (record { connection = none; waiting = w })
        ≡ (record { connection = none; waiting = w ++ sent us }, [])
  unfolding run send flush
  run-waiting [] w = ap (λ x. (record { connection = none; waiting = x }, [])) (sym (append-nil w))
  run-waiting (sending msg writes ∷ us) w = rw (run-waiting us (w ++ (msg ∷ []))) (
      ap (λ x. (record { connection = none; waiting = x }, []))
        (append_assoc w (msg ∷ []) (sent us)))
  run-waiting (flushing writes ∷ us) w = rw (run-waiting us w) refl

  -- A flush before uses of which the bytes are known.
  flush-run :
      (us : List Use) (writes : List WriteResult) (conn conn' : IpcConn) (w : List OutgoingMessage)
      → ((c : IpcConn)
          → (run us (with_connection (some c) w)).0.connection ≡ some conn'
          → (run us (with_connection (some c) w)).1 ++ conn'.write_buf
            ≡ c.write_buf ++ frames (sent us))
      → let (server, out) = flush writes (with_connection (some conn) w) in
        (run us server).0.connection ≡ some conn'
        → (out ++ (run us server).1) ++ conn'.write_buf ≡ conn.write_buf ++ frames (sent us)
  flush-run us writes conn conn' w ih e = elim (flush-cases writes conn w) [
    | inl lost ↦
        let gone = ap (λ (r : IpcServer × Bytes). r.0.connection) (run-waiting us w) in
        let there = ap (λ s. (run us s).0.connection) (sym lost) ∙ e in absurd (cc)
    | inr (c, kept, bytes) ↦
        let (server, out) = flush writes (with_connection (some conn) w) in
        let there = ap (λ s. (run us s).0.connection) (sym kept) ∙ e in
        let rest = ap (λ s. (run us s).1) kept in
        append_assoc out (run us server).1 conn'.write_buf
        ∙ (ap (λ x. out ++ (x ++ conn'.write_buf)) rest
            ∙ (ap (λ x. out ++ x) (ih c there)
                ∙ (sym (append_assoc out c.write_buf (frames (sent us)))
                    ∙ ap (λ x. x ++ frames (sent us)) bytes)))
  ]

  run-connected :
      (us : List Use) (conn conn' : IpcConn) (w : List OutgoingMessage)
      → (run us (with_connection (some conn) w)).0.connection ≡ some conn'
      → (run us (with_connection (some conn) w)).1 ++ conn'.write_buf
        ≡ conn.write_buf ++ frames (sent us)
  unfolding run send frames
  run-connected [] conn conn' w e =
      ap (λ (c : IpcConn). c.write_buf) (sym (some-injective conn conn' e))
      ∙ sym (append-nil conn.write_buf)
  run-connected (flushing writes ∷ us) conn conn' w e =
      flush-run us writes conn conn' w (λ c h. run-connected us c conn' w h) e
  run-connected (sending msg writes ∷ us) conn conn' w e =
      let c = enqueue conn (json.to_vec msg) in
      flush-run us writes c conn' w (λ c h. run-connected us c conn' w h) e
      ∙ (ap (λ b. b ++ frames (sent us)) (enqueue-append conn (json.to_vec msg))
          ∙ append_assoc conn.write_buf (enqueue new (json.to_vec msg)).write_buf
              (frames (sent us)))

  accept-delivers :
      (w : List OutgoingMessage) (after : List Use) (writes : List WriteResult) (conn : IpcConn)
      → let (server, ok, greeting) = accept json stream writes (with_connection none w) in
        (run after server).0.connection ≡ some conn
        → (greeting ++ (run after server).1) ++ conn.write_buf
          ≡ frames (connected (codes "0.1") ∷ (w ++ sent after))
  unfolding accept
  accept-delivers w after writes conn e =
      let msgs = connected (codes "0.1") ∷ w in
      let c = enqueue_all json msgs new in
      let (left, result, out) = try_flush writes c.write_buf in
      let opened = record c { write_buf = left } in
      append_assoc out (run after (with_connection (some opened) [])).1 conn.write_buf
      ∙ (ap (λ x. out ++ x) (run-connected after opened conn [] e)
          ∙ (sym (append_assoc out left (frames (sent after)))
              ∙ (ap (λ x. x ++ frames (sent after))
                    (try_flush-append writes c.write_buf ∙ enqueue_all-append msgs new)
                  ∙ sym (frames-append msgs (sent after)))))

  -- All that was sent before Emacs connected and since, behind the greeting and in order: while the
  -- connection lasts, what was written and then what is still to be written are the frames of these
  -- messages, none of them lost, twice or changed.
  pub run-accept-delivers :
      (before after : List Use) (writes : List WriteResult) (conn : IpcConn)
      → let waited = (run before bound).0 in
        let (server, ok, greeting) = accept json stream writes waited in
        (run after server).0.connection ≡ some conn
        → (greeting ++ (run after server).1) ++ conn.write_buf
          ≡ frames (connected (codes "0.1") ∷ (sent before ++ sent after))
  run-accept-delivers before after writes conn e =
      let waited = ap (λ (r : IpcServer × Bytes). r.0) (run-waiting before []) in
      subst
        (λ s.
          (run after (accept json stream writes s).0).0.connection ≡ some conn
          → ((accept json stream writes s).2 ++ (run after (accept json stream writes s).0).1)
              ++ conn.write_buf
            ≡ frames (connected (codes "0.1") ∷ (sent before ++ sent after)))
        (sym waited) (accept-delivers (sent before) after writes conn) e
