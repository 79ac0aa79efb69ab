-- ===== src/Proxy/Packets/Order.antt =====
-- The order of bytes and descriptors in `try_flush` (crates/emskin-dbus/src/proxy/mod.rs).
use emskin.Prelude.{
  ℕ, zero, suc, ◌≡◌, refl, sym, ap, ◌∙◌, true, false, List, [], ◌∷◌, ◌++◌, Bytes, take, drop,
  take-append-drop, append_assoc, arith, Bool-cases, inl, inr,
}
use emskin.Proxy.Packets.{
  OutPacket, bytes_only, is_nil, is_empty, Answer, sent, would_block, interrupted, failed, Flushed,
  stop, also, rest_of, send, try_flush,
}

-- All bytes of a queue, and all its descriptors, in order.
abbrev pub queued_bytes : List OutPacket → Bytes
queued_bytes [] = []
queued_bytes (p ∷ q) = p.bytes ++ queued_bytes q

abbrev pub queued_fds : List OutPacket → List ℕ
queued_fds [] = []
queued_fds (p ∷ q) = p.fds ++ queued_fds q

abbrev pub sent_bytes : List (Bytes × List ℕ) → Bytes
sent_bytes [] = []
sent_bytes (d ∷ ds) = d.0 ++ sent_bytes ds

abbrev pub sent_fds : List (Bytes × List ℕ) → List ℕ
sent_fds [] = []
sent_fds (d ∷ ds) = d.1 ++ sent_fds ds

-- What was delivered, and behind it what is still queued, is what was queued.
pub record InOrder (queue : List OutPacket) (f : Flushed) : Type 0 where
  pub bytes : sent_bytes f.delivered ++ queued_bytes f.queue ≡ queued_bytes queue
  pub fds : f.hard_error ≡ false → sent_fds f.delivered ++ queued_fds f.queue ≡ queued_fds queue

rest_of-bytes : (b : Bytes) (q : List OutPacket) → queued_bytes (rest_of b q) ≡ b ++ queued_bytes q
unfolding rest_of
rest_of-bytes [] q = refl
rest_of-bytes (x ∷ xs) q = refl

rest_of-fds : (b : Bytes) (q : List OutPacket) → queued_fds (rest_of b q) ≡ queued_fds q
unfolding rest_of
rest_of-fds [] q = refl
rest_of-fds (x ∷ xs) q = refl

empty_packet : (p : OutPacket) → is_empty p ≡ true → (p.bytes ≡ []) × (p.fds ≡ [])
unfolding is_empty
empty_packet p h = ground arith

skip :
    (p : OutPacket) (q : List OutPacket) (f : Flushed)
    → is_empty p ≡ true
    → InOrder q f
    → InOrder (p ∷ q) f
skip p q f e i =
    let (b, d) = empty_packet p e in
    record {
      bytes = i.bytes ∙ ap (λ (x : Bytes). x ++ queued_bytes q) (sym b);
      fds = λ h. i.fds h ∙ ap (λ (x : List ℕ). x ++ queued_fds q) (sym d);
    }

stopped : (q : List OutPacket) → InOrder q (stop q)
unfolding stop
stopped q = record { bytes = refl; fds = λ h. refl }

wrote :
    (n : ℕ) (p : OutPacket) (q : List OutPacket) (f : Flushed)
    → InOrder (rest_of (drop n p.bytes) q) f
    → InOrder (p ∷ q) (also (take n p.bytes, p.fds) f)
unfolding also
wrote n p q f i = record {
  bytes =
      append_assoc (take n p.bytes) (sent_bytes f.delivered) (queued_bytes f.queue)
      ∙ ap (λ (x : Bytes). take n p.bytes ++ x) (i.bytes ∙ rest_of-bytes (drop n p.bytes) q)
      ∙ sym (append_assoc (take n p.bytes) (drop n p.bytes) (queued_bytes q))
      ∙ ap (λ (x : Bytes). x ++ queued_bytes q) (take-append-drop n p.bytes);
  fds = λ h.
      append_assoc p.fds (sent_fds f.delivered) (queued_fds f.queue)
      ∙ ap (λ (x : List ℕ). p.fds ++ x) (i.fds h ∙ rest_of-fds (drop n p.bytes) q);
}

dropped :
    (p : OutPacket) (q : List OutPacket) (f : Flushed)
    → f ≡ record { queue = bytes_only p.bytes ∷ q; delivered = []; hard_error = true }
    → InOrder (p ∷ q) f
dropped p q f e = rw e (record { bytes = refl; fds = λ h. cc })

send-InOrder :
    (a : Answer) (p : OutPacket) (queue : List OutPacket) (go : List OutPacket → Flushed)
    → ((q : List OutPacket) → InOrder q (go q))
    → InOrder (p ∷ queue) (send a p queue go)
unfolding send
send-InOrder (sent zero) p queue go h = stopped (p ∷ queue)
send-InOrder (sent (suc n)) p queue go h = wrote (suc n) p queue _ (h _)
send-InOrder would_block p queue go h = stopped (p ∷ queue)
send-InOrder interrupted p queue go h = h (p ∷ queue)
send-InOrder failed p queue go h = dropped p queue _ refl

-- Whatever the kernel answers, bytes leave in the order in which they were queued, none twice and
-- none lost; and so do descriptors, unless the socket fails.
pub try_flush-InOrder :
    (answers : List Answer) (queue : List OutPacket) → InOrder queue (try_flush answers queue)
unfolding try_flush
try_flush-InOrder [] [] = stopped []
try_flush-InOrder (a ∷ answers) [] = stopped []
try_flush-InOrder [] (p ∷ queue) = elim (Bool-cases (is_empty p)) [
  | inl e ↦ rw (e, try_flush) (skip p queue _ e (try_flush-InOrder [] queue))
  | inr e ↦ rw (e, try_flush) (stopped (p ∷ queue))
]
try_flush-InOrder (a ∷ answers) (p ∷ queue) = elim (Bool-cases (is_empty p)) [
  | inl e ↦ rw (e, try_flush) (skip p queue _ e (try_flush-InOrder (a ∷ answers) queue))
  | inr e ↦ elim (Bool-cases (is_nil p.bytes)) [
    | inl n ↦ rw (e, n, try_flush) (stopped (p ∷ queue))
    | inr n ↦ rw (e, n, try_flush) (send-InOrder a p queue _ (try_flush-InOrder answers))
  ]
]
