-- ===== src/Ipc/Framing.antt =====
-- Sending and receiving by `IpcConn` (crates/emskin/src/ipc/connection.rs).
use emskin.Prelude.{
  ℕ, zero, suc, ◌+◌, ◌^◌, ◌<◌, ◌≤◌, ◌≡◌, refl, ap, ◌∙◌, arith, some, List, [], ◌∷◌, ◌++◌, Bytes,
  length, take, drop, length-append, take-append_exact, drop-append_exact, append_assoc,
  take-append-drop, le→ltb, lt→ltb,
}
use emskin.Fcitx.{le_bytes}
use emskin.Ipc.{
  IpcConn, max_msg_size, u32_from_le, try_recv, payload, enqueue, WriteResult, wrote,
  write_would_block, write_failed, try_flush,
}

u32_from_le-le_bytes : (n : ℕ) (b : Bytes) → n < 2 ^ 32 → u32_from_le (le_bytes 4 n ++ b) ≡ n
unfolding u32_from_le le_bytes
u32_from_le-le_bytes n b h = omega arith

le_bytes-length : (n : ℕ) (b : Bytes) → length (le_bytes 4 n ++ b) ≡ 4 + length b
unfolding le_bytes
le_bytes-length n b = omega arith

le_bytes-drop : (n k : ℕ) (b : Bytes) → drop (4 + k) (le_bytes 4 n ++ b) ≡ drop k b
unfolding le_bytes
le_bytes-drop n k b = let e : 4 + k ≡ suc (suc (suc (suc k))) = omega arith in rw e refl

-- A frame with anything behind it is received.
frame-recv :
    (conn : IpcConn) (json rest : Bytes)
    → length json ≤ max_msg_size
    → try_recv (record conn { read_buf = le_bytes 4 (length json) ++ (json ++ rest) })
      ≡ (record conn { read_buf = rest }, payload json)
unfolding try_recv
frame-recv conn json rest h =
    let n = length json in
    let buf = le_bytes 4 n ++ (json ++ rest) in
    let size : u32_from_le buf ≡ n = u32_from_le-le_bytes n (json ++ rest) (omega arith) in
    let four : length buf ≡ 4 + (n + length rest) =
      le_bytes-length n (json ++ rest) ∙ ap (λ (k : ℕ). 4 + k) (length-append json rest) in
    let body = json ++ rest in
    let cut : (drop (4 + n) buf, take n (drop 4 buf)) ≡ (rest, json) =
      rw
        (
          le_bytes-drop n n body,
          drop-append_exact json rest,
          le_bytes-drop n 0 body,
          take-append_exact json rest,
        )
        refl in
    rw
      (
        four,
        size,
        le→ltb (4 + (n + length rest)) 4 (omega arith),
        le→ltb max_msg_size n h,
        le→ltb (4 + (n + length rest)) (4 + n) (omega arith),
      )
      (ap (λ (x : Bytes × Bytes). (record conn { read_buf = x.0 }, payload x.1)) cut)

-- What one side enqueues, with anything behind it, the other side receives first, and then the
-- rest is left: for a message of up to 1 MiB.
pub try_recv-enqueue :
    (conn sender : IpcConn) (json rest : Bytes)
    → length json ≤ max_msg_size
    → sender.write_buf ≡ []
    → try_recv (record conn { read_buf = (enqueue sender (some json)).write_buf ++ rest })
      ≡ (record conn { read_buf = rest }, payload json)
unfolding enqueue
try_recv-enqueue conn sender json rest h e =
    let small : length json < 2 ^ 32 = omega arith in
    rw (lt→ltb (length json) (2 ^ 32) small, e) (frame-recv conn json rest h)

-- Bytes are written in order: what is written and then what is left is what was buffered.
pub try_flush-append :
    (rs : List WriteResult) (b : Bytes) → (try_flush rs b).2 ++ (try_flush rs b).0 ≡ b
unfolding try_flush
try_flush-append rs [] = refl
try_flush-append [] (b ∷ bs) = refl
try_flush-append (wrote zero ∷ rs) (b ∷ bs) = refl
try_flush-append (wrote (suc n) ∷ rs) (b ∷ bs) =
    ap (λ x. b ∷ x)
      (append_assoc (take n bs) _ _
        ∙ ap (λ x. take n bs ++ x) (try_flush-append rs (drop n bs))
        ∙ take-append-drop n bs)
try_flush-append (write_would_block ∷ rs) (b ∷ bs) = refl
try_flush-append (write_failed ∷ rs) (b ∷ bs) = refl
