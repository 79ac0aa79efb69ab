-- ===== src/Proxy/Packets.antt =====
-- `OutPacket` and `try_flush` of crates/emskin-dbus/src/proxy/mod.rs. A file descriptor is a number.
-- The kernel's answers to `sendmsg` are a list; where it is used up, the socket takes no more.
pub mod Order
pub mod Blocked
use emskin.Prelude.{
  ℕ, zero, suc, Bool, true, false, ◌&&◌, List, [], ◌∷◌, ◌++◌, Bytes, take, drop, if◌then◌else◌,
}

pub record OutPacket : Type 0 where
  pub bytes : Bytes
  pub fds : List ℕ

abbrev pub bytes_only : Bytes → OutPacket
bytes_only bytes = record { bytes = bytes; fds = [] }

abbrev pub is_nil {ℓ} : {A : Type ℓ} → List A → Bool
is_nil [] = true
is_nil (x ∷ xs) = false

unfoldable pub is_empty : OutPacket → Bool
is_empty p = is_nil p.bytes && is_nil p.fds

-- An answer of `sendmsg`: so many bytes, `WouldBlock`, `Interrupted` or another error.
pub data Answer : Type 0 where
  sent : ℕ → Answer
  would_block interrupted failed : Answer

-- What a flush leaves: the queue, what the peer was given call by call, and whether it failed.
pub record Flushed : Type 0 where
  pub queue : List OutPacket
  pub delivered : List (Bytes × List ℕ)
  pub hard_error : Bool

stop : List OutPacket → Flushed
stop queue = record { queue = queue; delivered = []; hard_error = false }

also : Bytes × List ℕ → Flushed → Flushed
also d f = record f { delivered = d ∷ f.delivered }

-- A packet of which some bytes are written: the descriptors went with the first of them.
rest_of : Bytes → List OutPacket → List OutPacket
rest_of [] queue = queue
rest_of (b ∷ bs) queue = bytes_only (b ∷ bs) ∷ queue

-- The `match` on the answer; `go` is the next round of the loop.
send : Answer → OutPacket → List OutPacket → (List OutPacket → Flushed) → Flushed
send (sent zero) p queue go = stop (p ∷ queue)
send (sent (suc n)) p queue go =
    also (take (suc n) p.bytes, p.fds) (go (rest_of (drop (suc n) p.bytes) queue))
send would_block p queue go = stop (p ∷ queue)
send interrupted p queue go = go (p ∷ queue)
send failed p queue go = record {
  queue = bytes_only p.bytes ∷ queue;
  delivered = [];
  hard_error = true;
}

unfoldable pub try_flush : List Answer → List OutPacket → Flushed
unfolding stop send is_empty also rest_of
try_flush answers [] = stop []
try_flush [] (p ∷ queue) = elim (is_empty p) [
  | true ↦ try_flush [] queue
  | false ↦ stop (p ∷ queue)
]
try_flush (a ∷ answers) (p ∷ queue) = elim (is_empty p) [
  | true ↦ try_flush (a ∷ answers) queue
  -- `sendmsg_with_fds` returns `Ok(0)` for no bytes, without a call.
  | false ↦ elim (is_nil p.bytes) [
    | true ↦ stop (p ∷ queue)
    | false ↦ send a p queue (try_flush answers)
  ]
]
