-- ===== src/Proxy/Packets/Blocked.antt =====
-- A packet of descriptors alone, in `try_flush` (crates/emskin-dbus/src/proxy/mod.rs).
use emskin.Prelude.{◌≡◌, ◌≢◌, false, List, [], ◌∷◌, arith}
use emskin.Proxy.Packets.{OutPacket, is_empty, Answer, stop, try_flush}

-- Descriptors with no byte to carry them.
abbrev pub IsBlocked : OutPacket → Type 0
IsBlocked p = (p.bytes ≡ []) × (p.fds ≢ [])

-- Such a packet at the front stays there whatever the kernel answers, and nothing that is queued
-- behind it is ever sent.
pub try_flush-blocked :
    (answers : List Answer) (p : OutPacket) (queue : List OutPacket)
    → IsBlocked p
    → try_flush answers (p ∷ queue)
      ≡ record { queue = p ∷ queue; delivered = []; hard_error = false }
unfolding try_flush stop is_empty
try_flush-blocked [] p queue (b, f) = ground arith
try_flush-blocked (a ∷ answers) p queue (b, f) = ground arith
