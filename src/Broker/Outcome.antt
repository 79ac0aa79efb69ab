-- ===== src/Broker/Outcome.antt =====
-- The outcomes of two feeds, one after the other (crates/emskin-dbus/src/broker/state.rs).
use emskin.Prelude.{
  ℕ, ◌+◌, ◌≡◌, sym, ap, ◌∙◌, List, ◌++◌, map, Bytes, ok, ◌>>=◌, length, append_assoc, append-nil,
  length-append,
}
use mathlib.Core.List.{map-append}
use native.Mathlib.Nat.{add_assoc}
use emskin.Wire.Zvariant.{Zvariant}
use emskin.Broker.{FeedOutcome, push_frame, split_frames, nothing}
use emskin.Broker.Look.{split_frames-map}

abbrev pub shift : ℕ → List (ℕ × ℕ) → List (ℕ × ℕ)
shift n = map λ r. (n + r.0, n + r.1)

-- What two feeds send, as one outcome.
abbrev pub join : FeedOutcome → FeedOutcome → FeedOutcome
join o p = record {
  outbound = o.outbound ++ p.outbound;
  frame_ranges = o.frame_ranges ++ shift (length o.outbound) p.frame_ranges;
}

join-nothing : (o : FeedOutcome) → join o nothing ≡ o
join-nothing o = simp append-nil

pub push_frame-join :
    (o : FeedOutcome) (n : ℕ) (m : Bytes) (p : FeedOutcome)
    → push_frame n m (join o p) ≡ join o (push_frame n m p)
unfolding push_frame
push_frame-join o n m p = simp (length-append, map-append, append_assoc, add_assoc)

-- The loop behind what was sent before, and the loop on its own.
pub split_frames-join :
    (z : Zvariant) (f : ℕ) (m : Bytes) (o : FeedOutcome)
    → split_frames z f m o ≡ (split_frames z f m nothing >>= λ r. ok (r.0, join o r.1))
split_frames-join z f m o =
    ap (split_frames z f m) (sym (join-nothing o))
    ∙ split_frames-map z (join o) (push_frame-join o) f m nothing
