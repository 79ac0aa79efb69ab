-- ===== src/Runs/Broker.antt =====
-- The theorems on the byte stream, on a handshake and a message cut in two.
use emskin.Prelude.{
  stuck, ◌≢◌, ℕ, ◌≡◌, refl, [], ◌∷◌, ◌++◌, Bytes, ok, take, drop, length, bytes_eq,
}
use emskin.Wire.Sasl.{
  find_begin_end, scan_lines, find_sentinel, validate_line, is_begin_line, guard_length,
}
use emskin.Wire.Header.{to_raw}
use emskin.Wire.Frame.{encode, endian_u32, bytes_needed, parse_endian, checked_add, align8}
use emskin.Broker.{
  ConnectionState, FeedOutcome, messages, new, feed_from_client, split_frames, push_frame,
  feed_messages,
}
use emskin.Broker.Outcome.{join}
use emskin.Broker.Chunks.{feed_from_client-append}
use emskin.Broker.Frames.{
  new-IsValid, feed_from_client-bytes, Framed, Begins, feed_from_client-Framed,
}
use emskin.Broker.Total.{feed_from_client-ne-stuck}
use emskin.Runs.Demo.{demo}
use emskin.Runs.Wire.{handshake, hello_bytes}

-- The handshake and 20 bytes of the message, and the rest of the message.
abbrev first_chunk : Bytes
first_chunk = handshake ++ take 20 hello_bytes

abbrev second_chunk : Bytes
second_chunk = drop 20 hello_bytes

abbrev state_between : ConnectionState
state_between = record {
  client_phase = messages;
  auth_accumulator = [];
  msg_buf = take 20 hello_bytes;
}

abbrev state_after : ConnectionState
state_after = record { client_phase = messages; auth_accumulator = []; msg_buf = [] }

abbrev first_out : FeedOutcome
first_out = record { outbound = handshake; frame_ranges = [] }

abbrev second_out : FeedOutcome
second_out = record { outbound = hello_bytes; frame_ranges = (0, 42) ∷ [] }

first_feed : feed_from_client demo new first_chunk ≡ ok (state_between, first_out)
unfolding demo to_raw encode endian_u32 bytes_needed parse_endian checked_add align8 find_begin_end
    scan_lines find_sentinel validate_line is_begin_line guard_length bytes_eq feed_from_client
    feed_messages split_frames push_frame
first_feed = refl

second_feed : feed_from_client demo state_between second_chunk ≡ ok (state_after, second_out)
unfolding demo to_raw encode endian_u32 bytes_needed parse_endian checked_add align8
    feed_from_client feed_messages split_frames push_frame
second_feed = refl

feed_from_client-append_example :
    feed_from_client demo new (first_chunk ++ second_chunk)
    ≡ ok (state_after, join first_out second_out)
feed_from_client-append_example =
    feed_from_client-append demo new first_chunk second_chunk first_feed second_feed

feed_from_client-bytes_example :
    first_out.outbound ++ state_between.msg_buf ≡ new.msg_buf ++ first_chunk
feed_from_client-bytes_example = feed_from_client-bytes demo new first_chunk new-IsValid first_feed

-- The handshake and the whole message in one chunk.
abbrev both : Bytes
both = handshake ++ hello_bytes

abbrev both_out : FeedOutcome
both_out = record { outbound = both; frame_ranges = (16, 58) ∷ [] }

both_fed : feed_from_client demo new both ≡ ok (state_after, both_out)
unfolding demo to_raw encode endian_u32 bytes_needed parse_endian checked_add align8 find_begin_end
    scan_lines find_sentinel validate_line is_begin_line guard_length bytes_eq feed_from_client
    feed_messages split_frames push_frame
both_fed = refl

feed_from_client-Framed_example :
    (lo : ℕ) × Framed demo both_out.outbound lo both_out.frame_ranges (length both_out.outbound)
    × Begins demo new both both_out lo
feed_from_client-Framed_example = feed_from_client-Framed demo new both both_fed

feed_from_client-ne-stuck_example : feed_from_client demo new first_chunk ≢ stuck
feed_from_client-ne-stuck_example = feed_from_client-ne-stuck demo new first_chunk
