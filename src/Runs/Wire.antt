-- ===== src/Runs/Wire.antt =====
-- The theorems on the wire format, on concrete bytes.
use emskin.Prelude.{
  ap, sym, ◌∙◌, append-nil, ◌≡◌, ◌≢◌, ◌↔◌, refl, arith, none, some, [], ◌∷◌, ◌++◌, Bytes, ok, err,
  length, drop, codes, bytes_eq, ◌≤◌,
}
use emskin.Wire.Sasl.{
  find_begin_end, scan_lines, find_sentinel, validate_line, is_begin_line, guard_length,
}
use emskin.Wire.Sasl.Lines.{Handshake, find_begin_end_iff}
use emskin.Wire.Header.{Headers, to_raw}
use emskin.Wire.Zvariant.{little, received_fields}
use emskin.Wire.Frame.{
  parse_endian, checked_add, align8, endian_u32, encode, parse, bytes_needed, too_short,
  size_overflow, max_message_size,
}
use emskin.Wire.Frame.Size.{bytes_needed-bound}
use emskin.Wire.Frame.Parse.{parse-ne-short}
use emskin.Wire.Frame.Layout.{Writes, IsSendable}
use emskin.Wire.Frame.RoundTrip.{parse-encode}
use emskin.Wire.Builder.Serial.{bumps, bumps-distinct}
use emskin.Runs.Demo.{demo, demo-Converts, demo-ReadsBack, hello}

-- A handshake, and one that breaks off.
abbrev pub handshake : Bytes
handshake = 0 ∷ codes "AUTH A\r\nBEGIN\r\n"

abbrev pub half_handshake : Bytes
half_handshake = 0 ∷ codes "AUTH A\r\nBEG"

find_begin_end_iff_example : (find_begin_end handshake ≡ ok (some 16)) ↔ Handshake handshake 16
find_begin_end_iff_example = find_begin_end_iff handshake 16

pub handshake_found : find_begin_end handshake ≡ ok (some 16)
unfolding find_begin_end scan_lines find_sentinel validate_line is_begin_line guard_length bytes_eq
handshake_found = refl

abbrev two_bytes : Bytes
two_bytes = 1 ∷ 2 ∷ []

-- The message `hello`.
abbrev pub hello_bytes : Bytes
hello_bytes = encode demo hello

abbrev hello_headers : Headers
hello_headers = hello.headers

hello-Writes : Writes demo little (to_raw demo hello_headers)
unfolding demo to_raw received_fields endian_u32
hello-Writes = record {
  entries = drop 4 (demo.to_bytes little (to_raw demo hello_headers));
  short = omega arith;
  written = refl;
  read_back = refl;
}

hello-IsSendable : IsSendable demo hello
unfolding demo to_raw encode endian_u32
hello-IsSendable = record {
  nonzero = λ h. omega arith;
  serial_fits = omega arith;
  body_fits = omega arith;
  path = refl;
  signature = tt;
  within = omega arith;
}

parse-encode_example : parse demo (hello_bytes ++ (1 ∷ 2 ∷ [])) ≡ ok hello
parse-encode_example =
    parse-encode demo demo-ReadsBack hello hello-Writes hello-IsSendable demo-Converts (1 ∷ 2 ∷ [])

pub hello_size : bytes_needed demo hello_bytes ≡ ok (some 42)
unfolding demo to_raw encode endian_u32 bytes_needed parse_endian checked_add align8
hello_size = refl

pub hello_length : length hello_bytes ≡ 42
unfolding demo to_raw encode endian_u32
hello_length = refl

parse-ne-short_example :
    (parse demo hello_bytes ≢ err too_short) × (parse demo hello_bytes ≢ err size_overflow)
unfolding demo to_raw encode endian_u32
parse-ne-short_example = parse-ne-short demo hello_bytes 42 hello_size (omega (arith, hello_length))

hello_decided : bytes_needed demo hello_bytes ≢ ok none
hello_decided = λ h. cc (hello_size)

bytes_needed-bound_example : (16 ≤ 42) × (42 ≤ max_message_size)
bytes_needed-bound_example = bytes_needed-bound demo hello_bytes 42 hello_size

bumps-distinct_example : bumps 3 0 ≢ bumps 6 0
bumps-distinct_example = bumps-distinct 2 5 0 (omega arith) (omega arith)

pub hello_parsed : parse demo hello_bytes ≡ ok hello
hello_parsed =
    ap (parse demo) (sym (append-nil hello_bytes))
    ∙ parse-encode demo demo-ReadsBack hello hello-Writes hello-IsSendable demo-Converts []
