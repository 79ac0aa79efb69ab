-- ===== src/Wire/Frame.antt =====
-- `Frame` of crates/emskin-dbus/src/wire/frame.rs: the size of a message, parsing and encoding.
-- `usize` has 64 bits. A slice `buf[a..b]` is `take (b - a) (drop a buf)`.
pub mod Size
pub mod Parse
pub mod Layout
pub mod RoundTrip
use emskin.Prelude.{
  ℕ, zero, suc, ◌+◌, ◌-◌, ◌*◌, ◌/◌, ◌%◌, ◌^◌, Bool, not, Option, none, some, List, [], ◌∷◌, ◌++◌,
  Bytes, Text, Result, ok, err, stuck, ◌>>=◌, ◌>>◌, map_err, ltb, ◌==◌, if◌then◌else◌, length, take,
  drop, get_or,
}
use emskin.Wire.Zvariant.{Endian, little, big, Zvariant}
use emskin.Wire.Header.{Headers, from_raw, to_raw}
use mathlib.Core.Option

abbrev pub fixed_header_len : ℕ
fixed_header_len = 16

-- 128 MiB.
abbrev pub max_message_size : ℕ
max_message_size = 128 * 1024 * 1024

pub data MessageKind : Type 0 where
  method_call method_return error signal : MessageKind

pub data FrameError : Type 0 where
  invalid_endian invalid_kind wrong_protocol_version message_too_large : ℕ → FrameError
  zero_serial too_short size_overflow : FrameError
  header_fields_parse : Text → FrameError

unfoldable pub from_byte : ℕ → Result FrameError MessageKind
from_byte b =
    if b == 1
    then ok method_call
    else if b == 2
    then ok method_return
    else if b == 3
    then ok error
    else if b == 4
    then ok signal
    else err (invalid_kind b)

-- `kind as u8`
unfoldable pub to_byte : MessageKind → ℕ
to_byte method_call = 1
to_byte method_return = 2
to_byte error = 3
to_byte signal = 4

pub record Frame : Type 0 where
  pub endian : Endian
  pub kind : MessageKind
  pub flags : ℕ
  pub serial : ℕ
  pub headers : Headers
  pub body : Bytes

unfoldable pub parse_endian : ℕ → Result FrameError Endian
parse_endian b =
    if b == b'l' then ok little else if b == b'B' then ok big else err (invalid_endian b)

-- `usize::checked_add`
unfoldable pub checked_add : ℕ → ℕ → Option ℕ
checked_add a b = if ltb (a + b) (2 ^ 64) then some (a + b) else none

-- `v & !7` clears the three low bits.
unfoldable pub align8 : ℕ → Option ℕ
align8 n = Option.map (λ v. v / 8 * 8) (checked_add n 7)

abbrev le_bytes : ℕ → Bytes
le_bytes n = n % 256 ∷ n / 2 ^ 8 % 256 ∷ n / 2 ^ 16 % 256 ∷ n / 2 ^ 24 % 256 ∷ []

abbrev be_bytes : ℕ → Bytes
be_bytes n = n / 2 ^ 24 % 256 ∷ n / 2 ^ 16 % 256 ∷ n / 2 ^ 8 % 256 ∷ n % 256 ∷ []

unfoldable pub endian_u32 : Endian → ℕ → Bytes
endian_u32 little n = le_bytes n
endian_u32 big n = be_bytes n

-- `ok_or`
abbrev ok_or {ℓ} : {A : Type ℓ} → Option A → FrameError → Result FrameError A
ok_or none e = err e
ok_or (some a) e = ok a

abbrev pub ensure : Bool → FrameError → Result FrameError (Unit {0})
ensure b e = if b then ok tt else err e

module _ (z : Zvariant) where
  -- Past the check of the length.
  unfoldable pub sized : Bytes → Result FrameError (Option ℕ)
  sized buf = do
    endian ← parse_endian (get_or buf 0 0)
    ensure (get_or buf 3 0 == 1) (wrong_protocol_version (get_or buf 3 0))
    let body_len = z.read_u32 endian (take 4 (drop 4 buf))
    let fields_len = z.read_u32 endian (take 4 (drop 12 buf))
    header_section ← ok_or (checked_add fixed_header_len fields_len) size_overflow
    body_start ← ok_or (align8 header_section) size_overflow
    total ← ok_or (checked_add body_start body_len) size_overflow
    ensure (not (ltb max_message_size total)) (message_too_large total)
    ok (some total)

  unfoldable pub bytes_needed : Bytes → Result FrameError (Option ℕ)
  unfolding sized
  bytes_needed buf = if ltb (length buf) fixed_header_len then ok none else sized buf

  -- `parse` from the flags on.
  unfoldable pub parse_sections : Endian → MessageKind → Bytes → Result FrameError Frame
  parse_sections endian kind buf = do
    let flags = get_or buf 2 0
    let body_len = z.read_u32 endian (take 4 (drop 4 buf))
    let serial = z.read_u32 endian (take 4 (drop 8 buf))
    ensure (not (serial == 0)) zero_serial
    let fields_len = z.read_u32 endian (take 4 (drop 12 buf))
    fields_section_end ← ok_or (checked_add fixed_header_len fields_len) size_overflow
    ensure (not (ltb (length buf) fields_section_end)) too_short
    raw ←
        map_err header_fields_parse
          (z.deserialize endian (take (fields_section_end - 12) (drop 12 buf)))
    body_start ← ok_or (align8 fields_section_end) size_overflow
    body_end ← ok_or (checked_add body_start body_len) size_overflow
    ensure (not (ltb (length buf) body_end)) too_short
    ok (record {
      endian = endian;
      kind = kind;
      flags = flags;
      serial = serial;
      headers = from_raw z raw;
      body = take (body_end - body_start) (drop body_start buf);
    })

  unfoldable pub parse : Bytes → Result FrameError Frame
  unfolding parse_sections
  parse buf = do
    ensure (not (ltb (length buf) fixed_header_len)) too_short
    endian ← parse_endian (get_or buf 0 0)
    ensure (get_or buf 3 0 == 1) (wrong_protocol_version (get_or buf 3 0))
    kind ← from_byte (get_or buf 1 0)
    parse_sections endian kind buf

-- `while !out.len().is_multiple_of(8) { out.push(0) }`: eight rounds are enough.
pad8 : ℕ → Bytes → Bytes
pad8 zero out = out
pad8 (suc fuel) out = if length out % 8 == 0 then out else pad8 fuel (out ++ (0 ∷ []))

abbrev pub marker : Endian → ℕ
marker little = b'l'
marker big = b'B'

-- Everything before the padding. `body.len() as u32` wraps.
pub encode_head : Zvariant → Frame → Bytes
encode_head z f =
    (marker f.endian ∷ to_byte f.kind ∷ f.flags ∷ 1 ∷ [])
    ++ (endian_u32 f.endian (length f.body % 2 ^ 32)
        ++ (endian_u32 f.endian f.serial ++ z.to_bytes f.endian (to_raw z f.headers)))

unfoldable pub encode : Zvariant → Frame → Bytes
unfolding encode_head pad8
encode z f = pad8 8 (encode_head z f) ++ f.body
