-- ===== src/Wire/Frame/Parse.antt =====
-- `Frame::parse` of crates/emskin-dbus/src/wire/frame.rs on a complete message.
use emskin.Prelude.{
  ℕ, ◌+◌, ◌-◌, ◌*◌, ◌/◌, ◌^◌, ◌≤◌, ◌<◌, ◌≡◌, ◌≢◌, ap, sym, ◌∙◌, fun_ext, some, ◌++◌, Bytes, ok, err,
  >>=-ne-err, ◌>>=◌, ◌>>◌, length, take, drop, get_or, le→ltb, not, map_err, length-append,
  get_or-append_left, slice-append_left, arith, ◌==◌,
}
use emskin.Wire.Header.{from_raw}
use emskin.Wire.Zvariant.{Endian, Zvariant}
use emskin.Wire.Frame.{
  size_overflow, too_short, bytes_needed, parse, checked_add, align8, ensure, from_byte,
  MessageKind, parse_sections, zero_serial, header_fields_parse,
}
use emskin.Wire.Frame.Size.{HasSize, body_len, fields_len, body_start, bytes_needed-HasSize}

checked_add-fits : (a b : ℕ) → a + b < 2 ^ 64 → checked_add a b ≡ some (a + b)
unfolding checked_add
checked_add-fits a b h = ground arith

align8-fits : (a : ℕ) → 16 + a + 7 < 2 ^ 64 → align8 (16 + a) ≡ some ((23 + a) / 8 * 8)
unfolding align8 checked_add
align8-fits a h = ground arith

add_sub : (a b : ℕ) → a + b - a ≡ b
add_sub a b = omega arith

module _ (z : Zvariant) (e : Endian) (buf : Bytes) (n : ℕ) (size : HasSize z e buf n) where
  -- With the message complete, the length checks of `parse` pass, and the rest decides.
  pub parse_sections_lem :
      (kind : MessageKind)
      → n ≤ length buf
      → parse_sections z e kind buf ≡ (
          ensure (not (z.read_u32 e (take 4 (drop 8 buf)) == 0)) zero_serial
          >> (map_err header_fields_parse
                (z.deserialize e (take (16 + fields_len z e buf - 12) (drop 12 buf)))
              >>= λ raw. ok (record {
                endian = e;
                kind = kind;
                flags = get_or buf 2 0;
                serial = z.read_u32 e (take 4 (drop 8 buf));
                headers = from_raw z raw;
                body = take (body_len z e buf) (drop (body_start z e buf) buf);
              })))
  unfolding parse_sections
  parse_sections_lem kind le =
      let flen : 16 + fields_len z e buf ≤ body_start z e buf = omega arith in
      let lim = size.limit in
      let tot = size.total in
      rw
        (
          checked_add-fits 16 (fields_len z e buf) (omega arith),
          le→ltb (length buf) (16 + fields_len z e buf) (omega arith),
        )
        (simp (
          align8-fits (fields_len z e buf) (omega arith),
          checked_add-fits (body_start z e buf) (body_len z e buf) (omega arith),
          le→ltb (length buf) (body_start z e buf + body_len z e buf) (omega arith),
          add_sub,
        ))

  pub parse_lem :
      n ≤ length buf
      → parse z buf ≡ (from_byte (get_or buf 1 0) >>= λ kind. parse_sections z e kind buf)
  unfolding parse
  parse_lem le = rw (le→ltb (length buf) 16 size.long, size.endian, size.version)

  sections-ne :
      (kind : MessageKind)
      → n ≤ length buf
      → (parse_sections z e kind buf ≢ err too_short)
        × (parse_sections z e kind buf ≢ err size_overflow)
  sections-ne kind le = ground (arith, parse_sections_lem kind le)

  -- Bytes behind the message change nothing.
  HasSize-append : (t : Bytes) → HasSize z e (buf ++ t) n
  HasSize-append t = record {
    long = omega (arith, length-append buf t, size.long);
    endian = rw (get_or-append_left buf t 0 0 (omega (arith, size.long))) size.endian;
    version = rw (get_or-append_left buf t 3 0 (omega (arith, size.long))) size.version;
    total = omega (
      arith,
      size.total,
      ap (z.read_u32 e) (slice-append_left 4 12 buf t (omega (arith, size.long))),
      ap (z.read_u32 e) (slice-append_left 4 4 buf t (omega (arith, size.long))),
    );
    limit = size.limit;
  }

module _ (z : Zvariant) (e : Endian) (buf : Bytes) (n : ℕ) (size : HasSize z e buf n) where
  sections-append :
      (t : Bytes) (kind : MessageKind)
      → n ≤ length buf
      → parse_sections z e kind (buf ++ t) ≡ parse_sections z e kind buf
  sections-append t kind le =
      let lens : length (buf ++ t) ≡ length buf + length t = length-append buf t in
      let tot = size.total in
      let long = size.long in
      let fits : 16 + fields_len z e buf ≤ body_start z e buf = omega arith in
      let s8 = slice-append_left 4 8 buf t (omega arith) in
      let fl : fields_len z e (buf ++ t) ≡ fields_len z e buf =
        ap (z.read_u32 e) (slice-append_left 4 12 buf t (omega arith)) in
      let bl : body_len z e (buf ++ t) ≡ body_len z e buf =
        ap (z.read_u32 e) (slice-append_left 4 4 buf t (omega arith)) in
      parse_sections_lem z e (buf ++ t) n (HasSize-append z e buf n size t) kind (omega arith)
      ∙ rw
          (
            s8,
            fl,
            bl,
            slice-append_left (16 + fields_len z e buf - 12) 12 buf t (omega arith),
            slice-append_left (body_len z e buf) (body_start z e buf) buf t (omega arith),
            get_or-append_left buf t 2 0 (omega arith),
          )
          (sym (parse_sections_lem z e buf n size kind le))

from_byte-ne : (b : ℕ) → (from_byte b ≢ err too_short) × (from_byte b ≢ err size_overflow)
unfolding from_byte
from_byte-ne b = ground arith

module _ (z : Zvariant) (buf : Bytes) (n : ℕ) (size : bytes_needed z buf ≡ ok (some n)) where
  -- The two computations of the size agree: a buffer that holds as many bytes as `bytes_needed`
  -- asks for is never too short for `parse`, and its size does not overflow.
  pub parse-ne-short :
      n ≤ length buf → (parse z buf ≢ err too_short) × (parse z buf ≢ err size_overflow)
  parse-ne-short le =
      let (e, s) = bytes_needed-HasSize z buf n size in
      rw (parse_lem z e buf n s le) (
        >>=-ne-err (from_byte (get_or buf 1 0)) _ too_short (from_byte-ne _).0
            (λ kind. (sections-ne z e buf n s kind le).0),
        >>=-ne-err (from_byte (get_or buf 1 0)) _ size_overflow (from_byte-ne _).1
            (λ kind. (sections-ne z e buf n s kind le).1),
      )

  -- Of a buffer that holds its first message whole, `parse` reads that message and nothing behind it.
  pub parse-append : (t : Bytes) → n ≤ length buf → parse z (buf ++ t) ≡ parse z buf
  parse-append t le =
      let (e, s) = bytes_needed-HasSize z buf n size in
      parse_lem z e (buf ++ t) n (HasSize-append z e buf n s t) (omega (arith, length-append buf t))
      ∙ rw
          (
            get_or-append_left buf t 1 0 (omega (arith, s.long)),
            fun_ext (λ kind. sections-append z e buf n s t kind le),
          )
          (sym (parse_lem z e buf n s le))
