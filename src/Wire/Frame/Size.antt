-- ===== src/Wire/Frame/Size.antt =====
-- `Frame::bytes_needed` of crates/emskin-dbus/src/wire/frame.rs.
use emskin.Prelude.{
  ℕ, ◌+◌, ◌*◌, ◌/◌, ◌^◌, ◌≤◌, ◌<◌, ◌≡◌, ◌≢◌, ◌↔◌, none, some, ◌++◌, Bytes, ok, err, stuck,
  >>=-eq-ok, length, take, drop, get_or, le→ltb, length-append, get_or-append_left,
  slice-append_left, arith,
}
use emskin.Wire.Zvariant.{Endian, little, big, Zvariant}
use emskin.Wire.Frame.{
  size_overflow, max_message_size, sized, bytes_needed, checked_add, align8, parse_endian,
}

-- `Endian::read_u32` returns a `u32`.
pub record ReadsU32 (z : Zvariant) : Type 0 where
  pub read_u32-lt : (e : Endian) (b : Bytes) → z.read_u32 e b < 2 ^ 32

module _ (z : Zvariant) where
  -- Only the fixed header is read.
  sized-append : (buf t : Bytes) → 16 ≤ length buf → sized z (buf ++ t) ≡ sized z buf
  unfolding sized
  sized-append buf t h = rw (
    get_or-append_left buf t 0 0 (omega arith),
    get_or-append_left buf t 3 0 (omega arith),
    slice-append_left 4 4 buf t (omega arith),
    slice-append_left 4 12 buf t (omega arith),
  )

  -- Once the fixed header is there, the answer does not change when more bytes arrive.
  pub bytes_needed-append :
      (buf t : Bytes)
      → bytes_needed z buf ≢ ok none
      → bytes_needed z (buf ++ t) ≡ bytes_needed z buf
  unfolding bytes_needed
  bytes_needed-append buf t h = ground (arith, length-append buf t, sized-append buf t)

  sized-bound :
      (buf : Bytes) (n : ℕ) → sized z buf ≡ ok (some n) → (16 ≤ n) × (n ≤ max_message_size)
  unfolding sized checked_add align8
  sized-bound buf n h = ground arith

  sized-ne-none : (buf : Bytes) → sized z buf ≢ ok none
  unfolding sized checked_add align8 parse_endian
  sized-ne-none buf h = ground arith

  -- A size that is reported holds the fixed header and keeps to the limit.
  pub bytes_needed-bound :
      (buf : Bytes) (n : ℕ) → bytes_needed z buf ≡ ok (some n) → (16 ≤ n) × (n ≤ max_message_size)
  unfolding bytes_needed
  bytes_needed-bound buf n h = ground (arith, sized-bound buf n)

  -- The size is not known yet exactly while fewer than 16 bytes are there.
  pub bytes_needed-none_iff : (buf : Bytes) → (bytes_needed z buf ≡ ok none) ↔ (length buf < 16)
  unfolding bytes_needed
  bytes_needed-none_iff buf = ground (arith, sized-ne-none buf)

  sized-ne-overflow : ReadsU32 z → (buf : Bytes) → sized z buf ≢ err size_overflow
  unfolding sized checked_add align8 parse_endian
  sized-ne-overflow r buf h = ground (
    arith,
    r.read_u32-lt little (take 4 (drop 4 buf)),
    r.read_u32-lt big (take 4 (drop 4 buf)),
    r.read_u32-lt little (take 4 (drop 12 buf)),
    r.read_u32-lt big (take 4 (drop 12 buf)),
  )

  sized-ne-stuck : (buf : Bytes) → sized z buf ≢ stuck
  unfolding sized checked_add align8 parse_endian
  sized-ne-stuck buf h = ground arith

  -- Where `read_u32` gives 32-bit numbers, `size_overflow` is never reported: the two lengths have 32 bits, and `usize` has 64.
  pub bytes_needed-ne-overflow : ReadsU32 z → (buf : Bytes) → bytes_needed z buf ≢ err size_overflow
  unfolding bytes_needed
  bytes_needed-ne-overflow r buf h = ground (arith, sized-ne-overflow r buf)

  pub bytes_needed-ne-stuck : (buf : Bytes) → bytes_needed z buf ≢ stuck
  unfolding bytes_needed
  bytes_needed-ne-stuck buf h = ground (arith, sized-ne-stuck buf)

  -- The lengths that a header declares, and where the body starts.
  abbrev pub body_len : Endian → Bytes → ℕ
  body_len e buf = z.read_u32 e (take 4 (drop 4 buf))

  abbrev pub fields_len : Endian → Bytes → ℕ
  fields_len e buf = z.read_u32 e (take 4 (drop 12 buf))

  abbrev pub body_start : Endian → Bytes → ℕ
  body_start e buf = (23 + fields_len e buf) / 8 * 8

  -- What a size that is reported says of the fixed header.
  pub record HasSize (e : Endian) (buf : Bytes) (n : ℕ) : Type 0 where
    pub long : 16 ≤ length buf
    pub endian : parse_endian (get_or buf 0 0) ≡ ok e
    pub version : get_or buf 3 0 ≡ 1
    pub total : n ≡ body_start e buf + body_len e buf
    pub limit : n ≤ max_message_size

  sized-HasSize :
      (buf : Bytes) (n : ℕ)
      → 16 ≤ length buf
      → sized z buf ≡ ok (some n)
      → (e : Endian) × HasSize e buf n
  unfolding sized checked_add align8
  sized-HasSize buf n le h =
      let (e, p, rest) = >>=-eq-ok (parse_endian (get_or buf 0 0)) _ h in
      (e, ground (arith, p, rest))

  pub bytes_needed-HasSize :
      (buf : Bytes) (n : ℕ) → bytes_needed z buf ≡ ok (some n) → (e : Endian) × HasSize e buf n
  unfolding bytes_needed
  bytes_needed-HasSize buf n h = sized-HasSize buf n (ground arith) (ground arith)

  -- The converse: a header that declares a size within the limit has that size reported.
  pub HasSize-bytes_needed :
      (e : Endian) (buf : Bytes) (n : ℕ) → HasSize e buf n → bytes_needed z buf ≡ ok (some n)
  unfolding bytes_needed sized checked_add align8
  HasSize-bytes_needed e buf n size =
      rw (le→ltb (length buf) 16 size.long, size.endian, size.version)
        (ground (arith, size.total, size.limit))
