-- ===== src/Wire/Frame/RoundTrip.antt =====
-- `Frame::parse` behind `Frame::encode` (crates/emskin-dbus/src/wire/frame.rs).
use emskin.Prelude.{◌≡◌, refl, ◌∙◌, false, some, ◌++◌, Bytes, ok, length, arith, ◌==◌}
use emskin.Wire.Zvariant.{Zvariant}
use emskin.Wire.Header.{to_raw}
use emskin.Wire.Header.RoundTrip.{Converts, from_raw-to_raw}
use emskin.Wire.Frame.{Frame, encode, parse, bytes_needed}
use emskin.Wire.Frame.Parse.{parse_lem, parse_sections_lem, parse-append}
use emskin.Wire.Frame.Size.{HasSize-bytes_needed, bytes_needed-append}
use emskin.Wire.Frame.Layout.{
  ReadsBack, Writes, IsSendable, layout, HasSize-encode, kind_lem, serial_lem, entries_lem,
  body_lem, flags_lem,
}

module _ (z : Zvariant) (r : ReadsBack z) (f : Frame) (w : Writes z f.endian (to_raw z f.headers))
    (s : IsSendable z f) where
  parse-encode_lem : Converts z → parse z (encode z f) ≡ ok f
  parse-encode_lem c =
      let (k, l) = layout z r f w s in
      let size = HasSize-encode z r f w s k l in
      parse_lem z f.endian (encode z f) _ size (omega arith)
      ∙ rw (kind_lem z r f w s k l) (
          parse_sections_lem z f.endian (encode z f) _ size f.kind (omega arith)
          ∙ rw
              (
                serial_lem z r f w s k l,
                entries_lem z r f w s k l,
                body_lem z r f w s k l,
                flags_lem z r f w s k l,
                from_raw-to_raw z c f.headers s.path s.signature,
                nonzero,
              )
              refl)
    where
      nonzero : (f.serial == 0) ≡ false
      nonzero = ground (arith, s.nonzero)

  bytes_needed-encode_lem : bytes_needed z (encode z f) ≡ ok (some (length (encode z f)))
  bytes_needed-encode_lem =
      let (k, l) = layout z r f w s in
      HasSize-bytes_needed z f.endian (encode z f) _ (HasSize-encode z r f w s k l)

  -- The size of an encoded frame that the broker can send is read off its first bytes, whatever
  -- follows it.
  pub bytes_needed-encode :
      (rest : Bytes) → bytes_needed z (encode z f ++ rest) ≡ ok (some (length (encode z f)))
  bytes_needed-encode rest =
      bytes_needed-append z (encode z f) rest (λ h. cc (bytes_needed-encode_lem))
      ∙ bytes_needed-encode_lem

  -- A frame that the broker can send (`IsSendable`, and header fields that `zvariant` writes and
  -- reads back), encoded and with anything behind it, is parsed to the frame that it was.
  pub parse-encode : Converts z → (rest : Bytes) → parse z (encode z f ++ rest) ≡ ok f
  parse-encode c rest =
      parse-append z (encode z f) _ bytes_needed-encode_lem rest (omega arith) ∙ parse-encode_lem c
