-- ===== src/Wire/Body.antt =====
-- Message bodies. `zvariant` and `serde` encode and decode them, so the two directions are an
-- interface; the code asks for the types listed here and for no others.
use emskin.Prelude.{ℕ, Option, List, Bytes, Text}
use emskin.Prelude.Int.{ℤ}
use emskin.Wire.Zvariant.{Endian}

-- The arguments that the broker writes.
pub data Arg : Type 0 where
  text object_path : Text → Arg
  byte_array : Bytes → Arg
  int32 : ℤ → Arg
  chunks : List (Text × ℕ) → Arg

-- The types `T` at which `decode_body::<T>` is called. An `f64` is its bit pattern.
pub data BodyType : Type 0 where
  string three_strings string_pairs u64 four_i32 four_i32_f64 two_i32 string_two_u32 two_u32 :
      BodyType

abbrev pub Body : BodyType → Type 0
Body string = Text
Body three_strings = Text × Text × Text
Body string_pairs = List (Text × Text)
Body u64 = ℕ
Body four_i32 = ℤ × ℤ × ℤ × ℤ
Body four_i32_f64 = ℤ × ℤ × ℤ × ℤ × ℕ
Body two_i32 = ℤ × ℤ
Body string_two_u32 = Text × ℕ × ℕ
Body two_u32 = ℕ × ℕ

pub record BodyCodec : Type 0 where
  -- `to_bytes` at the given position of a little-endian body.
  pub encode_arg : ℕ → Arg → Bytes
  -- `T::SIGNATURE.to_string_no_parens()`
  pub signature_of : Arg → Text
  -- `deserialize_for_signature` by the signature of the frame.
  pub decode : (t : BodyType) → Endian → Text → Bytes → Option (Body t)
