-- ===== src/Wire/Zvariant.antt =====
-- What crates/emskin-dbus/src/wire/frame.rs uses of the crate `zvariant`, which is not in the
-- repository: an interface that the definitions take as a parameter.
use emskin.Prelude.{ℕ, Bool, Option, List, map, Bytes, Text, Result}

pub data Endian : Type 0 where
  little big : Endian

-- `zvariant::Value`: the variants that the code tells apart. `other` stands for all the rest.
pub data Value : Type 0 where
  object_path str signature : Text → Value
  u32 other : ℕ → Value

-- What the code serializes as a variant: a value, or the wrapper `BareSignature`.
pub data Written : Type 0 where
  value : Value → Written
  bare_signature : Text → Written

pub record Zvariant : Type 0 where
  -- `ObjectPath::try_from(s).is_ok()`.
  pub is_object_path : Text → Bool
  -- `String::try_from(&value).ok()` and `u32::try_from(&value).ok()`.
  pub try_string : Value → Option Text
  pub try_u32 : Value → Option ℕ
  -- `Signature`, named by its text, and `Signature::to_string_no_parens`.
  pub parse_signature : Text → Text
  pub to_string_no_parens : Text → Text
  pub read_u32 : Endian → Bytes → ℕ
  -- The array `a(yv)` at position 12 of a message: the length in four bytes, then the entries.
  pub to_bytes : Endian → List (ℕ × Written) → Bytes
  pub deserialize : Endian → Bytes → Result Text (List (ℕ × Value))

-- What is read back of a variant.
unfoldable pub received : Zvariant → Written → Value
received z (value v) = v
received z (bare_signature s) = signature (z.parse_signature s)

unfoldable pub received_fields : Zvariant → List (ℕ × Written) → List (ℕ × Value)
unfolding received
received_fields z = map (λ f. (f.0, received z f.1))
