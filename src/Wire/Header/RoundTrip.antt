-- ===== src/Wire/Header/RoundTrip.antt =====
-- What `Headers::from_raw` reads back of what `Serialize for Headers` writes
-- (crates/emskin-dbus/src/wire/frame.rs), and the number of entries that `Headers::count` announces.
use emskin.Prelude.{
  ℕ, ◌≡◌, refl, ◌∙◌, true, Option, none, some, List, ◌++◌, Text, length, length-append, arith,
}
use emskin.Wire.Zvariant.{str, u32, Written, Zvariant, received, received_fields}
use emskin.Wire.Header.{
  FieldCode, to_byte, from_byte, Headers, no_headers, from_raw, from_raw_into, set_raw, set_field,
  set_path, set_signature, to_raw, path_field, str_field, u32_field, signature_field, count,
  is_some,
}

-- Every known field code survives the wire.
pub from_byte-to_byte : (fc : FieldCode) → from_byte (to_byte fc) ≡ some fc
unfolding from_byte to_byte
from_byte-to_byte FieldCode.path = refl
from_byte-to_byte _ = refl

-- The conversions out of a `Value` accept the variant that they are for.
pub record Converts (z : Zvariant) : Type 0 where
  pub string_of_str : (s : Text) → z.try_string (str s) ≡ some s
  pub u32_of_u32 : (n : ℕ) → z.try_u32 (u32 n) ≡ some n

-- The path, where there is one, is an object path.
abbrev pub HasPath : Zvariant → Option Text → Type 0
HasPath z none = Unit {0}
HasPath z (some p) = z.is_object_path p ≡ true

-- The signature, where there is one, is its own spelling without outer parentheses.
abbrev pub HasSignature : Zvariant → Option Text → Type 0
HasSignature z none = Unit {0}
HasSignature z (some s) = z.to_string_no_parens (z.parse_signature s) ≡ s

length-path_field :
    (z : Zvariant) (o : Option Text) → HasPath z o → length (path_field z o) ≡ is_some o
unfolding path_field is_some
length-path_field z none p = refl
length-path_field z (some s) p = ground arith

length-str_field : (fc : FieldCode) (o : Option Text) → length (str_field fc o) ≡ is_some o
unfolding str_field is_some
length-str_field fc none = refl
length-str_field fc (some s) = refl

length-u32_field : (fc : FieldCode) (o : Option ℕ) → length (u32_field fc o) ≡ is_some o
unfolding u32_field is_some
length-u32_field fc none = refl
length-u32_field fc (some n) = refl

length-signature_field : (o : Option Text) → length (signature_field o) ≡ is_some o
unfolding signature_field is_some
length-signature_field none = refl
length-signature_field (some s) = refl

-- The fields that hold a text, and such a field set anew.
abbrev IsText : FieldCode → Type 0
IsText FieldCode.path = ⊥
IsText FieldCode.reply_serial = ⊥
IsText FieldCode.signature = ⊥
IsText FieldCode.unix_fds = ⊥
IsText _ = Unit {0}

abbrev text_of : FieldCode → Headers → Option Text
text_of FieldCode.interface h = h.interface
text_of FieldCode.member h = h.member
text_of FieldCode.error_name h = h.error_name
text_of FieldCode.destination h = h.destination
text_of FieldCode.sender h = h.sender
text_of _ h = none

abbrev with_text : FieldCode → Headers → Option Text → Headers
with_text FieldCode.interface h o = record h { interface = o }
with_text FieldCode.member h o = record h { member = o }
with_text FieldCode.error_name h o = record h { error_name = o }
with_text FieldCode.destination h o = record h { destination = o }
with_text FieldCode.sender h o = record h { sender = o }
with_text _ h o = h

module _ (z : Zvariant) (c : Converts z) where
  read_into : Headers → List (ℕ × Written) → Headers
  unfolding received_fields received from_raw_into set_raw set_field set_path set_signature
      from_byte to_byte
  read_into out ws = from_raw_into z out (received_fields z ws)

  -- One entry at a time: an absent field writes nothing, and a present one is read back.
  read_path :
      (out : Headers) (o : Option Text) (ws : List (ℕ × Written))
      → out.path ≡ none
      → HasPath z o
      → read_into out (path_field z o ++ ws) ≡ read_into (record out { path = o }) ws
  unfolding read_into path_field
  read_path out none ws e p = ground arith
  read_path out (some s) ws e p = ground arith

  read_text :
      (fc : FieldCode) (out : Headers) (o : Option Text) (ws : List (ℕ × Written))
      → IsText fc
      → text_of fc out ≡ none
      → read_into out (str_field fc o ++ ws) ≡ read_into (with_text fc out o) ws
  unfolding read_into str_field
  read_text FieldCode.path out o ws t e = absurd t
  read_text fc out none ws t e = ground arith
  read_text fc out (some s) ws t e = ground (arith, c.string_of_str s)

  read_reply_serial :
      (out : Headers) (o : Option ℕ) (ws : List (ℕ × Written))
      → out.reply_serial ≡ none
      → read_into out (u32_field FieldCode.reply_serial o ++ ws)
        ≡ read_into (record out { reply_serial = o }) ws
  unfolding read_into u32_field
  read_reply_serial out none ws e = ground arith
  read_reply_serial out (some n) ws e = ground (arith, c.u32_of_u32 n)

  read_signature :
      (out : Headers) (o : Option Text) (ws : List (ℕ × Written))
      → out.signature ≡ none
      → HasSignature z o
      → read_into out (signature_field o ++ ws) ≡ read_into (record out { signature = o }) ws
  unfolding read_into signature_field
  read_signature out none ws e p = ground arith
  read_signature out (some s) ws e p = ground arith

  read_unix_fds :
      (out : Headers) (o : Option ℕ)
      → out.unix_fds ≡ none
      → read_into out (u32_field FieldCode.unix_fds o) ≡ record out { unix_fds = o }
  unfolding read_into u32_field
  read_unix_fds out none e = ground arith
  read_unix_fds out (some n) e = ground (arith, c.u32_of_u32 n)

  read_all :
      (h : Headers)
      → HasPath z h.path
      → HasSignature z h.signature
      → read_into no_headers (to_raw z h) ≡ h
  unfolding to_raw no_headers
  read_all h p s =
      read_path _ h.path _ refl p
      ∙ read_text FieldCode.interface _ h.interface _ tt refl
      ∙ read_text FieldCode.member _ h.member _ tt refl
      ∙ read_text FieldCode.error_name _ h.error_name _ tt refl
      ∙ read_reply_serial _ h.reply_serial _ refl
      ∙ read_text FieldCode.destination _ h.destination _ tt refl
      ∙ read_text FieldCode.sender _ h.sender _ tt refl
      ∙ read_signature _ h.signature _ refl s
      ∙ read_unix_fds _ h.unix_fds refl

  -- Headers whose path and signature are well spelled come back as they were written.
  pub from_raw-to_raw :
      (h : Headers)
      → HasPath z h.path
      → HasSignature z h.signature
      → from_raw z (received_fields z (to_raw z h)) ≡ h
  unfolding from_raw read_into
  from_raw-to_raw h p s = read_all h p s

-- `count` announces as many entries as are written, if the path is an object path.
pub length-to_raw : (z : Zvariant) (h : Headers) → HasPath z h.path → length (to_raw z h) ≡ count h
unfolding to_raw count is_some
length-to_raw z h p = simp length-append (
    omega (
      arith,
      length-path_field z h.path p,
      length-str_field,
      length-u32_field,
      length-signature_field,
    ))
