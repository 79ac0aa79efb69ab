-- ===== src/Wire/Header.antt =====
-- `FieldCode` and `Headers` of crates/emskin-dbus/src/wire/frame.rs.
pub mod RoundTrip
use emskin.Prelude.{
  ℕ, ◌+◌, Bool, true, false, Option, none, some, List, [], ◌∷◌, ◌++◌, map, Text, ◌==◌,
  if◌then◌else◌, length,
}
use emskin.Wire.Zvariant.{Value, object_path, str, u32, Written, value, bare_signature, Zvariant}

pub data FieldCode : Type 0 where
  path interface member error_name reply_serial destination sender signature unix_fds : FieldCode

-- `fc as u8`
pub to_byte : FieldCode → ℕ
to_byte FieldCode.path = 1
to_byte FieldCode.interface = 2
to_byte FieldCode.member = 3
to_byte FieldCode.error_name = 4
to_byte FieldCode.reply_serial = 5
to_byte FieldCode.destination = 6
to_byte FieldCode.sender = 7
to_byte FieldCode.signature = 8
to_byte FieldCode.unix_fds = 9

pub from_byte : ℕ → Option FieldCode
from_byte b =
    if b == 1
    then some FieldCode.path
    else if b == 2
    then some FieldCode.interface
    else if b == 3
    then some FieldCode.member
    else if b == 4
    then some FieldCode.error_name
    else if b == 5
    then some FieldCode.reply_serial
    else if b == 6
    then some FieldCode.destination
    else if b == 7
    then some FieldCode.sender
    else if b == 8
    then some FieldCode.signature
    else if b == 9
    then some FieldCode.unix_fds
    else none

pub record Headers : Type 0 where
  pub path : Option Text
  pub interface : Option Text
  pub member : Option Text
  pub error_name : Option Text
  pub destination : Option Text
  pub sender : Option Text
  pub signature : Option Text
  pub reply_serial : Option ℕ
  pub unix_fds : Option ℕ

-- `Headers::default()`
unfoldable pub no_headers : Headers
no_headers = record {
  path = none;
  interface = none;
  member = none;
  error_name = none;
  destination = none;
  sender = none;
  signature = none;
  reply_serial = none;
  unix_fds = none;
}

set_path : Headers → Value → Headers
set_path out (object_path p) = record out { path = some p }
set_path out v = out

module _ (z : Zvariant) where
  set_signature : Headers → Value → Headers
  set_signature out (Value.signature s) = record out { signature = some (z.to_string_no_parens s) }
  set_signature out v = out

  -- The `match fc` of `Headers::from_raw`.
  set_field : Headers → FieldCode → Value → Headers
  set_field out FieldCode.path v = set_path out v
  set_field out FieldCode.interface v = record out { interface = z.try_string v }
  set_field out FieldCode.member v = record out { member = z.try_string v }
  set_field out FieldCode.error_name v = record out { error_name = z.try_string v }
  set_field out FieldCode.reply_serial v = record out { reply_serial = z.try_u32 v }
  set_field out FieldCode.destination v = record out { destination = z.try_string v }
  set_field out FieldCode.sender v = record out { sender = z.try_string v }
  set_field out FieldCode.signature v = set_signature out v
  set_field out FieldCode.unix_fds v = record out { unix_fds = z.try_u32 v }

  -- An unknown code is skipped.
  set_raw : Headers → ℕ × Value → Headers
  set_raw out (code, v) = elim (from_byte code) [ none ↦ out | some fc ↦ set_field out fc v ]

  from_raw_into : Headers → List (ℕ × Value) → Headers
  from_raw_into out [] = out
  from_raw_into out (f ∷ fs) = from_raw_into (set_raw out f) fs

  unfoldable pub from_raw : List (ℕ × Value) → Headers
  unfolding from_raw_into set_raw set_field set_path set_signature
  from_raw raw = from_raw_into no_headers raw

  path_field : Option Text → List (ℕ × Written)
  path_field none = []
  path_field (some p) =
      if z.is_object_path p then (to_byte FieldCode.path, value (object_path p)) ∷ [] else []

str_field : FieldCode → Option Text → List (ℕ × Written)
str_field fc none = []
str_field fc (some s) = (to_byte fc, value (str s)) ∷ []

u32_field : FieldCode → Option ℕ → List (ℕ × Written)
u32_field fc none = []
u32_field fc (some n) = (to_byte fc, value (u32 n)) ∷ []

signature_field : Option Text → List (ℕ × Written)
signature_field none = []
signature_field (some s) = (to_byte FieldCode.signature, bare_signature s) ∷ []

-- `Serialize for Headers`: the entries, in the order in which they are written.
unfoldable pub to_raw : Zvariant → Headers → List (ℕ × Written)
unfolding path_field str_field u32_field signature_field
to_raw z h =
    path_field z h.path
    ++ (str_field FieldCode.interface h.interface
        ++ (str_field FieldCode.member h.member
            ++ (str_field FieldCode.error_name h.error_name
                ++ (u32_field FieldCode.reply_serial h.reply_serial
                    ++ (str_field FieldCode.destination h.destination
                        ++ (str_field FieldCode.sender h.sender
                            ++ (signature_field h.signature
                                ++ u32_field FieldCode.unix_fds h.unix_fds)))))))

is_some {ℓ} : {A : Type ℓ} → Option A → ℕ
is_some none = 0
is_some (some a) = 1

-- `Headers::count`
unfoldable pub count : Headers → ℕ
unfolding is_some
count h =
    is_some h.path
    + is_some h.interface
    + is_some h.member
    + is_some h.error_name
    + is_some h.reply_serial
    + is_some h.destination
    + is_some h.sender
    + is_some h.signature
    + is_some h.unix_fds
