-- ===== src/Runs/Demo.antt =====
-- Small stand-ins for `zvariant` and `serde`, and messages to run the broker on.
use emskin.Prelude.{
  ℕ, suc, ◌+◌, ◌*◌, ◌%◌, ◌^◌, ◌<◌, ◌≡◌, refl, arith, Bool, Option, none, some, List, [], ◌∷◌, ◌++◌,
  Bytes, Text, ok, length, take, drop, get_or, codes, ◌==◌, if◌then◌else◌, false,
}
use emskin.Wire.Zvariant.{
  Endian, little, big, Value, object_path, str, signature, u32, other, Written, value,
  bare_signature, Zvariant,
}
use emskin.Wire.Header.RoundTrip.{Converts}
use emskin.Wire.Frame.{Frame, method_call, endian_u32}
use emskin.Wire.Frame.Size.{ReadsU32}
use emskin.Wire.Frame.Layout.{ReadsBack}
use emskin.Wire.Body.{Arg, text, byte_array, int32, chunks, BodyType, string, Body, BodyCodec}
use emskin.Proxy.Connection.{Floats}

starts_with_slash : Text → Bool
starts_with_slash s = get_or s 0 0 == b'/'

text_of : Value → Option Text
text_of (object_path s) = some s
text_of (str s) = some s
text_of (signature s) = some s
text_of v = none

number_of : Value → Option ℕ
number_of (u32 n) = some n
number_of v = none

word : Endian → Bytes → ℕ
word little b =
    (get_or b 0 0 + get_or b 1 0 * 2 ^ 8 + get_or b 2 0 * 2 ^ 16 + get_or b 3 0 * 2 ^ 24) % 2 ^ 32
word big b =
    (get_or b 3 0 + get_or b 2 0 * 2 ^ 8 + get_or b 1 0 * 2 ^ 16 + get_or b 0 0 * 2 ^ 24) % 2 ^ 32

-- An entry: the code, the kind of the value, its length and its bytes.
written_value : Written → Bytes
written_value (value (object_path s)) = 1 ∷ length s ∷ s
written_value (value (str s)) = 2 ∷ length s ∷ s
written_value (value (signature s)) = 3 ∷ length s ∷ s
written_value (value (u32 n)) = 4 ∷ 1 ∷ n ∷ []
written_value (value (other n)) = 5 ∷ 1 ∷ n ∷ []
written_value (bare_signature s) = 3 ∷ length s ∷ s

entries : List (ℕ × Written) → Bytes
unfolding written_value
entries [] = []
entries (w ∷ ws) = w.0 ∷ (written_value w.1 ++ entries ws)

value_of : ℕ → Bytes → Value
value_of k b =
    if k == 1
    then object_path b
    else if k == 2
    then str b
    else if k == 3
    then signature b
    else if k == 4
    then u32 (get_or b 0 0)
    else other (get_or b 0 0)

read_entries : ℕ → Bytes → List (ℕ × Value)
unfolding value_of
read_entries (suc fuel) (code ∷ k ∷ n ∷ b) =
    (code, value_of k (take n b)) ∷ read_entries fuel (drop n b)
read_entries _ _ = []

unfoldable pub demo : Zvariant
unfolding starts_with_slash text_of number_of word entries read_entries endian_u32
demo = record {
  is_object_path = starts_with_slash;
  try_string = text_of;
  try_u32 = number_of;
  parse_signature = λ s. s;
  to_string_no_parens = λ s. s;
  read_u32 = word;
  to_bytes = λ e ws. endian_u32 e (length (entries ws)) ++ entries ws;
  deserialize = λ e b. ok (read_entries (length b) (drop 4 b));
}

pub demo-Converts : Converts demo
unfolding demo
demo-Converts = record { string_of_str = λ s. refl; u32_of_u32 = λ n. refl }

word-lt : (e : Endian) (b : Bytes) → word e b < 2 ^ 32
unfolding word
word-lt little b = omega arith
word-lt big b = omega arith

pub demo-ReadsU32 : ReadsU32 demo
unfolding demo
demo-ReadsU32 = record { read_u32-lt = word-lt }

word-endian_u32 : (e : Endian) (n : ℕ) → n < 2 ^ 32 → word e (endian_u32 e n) ≡ n
unfolding word endian_u32
word-endian_u32 little n h = omega arith
word-endian_u32 big n h = omega arith

pub demo-ReadsBack : ReadsBack demo
unfolding demo
demo-ReadsBack = record { read-endian_u32 = word-endian_u32 }

written_arg : Arg → Bytes
written_arg (text s) = length s ∷ s
written_arg (Arg.object_path s) = length s ∷ s
written_arg (byte_array b) = length b ∷ b
written_arg arg = []

arg_signature : Arg → Text
arg_signature (text s) = codes "s"
arg_signature (Arg.object_path s) = codes "o"
arg_signature (byte_array b) = codes "ay"
arg_signature (int32 i) = codes "i"
arg_signature (chunks cs) = codes "a(si)"

read_body : (t : BodyType) → Endian → Text → Bytes → Option (Body t)
read_body string e s b = some (drop 1 b)
read_body _ e s b = none

unfoldable pub demo_codec : BodyCodec
unfolding written_arg arg_signature read_body
demo_codec = record {
  encode_arg = λ k a. written_arg a;
  signature_of = arg_signature;
  decode = read_body;
}

unfoldable pub demo_floats : Floats
demo_floats = record { is_positive = λ n. false; one = 0; div_round = λ v s. v }

-- A call of the bus, and the call by which a fcitx client takes the focus.
abbrev pub hello : Frame
hello = record {
  endian = little;
  kind = method_call;
  flags = 0;
  serial = 7;
  headers = record {
    path = some (codes "/");
    interface = none;
    member = some (codes "Hi");
    error_name = none;
    destination = some (codes "org.a");
    sender = none;
    signature = none;
    reply_serial = none;
    unix_fds = some 1;
  };
  body = 1 ∷ 2 ∷ [];
}

abbrev pub focus_call : Frame
focus_call = record {
  endian = little;
  kind = method_call;
  flags = 0;
  serial = 9;
  headers = record {
    path = some (codes "/ic/1");
    interface = some (codes "org.fcitx.Fcitx.InputContext1");
    member = some (codes "FocusIn");
    error_name = none;
    destination = some (codes ":1.5");
    sender = some (codes ":1.9");
    signature = none;
    reply_serial = none;
    unix_fds = none;
  };
  body = [];
}
