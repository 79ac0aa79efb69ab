-- ===== src/Wire/Builder.antt =====
-- `SerialCounter`, `FrameBuilder` and `BodyBuilder` of crates/emskin-dbus/src/wire/frame.rs.
pub mod Serial
use emskin.Prelude.{
  ℕ, ◌+◌, ◌%◌, ◌≡◌, arith, ◌^◌, Bool, Option, none, some, List, [], ◌∷◌, ◌++◌, Bytes, Text, ◌==◌,
  if◌then◌else◌, length,
}
use emskin.Wire.Zvariant.{little}
use emskin.Wire.Header.{Headers, no_headers}
use emskin.Wire.Frame.{Frame, MessageKind, method_call, method_return, error, signal}
use emskin.Wire.Body.{Arg, BodyCodec, BodyType, Body}
use mathlib.Core.Option

-- `SerialCounter::bump`: the new counter, which is also the serial handed out.
unfoldable pub bump : ℕ → ℕ
bump counter = let next = (counter + 1) % 2 ^ 32 in if next == 0 then 1 else next

pub record FrameBuilder : Type 0 where
  pub kind : MessageKind
  pub serial : ℕ
  pub flags : ℕ
  pub headers : Headers
  pub body : Bytes

unfoldable pub new : MessageKind → FrameBuilder
unfolding no_headers
new kind = record { kind = kind; serial = 0; flags = 0; headers = no_headers; body = [] }

unfoldable pub fill_from_request : FrameBuilder → Frame → FrameBuilder
fill_from_request b request = record b {
  headers = record h {
    reply_serial = some request.serial;
    destination = request.headers.sender;
    sender = request.headers.destination;
  };
}
  where
    open b use {headers as h}

unfoldable pub method_return_to : Frame → FrameBuilder
unfolding new fill_from_request
method_return_to reply_to = fill_from_request (new method_return) reply_to

unfoldable pub error_to : Frame → Text → FrameBuilder
unfolding new fill_from_request
error_to reply_to name =
    let b = fill_from_request (new error) reply_to in
    record b { headers = record (b.headers) { error_name = some name } }

addressed : MessageKind → Text → Text → Text → FrameBuilder
unfolding new no_headers
addressed kind path interface member = record (new kind) {
  headers = record no_headers {
    path = some path;
    interface = some interface;
    member = some member;
  };
}

unfoldable pub signal_from : Text → Text → Text → FrameBuilder
unfolding addressed
signal_from path interface member = addressed signal path interface member

unfoldable pub call_to : Text → Text → Text → FrameBuilder
unfolding addressed
call_to path interface member = addressed method_call path interface member

abbrev pub with_serial : FrameBuilder → ℕ → FrameBuilder
with_serial b n = record b { serial = n }

abbrev pub with_sender : FrameBuilder → Text → FrameBuilder
with_sender b s = record b { headers = record (b.headers) { sender = some s } }

-- A body of one argument.
unfoldable pub with_body : BodyCodec → FrameBuilder → Arg → FrameBuilder
with_body c b arg = record b {
  body = c.encode_arg 0 arg;
  headers = record (b.headers) { signature = some (c.signature_of arg) };
}

pub record BodyBuilder : Type 0 where
  pub inner : FrameBuilder
  pub sig : Text

unfoldable pub body_args : FrameBuilder → BodyBuilder
body_args b = record { inner = b; sig = [] }

-- Each argument is aligned by the length of the body so far.
unfoldable pub add_arg : BodyCodec → BodyBuilder → Arg → BodyBuilder
add_arg c b arg = record {
  inner = record (b.inner) { body = b.inner.body ++ c.encode_arg (length b.inner.body) arg };
  sig = b.sig ++ c.signature_of arg;
}

finish_sig : FrameBuilder → Text → FrameBuilder
finish_sig b [] = b
finish_sig b (s ∷ ss) = record b { headers = record (b.headers) { signature = some (s ∷ ss) } }

unfoldable pub finish : BodyBuilder → FrameBuilder
unfolding finish_sig
finish b = finish_sig b.inner b.sig

-- `finish` touches the signature alone.
pub record Keeps (b b' : FrameBuilder) : Type 0 where
  pub kind : b'.kind ≡ b.kind
  pub serial : b'.serial ≡ b.serial
  pub reply_serial : b'.headers.reply_serial ≡ b.headers.reply_serial
  pub destination : b'.headers.destination ≡ b.headers.destination
  pub sender : b'.headers.sender ≡ b.headers.sender

finish_sig-Keeps : (b : FrameBuilder) (sig : Text) → Keeps b (finish_sig b sig)
unfolding finish_sig
finish_sig-Keeps b [] = ground arith
finish_sig-Keeps b (s ∷ ss) = ground arith

pub finish-Keeps : (b : BodyBuilder) → Keeps b.inner (finish b)
unfolding finish
finish-Keeps b = finish_sig-Keeps b.inner b.sig

unfoldable pub build : FrameBuilder → Frame
build b = record {
  endian = little;
  kind = b.kind;
  flags = b.flags;
  serial = b.serial;
  headers = b.headers;
  body = b.body;
}

-- `Frame::decode_body`: by the signature in the header, if there is one.
unfoldable pub decode_body : BodyCodec → (t : BodyType) → Frame → Option (Body t)
decode_body c t f = elim f.headers.signature [
  | none ↦ none
  | some sig ↦ c.decode t f.endian sig f.body
]
