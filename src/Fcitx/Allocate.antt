-- ===== src/Fcitx/Allocate.antt =====
-- `InputContextAllocator` and `build_reply` of crates/emskin-dbus/src/fcitx.rs.
use emskin.Prelude.{
  ℕ, zero, suc, ◌+◌, ◌-◌, ◌*◌, ◌/◌, ◌%◌, ◌^◌, ◌<◌, ◌≡◌, ◌≢◌, refl, sym, ap, ◌∙◌, some, [], ◌∷◌,
  Text, Bool-cases, inl, inr, ltb, arith, drop, drop-append_exact, length,
}
use native.Mathlib.Nat.{pow-suc}
use emskin.Wire.Frame.{Frame, method_return}
use emskin.Wire.Body.{BodyCodec, object_path, byte_array}
use emskin.Wire.Builder.{
  bump, method_return_to, with_serial, finish-Keeps, body_args, add_arg, build,
}
use emskin.Wire.Builder.Serial.{bump-serial}
use emskin.Fcitx.{
  Fcitx5MethodCall, create_input_context, reply_frame, new_allocator, allocate, decimal,
  digits_before, input_context_path_prefix,
}

-- Reading decimal digits, behind the value `acc`.
abbrev read_from : ℕ → Text → ℕ
read_from acc [] = acc
read_from acc (c ∷ cs) = read_from (acc * 10 + (c - b'0')) cs

read_from-digits :
    (fuel n : ℕ) (rest : Text)
    → n < 10 ^ fuel
    → read_from 0 (digits_before fuel n rest) ≡ read_from n rest
unfolding digits_before
read_from-digits zero n rest h = ap (λ (k : ℕ). read_from k rest) (omega arith)
read_from-digits (suc fuel) n rest h = elim (Bool-cases (ltb n 10)) [
  | inl e ↦ rw e (ap (λ (k : ℕ). read_from k rest) (omega arith))
  | inr e ↦ rw e (
      read_from-digits fuel (n / 10) ((b'0' + n % 10) ∷ rest) (omega (arith, pow-suc 10 fuel))
      ∙ ap (λ (k : ℕ). read_from k rest) (omega arith))
]

decimal-injective : (m n : ℕ) → m < 2 ^ 64 → n < 2 ^ 64 → decimal m ≡ decimal n → m ≡ n
unfolding decimal
decimal-injective m n hm hn e =
    sym (read_from-digits 20 m [] (omega arith))
    ∙ ap (read_from 0) e
    ∙ read_from-digits 20 n [] (omega arith)

allocate-injective :
    (m n : ℕ) → m < 2 ^ 64 → n < 2 ^ 64 → (allocate m).0.0 ≡ (allocate n).0.0 → m ≡ n
unfolding allocate
allocate-injective m n hm hn e = decimal-injective m n hm hn (
    sym (drop-append_exact input_context_path_prefix (decimal m))
    ∙ ap (drop (length input_context_path_prefix)) e
    ∙ drop-append_exact input_context_path_prefix (decimal n))

-- The allocator behind so many allocations, and the path that the next one gives.
pub allocator : ℕ → ℕ
allocator zero = new_allocator
allocator (suc k) = (allocate (allocator k)).1

abbrev pub path_of : ℕ → Text
path_of k = (allocate (allocator k)).0.0

allocator-next : (k : ℕ) → allocator k ≡ k + 1
unfolding allocator allocate
allocator-next zero = refl
allocator-next (suc k) = omega (arith, allocator-next k)

-- The paths that one allocator gives out are all different, as long as its counter does not
-- overflow: a stale path cannot name a fresh input context.
pub allocate-distinct : (i j : ℕ) → i < j → j + 1 < 2 ^ 64 → path_of i ≢ path_of j
allocate-distinct i j less fits e =
    let same =
      allocate-injective (allocator i) (allocator j) (omega (arith, allocator-next i))
        (omega (arith, allocator-next j)) e in
    omega (arith, same, allocator-next i, allocator-next j)

module _ (c : BodyCodec) (request : Frame) where
  -- What every reply keeps to, whatever was called.
  pub record IsReply (f : Frame) (serial : ℕ) : Type 0 where
    pub kind : f.kind ≡ method_return
    pub answers : f.headers.reply_serial ≡ some request.serial
    pub destination : f.headers.destination ≡ request.headers.sender
    pub sender : f.headers.sender ≡ request.headers.destination
    pub stamped : f.serial ≡ serial
    pub nonzero : serial ≢ 0

  -- Every reply is a method return that answers the request, goes back to its sender, and carries
  -- a fresh serial that is not zero.
  pub reply_frame-IsReply :
      (m : Fcitx5MethodCall) (ic_alloc serials : ℕ)
      → let (f, _, serial) = reply_frame c request m ic_alloc serials in
        IsReply f serial × (serial ≡ bump serials)
  unfolding reply_frame build method_return_to body_args add_arg
  reply_frame-IsReply (create_input_context hints) ic_alloc serials =
      let kept = finish-Keeps (
        add_arg c
          (add_arg c (body_args (with_serial (method_return_to request) (bump serials)))
            (object_path (allocate ic_alloc).0.0))
          (byte_array (allocate ic_alloc).0.1)) in
      (
        record {
          kind = kept.kind;
          answers = kept.reply_serial;
          destination = kept.destination;
          sender = kept.sender;
          stamped = kept.serial;
          nonzero = (bump-serial serials).0;
        },
        refl,
      )
  reply_frame-IsReply _ ic_alloc serials = (
    record {
      kind = refl;
      answers = refl;
      destination = refl;
      sender = refl;
      stamped = refl;
      nonzero = (bump-serial serials).0;
    },
    refl,
  )
