-- ===== src/Wire/Frame/Layout.antt =====
-- Where `Frame::encode` of crates/emskin-dbus/src/wire/frame.rs puts the parts of a frame.
use emskin.Prelude.{
  ℕ, zero, suc, ◌+◌, ◌-◌, ◌*◌, ◌/◌, ◌%◌, ◌^◌, ◌≤◌, ◌<◌, ◌≡◌, ◌≢◌, refl, sym, ap, ◌∙◌, List, [], ◌∷◌,
  ◌++◌, Bytes, ok, length, take, drop, get_or, Bool-cases, inl, inr, length-append, replicate,
  take_all, take-append_exact, drop-append_exact, append_assoc, append-nil, arith, ◌==◌,
}
use emskin.Wire.Zvariant.{Endian, little, big, Written, Zvariant, received_fields}
use emskin.Wire.Header.{to_raw}
use emskin.Wire.Header.RoundTrip.{HasPath, HasSignature}
use emskin.Wire.Frame.{
  Frame, MessageKind, method_call, to_byte, from_byte, endian_u32, encode_head, encode, pad8,
  marker, parse_endian, max_message_size,
}
use emskin.Wire.Frame.Size.{HasSize, body_len, fields_len, body_start}

pub from_byte-to_byte : (k : MessageKind) → from_byte (to_byte k) ≡ ok k
unfolding from_byte to_byte
from_byte-to_byte method_call = refl
from_byte-to_byte _ = refl

pub parse_endian-marker : (e : Endian) → parse_endian (marker e) ≡ ok e
unfolding parse_endian
parse_endian-marker little = refl
parse_endian-marker big = refl

-- The padding adds zero bytes up to the next multiple of eight.
pad8_lem :
    (fuel : ℕ) (out : Bytes)
    → (8 - length out % 8) % 8 ≤ fuel
    → (k : ℕ) × (pad8 fuel out ≡ out ++ replicate k 0) × (length out + k ≡ (length out + 7) / 8 * 8)
unfolding pad8
pad8_lem zero out h = (0, sym (append-nil out), omega arith)
pad8_lem (suc fuel) out h = elim (Bool-cases (length out % 8 == 0)) [
  | inl e ↦ (0, rw e (sym (append-nil out)), ground arith)
  | inr e ↦
      let (k, p, q) =
        pad8_lem fuel (out ++ (0 ∷ [])) (ground (arith, length-append out (0 ∷ []))) in
      (
        suc k,
        rw e (p ∙ append_assoc out (0 ∷ []) (replicate k 0)),
        ground (arith, length-append out (0 ∷ [])),
      )
]

length-replicate : (n : ℕ) → length (replicate {A = ℕ} n 0) ≡ n
length-replicate zero = refl
length-replicate (suc n) = ap suc (length-replicate n)

length-endian_u32 : (e : Endian) (n : ℕ) → length (endian_u32 e n) ≡ 4
unfolding endian_u32
length-endian_u32 little n = refl
length-endian_u32 big n = refl

module _ (e : Endian) (a b c d n m : ℕ) (xs : Bytes) where
  abbrev pub prefixed : Bytes
  prefixed = a ∷ b ∷ c ∷ d ∷ (endian_u32 e n ++ (endian_u32 e m ++ xs))

-- The two words behind the first four bytes, and what follows them.
prefixed_slices :
    (e : Endian) (a b c d n m : ℕ) (xs : Bytes)
    → (take 4 (drop 4 (prefixed e a b c d n m xs)) ≡ endian_u32 e n)
      × (take 4 (drop 8 (prefixed e a b c d n m xs)) ≡ endian_u32 e m)
      × (drop 12 (prefixed e a b c d n m xs) ≡ xs)
unfolding endian_u32
prefixed_slices little a b c d n m xs = (refl, refl, refl)
prefixed_slices big a b c d n m xs = (refl, refl, refl)

take-endian_u32 :
    (e : Endian) (n : ℕ) (xs ys : Bytes) → take 4 ((endian_u32 e n ++ xs) ++ ys) ≡ endian_u32 e n
unfolding endian_u32
take-endian_u32 little n xs ys = refl
take-endian_u32 big n xs ys = refl

-- `Endian::read_u32` reads what `to_le_bytes` and `to_be_bytes` write.
pub record ReadsBack (z : Zvariant) : Type 0 where
  pub read-endian_u32 : (e : Endian) (n : ℕ) → n < 2 ^ 32 → z.read_u32 e (endian_u32 e n) ≡ n

-- The array of header fields is written as its length in four bytes and the entries, and read back.
pub record Writes (z : Zvariant) (e : Endian) (ws : List (ℕ × Written)) : Type 0 where
  pub entries : Bytes
  pub short : length entries < 2 ^ 32
  pub written : z.to_bytes e ws ≡ endian_u32 e (length entries) ++ entries
  pub read_back : z.deserialize e (z.to_bytes e ws) ≡ ok (received_fields z ws)

-- A frame that the broker can send: its words fit, its serial is not zero, its headers are well
-- spelled, and the whole message keeps to the limit.
pub record IsSendable (z : Zvariant) (f : Frame) : Type 0 where
  pub nonzero : f.serial ≢ 0
  pub serial_fits : f.serial < 2 ^ 32
  pub body_fits : length f.body < 2 ^ 32
  pub path : HasPath z f.headers.path
  pub signature : HasSignature z f.headers.signature
  pub within : length (encode z f) ≤ max_message_size

module _ (z : Zvariant) (r : ReadsBack z) (f : Frame) (w : Writes z f.endian (to_raw z f.headers))
    (s : IsSendable z f) where
  abbrev pub fields : Bytes
  fields = z.to_bytes f.endian (to_raw z f.headers)

  -- The message as one list, with the number of padding bytes.
  pub record Layout (k : ℕ) : Type 0 where
    pub whole :
        encode z f
        ≡ prefixed f.endian
            (marker f.endian)
            (to_byte f.kind)
            f.flags
            1
            (length f.body)
            f.serial
            (fields ++ (replicate k 0 ++ f.body))
    pub padded : encode z f ≡ (encode_head z f ++ replicate k 0) ++ f.body
    pub aligned : 16 + length w.entries + k ≡ (23 + length w.entries) / 8 * 8

  length-fields : length fields ≡ 4 + length w.entries
  length-fields = omega (
    arith,
    ap length w.written,
    length-append (endian_u32 f.endian (length w.entries)) w.entries,
    length-endian_u32 f.endian (length w.entries),
  )

  length-encode_head : length (encode_head z f) ≡ 16 + length w.entries
  unfolding encode_head
  length-encode_head = simp (length-append, length-endian_u32) (omega (arith, length-fields))

  pub layout : (k : ℕ) × Layout k
  layout =
      let (k, p, q) = pad8_lem 8 (encode_head z f) (omega arith) in
      (
        k,
        record {
          whole = whole_of k p;
          padded = unfold encode in ap (λ (x : Bytes). x ++ f.body) p;
          aligned = omega (arith, length-encode_head);
        },
      )
    where
      wrap : length f.body % 2 ^ 32 ≡ length f.body
      wrap = omega (arith, s.body_fits)

      whole_of :
          (k : ℕ)
          → pad8 8 (encode_head z f) ≡ encode_head z f ++ replicate k 0
          → encode z f
            ≡ prefixed f.endian
                (marker f.endian)
                (to_byte f.kind)
                f.flags
                1
                (length f.body)
                f.serial
                (fields ++ (replicate k 0 ++ f.body))
      whole_of k p = unfold encode in rw p (unfold encode_head in rw wrap (simp append_assoc))

  -- Padding and body behind the entries.
  read_fields : (k : ℕ) → take (4 + length w.entries) (fields ++ (replicate k 0 ++ f.body)) ≡ fields
  read_fields k =
      ap (λ (n : ℕ). take n (fields ++ (replicate k 0 ++ f.body))) (sym length-fields)
      ∙ take-append_exact fields (replicate k 0 ++ f.body)

  module _ (k : ℕ) (l : Layout k) where
    rest_lem : drop 12 (encode z f) ≡ fields ++ (replicate k 0 ++ f.body)
    rest_lem =
        ap (drop 12) l.whole
        ∙ (prefixed_slices f.endian (marker f.endian) (to_byte f.kind) f.flags 1 (length f.body)
            f.serial (fields ++ (replicate k 0 ++ f.body))).2

    body_len_lem : body_len z f.endian (encode z f) ≡ length f.body
    body_len_lem =
        ap (λ (x : Bytes). z.read_u32 f.endian (take 4 (drop 4 x))) l.whole
        ∙ ap (z.read_u32 f.endian)
            (prefixed_slices f.endian (marker f.endian) (to_byte f.kind) f.flags 1 (length f.body)
              f.serial (fields ++ (replicate k 0 ++ f.body))).0
        ∙ r.read-endian_u32 f.endian (length f.body) s.body_fits

    pub serial_lem : z.read_u32 f.endian (take 4 (drop 8 (encode z f))) ≡ f.serial
    serial_lem =
        ap (λ (x : Bytes). z.read_u32 f.endian (take 4 (drop 8 x))) l.whole
        ∙ ap (z.read_u32 f.endian)
            (prefixed_slices f.endian (marker f.endian) (to_byte f.kind) f.flags 1 (length f.body)
              f.serial (fields ++ (replicate k 0 ++ f.body))).1
        ∙ r.read-endian_u32 f.endian f.serial s.serial_fits

    fields_len_lem : fields_len z f.endian (encode z f) ≡ length w.entries
    fields_len_lem =
        ap (λ (x : Bytes). z.read_u32 f.endian (take 4 x)) rest_lem
        ∙ ap (λ (x : Bytes). z.read_u32 f.endian (take 4 (x ++ (replicate k 0 ++ f.body))))
            w.written
        ∙ ap (z.read_u32 f.endian)
            (take-endian_u32 f.endian (length w.entries) w.entries (replicate k 0 ++ f.body))
        ∙ r.read-endian_u32 f.endian (length w.entries) w.short

    length-encode : length (encode z f) ≡ 16 + length w.entries + k + length f.body
    length-encode = omega (
      arith,
      ap length l.padded,
      length-append (encode_head z f ++ replicate k 0) f.body,
      length-append (encode_head z f) (replicate k 0),
      length-replicate k,
      length-encode_head,
    )

    pub HasSize-encode : HasSize z f.endian (encode z f) (length (encode z f))
    HasSize-encode = record {
      long = omega (arith, length-encode);
      endian =
          ap (λ (x : Bytes). parse_endian (get_or x 0 0)) l.whole ∙ parse_endian-marker f.endian;
      version = ap (λ (x : Bytes). get_or x 3 0) l.whole;
      total = omega (arith, length-encode, l.aligned, fields_len_lem, body_len_lem);
      limit = s.within;
    }

    pub body_lem :
        take
          (body_len z f.endian (encode z f))
          (drop (body_start z f.endian (encode z f)) (encode z f))
        ≡ f.body
    body_lem =
        let start : body_start z f.endian (encode z f) ≡ length (encode_head z f ++ replicate k 0) =
          omega (
            arith,
            fields_len_lem,
            l.aligned,
            length-append (encode_head z f) (replicate k 0),
            length-replicate k,
            length-encode_head,
          ) in
        ap (λ (n : ℕ). take (body_len z f.endian (encode z f)) (drop n (encode z f))) start
        ∙ ap
            (λ (x : Bytes).
              take (body_len z f.endian (encode z f))
                (drop (length (encode_head z f ++ replicate k 0)) x))
            l.padded
        ∙ ap (take (body_len z f.endian (encode z f)))
            (drop-append_exact (encode_head z f ++ replicate k 0) f.body)
        ∙ ap (λ (n : ℕ). take n f.body) body_len_lem
        ∙ take_all f.body

    pub kind_lem : from_byte (get_or (encode z f) 1 0) ≡ ok f.kind
    kind_lem = ap (λ (x : Bytes). from_byte (get_or x 1 0)) l.whole ∙ from_byte-to_byte f.kind

    pub flags_lem : get_or (encode z f) 2 0 ≡ f.flags
    flags_lem = ap (λ (x : Bytes). get_or x 2 0) l.whole

    pub entries_lem :
        z.deserialize f.endian
          (take (16 + fields_len z f.endian (encode z f) - 12) (drop 12 (encode z f)))
        ≡ ok (received_fields z (to_raw z f.headers))
    entries_lem =
        let n : 16 + fields_len z f.endian (encode z f) - 12 ≡ 4 + length w.entries =
          omega (arith, fields_len_lem) in
        ap (λ (n : ℕ). z.deserialize f.endian (take n (drop 12 (encode z f)))) n
        ∙ ap (λ (x : Bytes). z.deserialize f.endian (take (4 + length w.entries) x)) rest_lem
        ∙ ap (z.deserialize f.endian) (read_fields k)
        ∙ w.read_back
