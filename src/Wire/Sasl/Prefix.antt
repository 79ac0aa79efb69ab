-- ===== src/Wire/Sasl/Prefix.antt =====
-- The scanner of crates/emskin-dbus/src/wire/sasl.rs on a buffer that grows at its end.
use emskin.Prelude.{
  ℕ, zero, suc, ◌+◌, ◌-◌, ◌≤◌, ◌<◌, ◌≡◌, ◌≢◌, inl, inr, none, some, [], ◌∷◌, ◌++◌, Bytes, ok, err,
  stuck, length, take, drop, length-append, length-drop, take-append_left, drop-append_left, arith,
  Option-cases,
}
use emskin.Wire.Sasl.{
  SaslError, auth_line_too_long, at_sentinel, find_sentinel, validate_line, scan_lines,
  find_begin_end,
}

-- A sentinel lies inside the list.
pub find_sentinel_bound : (s : Bytes) (r : ℕ) → find_sentinel s ≡ some r → r + 2 ≤ length s
unfolding find_sentinel at_sentinel
find_sentinel_bound [] r h = cc
find_sentinel_bound (x ∷ []) r h = ground arith
find_sentinel_bound (x ∷ y ∷ ys) r h = ground (arith, find_sentinel_bound (y ∷ ys) (r - 1))

pub find_sentinel-append :
    (s t : Bytes) (r : ℕ) → find_sentinel s ≡ some r → find_sentinel (s ++ t) ≡ some r
unfolding find_sentinel at_sentinel
find_sentinel-append [] t r h = cc
find_sentinel-append (x ∷ []) t r h = ground arith
find_sentinel-append (x ∷ y ∷ ys) t r h = ground (arith, find_sentinel-append (y ∷ ys) t (r - 1))

-- A sentinel that more bytes bring ends behind the old end.
pub find_sentinel-append_none :
    (s t : Bytes) (r : ℕ)
    → find_sentinel s ≡ none
    → find_sentinel (s ++ t) ≡ some r
    → length s < r + 2
unfolding find_sentinel at_sentinel
find_sentinel-append_none [] t r h k = omega arith
find_sentinel-append_none (x ∷ []) t r h k = omega arith
find_sentinel-append_none (x ∷ y ∷ ys) t r h k =
    ground (arith, find_sentinel-append_none (y ∷ ys) t (r - 1))

validate_line-ne-stuck : (line : Bytes) → validate_line line ≢ stuck
unfolding validate_line
validate_line-ne-stuck [] = ground arith
validate_line-ne-stuck (b ∷ bs) = ground arith

-- An end that the loop reports lies past the offset, and inside the input.
scan_lines-bound :
    (fuel : ℕ) (rest : Bytes) (offset end : ℕ)
    → scan_lines fuel rest offset ≡ ok (some end)
    → (offset + 2 < end) × (end ≤ offset + length rest + 1)
unfolding scan_lines
scan_lines-bound zero rest offset end h = cc
scan_lines-bound (suc fuel) rest offset end h = elim (Option-cases (find_sentinel rest)) [
  | inl e ↦ ground (arith, e)
  | inr (rel, e) ↦ ground (
    arith,
    e,
    find_sentinel_bound rest rel e,
    length-drop (rel + 2) rest,
    scan_lines-bound fuel (drop (rel + 2) rest) (offset + rel + 2) end,
  )
]

-- What the loop has found stays found.
scan_lines-append :
    (fuel more : ℕ) (rest t : Bytes) (offset end : ℕ)
    → fuel ≤ more
    → scan_lines fuel rest offset ≡ ok (some end)
    → scan_lines more (rest ++ t) offset ≡ ok (some end)
unfolding scan_lines
scan_lines-append zero more rest t offset end le h = cc
scan_lines-append (suc fuel) zero rest t offset end le h = absurd (omega arith)
scan_lines-append (suc fuel) (suc more) rest t offset end le h =
    elim (Option-cases (find_sentinel rest)) [
      | inl e ↦ ground (arith, e)
      | inr (rel, e) ↦ ground (
        arith,
        e,
        find_sentinel_bound rest rel e,
        find_sentinel-append rest t rel e,
        take-append_left rel rest t,
        drop-append_left (rel + 2) rest t,
        scan_lines-append fuel more (drop (rel + 2) rest) t (offset + rel + 2) end,
      )
    ]

scan_lines-append_err :
    (fuel more : ℕ) (rest t : Bytes) (offset : ℕ) (x : SaslError)
    → fuel ≤ more
    → scan_lines fuel rest offset ≡ err x
    → scan_lines more (rest ++ t) offset ≡ err x
unfolding scan_lines
scan_lines-append_err zero more rest t offset x le h = cc
scan_lines-append_err (suc fuel) zero rest t offset x le h = absurd (omega arith)
scan_lines-append_err (suc fuel) (suc more) rest t offset x le h =
    elim (Option-cases (find_sentinel rest)) [
      | inl e ↦ ground (arith, e)
      | inr (rel, e) ↦ ground (
        arith,
        e,
        find_sentinel_bound rest rel e,
        find_sentinel-append rest t rel e,
        take-append_left rel rest t,
        drop-append_left (rel + 2) rest t,
        scan_lines-append_err fuel more (drop (rel + 2) rest) t (offset + rel + 2) x,
      )
    ]

-- What more bytes let the loop find ends behind the bytes that it had.
scan_lines-append_none :
    (fuel more : ℕ) (rest t : Bytes) (offset end : ℕ)
    → scan_lines fuel rest offset ≡ ok none
    → scan_lines more (rest ++ t) offset ≡ ok (some end)
    → offset + length rest + 1 < end
unfolding scan_lines
scan_lines-append_none zero more rest t offset end h k = cc
scan_lines-append_none (suc fuel) zero rest t offset end h k = cc
scan_lines-append_none (suc fuel) (suc more) rest t offset end h k =
    elim (Option-cases (find_sentinel rest)) [
      | inl e ↦ elim (Option-cases (find_sentinel (rest ++ t))) [
        | inl e' ↦ ground (arith, e')
        | inr (rel, e') ↦ ground (
          arith,
          find_sentinel-append_none rest t rel e e',
          scan_lines-bound more (drop (rel + 2) (rest ++ t)) (offset + rel + 2) end,
        )
      ]
      | inr (rel, e) ↦ ground (
        arith,
        e,
        find_sentinel_bound rest rel e,
        find_sentinel-append rest t rel e,
        take-append_left rel rest t,
        drop-append_left (rel + 2) rest t,
        length-drop (rel + 2) rest,
        scan_lines-append_none fuel more (drop (rel + 2) rest) t (offset + rel + 2) end,
      )
    ]

-- The loop ends with fuel above the length of its input.
scan_lines-ne-stuck :
    (fuel : ℕ) (rest : Bytes) (offset : ℕ)
    → length rest < fuel
    → scan_lines fuel rest offset ≢ stuck
unfolding scan_lines
scan_lines-ne-stuck zero rest offset h = absurd (omega arith)
scan_lines-ne-stuck (suc fuel) rest offset h = elim (Option-cases (find_sentinel rest)) [
  | inl e ↦ ground (arith, e)
  | inr (rel, e) ↦ ground (
    arith,
    e,
    find_sentinel_bound rest rel e,
    validate_line-ne-stuck (take rel rest),
    length-drop (rel + 2) rest,
    scan_lines-ne-stuck fuel (drop (rel + 2) rest) (offset + rel + 2),
  )
]

-- The scan ends on every buffer.
pub find_begin_end-ne-stuck : (buf : Bytes) → find_begin_end buf ≢ stuck
unfolding find_begin_end
find_begin_end-ne-stuck [] = ground arith
find_begin_end-ne-stuck (b ∷ lines) =
    ground (arith, scan_lines-ne-stuck (suc (length lines)) lines 0 (omega arith))

-- An end that the scanner reports lies inside the buffer, behind the NUL and a line.
pub find_begin_end-bound :
    (buf : Bytes) (end : ℕ) → find_begin_end buf ≡ ok (some end) → (2 < end) × (end ≤ length buf)
unfolding find_begin_end
find_begin_end-bound [] end h = cc
find_begin_end-bound (b ∷ lines) end h =
    ground (arith, scan_lines-bound (suc (length lines)) lines 0 end)

-- The caller re-scans a growing buffer. Bytes that arrive behind the handshake do not move its end.
pub find_begin_end-append :
    (buf t : Bytes) (end : ℕ)
    → find_begin_end buf ≡ ok (some end)
    → find_begin_end (buf ++ t) ≡ ok (some end)
unfolding find_begin_end
find_begin_end-append [] t end h = cc
find_begin_end-append (b ∷ lines) t end h = ground (
  arith,
  length-append lines t,
  scan_lines-append (suc (length lines)) (suc (length (lines ++ t))) lines t 0 end,
)

-- An end that shows only once more bytes have arrived lies behind the bytes that were there.
pub find_begin_end-append_none :
    (buf t : Bytes) (end : ℕ)
    → find_begin_end buf ≡ ok none
    → find_begin_end (buf ++ t) ≡ ok (some end)
    → length buf < end
unfolding find_begin_end
find_begin_end-append_none [] t end h k = ground (arith, find_begin_end-bound t end k)
find_begin_end-append_none (b ∷ lines) t end h k =
    ground
      (arith, scan_lines-append_none (suc (length lines)) (suc (length (lines ++ t))) lines t 0 end)

-- Every error but that of too long a line stays the same error when more bytes arrive.
pub find_begin_end-append_err :
    (buf t : Bytes) (x : SaslError)
    → x ≢ auth_line_too_long
    → find_begin_end buf ≡ err x
    → find_begin_end (buf ++ t) ≡ err x
unfolding find_begin_end
find_begin_end-append_err [] t x n h = cc
find_begin_end-append_err (b ∷ lines) t x n h = ground (
  arith,
  length-append lines t,
  scan_lines-append_err (suc (length lines)) (suc (length (lines ++ t))) lines t 0 x,
)
