-- ===== src/Wire/Sasl/Lines.antt =====
-- The scanner of crates/emskin-dbus/src/wire/sasl.rs against a description of the handshake.
use emskin.Prelude.{
  ℕ, zero, suc, ◌+◌, ◌≤◌, ◌<◌, ◌≡◌, refl, sym, ap, subst, ◌∙◌, ◌↔◌, ◌⊎◌, inl, inr, true, some, [],
  ◌∷◌, ◌++◌, Bytes, ok, if◌then◌else◌, length, take, drop, length-append, length-take,
  take-append-drop, take-append_exact, arith, Option-cases, Bool-cases, bytes_eq, bytes_eq_iff, All,
}
use emskin.Wire.Sasl.{
  begin, at_sentinel, find_sentinel, validate_line, is_begin_line, all_printable, scan_lines,
  find_begin_end,
}
use emskin.Wire.Sasl.Prefix.{find_sentinel_bound}

-- An upper-case letter, then printable ASCII.
abbrev pub IsAuthLine : Bytes → Type 0
IsAuthLine [] = ⊥
IsAuthLine (b ∷ bs) = (b'A' ≤ b) × (b ≤ b'Z') × All (λ (c : ℕ). (0x20 ≤ c) × (c ≤ 0x7e)) (b ∷ bs)

-- `BEGIN`, alone or before a space or a tab.
abbrev pub IsBegin : Bytes → Type 0
IsBegin line =
    (line ≡ begin)
    ⊎ ((c : ℕ) × (rest : Bytes) × (line ≡ begin ++ (c ∷ rest)) × ((c ≡ 32) ⊎ (c ≡ 9)))

-- `Lines buf len`: the first `len` bytes of `buf` are CRLF-ended authentication lines of which the
-- last one, and no other, is a `BEGIN` line.
pub data Lines : Bytes → ℕ → Type 0 where
  last :
      {buf : Bytes} {len : ℕ} (line rest : Bytes)
      → IsAuthLine line
      → IsBegin line
      → buf ≡ line ++ (13 ∷ 10 ∷ rest)
      → len ≡ length line + 2
      → Lines buf len
  more :
      {buf : Bytes} {len : ℕ} (line rest : Bytes) (n : ℕ)
      → IsAuthLine line
      → ¬ IsBegin line
      → buf ≡ line ++ (13 ∷ 10 ∷ rest)
      → len ≡ length line + 2 + n
      → Lines rest n
      → Lines buf len

-- A complete handshake of `end` bytes: the NUL, then the lines.
abbrev pub Handshake : Bytes → ℕ → Type 0
Handshake [] end = ⊥
Handshake (b ∷ lines) end = (b ≡ 0) × (len : ℕ) × Lines lines len × (end ≡ 1 + len)

find_sentinel-split :
    (s : Bytes) (r : ℕ) → find_sentinel s ≡ some r → s ≡ take r s ++ (13 ∷ 10 ∷ drop (r + 2) s)
unfolding find_sentinel at_sentinel
find_sentinel-split [] r h = cc
find_sentinel-split (x ∷ []) r h = ground arith
find_sentinel-split (x ∷ y ∷ ys) zero h = ground arith
find_sentinel-split (x ∷ y ∷ ys) (suc r) h = ground (arith, find_sentinel-split (y ∷ ys) r)

-- The sentinel behind printable bytes is found there.
find_sentinel-line :
    (line rest : Bytes)
    → All (λ (c : ℕ). (0x20 ≤ c) × (c ≤ 0x7e)) line
    → find_sentinel (line ++ (13 ∷ 10 ∷ rest)) ≡ some (length line)
unfolding find_sentinel at_sentinel
find_sentinel-line [] rest h = refl
find_sentinel-line (x ∷ []) rest h = ground (arith, find_sentinel-line [] rest tt)
find_sentinel-line (x ∷ y ∷ ys) rest h = ground (arith, find_sentinel-line (y ∷ ys) rest h.1)

all_printable_iff :
    (bs : Bytes) → (all_printable bs ≡ true) ↔ All (λ (c : ℕ). (0x20 ≤ c) × (c ≤ 0x7e)) bs
unfolding all_printable
all_printable_iff [] = ground arith
all_printable_iff (b ∷ bs) = ground (arith, all_printable_iff bs)

validate_line_iff : (line : Bytes) → (validate_line line ≡ ok tt) ↔ IsAuthLine line
unfolding validate_line
validate_line_iff [] = ground arith
validate_line_iff (b ∷ bs) = ground (arith, all_printable_iff (b ∷ bs))

-- `BEGIN` and what follows it, read off the test.
begin_tail : (t : Bytes) → is_begin_line (begin ++ t) ≡ true → IsBegin (begin ++ t)
unfolding is_begin_line bytes_eq
begin_tail [] h = inl refl
begin_tail (c ∷ r) h = inr (c, r, refl, ground arith)

is_begin_line_front : (line : Bytes) → is_begin_line line ≡ true → line ≡ begin ++ drop 5 line
unfolding is_begin_line
is_begin_line_front line h =
    let front : take 5 line ≡ begin = ground (arith, bytes_eq_iff (take 5 line) begin) in
    sym (take-append-drop 5 line) ∙ ap (λ (x : Bytes). x ++ drop 5 line) front

begin_line_lem : (line : Bytes) → is_begin_line line ≡ true → IsBegin line
begin_line_lem line h =
    let e = is_begin_line_front line h in
    subst IsBegin (sym e) (begin_tail (drop 5 line) (subst (λ l. is_begin_line l ≡ true) e h))

IsBegin→is_begin_line : (line : Bytes) → IsBegin line → is_begin_line line ≡ true
unfolding is_begin_line bytes_eq
IsBegin→is_begin_line line (inl e) = rw e refl
IsBegin→is_begin_line line (inr (c, r, e, d)) = rw e (ground arith)

-- A round that leads to an end has read a valid line.
round_valid :
    (fuel : ℕ) (rest : Bytes) (offset rel end : ℕ)
    → find_sentinel rest ≡ some rel
    → scan_lines (suc fuel) rest offset ≡ ok (some end)
    → validate_line (take rel rest) ≡ ok tt
unfolding scan_lines
round_valid fuel rest offset rel end e h = ground (arith, e)

-- The loop finds what the description says.
scan_lines_sound :
    (fuel : ℕ) (rest : Bytes) (offset end : ℕ)
    → scan_lines fuel rest offset ≡ ok (some end)
    → (len : ℕ) × Lines rest len × (end ≡ 1 + (offset + len))
unfolding scan_lines
scan_lines_sound zero rest offset end h = cc
scan_lines_sound (suc fuel) rest offset end h = elim (Option-cases (find_sentinel rest)) [
  | inl e ↦ absurd (ground (arith, e))
  | inr (rel, e) ↦
      let valid =
        (validate_line_iff (take rel rest)).0 (round_valid fuel rest offset rel end e h) in
      let split = find_sentinel-split rest rel e in
      let size : rel ≡ length (take rel rest) =
        omega (arith, length-take rel rest, find_sentinel_bound rest rel e) in
      elim (Bool-cases (is_begin_line (take rel rest))) [
        | inl b ↦ (
          rel + 2,
          last (take rel rest) (drop (rel + 2) rest) valid (begin_line_lem _ b) split (omega arith),
          ground (arith, e, round_valid fuel rest offset rel end e h),
        )
        | inr n ↦
            let (len, lines, ends) =
              scan_lines_sound fuel (drop (rel + 2) rest) (offset + rel + 2) end
                (ground (arith, e, round_valid fuel rest offset rel end e h)) in
            (
              rel + 2 + len,
              more (take rel rest) (drop (rel + 2) rest) len valid
                  (λ b. cc (IsBegin→is_begin_line _ b)) split (omega arith) lines,
              omega arith,
            )
      ]
]

drop_line : (line rest : Bytes) → drop (length line + 2) (line ++ (13 ∷ 10 ∷ rest)) ≡ rest
drop_line [] rest = refl
drop_line (x ∷ xs) rest = ground (arith, drop_line xs rest)

-- An authentication line in front is one round of the loop.
scan_lines-line :
    (fuel : ℕ) (line rest : Bytes) (offset : ℕ)
    → IsAuthLine line
    → scan_lines (suc fuel) (line ++ (13 ∷ 10 ∷ rest)) offset ≡ (
        if is_begin_line line
        then ok (some (1 + (offset + length line + 2)))
        else scan_lines fuel rest (offset + length line + 2))
unfolding scan_lines
scan_lines-line fuel [] rest offset h = absurd h
scan_lines-line fuel (b ∷ bs) rest offset h = ground (
  arith,
  find_sentinel-line (b ∷ bs) rest h.2,
  (validate_line_iff (b ∷ bs)).1 h,
  take-append_exact (b ∷ bs) (13 ∷ 10 ∷ rest),
  drop_line (b ∷ bs) rest,
)

scan_lines_complete :
    (fuel : ℕ) {buf : Bytes} {len : ℕ} (offset : ℕ)
    → length buf < fuel
    → Lines buf len
    → scan_lines fuel buf offset ≡ ok (some (1 + (offset + len)))
scan_lines_complete zero offset h l = absurd (omega arith)
scan_lines_complete (suc fuel) offset h (last line rest v b e n) =
    rw e (scan_lines-line fuel line rest offset v ∙ ground (arith, IsBegin→is_begin_line line b))
scan_lines_complete (suc fuel) offset h (more line rest k v b e n l) = rw e (
    scan_lines-line fuel line rest offset v
    ∙ ground (
      arith,
      λ (t : is_begin_line line ≡ true). b (begin_line_lem line t),
      ap length e,
      length-append line (13 ∷ 10 ∷ rest),
      scan_lines_complete fuel (offset + length line + 2)
          (omega (arith, ap length e, length-append line (13 ∷ 10 ∷ rest))) l,
    ))

-- The scanner reports the end `end` exactly when the buffer starts with a complete handshake of
-- `end` bytes: a NUL, then authentication lines up to the first `BEGIN` line.
pub find_begin_end_iff :
    (buf : Bytes) (end : ℕ) → (find_begin_end buf ≡ ok (some end)) ↔ Handshake buf end
unfolding find_begin_end
find_begin_end_iff [] end = (λ h. cc, λ h. absurd h)
find_begin_end_iff (b ∷ lines) end = (sound, complete)
  where
    sound : find_begin_end (b ∷ lines) ≡ ok (some end) → Handshake (b ∷ lines) end
    sound h =
        let found : scan_lines (suc (length lines)) lines 0 ≡ ok (some end) = ground arith in
        let (len, l, e) = scan_lines_sound _ lines 0 end found in
        (ground arith, len, l, omega arith)

    complete : Handshake (b ∷ lines) end → find_begin_end (b ∷ lines) ≡ ok (some end)
    complete (z, len, l, e) =
        ground (arith, scan_lines_complete (suc (length lines)) 0 (omega arith) l)
