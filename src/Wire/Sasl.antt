-- ===== src/Wire/Sasl.antt =====
-- crates/emskin-dbus/src/wire/sasl.rs: the scanner for the end of the SASL handshake.
-- A byte slice is a list of numbers, and `&lines[offset..]` is the list from `offset` on.
pub mod Prefix
pub mod Lines
use emskin.Prelude.{
  ℕ, zero, suc, ◌+◌, ◌-◌, ◌*◌, Bool, true, false, not, ◌&&◌, ◌||◌, Option, none, some, List, [],
  ◌∷◌, Bytes, Result, ok, err, stuck, ◌>>=◌, ◌>>◌, ltb, leb, ◌==◌, if◌then◌else◌, length, take,
  drop, codes, bytes_eq, get_or,
}
use mathlib.Core.Option

-- 16 KiB.
abbrev pub max_auth_buffer : ℕ
max_auth_buffer = 16 * 1024

abbrev pub sentinel : Bytes
sentinel = 13 ∷ 10 ∷ []

abbrev pub begin : Bytes
begin = codes "BEGIN"

pub data SaslError : Type 0 where
  missing_nul_prefix invalid_auth_line auth_line_too_long : SaslError

-- Does the first window of two bytes hold the sentinel?
at_sentinel : Bytes → Bool
at_sentinel [] = false
at_sentinel (a ∷ []) = false
at_sentinel (a ∷ b ∷ rest) = a == 13 && b == 10

unfoldable pub find_sentinel : Bytes → Option ℕ
unfolding at_sentinel
find_sentinel [] = none
find_sentinel (x ∷ xs) = elim (at_sentinel (x ∷ xs)) [
  | true ↦ some 0
  | false ↦ Option.map suc (find_sentinel xs)
]

abbrev pub is_ascii_uppercase : ℕ → Bool
is_ascii_uppercase b = leb b'A' b && leb b b'Z'

abbrev pub is_printable : ℕ → Bool
is_printable b = leb 0x20 b && leb b 0x7e

all_printable : Bytes → Bool
all_printable [] = true
all_printable (b ∷ bs) = is_printable b && all_printable bs

unfoldable pub validate_line : Bytes → Result SaslError (Unit {0})
unfolding all_printable
validate_line [] = err invalid_auth_line
validate_line (b ∷ bs) =
    if not (is_ascii_uppercase b)
    then err invalid_auth_line
    else if all_printable (b ∷ bs)
    then ok tt
    else err invalid_auth_line

-- `BEGIN` at the end of the line, or before a space or a tab.
unfoldable pub is_begin_line : Bytes → Bool
is_begin_line line =
    if ltb (length line) (length begin) || not (bytes_eq (take (length begin) line) begin)
    then false
    else length line == length begin
      || (get_or line (length begin) 0 == 32 || get_or line (length begin) 0 == 9)

-- The loop: `rest` is `&lines[offset..]`. A round takes two bytes at least.
unfoldable pub scan_lines : ℕ → Bytes → ℕ → Result SaslError (Option ℕ)
scan_lines zero rest offset = stuck
scan_lines (suc fuel) rest offset = elim (find_sentinel rest) [
  | none ↦ ok none
  | some rel ↦
      let line = take rel rest in
      let after_line = offset + rel + length sentinel in
      let more = scan_lines fuel (drop (rel + length sentinel) rest) after_line in
      validate_line line >> (if is_begin_line line then ok (some (1 + after_line)) else more)
]

-- What is returned once the loop has ended with no `BEGIN`.
unfoldable pub guard_length : Bytes → Option ℕ → Result SaslError (Option ℕ)
guard_length buf (some end) = ok (some end)
guard_length buf none = if ltb max_auth_buffer (length buf) then err auth_line_too_long else ok none

unfoldable pub find_begin_end : Bytes → Result SaslError (Option ℕ)
unfolding guard_length
find_begin_end [] = ok none
find_begin_end (b ∷ lines) =
    if not (b == 0)
    then err missing_nul_prefix
    else (scan_lines (suc (length lines)) lines 0 >>= guard_length (b ∷ lines))
