-- ===== src/Proxy/Preedit.antt =====
-- crates/emskin-dbus/src/proxy/signals.rs: a preedit text cut into formatted chunks.
pub mod Chunks
use emskin.Prelude.{
  ℕ, zero, suc, ◌-◌, Bool, true, false, not, ◌||◌, Option, none, some, List, [], ◌∷◌, ◌++◌, Text,
  length, take, drop, get_or, ltb, leb, ◌==◌, if◌then◌else◌,
}
use emskin.Prelude.Int.{ℤ, pos, negsuc, ltb_ℤ, pos_part}
use Prim.Native.Nat.{bit_or}

-- `1 << 3` and `1 << 4`.
abbrev pub underline : ℕ
underline = 8

abbrev pub highlight : ℕ
highlight = 16

-- `str::is_char_boundary`, at an index within the text: an end, or no UTF-8 continuation byte.
pub is_char_boundary : Text → ℕ → Bool
is_char_boundary text i =
    i == 0 || (i == length text || (ltb (get_or text i 0) 128 || leb 192 (get_or text i 0)))

-- Is `[begin, end)` a range of whole characters that is not empty?
pub is_range : Text → ℤ → ℤ → Bool
unfolding is_char_boundary
is_range text begin end = not (
    ltb_ℤ begin (pos 0)
    || (not (ltb_ℤ begin end)
        || (ltb (length text) (pos_part begin)
            || (ltb (length text) (pos_part end)
                || (not (is_char_boundary text (pos_part begin))
                    || not (is_char_boundary text (pos_part end)))))))

abbrev chunk_unless : Bool → Text × ℕ → List (Text × ℕ)
chunk_unless true c = []
chunk_unless false c = c ∷ []

pub split_chunks : Text → ℕ → ℕ → ℕ → ℕ → List (Text × ℕ)
split_chunks text b e under high =
    chunk_unless (b == 0) (take b text, under)
    ++ ((take (e - b) (drop b text), bit_or under high)
        ∷ chunk_unless (leb (length text) e) (drop e text, under))

unfoldable pub build_preedit_chunks : Text → Option (ℤ × ℤ) → ℕ → ℕ → List (Text × ℕ)
build_preedit_chunks text none under high = (text, under) ∷ []
build_preedit_chunks text (some (begin, end)) under high =
    if is_range text begin end
    then split_chunks text (pos_part begin) (pos_part end) under high
    else (text, under) ∷ []
