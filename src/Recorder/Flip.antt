-- ===== src/Recorder/Flip.antt =====
-- A picture whose rows come from the bottom is turned over
-- (`write_screenshot` of crates/emskin/src/recording.rs).
use emskin.Prelude.{
  ℕ, zero, suc, ◌+◌, ◌-◌, ◌*◌, ◌≡◌, refl, sym, ap, subst, ◌∙◌, List, [], ◌∷◌, ◌++◌, Bytes, All,
  arith, length, take, drop, replicate, append_assoc, append-nil, take-append_exact,
  drop-append_exact, length-append,
}
use emskin.Recorder.Frames.{overwrite, flip_rows, flip}

-- The rows behind one another, and from the last to the first.
pub join : List Bytes → Bytes
join [] = []
join (row ∷ rows) = row ++ join rows

pub join_back : List Bytes → Bytes
join_back [] = []
join_back (row ∷ rows) = join_back rows ++ row

-- Rows of one length.
abbrev pub Rows : ℕ → List Bytes → Type 0
Rows stride rows = All (λ row. length row ≡ stride) rows

length-join :
    (stride : ℕ) (rows : List Bytes) → Rows stride rows → length (join rows) ≡ length rows * stride
unfolding join
length-join stride [] h = omega arith
length-join stride (row ∷ rows) h =
    length-append row (join rows) ∙ grind (arith, h.0, length-join stride rows h.1)

replicate-add : (m n : ℕ) → replicate {A = ℕ} (m + n) 0 ≡ replicate m 0 ++ replicate n 0
replicate-add zero n = ap (λ (k : ℕ). replicate k 0) (omega arith)
replicate-add (suc m) n =
    ap (λ (k : ℕ). replicate {A = ℕ} k 0) suc_out ∙ ap (λ bs. 0 ∷ bs) (replicate-add m n)
  where
    suc_out : suc m + n ≡ suc (m + n)
    suc_out = omega arith

length-replicate : (n : ℕ) → length (replicate {A = ℕ} n 0) ≡ n
length-replicate zero = refl
length-replicate (suc n) = omega (arith, length-replicate n)

take-exact : (n : ℕ) (xs ys : Bytes) → length xs ≡ n → take n (xs ++ ys) ≡ xs
take-exact n xs ys h = subst (λ (k : ℕ). take k (xs ++ ys) ≡ xs) h (take-append_exact xs ys)

drop-exact : (n : ℕ) (xs ys : Bytes) → length xs ≡ n → drop n (xs ++ ys) ≡ ys
drop-exact n xs ys h = subst (λ (k : ℕ). drop k (xs ++ ys) ≡ ys) h (drop-append_exact xs ys)

drop-drop : (m n : ℕ) (xs : Bytes) → drop (m + n) xs ≡ drop n (drop m xs)
drop-drop zero n xs = ap (λ (k : ℕ). drop k xs) (omega arith)
drop-drop (suc m) n [] = at_nil (suc m + n) n
  where
    at_nil : (k n : ℕ) → drop {A = ℕ} k [] ≡ drop n []
    at_nil zero zero = refl
    at_nil zero (suc n) = refl
    at_nil (suc k) zero = refl
    at_nil (suc k) (suc n) = refl
drop-drop (suc m) n (x ∷ xs) = ap (λ (k : ℕ). drop k (x ∷ xs)) suc_out ∙ drop-drop m n xs
  where
    suc_out : suc m + n ≡ suc (m + n)
    suc_out = omega arith

-- A row written where zeros stand before what is written already.
overwrite_zeros :
    (n stride : ℕ) (row back : Bytes)
    → length row ≡ stride
    → overwrite n row (replicate (n + stride) 0 ++ back) ≡ replicate n 0 ++ (row ++ back)
overwrite_zeros n stride row back h =
    let zeros : Bytes = replicate n 0 in
    let more : Bytes = replicate stride 0 in
    let parts : replicate (n + stride) 0 ++ back ≡ zeros ++ (more ++ back) =
      ap (λ bs. bs ++ back) (replicate-add n stride) ∙ append_assoc zeros more back in
    let behind : drop (n + length row) (zeros ++ (more ++ back)) ≡ back =
      drop-drop n (length row) (zeros ++ (more ++ back))
      ∙ ap (drop (length row)) (drop-exact n zeros (more ++ back) (length-replicate n))
      ∙ drop-exact (length row) more back (length-replicate stride ∙ sym h) in
    ap (overwrite n row) parts
    ∙ ap (λ bs. bs ++ (row ++ drop (n + length row) (zeros ++ (more ++ back))))
        (take-exact n zeros (more ++ back) (length-replicate n))
    ∙ ap (λ bs. zeros ++ (row ++ bs)) behind

-- What is written from row `y` on.
flip_loop :
    (stride height y : ℕ) (bytes back : Bytes) (rows : List Bytes)
    → Rows stride rows
    → y + length rows ≡ height
    → drop (y * stride) bytes ≡ join rows
    → flip_rows (length rows) y height stride bytes (replicate (length rows * stride) 0 ++ back)
      ≡ join_back rows ++ back
unfolding flip_rows join join_back
flip_loop stride height y bytes back [] r e d =
    let none_left : 0 * stride ≡ 0 = omega arith in ap (λ (k : ℕ). replicate k 0 ++ back) none_left
flip_loop stride height y bytes back (row ∷ rows) r e d =
    let n = length rows in
    let slice : take stride (drop (y * stride) bytes) ≡ row =
      ap (take stride) d ∙ take-exact stride row (join rows) r.0 in
    let offset : (height - 1 - y) * stride ≡ n * stride =
      let place : height - 1 - y ≡ n = omega (arith, e) in ap (λ (k : ℕ). k * stride) place in
    let size : suc n * stride ≡ n * stride + stride = grind arith in
    let next : drop ((y + 1) * stride) bytes ≡ join rows =
      ap (λ (k : ℕ). drop k bytes) (along y stride)
      ∙ drop-drop (y * stride) stride bytes
      ∙ ap (drop stride) d
      ∙ drop-exact stride row (join rows) r.0 in
    let written : overwrite ((height - 1 - y) * stride) (take stride (drop (y * stride) bytes))
          (replicate (suc n * stride) 0 ++ back)
        ≡ replicate (n * stride) 0 ++ (row ++ back) =
      rw (offset, slice, size) (overwrite_zeros (n * stride) stride row back r.0) in
    ap (flip_rows n (y + 1) height stride bytes) written
    ∙ flip_loop stride height (y + 1) bytes (row ++ back) rows r.1 (omega arith) next
    ∙ sym (append_assoc (join_back rows) row back)
  where
    along : (y stride : ℕ) → (y + 1) * stride ≡ y * stride + stride
    along y stride = grind arith

-- A picture of rows of one length is turned over: the rows come out from the last to the first,
-- each as it was.
pub flip-join :
    (stride : ℕ) (rows : List Bytes)
    → Rows stride rows
    → flip (length rows) stride (join rows) ≡ join_back rows
unfolding flip
flip-join stride rows r =
    let size = length-join stride rows r in
    let at_start : 0 * stride ≡ 0 = omega arith in
    let from_zeros : replicate {A = ℕ} (length (join rows)) 0
        ≡ replicate (length rows * stride) 0 ++ [] =
      ap (λ (k : ℕ). replicate k 0) size ∙ sym (append-nil _) in
    ap (flip_rows (length rows) 0 (length rows) stride (join rows)) from_zeros
    ∙ flip_loop stride (length rows) 0 (join rows) [] rows r (omega arith)
        (ap (λ (k : ℕ). drop k (join rows)) at_start)
    ∙ append-nil (join_back rows)
