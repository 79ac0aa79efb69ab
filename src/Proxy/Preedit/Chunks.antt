-- ===== src/Proxy/Preedit/Chunks.antt =====
-- What `build_preedit_chunks` (crates/emskin-dbus/src/proxy/signals.rs) keeps of the text.
use emskin.Prelude.{
  ℕ, zero, suc, ◌+◌, ◌-◌, ◌≤◌, ◌≡◌, refl, sym, ap, ◌∙◌, Option, none, some, List, [], ◌∷◌, ◌++◌,
  Text, length, take, drop, take-append-drop, arith, Bool-cases, inl, inr, leb, ◌==◌, append-nil,
  append_assoc,
}
use emskin.Prelude.Int.{ℤ, pos_part}
use emskin.Proxy.Preedit.{is_range, split_chunks, build_preedit_chunks, chunk_unless}

-- The texts of the chunks, one behind the other.
abbrev pub texts : List (Text × ℕ) → Text
texts [] = []
texts (c ∷ cs) = c.0 ++ texts cs

drop-nil : (m : ℕ) → drop {A = ℕ} m [] ≡ []
drop-nil zero = refl
drop-nil (suc m) = refl

drop-drop : (m n : ℕ) (xs : Text) → drop m (drop n xs) ≡ drop (n + m) xs
drop-drop m zero xs = ap (λ (k : ℕ). drop k xs) (omega arith)
drop-drop m (suc n) (x ∷ xs) =
    let e : suc (n + m) ≡ suc n + m = omega arith in
    drop-drop m n xs ∙ ap (λ (k : ℕ). drop k (x ∷ xs)) e
drop-drop m (suc n) [] =
    let e : suc (n + m) ≡ suc n + m = omega arith in
    drop-nil m ∙ ap (λ (k : ℕ). drop {A = ℕ} k []) e

drop_past : (n : ℕ) (xs : Text) → length xs ≤ n → drop n xs ≡ []
drop_past zero [] h = refl
drop_past zero (x ∷ xs) h = absurd (omega arith)
drop_past (suc n) [] h = refl
drop_past (suc n) (x ∷ xs) h = drop_past n xs (omega arith)

texts-append : (xs ys : List (Text × ℕ)) → texts (xs ++ ys) ≡ texts xs ++ texts ys
texts-append [] ys = refl
texts-append (x ∷ xs) ys =
    ap (λ t. x.0 ++ t) (texts-append xs ys) ∙ sym (append_assoc x.0 (texts xs) (texts ys))

texts-before :
    (b u : ℕ) (text : Text) → texts (chunk_unless (b == 0) (take b text, u)) ≡ take b text
texts-before b u text = elim (Bool-cases (b == 0)) [
  | inl h ↦ let z : b ≡ 0 = ground arith in rw (h, z) refl
  | inr h ↦ rw h (append-nil (take b text))
]

texts-after :
    (e u : ℕ) (text : Text)
    → texts (chunk_unless (leb (length text) e) (drop e text, u)) ≡ drop e text
texts-after e u text = elim (Bool-cases (leb (length text) e)) [
  | inl h ↦ rw h (sym (drop_past e text (ground arith)))
  | inr h ↦ rw h (append-nil (drop e text))
]

split_chunks-texts : (text : Text) (b e u h : ℕ) → b ≤ e → texts (split_chunks text b e u h) ≡ text
unfolding split_chunks
split_chunks-texts text b e u h p =
    texts-append (chunk_unless (b == 0) (take b text, u)) _
    ∙ rw (texts-before b u text, texts-after e u text)
        (ap (λ t. take b text ++ (take (e - b) (drop b text) ++ t))
          (sym (drop-drop (e - b) b text ∙ ap (λ (k : ℕ). drop k text) (omega arith))))
    ∙ ap (λ t. take b text ++ t) (take-append-drop (e - b) (drop b text))
    ∙ take-append-drop b text

-- The client that puts the chunks together again has the preedit text, whatever the range.
pub build_preedit_chunks-texts :
    (text : Text) (cursor : Option (ℤ × ℤ)) (u h : ℕ)
    → texts (build_preedit_chunks text cursor u h) ≡ text
unfolding build_preedit_chunks is_range
build_preedit_chunks-texts text none u h = append-nil text
build_preedit_chunks-texts text (some (begin, end)) u h =
    elim (Bool-cases (is_range text begin end)) [
      | inl e ↦
          rw (e, build_preedit_chunks)
            (split_chunks-texts text (pos_part begin) (pos_part end) u h (ground arith))
      | inr e ↦ rw (e, build_preedit_chunks) (append-nil text)
    ]
