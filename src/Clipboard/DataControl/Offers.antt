-- ===== src/Clipboard/DataControl/Offers.antt =====
-- The MIME types of an offer on their way to the event
-- (crates/emskin-clipboard/src/data_control.rs).
use emskin.Prelude.{
  ℕ, ◌≡◌, ◌≢◌, inl, inr, refl, sym, ap, ◌∙◌, some, List, [], ◌∷◌, ◌++◌, Text, if◌then◌else◌, ◌==◌,
  append_assoc, append-nil, ==_eq, ==_ne,
}
use emskin.Prelude.Dict.{
  lookup, map_option, key-cases, lookup-insert_self, lookup-insert_ne, lookup-modify_self,
  lookup-modify_ne,
}
use emskin.Clipboard.DataControl.{ClipboardState, on_data_offer, on_offer_mime, mimes_of, or_empty}

-- What the host says of offers before it says which is the selection: a new offer, or a MIME type.
pub data Word : Type 0 where
  new_offer : ℕ → Word
  has_mime : ℕ → Text → Word

unfoldable pub say : List Word → ClipboardState → ClipboardState
say [] s = s
say (new_offer id ∷ ws) s = say ws (on_data_offer id s)
say (has_mime id mime ∷ ws) s = say ws (on_offer_mime id mime s)

-- The types that were said of one offer.
unfoldable pub said : ℕ → List Word → List Text
said id [] = []
said id (new_offer other ∷ ws) = said id ws
said id (has_mime other mime ∷ ws) =
    let rest = said id ws in if other == id then mime ∷ rest else rest

-- No second offer has the number.
abbrev pub Fresh : ℕ → List Word → Type 0
Fresh id [] = Unit
Fresh id (new_offer other ∷ ws) = (id ≢ other) × Fresh id ws
Fresh id (has_mime other mime ∷ ws) = Fresh id ws

say-pending :
    (id : ℕ) (ws : List Word) (s : ClipboardState) (mimes : List Text)
    → Fresh id ws
    → lookup id s.pending_offers ≡ some mimes
    → lookup id (say ws s).pending_offers ≡ some (mimes ++ said id ws)
unfolding say said on_data_offer on_offer_mime
say-pending id [] s mimes f e = e ∙ ap some (sym (append-nil mimes))
say-pending id (new_offer other ∷ ws) s mimes f e =
    say-pending id ws (on_data_offer other s) mimes f.1
      (lookup-insert_ne id other [] s.pending_offers f.0 ∙ e)
say-pending id (has_mime other mime ∷ ws) s mimes f e = elim (key-cases id other) [
  | inl same ↦
      let here : lookup other s.pending_offers ≡ some mimes =
        ap (λ k. lookup k s.pending_offers) (sym same) ∙ e in
      let there : lookup id (on_offer_mime other mime s).pending_offers
          ≡ some (mimes ++ (mime ∷ [])) =
        rw same (lookup-modify_self other (λ ms. ms ++ (mime ∷ [])) s.pending_offers)
        ∙ ap (map_option (λ ms. ms ++ (mime ∷ []))) here in
      say-pending id ws (on_offer_mime other mime s) (mimes ++ (mime ∷ [])) f there
      ∙ rw (==_eq other id (sym same)) (ap some (append_assoc mimes (mime ∷ []) (said id ws)))
  | inr different ↦
      let there = lookup-modify_ne id other (λ ms. ms ++ (mime ∷ [])) s.pending_offers different in
      say-pending id ws (on_offer_mime other mime s) mimes f (there ∙ e)
      ∙ rw (==_ne other id (λ h. different (sym h))) refl
]

-- What is said of offers changes nothing but what is known of them.
pub say-rest :
    (ws : List Word) (s : ClipboardState)
    → say ws s ≡ record s { pending_offers = (say ws s).pending_offers }
unfolding say on_data_offer on_offer_mime
say-rest [] s = refl
say-rest (new_offer id ∷ ws) s = say-rest ws (on_data_offer id s)
say-rest (has_mime id mime ∷ ws) s = say-rest ws (on_offer_mime id mime s)

-- The types of the selection are those that were said of its offer, in their order.
pub say-mimes :
    (id : ℕ) (ws : List Word) (s : ClipboardState)
    → Fresh id ws
    → mimes_of (some id) (say (new_offer id ∷ ws) s).pending_offers ≡ said id ws
unfolding say on_data_offer
say-mimes id ws s f =
    ap or_empty
      (say-pending id ws (on_data_offer id s) [] f (lookup-insert_self id [] s.pending_offers))
