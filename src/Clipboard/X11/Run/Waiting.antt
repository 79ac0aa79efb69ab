-- ===== src/Clipboard/X11/Run/Waiting.antt =====
-- The list of transfers in chunks (`incr_outgoing` of crates/emskin-clipboard/src/x11.rs).
use emskin.Prelude.{
  ℕ, ◌≡◌, ◌≢◌, ◌⊎◌, inl, inr, refl, ap, ◌∙◌, false, List, [], ◌∷◌, ◌++◌, Bytes, arith, Bool-cases,
  Option-cases,
}
use emskin.Clipboard.X11.{IncrOutgoing, X11ClipboardProxy, request}
use emskin.Clipboard.X11.Incoming.{}
use emskin.Clipboard.X11.Outgoing.{
  serves, transfer, modify_transfer, swap_remove, last_first, last_of, init_of, next_chunk,
  handle_outgoing_property_delete, flushing, without_chunk,
}
use emskin.Clipboard.X11.Run.{}
use emskin.Clipboard.X11.Run.Unchanged.{}

-- A transfer is in the list.
abbrev pub Waits : IncrOutgoing → List IncrOutgoing → Type 0
Waits t [] = ⊥
Waits t (u ∷ us) = (u ≡ t) ⊎ Waits t us

pub Waits-push :
    (t u : IncrOutgoing) (ts : List IncrOutgoing) → Waits t ts → Waits t (ts ++ (u ∷ []))
Waits-push t u [] h = absurd h
Waits-push t u (v ∷ ts) (inl e) = inl e
Waits-push t u (v ∷ ts) (inr h) = inr (Waits-push t u ts h)

pub Waits-last : (t : IncrOutgoing) (ts : List IncrOutgoing) → Waits t (ts ++ (t ∷ []))
Waits-last t [] = inl refl
Waits-last t (u ∷ ts) = inr (Waits-last t ts)

Waits-rotate :
    (t u : IncrOutgoing) (us : List IncrOutgoing)
    → Waits t (u ∷ us)
    → Waits t (last_of u us ∷ init_of u us)
unfolding last_of init_of
Waits-rotate t u [] h = h
Waits-rotate t u (v ∷ vs) (inl e) = inr (inl e)
Waits-rotate t u (v ∷ vs) (inr h) = at_last (Waits-rotate t v vs h)
  where
    at_last : Waits t (last_of v vs ∷ init_of v vs) → Waits t (last_of v vs ∷ u ∷ init_of v vs)
    at_last (inl e) = inl e
    at_last (inr k) = inr (inr k)

Waits-last_first :
    (t : IncrOutgoing) (ts : List IncrOutgoing) → Waits t ts → Waits t (last_first ts)
Waits-last_first t [] h = h
Waits-last_first t (u ∷ us) h = Waits-rotate t u us h

-- What is done for another window leaves it there.
module _ (t : IncrOutgoing) (w p : ℕ) (d : w ≢ t.request.requestor) where
  serves-not : serves w p t ≡ false
  serves-not = ground (arith, d)

  swap_remove-Waits : (ts : List IncrOutgoing) → Waits t ts → Waits t (swap_remove w p ts)
  unfolding swap_remove
  swap_remove-Waits [] h = h
  swap_remove-Waits (u ∷ us) (inr h) = elim (Bool-cases (serves w p u)) [
    | inl e ↦ rw e (Waits-last_first t us h)
    | inr e ↦ rw e (inr (swap_remove-Waits us h))
  ]
  swap_remove-Waits (u ∷ us) (inl e) = rw (ap (serves w p) e ∙ serves-not) (inl e)

  modify-Waits :
      (f : IncrOutgoing → IncrOutgoing) (ts : List IncrOutgoing)
      → Waits t ts
      → Waits t (modify_transfer w p f ts)
  unfolding modify_transfer
  modify-Waits f [] h = h
  modify-Waits f (u ∷ us) (inr h) = elim (Bool-cases (serves w p u)) [
    | inl e ↦ rw e (inr h)
    | inr e ↦ rw e (inr (modify-Waits f us h))
  ]
  modify-Waits f (u ∷ us) (inl e) = rw (ap (serves w p) e ∙ serves-not) (inl e)

  next-Waits :
      (u : IncrOutgoing) (x : X11ClipboardProxy)
      → Waits t x.incr_outgoing
      → Waits t (next_chunk w p u x).incr_outgoing
  unfolding next_chunk request
  next-Waits u x h = at_unsent u.unsent
    where
      at_unsent : (bs : Bytes) → Waits t (next_chunk w p (record u { unsent = bs }) x).incr_outgoing
      at_unsent [] = modify-Waits flushing x.incr_outgoing h
      at_unsent (b ∷ bs) = modify-Waits without_chunk x.incr_outgoing h

  pub delete-Waits :
      (x : X11ClipboardProxy)
      → Waits t x.incr_outgoing
      → Waits t (handle_outgoing_property_delete w p x).incr_outgoing
  unfolding handle_outgoing_property_delete
  delete-Waits x h = elim (Option-cases (transfer w p x.incr_outgoing)) [
    | inl e ↦ rw (e, handle_outgoing_property_delete) h
    | inr (u, e) ↦ elim (Bool-cases u.flush_on_delete) [
      | inl b ↦ rw (e, handle_outgoing_property_delete) (rw b (swap_remove-Waits x.incr_outgoing h))
      | inr b ↦ rw (e, handle_outgoing_property_delete) (rw b (next-Waits u x h))
    ]
  ]
