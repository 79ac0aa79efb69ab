-- ===== src/Clipboard/DataControl/Rounds.antt =====
-- Our selections and those of the host's applications, one after the other
-- (crates/emskin-clipboard/src/data_control.rs).
use emskin.Prelude.{
  ℕ, suc, ◌+◌, ◌≡◌, refl, sym, ap, ◌∙◌, true, false, Option, none, some, List, [], ◌∷◌, ◌++◌, Text,
  length, ltb, lt→ltb, le→ltb, subst, arith, append_assoc, append-nil,
}
use emskin.Clipboard.{SelectionKind, clipboard, primary, ClipboardEvent, host_selection_changed}
use emskin.Clipboard.DataControl.{
  ClipboardState, suppress_of, mimes_of, on_selection, ask, set_host_selection,
  clear_host_selection,
}
use emskin.Clipboard.DataControl.Offers.{Word, new_offer, say, said, Fresh, say-rest, say-mimes}

-- A change of ours: a selection, with the number of its source, or none.
pub data Change : Type 0 where
  set_to : ℕ → List Text → Change
  cleared : Change

abbrev pub change : SelectionKind → Change → ClipboardState → ClipboardState
change kind (set_to source mimes) s = set_host_selection source kind mimes s
change kind cleared s = clear_host_selection kind s

unfoldable pub changes : SelectionKind → List Change → ClipboardState → ClipboardState
changes kind [] s = s
changes kind (c ∷ cs) s = changes kind cs (change kind c s)

-- What the host reports for them: as many selections, each with what is said of offers before it.
unfoldable pub echoes :
    SelectionKind → List (List Word × Option ℕ) → ClipboardState → ClipboardState
echoes kind [] s = s
echoes kind ((ws, o) ∷ es) s = echoes kind es (on_selection kind o (say ws s))

-- Some changes of ours and then their reports, or the selection of another application.
pub data Round : Type 0 where
  ours : SelectionKind → List Change → List (List Word × Option ℕ) → Round
  theirs : SelectionKind → ℕ → List Word → Round
  emptied : SelectionKind → Round

unfoldable pub play : List Round → ClipboardState → ClipboardState
play [] s = s
play (ours kind cs es ∷ rs) s = play rs (echoes kind es (changes kind cs s))
play (theirs kind id ws ∷ rs) s = play rs (on_selection kind (some id) (say (new_offer id ∷ ws) s))
play (emptied kind ∷ rs) s = play rs (on_selection kind none s)

-- Every change of ours has its report, and offers have different numbers.
abbrev pub IsFair : List Round → Type 0
IsFair [] = Unit
IsFair (ours kind cs es ∷ rs) = (length es ≡ length cs) × IsFair rs
IsFair (theirs kind id ws ∷ rs) = Fresh id ws × IsFair rs
IsFair (emptied kind ∷ rs) = IsFair rs

-- The selections of the others.
unfoldable pub foreign : List Round → List ClipboardEvent
foreign [] = []
foreign (ours kind cs es ∷ rs) = foreign rs
foreign (theirs kind id ws ∷ rs) = host_selection_changed kind (said id ws) ∷ foreign rs
foreign (emptied kind ∷ rs) = host_selection_changed kind [] ∷ foreign rs

-- What the proofs see of the state.
pub record Looks (s : ClipboardState) (es : List ClipboardEvent) (c p : ℕ) : Type 0 where
  pub manager : s.has_manager ≡ true
  pub device : s.has_device ≡ true
  pub reported : s.events ≡ es
  pub clipboards : s.suppress_clipboard ≡ c
  pub primaries : s.suppress_primary ≡ p

say-Looks :
    (ws : List Word) (s : ClipboardState) {es : List ClipboardEvent} {c p : ℕ}
    → Looks s es c p
    → Looks (say ws s) es c p
say-Looks ws s l = rw (say-rest ws s) (record {
  manager = l.manager;
  device = l.device;
  reported = l.reported;
  clipboards = l.clipboards;
  primaries = l.primaries;
})

abbrev plus : SelectionKind → ℕ → ℕ × ℕ → ℕ × ℕ
plus clipboard n (c, p) = (c + n, p)
plus primary n (c, p) = (c, p + n)

change-Looks :
    (kind : SelectionKind) (ch : Change) (s : ClipboardState) (es : List ClipboardEvent) (c p : ℕ)
    → Looks s es c p
    → Looks (change kind ch s) es (plus kind 1 (c, p)).0 (plus kind 1 (c, p)).1
unfolding set_host_selection clear_host_selection ask
change-Looks clipboard (set_to source mimes) s es c p l = ground arith
change-Looks clipboard cleared s es c p l = ground arith
change-Looks primary (set_to source mimes) s es c p l = ground arith
change-Looks primary cleared s es c p l = ground arith

cast-Looks :
    {s : ClipboardState} {es : List ClipboardEvent} {c p c' p' : ℕ}
    → c ≡ c'
    → p ≡ p'
    → Looks s es c p
    → Looks s es c' p'
cast-Looks a b l = record {
  manager = l.manager;
  device = l.device;
  reported = l.reported;
  clipboards = l.clipboards ∙ a;
  primaries = l.primaries ∙ b;
}

changes-Looks :
    (kind : SelectionKind) (cs : List Change) (s : ClipboardState) (es : List ClipboardEvent)
    (c p : ℕ)
    → Looks s es c p
    → Looks (changes kind cs s) es (plus kind (length cs) (c, p)).0 (plus kind (length cs) (c, p)).1
unfolding changes
changes-Looks clipboard [] s es c p l = cast-Looks (omega arith) refl l
changes-Looks primary [] s es c p l = cast-Looks refl (omega arith) l
changes-Looks clipboard (ch ∷ cs) s es c p l = cast-Looks (omega arith) refl (
    changes-Looks clipboard cs (change clipboard ch s) es (c + 1) p
      (change-Looks clipboard ch s es c p l))
changes-Looks primary (ch ∷ cs) s es c p l = cast-Looks refl (omega arith) (
    changes-Looks primary cs (change primary ch s) es c (p + 1)
      (change-Looks primary ch s es c p l))

-- A selection that the counter covers is not reported.
covered-Looks :
    (kind : SelectionKind) (o : Option ℕ) (s : ClipboardState) (es : List ClipboardEvent)
    (c p n : ℕ)
    → Looks s es (plus kind (suc n) (c, p)).0 (plus kind (suc n) (c, p)).1
    → Looks (on_selection kind o s) es (plus kind n (c, p)).0 (plus kind n (c, p)).1
unfolding on_selection ask
covered-Looks clipboard o s es c p n l =
    let above : ltb 0 s.suppress_clipboard ≡ true = lt→ltb 0 _ (omega (arith, l.clipboards)) in
    rw above (record {
      manager = l.manager;
      device = l.device;
      reported = l.reported;
      clipboards = omega (arith, l.clipboards);
      primaries = l.primaries;
    })
covered-Looks primary o s es c p n l =
    let above : ltb 0 s.suppress_primary ≡ true = lt→ltb 0 _ (omega (arith, l.primaries)) in
    rw above (record {
      manager = l.manager;
      device = l.device;
      reported = l.reported;
      clipboards = l.clipboards;
      primaries = omega (arith, l.primaries);
    })

echoes-Looks :
    (kind : SelectionKind) (rs : List (List Word × Option ℕ)) (s : ClipboardState)
    (es : List ClipboardEvent) (c p : ℕ)
    → Looks s es (plus kind (length rs) (c, p)).0 (plus kind (length rs) (c, p)).1
    → Looks (echoes kind rs s) es (plus kind 0 (c, p)).0 (plus kind 0 (c, p)).1
unfolding echoes
echoes-Looks kind [] s es c p l = l
echoes-Looks kind ((ws, o) ∷ rs) s es c p l =
    echoes-Looks kind rs (on_selection kind o (say ws s)) es c p
      (covered-Looks kind o (say ws s) es c p (length rs) (say-Looks ws s l))

-- One that it does not cover is.
open-Looks :
    (kind : SelectionKind) (o : Option ℕ) (s : ClipboardState) (es : List ClipboardEvent)
    → Looks s es 0 0
    → Looks
        (on_selection kind o s)
        (es ++ (host_selection_changed kind (mimes_of o s.pending_offers) ∷ []))
        0
        0
unfolding on_selection ask
open-Looks clipboard o s es l =
    let at_zero : ltb 0 s.suppress_clipboard ≡ false = le→ltb 0 _ (omega (arith, l.clipboards)) in
    rw at_zero (record {
      manager = l.manager;
      device = l.device;
      reported =
          ap (λ bs. bs ++ (host_selection_changed clipboard (mimes_of o s.pending_offers) ∷ []))
            l.reported;
      clipboards = l.clipboards;
      primaries = l.primaries;
    })
open-Looks primary o s es l =
    let at_zero : ltb 0 s.suppress_primary ≡ false = le→ltb 0 _ (omega (arith, l.primaries)) in
    rw at_zero (record {
      manager = l.manager;
      device = l.device;
      reported =
          ap (λ bs. bs ++ (host_selection_changed primary (mimes_of o s.pending_offers) ∷ []))
            l.reported;
      clipboards = l.clipboards;
      primaries = l.primaries;
    })

zero_plus :
    {s : ClipboardState} {es : List ClipboardEvent} (kind : SelectionKind)
    → Looks s es (plus kind 0 (0, 0)).0 (plus kind 0 (0, 0)).1
    → Looks s es 0 0
zero_plus clipboard l = l
zero_plus primary l = l

play-Looks :
    (rs : List Round) (s : ClipboardState) (es : List ClipboardEvent)
    → IsFair rs
    → Looks s es 0 0
    → Looks (play rs s) (es ++ foreign rs) 0 0
unfolding play foreign
play-Looks [] s es f l = rw (append-nil es) l
play-Looks (ours kind cs rs' ∷ rs) s es f l =
    let changed = changes-Looks kind cs s es 0 0 l in
    let counted =
      subst (λ (n : ℕ). Looks (changes kind cs s) es (plus kind n (0, 0)).0 (plus kind n (0, 0)).1)
        (sym f.0) changed in
    play-Looks rs (echoes kind rs' (changes kind cs s)) es f.1
      (zero_plus kind (echoes-Looks kind rs' (changes kind cs s) es 0 0 counted))
play-Looks (theirs kind id ws ∷ rs) s es f l =
    let t = say (new_offer id ∷ ws) s in
    let after = open-Looks kind (some id) t es (say-Looks (new_offer id ∷ ws) s l) in
    let event = λ (mimes : List Text). host_selection_changed kind mimes in
    let all =
      play-Looks rs (on_selection kind (some id) t)
        (es ++ (event (mimes_of (some id) t.pending_offers) ∷ [])) f.1 after in
    subst (λ (bs : List ClipboardEvent). Looks (play rs (on_selection kind (some id) t)) bs 0 0)
      (append_assoc es _ (foreign rs)
        ∙ ap (λ mimes. es ++ (event mimes ∷ foreign rs)) (say-mimes id ws s f.0))
      all
play-Looks (emptied kind ∷ rs) s es f l =
    let after = open-Looks kind none s es l in
    subst (λ (bs : List ClipboardEvent). Looks (play rs (on_selection kind none s)) bs 0 0)
      (append_assoc es _ (foreign rs))
      (play-Looks rs (on_selection kind none s) (es ++ (host_selection_changed kind [] ∷ [])) f
        after)

-- Where the host reports our changes before it reports another application's, in whatever numbers
-- they come, exactly the selections of the other applications become events, in order, each with
-- the MIME types that were said of its offer: no change of ours comes back, and none of theirs is
-- lost. The host has the protocol, offers have different numbers, and nothing was to be suppressed.
pub play-reports :
    (rs : List Round) (s : ClipboardState)
    → IsFair rs
    → s.has_manager ≡ true
    → s.has_device ≡ true
    → s.suppress_clipboard ≡ 0
    → s.suppress_primary ≡ 0
    → ((play rs s).events ≡ s.events ++ foreign rs)
      × (suppress_of clipboard (play rs s) ≡ 0)
      × (suppress_of primary (play rs s) ≡ 0)
play-reports rs s f m d c p =
    let l =
      play-Looks rs s s.events f
        (record { manager = m; device = d; reported = refl; clipboards = c; primaries = p }) in
    (l.reported, l.clipboards, l.primaries)
