-- ===== src/Clipboard/Bridge/Pipes.antt =====
-- A selection of ours on its way through its pipe to the backend
-- (`register_outgoing_pipe` of crates/emskin/src/clipboard_bridge.rs).
use emskin.Prelude.{
  ℕ, ◌≡◌, ◌⊎◌, inl, inr, refl, sym, ap, subst, ◌∙◌, some, List, [], ◌∷◌, ◌++◌, Bytes, map,
  append_assoc, append-nil,
}
use emskin.Prelude.Dict.{lookup, insert, erase, map_option, lookup-insert_self}
use emskin.Clipboard.Bridge.{
  ClipboardBackend, SelectionState, Read, bytes_read, end_of_file, would_block, read_error,
  with_backend, end_pipe, drain, pipe_ready, register_outgoing_pipe,
}

unfoldable pub join : List Bytes → Bytes
join [] = []
join (b ∷ bs) = b ++ join bs

-- The pipe can be read several times, and blocks behind each of these.
module _ {B : Type 0} (ops : ClipboardBackend B) (id : ℕ) where
  unfoldable pub rounds : List (List Bytes) → SelectionState B → SelectionState B
  rounds [] st = st
  rounds (r ∷ rs) st = rounds rs (pipe_ready ops id (map bytes_read r ++ (would_block ∷ [])) st)

  unfoldable pub all_of : List (List Bytes) → Bytes
  unfolding join
  all_of [] = []
  all_of (r ∷ rs) = join r ++ all_of rs

  drain-reads :
      (bytes : Bytes) (r : List Bytes) (last : List Read) (st : SelectionState B)
      → drain ops id bytes (map bytes_read r ++ last) st ≡ drain ops id (bytes ++ join r) last st
  unfolding drain join
  drain-reads bytes [] last st = ap (λ bs. drain ops id bs last st) (sym (append-nil bytes))
  drain-reads bytes (b ∷ r) last st =
      drain-reads (bytes ++ b) r last st
      ∙ ap (λ bs. drain ops id bs last st) (append_assoc bytes b (join r))

  round-pipes :
      (bytes : Bytes) (r : List Bytes) (st : SelectionState B)
      → lookup id st.pipes ≡ some bytes
      → pipe_ready ops id (map bytes_read r ++ (would_block ∷ [])) st
        ≡ record st { pipes = insert id (bytes ++ join r) st.pipes }
  unfolding pipe_ready
  round-pipes bytes r st e = rw (e, pipe_ready) (drain-reads bytes r (would_block ∷ []) st ∙ refl)

  -- What the rounds leave is the pipe with all that was read, and nothing else has changed.
  rounds-pipes :
      (bytes : Bytes) (rs : List (List Bytes)) (st : SelectionState B)
      → lookup id st.pipes ≡ some bytes
      → (rounds rs st ≡ record st { pipes = (rounds rs st).pipes })
        × (lookup id (rounds rs st).pipes ≡ some (bytes ++ all_of rs))
  unfolding rounds all_of
  rounds-pipes bytes [] st e = (refl, e ∙ ap some (sym (append-nil bytes)))
  rounds-pipes bytes (r ∷ rs) st e =
      let st₁ : SelectionState B = record st { pipes = insert id (bytes ++ join r) st.pipes } in
      let (same, there) =
        rounds-pipes (bytes ++ join r) rs st₁ (lookup-insert_self id (bytes ++ join r) st.pipes) in
      subst
        (λ (t : SelectionState B).
          (rounds rs t ≡ record st { pipes = (rounds rs t).pipes })
          × (lookup id (rounds rs t).pipes ≡ some (bytes ++ (join r ++ all_of rs))))
        (sym (round-pipes bytes r st e))
        (same, there ∙ ap some (append_assoc bytes (join r) (all_of rs)))

  -- The end of the file, or an error, which hands over what came before it.
  abbrev pub Ends : Read → Type 0
  Ends last = (last ≡ end_of_file) ⊎ (last ≡ read_error)

  drain-end :
      (bytes : Bytes) (last : Read) (st : SelectionState B)
      → Ends last
      → drain ops id bytes (last ∷ []) st ≡ end_pipe ops id bytes st
  unfolding drain
  drain-end bytes last st (inl e) = rw e refl
  drain-end bytes last st (inr e) = rw e refl

  -- A pipe is read in any rounds up to its end or an error: the backend gets all bytes that were
  -- read, in order, in one call, the source is gone, and nothing else of the state has changed.
  pub pipe-completes :
      (rs : List (List Bytes)) (r : List Bytes) (last : Read) (st : SelectionState B)
      → Ends last
      → pipe_ready ops id
          (map bytes_read r ++ (last ∷ []))
          (rounds rs (register_outgoing_pipe id st))
        ≡ record st {
          backend = map_option (ops.complete_outgoing id (all_of rs ++ join r)) st.backend;
          pipes = erase id (rounds rs (register_outgoing_pipe id st)).pipes;
        }
  unfolding pipe_ready register_outgoing_pipe end_pipe with_backend
  pipe-completes rs r last st e =
      let st₁ = register_outgoing_pipe id st in
      let (same, there) = rounds-pipes [] rs st₁ (lookup-insert_self id [] st.pipes) in
      rw (there, pipe_ready)
        (drain-reads (all_of rs) r (last ∷ []) (rounds rs st₁)
          ∙ drain-end (all_of rs ++ join r) last (rounds rs st₁) e
          ∙ ap (λ (t : SelectionState B). end_pipe ops id (all_of rs ++ join r) t) same)
