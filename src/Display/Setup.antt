-- ===== src/Display/Setup.antt =====
-- What the choice of a display does to the locks of others
-- (crates/emskin/src/xwayland_satellite/sockets.rs).
use emskin.Prelude.{
  ℕ, zero, suc, ◌+◌, ◌≡◌, ◌≢◌, ◌⊎◌, refl, inl, inr, ap, ◌∙◌, Bool, true, false, ◌&&◌, Option, none,
  some, Bytes, arith, Bool-cases, Option-cases,
}
use emskin.Prelude.Dict.{lookup, lookup-insert_self, lookup-insert_ne, lookup-erase_ne}
use emskin.Display.{
  Files, Machine, Claim, claimed, held, failed, format_lock_body, try_create_lock, has_no_owner,
  is_stale_lock, reclaim_stale_display, claim_again, claim_reclaimed, claim_held, claim_from,
  try_claim_slot, pick_from, pick_x11_display, unlink_lock, unlink_socket, open_display_sockets,
  write_pid, Opened, ready, ended, retry, open_claimed, setup_loop, setup_connection,
}

abbrev pub files_of : Claim → Files
files_of (claimed f) = f
files_of (held f) = f
files_of (failed f) = f

module _ (m : Machine) (d : ℕ) (contents : Bytes) where
  -- The lock of a display, whose owner lives, or which cannot be read.
  abbrev pub Guarded : Files → Type 0
  Guarded f = (lookup d f.locks ≡ some contents) × (m.can_read d && has_no_owner m contents ≡ false)

  -- It is kept, and what is claimed is another display.
  abbrev Spares : ℕ → Claim → Type 0
  Spares n (claimed f) = Guarded f × (d ≢ n)
  Spares n (held f) = Guarded f
  Spares n (failed f) = Guarded f

  create-Spares : (n : ℕ) (f : Files) → Guarded f → Spares n (try_create_lock m n f)
  unfolding try_create_lock
  create-Spares n f (there, lives) = elim (Option-cases (lookup n f.locks)) [
    | inr (c, e) ↦ rw (e, try_create_lock) (there, lives)
    | inl e ↦ elim (Bool-cases (m.can_create n)) [
      | inr no_ ↦ rw (e, try_create_lock) (rw no_ (there, lives))
      | inl can ↦
          let other : d ≢ n = λ h. cc in
          rw (e, try_create_lock)
            (rw can ((lookup-insert_ne d n _ f.locks other ∙ there, lives), other))
    ]
  ]

  -- A lock that is stale is another.
  not_stale : (f : Files) → Guarded f → is_stale_lock m d f ≡ false
  unfolding is_stale_lock
  not_stale f (there, lives) = rw (there, is_stale_lock) lives

  stale-ne : (n : ℕ) (f : Files) → Guarded f → is_stale_lock m n f ≡ true → d ≢ n
  stale-ne n f h stale =
      λ e. let here = ap (λ k. is_stale_lock m k f) e ∙ stale in let never = not_stale f h in cc

  reclaim-Guarded :
      (n : ℕ) (f : Files) → Guarded f → d ≢ n → Guarded (reclaim_stale_display m n f).0
  unfolding reclaim_stale_display
  reclaim-Guarded n f (there, lives) other = elim (Bool-cases (m.can_remove_lock n)) [
    | inr no_ ↦ rw (no_, reclaim_stale_display) (there, lives)
    | inl can ↦
        let kept = lookup-erase_ne d n f.locks other ∙ there in
        elim (Option-cases (lookup n f.sockets)) [
          | inl e ↦ rw (can, reclaim_stale_display) (rw e (kept, lives))
          | inr (c, e) ↦ elim (Bool-cases (m.can_remove_socket n)) [
            | inl s ↦ rw (can, reclaim_stale_display) (rw e (rw s (kept, lives)))
            | inr s ↦ rw (can, reclaim_stale_display) (rw e (rw s (kept, lives)))
          ]
        ]
  ]

  again-Spares : (n : ℕ) (c : Claim) → Spares n c → Spares n (claim_again m c)
  again-Spares n (claimed f) h = h
  again-Spares n (held f) h = h
  again-Spares n (failed f) h = h

  reclaimed-Spares : (n : ℕ) (r : Files × Bool) → Guarded r.0 → Spares n (claim_reclaimed m n r)
  reclaimed-Spares n (f, true) h = again-Spares n (try_create_lock m n f) (create-Spares n f h)
  reclaimed-Spares n (f, false) h = h

  held-Spares : (n : ℕ) (f : Files) → Guarded f → Spares n (claim_held m n f)
  held-Spares n f h = elim (Bool-cases (is_stale_lock m n f)) [
    | inr fresh ↦ rw fresh h
    | inl stale ↦ rw stale (
        reclaimed-Spares n (reclaim_stale_display m n f)
          (reclaim-Guarded n f h (stale-ne n f h stale)))
  ]

  from-Spares : (n : ℕ) (c : Claim) → Spares n c → Spares n (claim_from m n c)
  from-Spares n (claimed f) h = h
  from-Spares n (failed f) h = h
  from-Spares n (held f) h = held-Spares n f h

  slot-Spares : (n : ℕ) (f : Files) → Guarded f → Spares n (try_claim_slot m n f)
  unfolding try_claim_slot
  slot-Spares n f h = from-Spares n (try_create_lock m n f) (create-Spares n f h)

  abbrev Picked : Files × Option ℕ → Type 0
  Picked (f, none) = Guarded f
  Picked (f, some n) = Guarded f × (d ≢ n)

  pick-Picked : (tries n : ℕ) (f : Files) → Guarded f → Picked (pick_from m tries n f)
  unfolding pick_from
  pick-Picked zero n f h = h
  pick-Picked (suc tries) n f h =
      at_claim (λ g k. pick-Picked tries (n + 1) g k) (try_claim_slot m n f) (slot-Spares n f h)
    where
      at_claim :
          ((g : Files) → Guarded g → Picked (pick_from m tries (n + 1) g))
          → (c : Claim) → Spares n c
          → Picked (elim c as (λ c'. Files × Option ℕ) [
            | claimed g ↦ (g, some n)
            | failed g ↦ (g, none)
            | held g ↦ pick_from m tries (n + 1) g
          ])
      at_claim later (claimed g) k = k
      at_claim later (failed g) k = k
      at_claim later (held g) k = later g k

  unlink-Guarded : (n : ℕ) (f : Files) → Guarded f → d ≢ n → Guarded (unlink_lock m n f)
  unfolding unlink_lock
  unlink-Guarded n f (there, lives) other = elim (Bool-cases (m.can_remove_lock n)) [
    | inl can ↦ rw can (lookup-erase_ne d n f.locks other ∙ there, lives)
    | inr no_ ↦ rw no_ (there, lives)
  ]

  unlinked-locks : (n : ℕ) (f : Files) → (unlink_socket m n f).locks ≡ f.locks
  unfolding unlink_socket
  unlinked-locks n f = ground arith

  sockets-locks : (n : ℕ) (f : Files) → (open_display_sockets m n f).0.locks ≡ f.locks
  unfolding open_display_sockets
  sockets-locks n f = ground (arith, unlinked-locks n f, unlinked-locks n (unlink_socket m n f))

  -- What is claimed and opened has our number in its lock.
  abbrev Owned : ℕ → Files → Type 0
  Owned n f = lookup n f.locks ≡ some (format_lock_body m.pid)

  abbrev Opens : ℕ → Opened → Type 0
  Opens n (ready f) = Guarded f × Owned n f
  Opens n (ended f) = Guarded f
  Opens n (retry f) = Guarded f

  open-Opens : (n : ℕ) (f : Files) → Guarded f → d ≢ n → Opens n (open_claimed m n f)
  unfolding open_claimed write_pid
  open-Opens n f (there, lives) other =
      let g = write_pid m n f in
      let kept : lookup d g.locks ≡ some contents =
        lookup-insert_ne d n (format_lock_body m.pid) f.locks other ∙ there in
      let same = sockets-locks n g in
      let open_ : lookup d (open_display_sockets m n g).0.locks ≡ some contents =
        ap (λ ls. lookup d ls) same ∙ kept in
      let own : lookup n (open_display_sockets m n g).0.locks ≡ some (format_lock_body m.pid) =
        ap (λ ls. lookup n ls) same ∙ lookup-insert_self n (format_lock_body m.pid) f.locks in
      elim (Bool-cases (m.can_write_fd n)) [
        | inr no_ ↦ rw no_ (there, lives)
        | inl can ↦ elim (Bool-cases (open_display_sockets m n g).1) [
          | inl b ↦ rw can (rw b ((open_, lives), own))
          | inr b ↦ rw can (rw b (open_, lives))
        ]
      ]

  -- The setup took no display, or another, whose lock it has.
  abbrev Taken : Files × Option ℕ → Type 0
  Taken (f, none) = Guarded f
  Taken (f, some n) = Guarded f × (d ≢ n) × Owned n f

  setup-Taken : (retries start : ℕ) (f : Files) → Guarded f → Taken (setup_loop m retries start f)
  unfolding setup_loop
  setup-Taken zero start f h = at_picked (pick_x11_display m start f) (pick-Picked 256 start f h)
    where
      at_open :
          (n : ℕ) (o : Opened)
          → Opens n o
          → d ≢ n
          → Taken (elim o as (λ o'. Files × Option ℕ) [
            | ready h ↦ (h, some n)
            | ended h ↦ (unlink_lock m n h, none)
            | retry h ↦ (unlink_lock m n h, none)
          ])
      at_open n (ready g) (k, own) other = (k, other, own)
      at_open n (ended g) k other = unlink-Guarded n g k other
      at_open n (retry g) k other = unlink-Guarded n g k other

      at_picked :
          (r : Files × Option ℕ)
          → Picked r
          → Taken (elim r.1 as (λ o. Files × Option ℕ) [
            | none ↦ (r.0, none)
            | some n ↦ elim (open_claimed m n r.0) as (λ o'. Files × Option ℕ) [
              | ready h ↦ (h, some n)
              | ended h ↦ (unlink_lock m n h, none)
              | retry h ↦ (unlink_lock m n h, none)
            ]
          ])
      at_picked (g, none) k = k
      at_picked (g, some n) (k, other) =
          at_open n (open_claimed m n g) (open-Opens n g k other) other
  setup-Taken (suc retries) start f h =
      at_picked (λ n g k. setup-Taken retries (n + 1) g k) (pick_x11_display m start f)
        (pick-Picked 256 start f h)
    where
      at_open :
          ((n : ℕ) (g : Files) → Guarded g → Taken (setup_loop m retries (n + 1) g))
          → (n : ℕ) (o : Opened) → Opens n o
          → d ≢ n
          → Taken (elim o as (λ o'. Files × Option ℕ) [
            | ready h ↦ (h, some n)
            | ended h ↦ (unlink_lock m n h, none)
            | retry h ↦ setup_loop m retries (n + 1) (unlink_lock m n h)
          ])
      at_open later n (ready g) (k, own) other = (k, other, own)
      at_open later n (ended g) k other = unlink-Guarded n g k other
      at_open later n (retry g) k other = later n (unlink_lock m n g) (unlink-Guarded n g k other)

      at_picked :
          ((n : ℕ) (g : Files) → Guarded g → Taken (setup_loop m retries (n + 1) g))
          → (r : Files × Option ℕ) → Picked r
          → Taken (elim r.1 as (λ o. Files × Option ℕ) [
            | none ↦ (r.0, none)
            | some n ↦ elim (open_claimed m n r.0) as (λ o'. Files × Option ℕ) [
              | ready h ↦ (h, some n)
              | ended h ↦ (unlink_lock m n h, none)
              | retry h ↦ setup_loop m retries (n + 1) (unlink_lock m n h)
            ]
          ])
      at_picked later (g, none) k = k
      at_picked later (g, some n) (k, other) =
          at_open later n (open_claimed m n g) (open-Opens n g k other) other

  -- Where the lock of a display stands whose contents name a process that `kill(pid, 0)` finds, or
  -- which cannot be read, the setup leaves that lock as it is, whatever the other files are and
  -- whatever fails. It ends with no display, or with another whose lock has our number.
  pub setup_connection-spares :
      (start : ℕ) (f : Files)
      → Guarded f
      → let r = setup_connection m start f in
        (lookup d r.0.locks ≡ some contents)
        × ((r.1 ≡ none)
            ⊎ ((n : ℕ) × (r.1 ≡ some n)
                × (d ≢ n)
                × (lookup n r.0.locks ≡ some (format_lock_body m.pid))))
  unfolding setup_connection
  setup_connection-spares start f h = at_taken (setup_loop m 50 start f) (setup-Taken 50 start f h)
    where
      at_taken :
          (r : Files × Option ℕ)
          → Taken r
          → (lookup d r.0.locks ≡ some contents)
            × ((r.1 ≡ none)
                ⊎ ((n : ℕ) × (r.1 ≡ some n)
                    × (d ≢ n)
                    × (lookup n r.0.locks ≡ some (format_lock_body m.pid))))
      at_taken (g, none) k = (k.0, inl refl)
      at_taken (g, some n) (k, other, own) = (k.0, inr (n, refl, other, own))
