-- ===== src/Display.antt =====
-- The choice of an X display, its lock file and its sockets
-- (crates/emskin/src/xwayland_satellite/sockets.rs). The files are two tables by display; what the
-- system allows and what `kill` answers are arguments. White space is that of ASCII.
pub mod Setup
use emskin.Prelude.{
  ℕ, zero, suc, ◌+◌, ◌-◌, ◌*◌, ◌^◌, Bool, true, false, not, ◌&&◌, ◌||◌, Option, none, some, List,
  [], ◌∷◌, ◌++◌, Bytes, replicate, length, ltb, leb, ◌==◌, if◌then◌else◌,
}
use emskin.Prelude.Dict.{Dict, lookup, insert, erase}
use emskin.Prelude.Int.{ℤ, pos, negsuc}
use emskin.Fcitx.{decimal}

abbrev pub max_display_attempts : ℕ
max_display_attempts = 256

abbrev pub max_socket_bind_retries : ℕ
max_socket_bind_retries = 50

-- The number in ten places, and the end of the line.
unfoldable pub format_lock_body : ℕ → Bytes
unfolding decimal
format_lock_body pid = replicate (10 - length (decimal pid)) b' ' ++ (decimal pid ++ (10 ∷ []))

abbrev pub is_space : ℕ → Bool
is_space c = (c == 32) || (leb 9 c && leb c 13)

unfoldable pub trim_start : Bytes → Bytes
trim_start [] = []
trim_start (c ∷ cs) = let rest = trim_start cs in if is_space c then rest else c ∷ cs

abbrev pub end_of : ℕ → Bytes → Bytes
end_of c [] = if is_space c then [] else c ∷ []
end_of c (d ∷ ds) = c ∷ d ∷ ds

unfoldable pub trim_end : Bytes → Bytes
trim_end [] = []
trim_end (c ∷ cs) = end_of c (trim_end cs)

-- `str::parse::<u32>`: digits behind a number, `none` for another character or an overflow.
unfoldable pub parse_digits : ℕ → Bytes → Option ℕ
parse_digits n [] = some n
parse_digits n (c ∷ cs) =
    let m = n * 10 + (c - b'0') in
    let rest = parse_digits m cs in
    if (leb b'0' c && leb c b'9') && ltb m (2 ^ 32) then rest else none

unfoldable pub parse_u32 : Bytes → Option ℕ
unfolding parse_digits
parse_u32 [] = none
parse_u32 (c ∷ []) = parse_digits 0 (c ∷ [])
parse_u32 (c ∷ d ∷ cs) = if c == b'+' then parse_digits 0 (d ∷ cs) else parse_digits 0 (c ∷ d ∷ cs)

-- The owner that a lock file names: a number that is not zero.
unfoldable pub owner_of : Bytes → Option ℕ
unfolding trim_start trim_end parse_u32
owner_of contents = elim (parse_u32 (trim_end (trim_start contents))) [
  | none ↦ none
  | some pid ↦ if ltb 0 pid then some pid else none
]

-- `pid as i32`, of a `u32`.
abbrev as_i32 : ℕ → ℤ
as_i32 pid = if ltb pid (2 ^ 31) then pos pid else negsuc (2 ^ 32 - 1 - pid)

-- The lock files and the socket files, by display.
pub record Files : Type 0 where
  pub locks : Dict Bytes
  pub sockets : Dict Bytes

-- Our process, of which numbers `kill(pid, 0)` gives 0 (it does not where the process lives but
-- belongs to another user, and of a negative number it is about a group), and for each display
-- whether a file can be created, written, read and removed and a socket be bound.
pub record Machine : Type 0 where
  pub pid : ℕ
  pub kill_succeeds : ℤ → Bool
  pub can_create : ℕ → Bool
  pub can_write : ℕ → Bool
  pub can_write_fd : ℕ → Bool
  pub can_read : ℕ → Bool
  pub can_remove_lock : ℕ → Bool
  pub can_remove_socket : ℕ → Bool
  pub binds_abstract : ℕ → Bool
  pub binds_unix : ℕ → Bool

-- A slot was claimed, is held by another or cannot be reclaimed, or an error came up.
pub data Claim : Type 0 where
  claimed : Files → Claim
  held : Files → Claim
  failed : Files → Claim

pub data Opened : Type 0 where
  ready : Files → Opened
  ended : Files → Opened
  retry : Files → Opened

module _ (m : Machine) where
  -- `create_new`, and our number in it if it can be written.
  unfoldable pub try_create_lock : ℕ → Files → Claim
  unfolding lookup insert format_lock_body
  try_create_lock n f = elim (lookup n f.locks) [
    | some contents ↦ held f
    | none ↦
        if m.can_create n
        then claimed (record f {
          locks = insert n (if m.can_write n then format_lock_body m.pid else []) f.locks;
        })
        else failed f
  ]

  unfoldable pub pid_alive : ℕ → Bool
  pid_alive pid = m.kill_succeeds (as_i32 pid)

  -- Whether a lock with these contents has no owner.
  unfoldable pub has_no_owner : Bytes → Bool
  unfolding owner_of pid_alive
  has_no_owner contents = elim (owner_of contents) [ none ↦ true | some pid ↦ not (pid_alive pid) ]

  unfoldable pub is_stale_lock : ℕ → Files → Bool
  unfolding lookup has_no_owner
  is_stale_lock n f = elim (lookup n f.locks) [
    | none ↦ false
    | some contents ↦ m.can_read n && has_no_owner contents
  ]

  -- Whether lock and socket are gone.
  unfoldable pub reclaim_stale_display : ℕ → Files → Files × Bool
  unfolding erase lookup
  reclaim_stale_display n f =
      if m.can_remove_lock n
      then (let g : Files = record f { locks = erase n f.locks } in
          elim (lookup n f.sockets) [
            | none ↦ (g, true)
            | some s ↦
                if m.can_remove_socket n
                then (record g { sockets = erase n f.sockets }, true)
                else (g, false)
          ])
      else (f, false)

  -- The second try, of which any error counts as held.
  abbrev pub claim_again : Claim → Claim
  claim_again (claimed f) = claimed f
  claim_again (held f) = held f
  claim_again (failed f) = held f

  abbrev pub claim_reclaimed : ℕ → Files × Bool → Claim
  claim_reclaimed n (f, gone) = if gone then claim_again (try_create_lock n f) else held f

  abbrev pub claim_held : ℕ → Files → Claim
  claim_held n f =
      if is_stale_lock n f then claim_reclaimed n (reclaim_stale_display n f) else held f

  abbrev pub claim_from : ℕ → Claim → Claim
  claim_from n (claimed f) = claimed f
  claim_from n (failed f) = failed f
  claim_from n (held f) = claim_held n f

  unfoldable pub try_claim_slot : ℕ → Files → Claim
  unfolding try_create_lock is_stale_lock reclaim_stale_display
  try_claim_slot n f = claim_from n (try_create_lock n f)

  -- The display that was claimed; `none` for an error, or where no display is free.
  unfoldable pub pick_from : ℕ → ℕ → Files → Files × Option ℕ
  unfolding try_claim_slot
  pick_from zero n f = (f, none)
  pick_from (suc tries) n f = elim (try_claim_slot n f) [
    | claimed g ↦ (g, some n)
    | failed g ↦ (g, none)
    | held g ↦ pick_from tries (n + 1) g
  ]

  unfoldable pub pick_x11_display : ℕ → Files → Files × Option ℕ
  unfolding pick_from
  pick_x11_display start f = pick_from max_display_attempts start f

  -- `Drop` of the lock's guard.
  unfoldable pub unlink_lock : ℕ → Files → Files
  unfolding erase
  unlink_lock n f = if m.can_remove_lock n then record f { locks = erase n f.locks } else f

  unfoldable pub unlink_socket : ℕ → Files → Files
  unfolding erase
  unlink_socket n f = if m.can_remove_socket n then record f { sockets = erase n f.sockets } else f

  -- Whether both sockets are bound.
  unfoldable pub open_display_sockets : ℕ → Files → Files × Bool
  unfolding unlink_socket insert
  open_display_sockets n f =
      if m.binds_abstract n
      then (if m.binds_unix n
          then (let g = unlink_socket n f in record g { sockets = insert n [] g.sockets }, true)
          else (unlink_socket n (unlink_socket n f), false))
      else (f, false)

  -- Our number in the lock, through its descriptor.
  unfoldable pub write_pid : ℕ → Files → Files
  unfolding insert format_lock_body
  write_pid n f = record f { locks = insert n (format_lock_body m.pid) f.locks }

  -- The claimed display is opened: it is ready, an error ends the setup, or another is tried.
  unfoldable pub open_claimed : ℕ → Files → Opened
  unfolding write_pid open_display_sockets
  open_claimed n f =
      if m.can_write_fd n
      then (let (g, bound) = open_display_sockets n (write_pid n f) in
          if bound then ready g else retry g)
      else ended f

  -- `retries` is how often another display is tried when the sockets cannot be bound.
  unfoldable pub setup_loop : ℕ → ℕ → Files → Files × Option ℕ
  unfolding pick_x11_display open_claimed unlink_lock
  setup_loop zero start f =
      let (g, picked) = pick_x11_display start f in
      elim picked [
        | none ↦ (g, none)
        | some n ↦ elim (open_claimed n g) [
          | ready h ↦ (h, some n)
          | ended h ↦ (unlink_lock n h, none)
          | retry h ↦ (unlink_lock n h, none)
        ]
      ]
  setup_loop (suc retries) start f =
      let (g, picked) = pick_x11_display start f in
      elim picked [
        | none ↦ (g, none)
        | some n ↦ elim (open_claimed n g) [
          | ready h ↦ (h, some n)
          | ended h ↦ (unlink_lock n h, none)
          | retry h ↦ setup_loop retries (n + 1) (unlink_lock n h)
        ]
      ]

  -- The display, if there is one.
  unfoldable pub setup_connection : ℕ → Files → Files × Option ℕ
  unfolding setup_loop
  setup_connection start f = setup_loop max_socket_bind_retries start f
