-- ===== src/Runs/Record.antt =====
-- The theorems on the recorder and on the choice of an X display, on concrete states.
use emskin.Prelude.{
  ℕ, ◌+◌, ◌-◌, ◌≡◌, ◌≢◌, ◌⊎◌, refl, arith, true, false, none, some, List, [], ◌∷◌, ◌++◌, Bytes,
  codes, length, ◌&&◌,
}
use emskin.Prelude.Int.{pos}
use emskin.Prelude.Dict.{lookup, insert}
use emskin.Recorder.{
  CapturedFrame, bottom_up, VideoEncoder, taken, RecordingMeta, new, idle, recording, finished,
  user, stop_recording,
}
use emskin.Recorder.Frames.{Tick, capture_frame, finalize, flip}
use emskin.Recorder.Account.{Call, record_to, stop, capture, finish, run, kills, live, run-accounts}
use emskin.Recorder.Counts.{run-counts}
use emskin.Recorder.Took.{IsCounted, counts, reported}
use emskin.Recorder.Flip.{join, join_back, flip-join}
use emskin.Recorder.Ticks.{in_state, captures, capture-twice, stop-finishes}
use emskin.Display.{
  Files, Machine, setup_connection, trim_start, trim_end, parse_u32, parse_digits, owner_of,
  has_no_owner, pid_alive, format_lock_body,
}
use emskin.Display.Setup.{setup_connection-spares}

abbrev frame : CapturedFrame
frame = record {
  width = 1;
  height = 1;
  orientation = bottom_up;
  mapped = some (1 ∷ 2 ∷ 3 ∷ 4 ∷ []);
}

abbrev tick : ℕ → Tick
tick now = record {
  now = now;
  physical_size = (pos 1, pos 1);
  present_time = now;
  can_start = true;
  captured = some frame;
  try_send = taken;
  can_write = true;
  ended_at = now;
}

abbrev interval : ℕ → ℕ
interval fps = 10

-- A recording with two frames, which is stopped.
abbrev calls : List Call
calls =
    record_to (codes "a") 30
    ∷ capture (tick 1)
    ∷ finish (tick 1)
    ∷ capture (tick 2)
    ∷ finish (tick 2)
    ∷ stop
    ∷ finish (tick 3)
    ∷ []

run-accounts_example :
    length (run interval calls new).1
      + (kills (run interval calls new).0.ended + live (run interval calls new).0.state)
      + 0
    ≡ kills [] + live idle + (run interval calls new).0.started
run-accounts_example = run-accounts interval calls new

new-IsCounted : IsCounted idle
new-IsCounted = tt

run-counts_example :
    IsCounted (run interval calls new).0.state
    × (counts (run interval calls new).0.ended ≡ counts [] ++ reported (run interval calls new).1)
run-counts_example = run-counts interval calls new new-IsCounted

abbrev encoder : VideoEncoder
encoder = record {
  size = (pos 1, pos 1);
  fps = 30;
  bytes_per_frame = 4;
  dropped_frames = 0;
  sender = true;
  queued = [];
}

abbrev meta : RecordingMeta
meta = record {
  path = codes "a";
  started_at = 1;
  started_at_present = 1;
  frame_interval = 10;
  last_frame_at = some 1;
  frames_written = 0;
  size = (pos 1, pos 1);
}

capture-twice_example :
    (capture_frame interval
      (tick 13)
      (finalize (tick 12) (
        capture_frame interval
          (tick 12)
          (in_state (recording encoder meta none none) new))).0).state
    ≡ recording encoder meta (some frame) (some frame)
capture-twice_example =
    capture-twice interval (tick 12) (tick 12) (tick 13) encoder meta new refl refl refl
      (omega arith)

stop-finishes_example :
    finalize (tick 9) (
      captures interval
        (tick 5 ∷ tick 6 ∷ [])
        (stop_recording (in_state (recording encoder meta (some frame) none) new)))
    ≡ (
      record new {
        state = idle;
        ended =
            [] ++ (finished (record encoder { queued = [] ++ ((1 ∷ 2 ∷ 3 ∷ 4 ∷ []) ∷ []) }) ∷ []);
      },
      some (record { path = codes "a"; frames_written = 0 + 1; duration = 9 - 1; reason = user }),
    )
stop-finishes_example =
    stop-finishes interval (tick 5 ∷ tick 6 ∷ []) (tick 9) encoder meta frame none
      (1 ∷ 2 ∷ 3 ∷ 4 ∷ []) new refl refl refl refl

abbrev two_rows : List Bytes
two_rows = (1 ∷ 2 ∷ []) ∷ (3 ∷ 4 ∷ []) ∷ []

flip-join_example : flip 2 2 (join two_rows) ≡ join_back two_rows
flip-join_example = flip-join 2 two_rows (refl, (refl, tt))

-- The process 42 holds the display 0.
abbrev machine : Machine
machine = record {
  pid = 77;
  kill_succeeds = λ p. true;
  can_create = λ n. true;
  can_write = λ n. true;
  can_write_fd = λ n. true;
  can_read = λ n. true;
  can_remove_lock = λ n. true;
  can_remove_socket = λ n. true;
  binds_abstract = λ n. true;
  binds_unix = λ n. true;
}

abbrev files : Files
files = record { locks = insert 0 (codes "        42\n") []; sockets = [] }

lock_there : lookup 0 files.locks ≡ some (codes "        42\n")
unfolding insert lookup
lock_there = refl

owner_lives : machine.can_read 0 && has_no_owner machine (codes "        42\n") ≡ false
unfolding pid_alive has_no_owner owner_of trim_start trim_end parse_u32 parse_digits
owner_lives = refl

setup_connection-spares_example :
    let r = setup_connection machine 0 files in
    (lookup 0 r.0.locks ≡ some (codes "        42\n"))
    × ((r.1 ≡ none)
        ⊎ ((n : ℕ) × (r.1 ≡ some n)
            × ((◌≢◌ {A = ℕ} 0 n))
            × (lookup n r.0.locks ≡ some (format_lock_body 77))))
setup_connection-spares_example =
    setup_connection-spares machine 0 (codes "        42\n") 0 files (lock_there, owner_lives)
