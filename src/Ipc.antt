-- ===== src/Ipc.antt =====
-- crates/emskin/src/ipc/connection.rs: the framing of the messages between Emacs and the
-- compositor. The results of the `read` and `write` calls are arguments.
pub mod Framing
pub mod Server
use emskin.Prelude.{
  ℕ, zero, suc, ◌+◌, ◌*◌, ◌/◌, ◌%◌, ◌^◌, Bool, true, false, Option, none, some, List, [], ◌∷◌, ◌++◌,
  Bytes, length, take, drop, get_or, ltb, if◌then◌else◌,
}
use emskin.Fcitx.{le_bytes}

-- 1 MiB.
abbrev pub max_msg_size : ℕ
max_msg_size = 1024 * 1024

pub record IpcConn : Type 0 where
  pub read_buf : Bytes
  pub write_buf : Bytes

abbrev pub new : IpcConn
new = record { read_buf = []; write_buf = [] }

-- One `read` of the loop in `fill_read_buf`; no bytes are the end of the stream.
pub data ReadResult : Type 0 where
  read : Bytes → ReadResult
  read_would_block read_failed : ReadResult

-- `Ok(closed)`, or an error.
pub data Filled : Type 0 where
  open_still closed read_error : Filled

unfoldable pub fill_read_buf : IpcConn → List ReadResult → IpcConn × Filled
fill_read_buf conn [] = (conn, open_still)
fill_read_buf conn (read [] ∷ rs) = (conn, closed)
fill_read_buf conn (read (b ∷ bs) ∷ rs) =
    fill_read_buf (record conn { read_buf = conn.read_buf ++ (b ∷ bs) }) rs
fill_read_buf conn (read_would_block ∷ rs) = (conn, open_still)
fill_read_buf conn (read_failed ∷ rs) = (conn, read_error)

-- `u32::from_le_bytes` of the first four bytes.
unfoldable pub u32_from_le : Bytes → ℕ
u32_from_le b = get_or b 0 0 + get_or b 1 0 * 2 ^ 8 + get_or b 2 0 * 2 ^ 16 + get_or b 3 0 * 2 ^ 24

pub data Recv : Type 0 where
  no_message : Recv
  payload : Bytes → Recv
  too_large : ℕ → Recv

unfoldable pub try_recv : IpcConn → IpcConn × Recv
unfolding u32_from_le
try_recv conn =
    if ltb (length conn.read_buf) 4
    then (conn, no_message)
    else let len = u32_from_le conn.read_buf in
      if ltb max_msg_size len
      then (record conn { read_buf = [] }, too_large len)
      else if ltb (length conn.read_buf) (4 + len)
      then (conn, no_message)
      else (
        record conn { read_buf = drop (4 + len) conn.read_buf },
        payload (take len (drop 4 conn.read_buf)),
      )

-- The argument is the result of `serde_json::to_vec`. A message that fails is dropped.
unfoldable pub enqueue : IpcConn → Option Bytes → IpcConn
unfolding le_bytes
enqueue conn none = conn
enqueue conn (some json) =
    if ltb (length json) (2 ^ 32)
    then record conn { write_buf = conn.write_buf ++ (le_bytes 4 (length json) ++ json) }
    else conn

pub data WriteResult : Type 0 where
  wrote : ℕ → WriteResult
  write_would_block write_failed : WriteResult

-- `Ok(pending)`, or an error; and the bytes that were written.
pub data FlushResult : Type 0 where
  flushed pending write_error : FlushResult

abbrev pending_if_any : Bytes → FlushResult
pending_if_any [] = flushed
pending_if_any (b ∷ bs) = pending

unfoldable pub try_flush : List WriteResult → Bytes → Bytes × FlushResult × Bytes
try_flush rs [] = ([], flushed, [])
try_flush [] (b ∷ bs) = (b ∷ bs, pending, [])
try_flush (wrote zero ∷ rs) (b ∷ bs) = (b ∷ bs, pending, [])
try_flush (wrote (suc n) ∷ rs) (b ∷ bs) =
    let (left, result, out) = try_flush rs (drop n bs) in (left, result, (b ∷ take n bs) ++ out)
try_flush (write_would_block ∷ rs) (b ∷ bs) = (b ∷ bs, pending, [])
try_flush (write_failed ∷ rs) (b ∷ bs) = (b ∷ bs, write_error, [])
