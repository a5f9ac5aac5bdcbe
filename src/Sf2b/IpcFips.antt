-- ===== src/Sf2b/IpcFips.antt =====
-- src/programs/sf2b/fips_buf.c: the lines of a banning thread in the build with the buffer of
-- src/lib/fips_buf.c.
use fips_ipc.Prelude.{ℕ, ◌==◌, if◌then◌else◌, Option, none, some, List, [], ◌∷◌, map}
use fips_ipc.FipsBuf.{Code, Segment, Iovec}
use fips_ipc.FipsBuf.Ring.{Range}
use fips_ipc.FipsBuf.Assign.{Assignment}
use fips_ipc.FipsBuf.Attach.{Threads, Behind}
use fips_ipc.FipsBuf.Cache.{Cache}
use fips_ipc.FipsBuf.Returns.{SqeList, fips_buf_return}
use fips_ipc.FipsBuf.Rotation.{ReadCode, read_lines, ReadState, fips_buf_read}

-- `QUEUE_SIZE`
abbrev pub queue_size : ℕ
queue_size = 100

-- `ipc_args_t` with what it points to: the variables of the thread, the tag of its last read, and
-- the segments, each with the lists of its readers.
pub record IpcThread : Type 0 where
  pub rotation : ℕ
  pub cache : Cache
  pub tag : Range
  pub segments : List (Segment × List SqeList)

abbrev pub segment_part : Segment × List SqeList → Segment
segment_part (seg, lists) = seg

-- What `fips_buf_read` gets of it.
abbrev pub read_state : IpcThread → ReadState
read_state th = record {
  rotation = th.rotation;
  cache = th.cache;
  segments = map segment_part th.segments;
}

-- The segments after a read, with their lists.
abbrev pub with_lists : List Segment → List (Segment × List SqeList) → List (Segment × List SqeList)
with_lists [] rest = []
with_lists (seg ∷ segs) [] = []
with_lists (seg ∷ segs) ((old, lists) ∷ rest) = (seg, lists) ∷ with_lists segs rest

abbrev pub after_read : IpcThread → ReadState → IpcThread
after_read th s = record {
  rotation = s.rotation;
  cache = s.cache;
  tag = th.tag;
  segments = with_lists s.segments th.segments;
}

-- `ret != FIPS_BUF_SUCCESS` gives no lines, and a success as many as were wanted.
abbrev pub got_lines : IpcThread → ReadCode × ReadState → ℕ × List Iovec × IpcThread
got_lines th (read_lines iovecs tag, s) =
    (queue_size, iovecs, record (after_read th s) { tag = tag })
got_lines th (code, s) = (0, [], after_read th s)

-- `none`: a fault in `fips_buf_read`.
abbrev pub lines_of :
    IpcThread → Option (ReadCode × ReadState) → Option (ℕ × List Iovec × IpcThread)
lines_of th none = none
lines_of th (some read) = some (got_lines th read)

-- A failure is only printed. `none`: a loop has not ended within the rounds.
abbrev pub after_return :
    IpcThread → Option (Code × List (Segment × List SqeList)) → Option IpcThread
after_return th none = none
after_return th (some (code, segments)) = some (record th { segments = segments })

abbrev pub with_lines : ℕ → List Iovec → Option IpcThread → Option (ℕ × List Iovec × IpcThread)
with_lines recv_retval iovecs none = none
with_lines recv_retval iovecs (some th) = some (recv_retval, iovecs, th)

module _ (behind : Behind) (assignment : Option Assignment) (t : Threads) (reader_index : ℕ) where
  unfoldable pub get_lines_ipc : IpcThread → Option (ℕ × List Iovec × IpcThread)
  unfolding fips_buf_read
  get_lines_ipc th =
      lines_of th (fips_buf_read behind assignment t reader_index queue_size 0 (read_state th))

  unfoldable pub return_lines_ipc : ℕ → IpcThread → Option IpcThread
  unfolding fips_buf_return
  return_lines_ipc rounds th = after_return th (fips_buf_return rounds t.header th.tag th.segments)

  -- The lines are returned, if there are any.
  unfoldable pub return_served :
      ℕ → Option (ℕ × List Iovec × IpcThread) → Option (ℕ × List Iovec × IpcThread)
  unfolding return_lines_ipc
  return_served rounds none = none
  return_served rounds (some (recv_retval, iovecs, th)) =
      if recv_retval == 0
      then some (recv_retval, iovecs, th)
      else with_lines recv_retval iovecs (return_lines_ipc rounds th)

  -- A round of `ban_thread_routine`, around its work on the lines; with the lines received.
  unfoldable pub serve_lines : ℕ → IpcThread → Option (ℕ × List Iovec × IpcThread)
  unfolding get_lines_ipc return_served
  serve_lines rounds th = return_served rounds (get_lines_ipc th)
