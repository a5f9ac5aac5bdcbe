-- ===== src/ShmRing/Read.antt =====
-- `shmrbuf_read`.
use fips_ipc.Prelude.{
  ℕ, Bool, not, Option, none, some, List, [], ◌==◌, ltb, leb, if◌then◌else◌, get_or, set,
}
use fips_ipc.ShmRing.{
  Ret, ok, err, arg_err, null_ptr_err, mutex_err, GlobalHdr, Segment, Shm, ReaderArg, next_index,
  segment_at, set_segment,
}
use fips_ipc.ShmRing.Line.{memcpy}

-- Whether `pthread_mutex_lock` and `pthread_mutex_unlock` return -1.
pub record Mutex : Type 0 where
  pub lock_fails : Bool
  pub unlock_fails : Bool

-- `MIN(a, b)`
abbrev pub min_of : ℕ → ℕ → ℕ
min_of a b = if ltb b a then b else a

-- The result, the caller's buffer and the segment. From the load of the write index on, for the
-- reader whose index is `reader_id`.
unfoldable pub read_segment : GlobalHdr → Mutex → ℕ → List ℕ → ℕ → Segment → Ret × List ℕ × Segment
unfolding next_index memcpy
read_segment hdr mutex reader_id rbuf bufsize seg =
    let read_index = get_or seg.read_index reader_id 0 in
    let new_read_index = next_index hdr.line_count read_index in
    let rsize = min_of hdr.line_size bufsize in
    if mutex.lock_fails
    then (err mutex_err, rbuf, seg)
    else if seg.write_index == read_index
    then ((if mutex.unlock_fails then err mutex_err else ok 0), rbuf, seg)
    else (
      (if mutex.unlock_fails then err mutex_err else ok rsize),
      memcpy rbuf (get_or seg.lines read_index []) rsize,
      record seg { read_index = set seg.read_index reader_id new_read_index },
    )

-- The checks of the arguments.
unfoldable pub read_args : ReaderArg → Mutex → List ℕ → ℕ → ℕ → Shm → Ret × List ℕ × Shm
unfolding read_segment
read_args args mutex rbuf bufsize segment_id shm =
    let hdr = shm.global_hdr in
    let (ret, rbuf', seg) =
      read_segment hdr mutex args.reader_id rbuf bufsize (segment_at shm segment_id) in
    if not args.attached
    then (err null_ptr_err, rbuf, shm)
    else if leb hdr.segment_count segment_id
    then (err arg_err, rbuf, shm)
    else if bufsize == 0
    then (ok bufsize, rbuf, shm)
    else (ret, rbuf', set_segment shm segment_id seg)

-- `none` is a null pointer.
unfoldable pub read :
    Option ReaderArg → Mutex → Option (List ℕ) → ℕ → ℕ → Shm → Ret × Option (List ℕ) × Shm
unfolding read_args
read none mutex rbuf bufsize segment_id shm = (err null_ptr_err, rbuf, shm)
read (some args) mutex none bufsize segment_id shm = (err null_ptr_err, none, shm)
read (some args) mutex (some rbuf) bufsize segment_id shm =
    let (ret, rbuf', shm') = read_args args mutex rbuf bufsize segment_id shm in
    (ret, some rbuf', shm')
