-- ===== src/ShmRing/Readv.antt =====
-- `shmrbuf_readv`.
use fips_ipc.Prelude.{
  ℕ, ◌+◌, ◌-◌, ◌%◌, ◌^◌, not, Option, none, some, List, [], ◌∷◌, ◌++◌, ◌==◌, ltb, leb,
  if◌then◌else◌, get_or, set, take, drop,
}
use fips_ipc.ShmRing.{
  Ret, ok, err, arg_err, null_ptr_err, mutex_err, size_err, GlobalHdr, Segment, Shm, ReaderArg,
  Iovec, segment_at, set_segment,
}
use fips_ipc.ShmRing.Line.{memcpy}
use fips_ipc.ShmRing.Read.{Mutex}

-- What memory holds after the last line of a segment, line by line.
abbrev pub Beyond : Type 0
Beyond = ℕ → List ℕ

-- `src`, `i` lines from the start of the segment's data.
unfoldable pub line_at : GlobalHdr → Beyond → List (List ℕ) → ℕ → List ℕ
line_at hdr beyond lines i =
    if ltb i hdr.line_count then get_or lines i [] else beyond (i - hdr.line_count)

-- The copying loop; `src += line_size` has no wrap at the end of the ring.
unfoldable pub copy_out : GlobalHdr → Beyond → List (List ℕ) → ℕ → List Iovec → List Iovec
unfolding line_at memcpy
copy_out hdr beyond lines i [] = []
copy_out hdr beyond lines i (v ∷ vs) =
    record {
      iov_base = memcpy v.iov_base (line_at hdr beyond lines i) hdr.line_size;
      iov_len = hdr.line_size;
    }
    ∷ copy_out hdr beyond lines (i + 1) vs

-- The body, from the load of the write index on.
unfoldable pub readv_segment :
    GlobalHdr → Beyond → Mutex → ℕ → List Iovec → ℕ → ℕ → Segment → Ret × List Iovec × Segment
unfolding copy_out
readv_segment hdr beyond mutex reader_id iovecs vsize bufsize seg =
    let n = hdr.line_count in
    let w = seg.write_index in
    let r = get_or seg.read_index reader_id 0 in
    let max_read = if ltb w r then n - (r - w) else w - r in
    let vsize' = if ltb max_read vsize then max_read else vsize in
    let new_r = (r + vsize') % 2 ^ 32 % n in
    if mutex.lock_fails
    then (err mutex_err, iovecs, seg)
    else if w == r
    then ((if mutex.unlock_fails then err mutex_err else ok 0), iovecs, seg)
    else if ltb bufsize hdr.line_size
    then (err size_err, iovecs, seg)
    else (
      (if mutex.unlock_fails then err mutex_err else ok vsize'),
      copy_out hdr beyond seg.lines r (take vsize' iovecs) ++ drop vsize' iovecs,
      record seg { read_index = set seg.read_index reader_id new_r },
    )

-- The checks of the arguments.
unfoldable pub readv_args :
    ReaderArg → (ℕ → Beyond) → Mutex → List Iovec → ℕ → ℕ → ℕ → Shm → Ret × List Iovec × Shm
unfolding readv_segment
readv_args args beyond mutex iovecs vsize bufsize segment_id shm =
    let hdr = shm.global_hdr in
    let (ret, iovecs', seg) =
      readv_segment hdr (beyond segment_id) mutex args.reader_id iovecs vsize bufsize
        (segment_at shm segment_id) in
    if not args.attached
    then (err null_ptr_err, iovecs, shm)
    else if leb hdr.segment_count segment_id
    then (err arg_err, iovecs, shm)
    else if vsize == 0
    then (ok vsize, iovecs, shm)
    else (ret, iovecs', set_segment shm segment_id seg)

-- `none` is a null pointer.
unfoldable pub readv :
    Option ReaderArg
    → (ℕ → Beyond)
    → Mutex
    → Option (List Iovec)
    → ℕ
    → ℕ
    → ℕ
    → Shm
    → Ret × Option (List Iovec) × Shm
unfolding readv_args
readv none beyond mutex iovecs vsize bufsize segment_id shm = (err null_ptr_err, iovecs, shm)
readv (some args) beyond mutex none vsize bufsize segment_id shm = (err null_ptr_err, none, shm)
readv (some args) beyond mutex (some iovecs) vsize bufsize segment_id shm =
    let (ret, iovecs', shm') = readv_args args beyond mutex iovecs vsize bufsize segment_id shm in
    (ret, some iovecs', shm')
