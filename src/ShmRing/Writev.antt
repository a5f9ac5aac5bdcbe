-- ===== src/ShmRing/Writev.antt =====
-- `shmrbuf_writev`.
use fips_ipc.Prelude.{
  ℕ, ◌+◌, ◌-◌, ◌%◌, ◌^◌, Bool, true, false, not, Option, none, some, List, [], ◌∷◌, ◌==◌, ltb, leb,
  if◌then◌else◌, get_or, set, take,
}
use fips_ipc.ShmRing.{
  Ret, ok, err, arg_err, null_ptr_err, size_err, GlobalHdr, Segment, Shm, WriterArg, Iovec,
  segment_at, set_segment,
}
use fips_ipc.ShmRing.Line.{put_line}

-- The distance from the writer to a reader, less one.
abbrev pub dst : ℕ → ℕ → ℕ → ℕ
dst line_count w r = if ltb w r then r - w - 1 else line_count - (w - r) - 1

-- The loop that reduces `vsize` for each reader; `none` is its `return 0`.
unfoldable pub clamp : ℕ → ℕ → ℕ → List ℕ → Option ℕ
clamp line_count w vsize [] = some vsize
clamp line_count w vsize (r ∷ rs) =
    let vsize' = if ltb (dst line_count w r) vsize then dst line_count w r else vsize in
    let rest = clamp line_count w vsize' rs in if vsize' == 0 then none else rest

-- One copying loop over iovecs, from line `pos` on; `false` is its `return IO_IPC_SIZE_ERR`.
unfoldable pub put_lines : ℕ → List (List ℕ) → ℕ → List Iovec → Bool × List (List ℕ)
put_lines line_size lines pos [] = (true, lines)
put_lines line_size lines pos (v ∷ vs) =
    let wsize = v.iov_len % 2 ^ 16 in
    let line = (put_line line_size (get_or lines pos []) v.iov_base wsize).0 in
    let rest = put_lines line_size (set lines pos line) (pos + 1) vs in
    if ltb line_size wsize then (false, lines) else rest

-- The two copying branches: up to the new write index, or to the end of the ring and on from its
-- start. In the second, both loops begin at `iovecs[0]`.
unfoldable pub copy_in : GlobalHdr → List Iovec → ℕ → ℕ → ℕ → List (List ℕ) → Bool × List (List ℕ)
copy_in hdr iovecs vsize w new_w lines =
    let to_end = (hdr.line_count - w) % 2 ^ 16 in
    let (done, lines') = put_lines hdr.line_size lines w (take to_end iovecs) in
    let rest = (vsize + 2 ^ 16 - to_end) % 2 ^ 16 in
    if ltb w new_w
    then put_lines hdr.line_size lines w (take vsize iovecs)
    else if done
    then put_lines hdr.line_size lines' 0 (take rest iovecs)
    else (false, lines')

-- From the copying on, for a `vsize` that is settled.
unfoldable pub store_lines : GlobalHdr → List Iovec → ℕ → Segment → Ret × Segment
unfolding copy_in put_lines
store_lines hdr iovecs vsize seg =
    let w = seg.write_index in
    let new_w = (w + vsize) % 2 ^ 32 % hdr.line_count in
    let (done, lines) = copy_in hdr iovecs vsize w new_w seg.lines in
    if done
    then (ok vsize, record seg { write_index = new_w; lines = lines })
    else (err size_err, record seg { lines = lines })

unfoldable pub after_clamp : GlobalHdr → List Iovec → Segment → Option ℕ → Ret × Segment
unfolding store_lines
after_clamp hdr iovecs seg none = (ok 0, seg)
after_clamp hdr iovecs seg (some vsize) = store_lines hdr iovecs vsize seg

-- The body, from the load of the segment's write index on.
unfoldable pub writev_segment : GlobalHdr → List Iovec → ℕ → Segment → Ret × Segment
unfolding after_clamp clamp
writev_segment hdr iovecs vsize seg =
    let vsize' = if ltb hdr.line_count vsize then hdr.line_count else vsize in
    after_clamp hdr iovecs seg (
      if hdr.overwrite
      then some vsize'
      else clamp hdr.line_count seg.write_index vsize' (take hdr.reader_count seg.read_index))

-- The checks of the arguments. The segment is checked against the writer's own count.
unfoldable pub writev_args : WriterArg → List Iovec → ℕ → ℕ → Shm → Ret × Shm
unfolding writev_segment
writev_args args iovecs vsize segment_id shm =
    let (ret, seg) = writev_segment shm.global_hdr iovecs vsize (segment_at shm segment_id) in
    if not args.attached
    then (err null_ptr_err, shm)
    else if leb args.segment_count segment_id
    then (err arg_err, shm)
    else if vsize == 0
    then (ok vsize, shm)
    else (ret, set_segment shm segment_id seg)

-- `none` is a null pointer.
unfoldable pub writev : Option WriterArg → Option (List Iovec) → ℕ → ℕ → Shm → Ret × Shm
unfolding writev_args
writev none iovecs vsize segment_id shm = (err null_ptr_err, shm)
writev (some args) none vsize segment_id shm = (err null_ptr_err, shm)
writev (some args) (some iovecs) vsize segment_id shm = writev_args args iovecs vsize segment_id shm
