-- ===== src/ShmRing/Write.antt =====
-- `shmrbuf_write`.
use fips_ipc.Prelude.{
  ℕ, Bool, false, not, ◌&&◌, ◌||◌, Option, none, some, List, [], ◌∷◌, ◌==◌, ltb, leb, if◌then◌else◌,
  get_or, set, take,
}
use fips_ipc.ShmRing.{
  Ret, ok, err, arg_err, null_ptr_err, size_err, GlobalHdr, Segment, Shm, WriterArg, next_index,
  segment_at, set_segment,
}
use fips_ipc.ShmRing.Line.{put_line}

-- The loop over `first_reader`: does any reader stand at the new write index?
unfoldable pub overtakes : ℕ → List ℕ → Bool
overtakes new_write_index [] = false
overtakes new_write_index (r ∷ rs) = new_write_index == r || overtakes new_write_index rs

-- The body, from the load of the segment's write index on.
unfoldable pub write_segment : GlobalHdr → List ℕ → ℕ → Segment → Ret × Segment
unfolding overtakes next_index
write_segment hdr src wsize seg =
    let new_write_index = next_index hdr.line_count seg.write_index in
    let (line, wsize') = put_line hdr.line_size (get_or seg.lines seg.write_index []) src wsize in
    if not hdr.overwrite && overtakes new_write_index (take hdr.reader_count seg.read_index)
    then (err size_err, seg)
    else (
      ok wsize',
      record seg { write_index = new_write_index; lines = set seg.lines seg.write_index line },
    )

-- The checks of the arguments.
unfoldable pub write_args : WriterArg → List ℕ → ℕ → ℕ → Shm → Ret × Shm
unfolding write_segment
write_args args src wsize segment_id shm =
    let hdr = shm.global_hdr in
    let (ret, seg) = write_segment hdr src wsize (segment_at shm segment_id) in
    if not args.attached
    then (err null_ptr_err, shm)
    else if leb hdr.segment_count segment_id || ltb hdr.line_size wsize
    then (err arg_err, shm)
    else if wsize == 0
    then (ok wsize, shm)
    else (ret, set_segment shm segment_id seg)

-- `none` is a null pointer.
unfoldable pub write : Option WriterArg → Option (List ℕ) → ℕ → ℕ → Shm → Ret × Shm
unfolding write_args
write none src wsize segment_id shm = (err null_ptr_err, shm)
write (some args) none wsize segment_id shm = (err null_ptr_err, shm)
write (some args) (some src) wsize segment_id shm = write_args args src wsize segment_id shm
