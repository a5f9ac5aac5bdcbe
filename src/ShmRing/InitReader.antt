-- ===== src/ShmRing/InitReader.antt =====
-- `shmrbuf_init` and `shmrbuf_finalize` for a reader.
use fips_ipc.Prelude.{
  ℕ, ◌+◌, Bool, true, false, not, ◌||◌, Option, none, some, List, [], ◌∷◌, map, ◌==◌, if◌then◌else◌,
  set,
}
use fips_ipc.ShmRing.{arg_err, mem_err, size_err, Segment, Shm, ReaderArg}
use fips_ipc.ShmRing.Init.{
  success, failed, errno, noreg, reset_flag, has_flag, Kernel, get_hdr_checksum, cleanup,
  cleared_reader, Inited,
}

-- The loop of compare-and-exchange over `first_reader_att` from `i` on: the slot taken, and the
-- flags after.
unfoldable pub register : ℕ → List Bool → Option (ℕ × List Bool)
register i [] = none
register i (false ∷ fs) = some (i, true ∷ fs)
register i (true ∷ fs) = elim (register (i + 1) fs) [
  | none ↦ none
  | some (id, gs) ↦ some (id, true ∷ gs)
]

-- The reset of one read index to the write index.
unfoldable pub reset_segment : ℕ → Segment → Segment
reset_segment id seg = record seg { read_index = set seg.read_index id seg.write_index }

-- From the registration on: with `calloc` and the loop over the segments.
unfoldable pub attach_reader : ReaderArg → Kernel → Shm → Inited ReaderArg
unfolding cleanup has_flag reset_segment
attach_reader args k shm =
    let segments =
      if has_flag args.flags reset_flag
      then map (reset_segment args.reader_id) shm.segments
      else shm.segments in
    if k.calloc_fails
    then record {
      status = failed mem_err;
      arg = cleared_reader;
      memory = (cleanup k true true (some shm)).1;
    }
    else record {
      status = success;
      arg = record args { attached = true };
      memory = some (record shm { segments = segments });
    }

register_reader : ReaderArg → Kernel → Shm → Option (ℕ × List Bool) → Inited ReaderArg
unfolding attach_reader
register_reader args k shm none = record {
  status = failed size_err;
  arg = cleared_reader;
  memory = (cleanup k true true (some shm)).1;
}
register_reader args k shm (some (id, flags)) =
    attach_reader (record args { reader_id = id }) k
      (record shm { global_hdr = record (shm.global_hdr) { first_reader_att = flags } })

-- `role == SHMRBUF_READER`, once the memory is attached.
unfoldable pub open_reader : ReaderArg → Kernel → Shm → Inited ReaderArg
unfolding register_reader register get_hdr_checksum
open_reader args k shm =
    let hdr = shm.global_hdr in
    if not (hdr.checksum == get_hdr_checksum hdr k.ftok_key)
      || (hdr.segment_count == 0 || hdr.line_count == 0 || hdr.line_size == 0)
    then record {
      status = failed arg_err;
      arg = cleared_reader;
      memory = (cleanup k true false (some shm)).1;
    }
    else if has_flag args.flags noreg
    then attach_reader args k shm
    else register_reader args k shm (register 0 hdr.first_reader_att)

find_reader : ReaderArg → Kernel → Option Shm → Inited ReaderArg
unfolding open_reader
find_reader args k none = record { status = errno 2; arg = args; memory = none }
find_reader args k (some shm) = elim k.shmat_fails [
  | some e ↦ record { status = errno e; arg = cleared_reader; memory = some shm }
  | none ↦ open_reader args k shm
]

-- `shmrbuf_init(args, SHMRBUF_READER)`; `ENOENT` where there is no memory.
unfoldable pub init_reader : Bool → ReaderArg → Kernel → Option Shm → Inited ReaderArg
unfolding find_reader
init_reader named args k memory =
    if not named
    then record { status = failed arg_err; arg = args; memory = memory }
    else elim k.ftok_fails [
      | some e ↦ record { status = errno e; arg = args; memory = memory }
      | none ↦ find_reader args k memory
    ]

-- `shmrbuf_finalize`, for a reader.
unfoldable pub finalize_reader : ReaderArg → Kernel → Shm → Inited ReaderArg
unfolding cleanup has_flag
finalize_reader args k shm =
    let hdr = shm.global_hdr in
    let left = if has_flag args.flags noreg then shm else record shm {
      global_hdr = record hdr { first_reader_att = set hdr.first_reader_att args.reader_id false };
    } in
    let (status, memory) = cleanup k true true (some left) in
    record { status = status; arg = cleared_reader; memory = memory }
