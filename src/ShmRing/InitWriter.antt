-- ===== src/ShmRing/InitWriter.antt =====
-- `shmrbuf_init` and `shmrbuf_finalize` for a writer.
use fips_ipc.Prelude.{
  ℕ, Bool, true, false, not, ◌&&◌, ◌||◌, Option, none, some, [], ◌==◌, if◌then◌else◌, replicate,
}
use fips_ipc.ShmRing.{arg_err, mem_err, Shm, WriterArg}
use fips_ipc.ShmRing.Init.{
  success, failed, errno, reatt, frcat, eexist, has_flag, Kernel, get_hdr_checksum, cleanup,
  cleared_writer, new_header, new_segment, memory_size, Inited,
}

-- `role == SHMRBUF_WRITER`, once a memory is attached.
unfoldable pub attach_writer : WriterArg → Kernel → Bool → Shm → Inited WriterArg
unfolding cleanup get_hdr_checksum has_flag
attach_writer args k exists shm =
    let hdr = shm.global_hdr in
    let refused =
      exists
      && (not (hdr.checksum == get_hdr_checksum hdr k.ftok_key)
          || hdr.writer_att && not (has_flag args.flags frcat)) in
    let marked = record shm { global_hdr = record hdr { writer_att = true } } in
    if refused
    then record {
      status = failed arg_err;
      arg = cleared_writer;
      memory = (cleanup k true false (some shm)).1;
    }
    else if k.calloc_fails
    then record {
      status = failed mem_err;
      arg = cleared_writer;
      memory = (cleanup k exists true (some marked)).1;
    }
    else record { status = success; arg = record args { attached = true }; memory = some marked }

-- What the kernel hands out for a new memory.
abbrev pub blank : Shm
blank = record {
  global_hdr = record {
    checksum = 0;
    segment_count = 0;
    reader_count = 0;
    line_size = 0;
    line_count = 0;
    overwrite = false;
    writer_att = false;
    first_reader_att = [];
  };
  segments = [];
}

-- A new memory, after the answer of `shmget`.
unfoldable pub create_writer : WriterArg → Kernel → Option ℕ → Inited WriterArg
unfolding attach_writer new_header new_segment
create_writer args k (some e) = record { status = errno e; arg = args; memory = none }
create_writer args k none = elim k.shmat_fails [
  | some e ↦ record { status = errno e; arg = cleared_writer; memory = some blank }
  | none ↦
      let hdr = new_header args k.ftok_key in
      attach_writer args k false
        (record { global_hdr = hdr; segments = replicate hdr.segment_count (new_segment hdr) })
]

-- Looking for the memory, and making it; an old one that is not to be reattached is in the way
-- (`IPC_EXCL`).
find_writer : WriterArg → Kernel → Bool → Option Shm → Inited WriterArg
unfolding attach_writer
find_writer args k false (some shm) = record {
  status = errno eexist;
  arg = args;
  memory = some shm;
}
find_writer args k true (some shm) = elim k.shmat_fails [
  | some e ↦ record { status = errno e; arg = cleared_writer; memory = some shm }
  | none ↦ attach_writer args k true shm
]
find_writer args k reattach none = create_writer args k (k.shmget_fails (memory_size k args))

-- `shmrbuf_init(args, SHMRBUF_WRITER)`; `named` is `shm_key != NULL`.
unfoldable pub init_writer : Bool → WriterArg → Kernel → Option Shm → Inited WriterArg
unfolding find_writer has_flag
init_writer named args k memory =
    let reattach = has_flag args.flags reatt in
    if not named
      || not reattach
        && (args.line_size == 0
            || args.line_count == 0
            || args.segment_count == 0
            || args.reader_count == 0)
    then record { status = failed arg_err; arg = args; memory = memory }
    else elim k.ftok_fails [
      | some e ↦ record { status = errno e; arg = args; memory = memory }
      | none ↦ find_writer args k reattach memory
    ]

-- `shmrbuf_finalize`, for a writer.
unfoldable pub finalize_writer : WriterArg → Kernel → Shm → Inited WriterArg
unfolding cleanup
finalize_writer args k shm =
    let left = record shm { global_hdr = record (shm.global_hdr) { writer_att = false } } in
    let (status, memory) = cleanup k true true (some left) in
    record { status = status; arg = cleared_writer; memory = memory }
