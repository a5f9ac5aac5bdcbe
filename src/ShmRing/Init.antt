-- ===== src/ShmRing/Init.antt =====
-- What `shmrbuf_init` and `shmrbuf_finalize` share: `shm_cleanup`, `get_hdr_checksum`, a new memory.
use Prim.Native.Nat.{bit_and}
use fips_ipc.Prelude.{
  ℕ, ◌+◌, ◌-◌, ◌*◌, ◌/◌, ◌%◌, ◌^◌, Bool, true, false, not, Option, none, some, ◌==◌, if◌then◌else◌,
  replicate,
}
use fips_ipc.ShmRing.{Error, GlobalHdr, Segment, Shm, WriterArg, ReaderArg}

-- The result of `shmrbuf_init` and `shmrbuf_finalize`: success, an error code, or `errno`.
pub data Status : Type 0 where
  success : Status
  failed : Error → Status
  errno : ℕ → Status

-- The flags of shm_ringbuf.h.
abbrev pub reatt : ℕ
reatt = 0x01

abbrev pub frcat : ℕ
frcat = 0x02

abbrev pub ovwr : ℕ
ovwr = 0x04

abbrev pub noreg : ℕ
noreg = 0x08

abbrev pub reset_flag : ℕ
reset_flag = 0x016

unfoldable pub has_flag : ℕ → ℕ → Bool
has_flag flags mask = not (bit_and flags mask == 0)

-- What the operating system answers during one call; `some e` is a failure with `errno` `e`. A new
-- memory is asked for by its size. The sizes of types that the compiler gives stand here too.
pub record Kernel : Type 0 where
  pub ftok_key : ℕ
  pub ftok_fails : Option ℕ
  pub sizeof_global_hdr : ℕ
  pub sizeof_bool : ℕ
  pub sizeof_index : ℕ
  pub shmget_fails : ℕ → Option ℕ
  pub shmat_fails : Option ℕ
  pub calloc_fails : Bool
  pub shmdt_fails : Option ℕ
  pub stat_fails : Option ℕ
  pub rmid_fails : Option ℕ
  -- `shm_nattch` after the detaching
  pub nattch : ℕ

-- The key is a signed number, read here modulo 2^32 as the addition does.
unfoldable pub get_hdr_checksum : GlobalHdr → ℕ → ℕ
get_hdr_checksum hdr key =
    (key
      + hdr.line_count
      + hdr.line_size
      + (if hdr.overwrite then 1 else 0)
      + hdr.reader_count
      + hdr.segment_count)
    % 2 ^ 32
    % (2 ^ 32 - 1)

-- `EINVAL` and `EEXIST`
abbrev pub einval : ℕ
einval = 22

abbrev pub eexist : ℕ
eexist = 17

-- `shm_cleanup`: the status, and the memory, which is gone if nobody is attached any more. It
-- detaches `args->global_hdr`, which is a null pointer until the argument is filled in.
unfoldable pub cleanup : Kernel → Bool → Bool → Option Shm → Status × Option Shm
cleanup k false filled memory = (success, memory)
cleanup k true false memory = (errno einval, memory)
cleanup k true true memory = elim k.shmdt_fails [
  | some e ↦ (errno e, memory)
  | none ↦ elim k.stat_fails [
    | some e ↦ (errno e, memory)
    | none ↦
        if k.nattch == 0
        then (elim k.rmid_fails [ some e ↦ (errno e, memory) | none ↦ (success, none) ])
        else (success, memory)
  ]
]

abbrev pub cleared_writer : WriterArg
cleared_writer = record {
  line_size = 0;
  line_count = 0;
  segment_count = 0;
  reader_count = 0;
  flags = 0;
  attached = false;
}

abbrev pub cleared_reader : ReaderArg
cleared_reader = record { flags = 0; reader_id = 0; attached = false }

-- The header that a writer sets up in a new memory.
unfoldable pub new_header : WriterArg → ℕ → GlobalHdr
unfolding get_hdr_checksum has_flag
new_header args key = record hdr { checksum = get_hdr_checksum hdr key }
  where
    hdr : GlobalHdr
    hdr = record {
      checksum = 0;
      segment_count = args.segment_count;
      reader_count = args.reader_count;
      line_size = args.line_size;
      line_count = args.line_count;
      overwrite = has_flag args.flags ovwr;
      writer_att = true;
      first_reader_att = replicate args.reader_count false;
    }

-- `line_count * line_size`, a `uint32_t`: the bytes that a segment has for its lines.
abbrev pub lines_bytes : ℕ → ℕ → ℕ
lines_bytes line_count line_size = line_count * line_size % 2 ^ 32

-- The `size` of a new memory, in 64 bits.
unfoldable pub memory_size : Kernel → WriterArg → ℕ
memory_size k args =
    (k.sizeof_global_hdr
      + (args.reader_count + 2 ^ 64 - 1) * k.sizeof_bool
      + args.segment_count
        * (lines_bytes args.line_count args.line_size + (args.reader_count + 1) * k.sizeof_index))
    % 2 ^ 64

-- A segment of a new memory: its indices are set to 0, and the kernel hands out zeroed pages. It has
-- the lines that lie within the bytes which the memory has for them.
unfoldable pub new_segment : GlobalHdr → Segment
new_segment hdr = record {
  write_index = 0;
  read_index = replicate hdr.reader_count 0;
  lines =
      replicate (lines_bytes hdr.line_count hdr.line_size / hdr.line_size)
        (replicate hdr.line_size 0);
}

-- The result of an `init`: the status, the argument as filled in, and the memory.
pub record Inited (A : Type 0) : Type 0 where
  pub status : Status
  pub arg : A
  pub memory : Option Shm
