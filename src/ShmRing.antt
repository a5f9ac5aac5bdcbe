-- ===== src/ShmRing.antt =====
-- src/lib/shm_ringbuf.c and src/lib/include/shm_ringbuf.h: the shared memory and its arguments.
pub mod Line
pub mod Window
pub mod Invariant
pub mod Write
pub mod Read
pub mod WriteLaws
pub mod ReadLaws
pub mod Writev
pub mod Readv
pub mod Runs
pub mod WritevLaws
pub mod WritevPublish
pub mod WritevWrap
pub mod ReadvLoop
pub mod ReadvLaws
pub mod Calls
pub mod Range
pub mod RangeLaws
pub mod RangeV
pub mod Init
pub mod InitWriter
pub mod InitReader
pub mod InitLaws
mod Examples
use fips_ipc.Prelude.{ℕ, ◌+◌, ◌-◌, Bool, List, [], ◌==◌, if◌then◌else◌, get_or, set}

-- The error codes of io_ipc.h, all negative.
pub data Error : Type 0 where
  arg_err mem_err null_ptr_err mutex_err size_err : Error

-- An `int` result: a count, or an error.
pub data Ret : Type 0 where
  ok : ℕ → Ret
  err : Error → Ret

-- `shmrbuf_global_hdr_t`; `first_reader_att` is the array of flags that starts at that field.
pub record GlobalHdr : Type 0 where
  pub checksum : ℕ
  pub segment_count : ℕ
  pub reader_count : ℕ
  pub line_size : ℕ
  pub line_count : ℕ
  pub overwrite : Bool
  pub writer_att : Bool
  pub first_reader_att : List Bool

-- What a `shmrbuf_seg_whdr_t` or `shmrbuf_seg_rhdr_t` points to: the indices of the writer and of
-- each reader, and `data` as its lines.
pub record Segment : Type 0 where
  pub write_index : ℕ
  pub read_index : List ℕ
  pub lines : List (List ℕ)

-- The shared memory segment.
pub record Shm : Type 0 where
  pub global_hdr : GlobalHdr
  pub segments : List Segment

-- `shmrbuf_writer_arg_t`; `attached` is `segment_hdrs != NULL`.
pub record WriterArg : Type 0 where
  pub line_size : ℕ
  pub line_count : ℕ
  pub segment_count : ℕ
  pub reader_count : ℕ
  pub flags : ℕ
  pub attached : Bool

-- `shmrbuf_reader_arg_t`; `attached` is `segment_hdrs != NULL`.
pub record ReaderArg : Type 0 where
  pub flags : ℕ
  pub reader_id : ℕ
  pub attached : Bool

-- `struct iovec`
pub record Iovec : Type 0 where
  pub iov_base : List ℕ
  pub iov_len : ℕ

-- `(index == line_count - 1) ? 0 : index + 1`
unfoldable pub next_index : ℕ → ℕ → ℕ
next_index line_count i = if i == line_count - 1 then 0 else i + 1

abbrev pub no_segment : Segment
no_segment = record { write_index = 0; read_index = []; lines = [] }

-- `&args->segment_hdrs[segment_id]`
abbrev pub segment_at : Shm → ℕ → Segment
segment_at shm id = get_or shm.segments id no_segment

abbrev pub set_segment : Shm → ℕ → Segment → Shm
set_segment shm id seg = record shm { segments = set shm.segments id seg }
